-- ===== src/Examples/Version3.antt =====
-- Metadata of a transaction, and a greeting.
use seabolt.Prelude.{ℕ, some, List, [], ◌∷◌}
use seabolt.Prelude.Int.{pos}
use seabolt.Values.{Entries, string, list, integer, nil, cons, end, entry}
use seabolt.RoutingTable.{Memory}
use seabolt.Connection.{Ends}
use seabolt.ProtocolV3.Transactions.{tx_timeout_key}
use seabolt.ProtocolV3.Settings.{Setting, bookmarks}
use seabolt.ProtocolV3.Hello.{credentials_key, hello_message}
use seabolt.ProtocolV3.Greeting.{Greets, hello_message-Greets}

abbrev memory : Memory
memory = record { behind = λ xs. 0 ∷ []; raw = λ v. [] }

-- A timeout was set before.
abbrev timed : Entries
timed = entry (string tx_timeout_key) (integer (pos 5)) end

abbrev some_bookmarks : Setting
some_bookmarks = bookmarks (some (list (cons (string (98 ∷ 49 ∷ [])) nil)))

-- The scheme "none" and a secret.
abbrev token : Entries
token =
    entry (string (115 ∷ 99 ∷ 104 ∷ 101 ∷ 109 ∷ 101 ∷ [])) (string (110 ∷ 111 ∷ 110 ∷ 101 ∷ []))
      (entry (string credentials_key) (string (115 ∷ 51 ∷ [])) end)

abbrev agent : List ℕ
agent = 97 ∷ 47 ∷ 49 ∷ []

hello_message-Greets_example :
    Ends
      (hello_message memory agent token)
      (λ (logged, sent). Greets memory agent token logged sent)
hello_message-Greets_example = hello_message-Greets memory agent token
