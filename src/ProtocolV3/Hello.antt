-- ===== src/ProtocolV3/Hello.antt =====
-- v3.c: the HELLO message.
use seabolt.Prelude.{ℕ, ◌+◌, Bool, true, false, none, some, List, [], ◌∷◌}
use seabolt.Values.{
  Value, Entries, null, dictionary, count_entries, format_as_string, format_as_dictionary,
  copy_entries,
}
use seabolt.Connection.{Outcome, done, fault, ◌>>=◌}
use seabolt.RoutingTable.{Memory}
use seabolt.ProtocolV1.Requests.{set_key}
use seabolt.ProtocolV3.Dictionary.{change_value, clear_entry}

-- "credentials", "user_agent", and the mask "********".
abbrev pub credentials_key : List ℕ
credentials_key = 99 ∷ 114 ∷ 101 ∷ 100 ∷ 101 ∷ 110 ∷ 116 ∷ 105 ∷ 97 ∷ 108 ∷ 115 ∷ []

abbrev pub user_agent_key : List ℕ
user_agent_key = 117 ∷ 115 ∷ 101 ∷ 114 ∷ 95 ∷ 97 ∷ 103 ∷ 101 ∷ 110 ∷ 116 ∷ []

abbrev pub mask : List ℕ
mask = 42 ∷ 42 ∷ 42 ∷ 42 ∷ 42 ∷ 42 ∷ 42 ∷ 42 ∷ []

-- The last part of `BoltProtocolV3_compile_HELLO`, for the log only.
unfoldable pub mask_credentials : Memory → Entries → Bool → Entries
unfolding clear_entry format_as_string
mask_credentials m es false = es
mask_credentials m es true = clear_entry m es credentials_key (λ v. format_as_string v mask)

-- `BoltProtocolV3_compile_HELLO` on the parameter of the message, for an authentication token that
-- is a dictionary, and whether the credentials are masked.
unfoldable pub compile_hello : Memory → Value → List ℕ → Entries → Bool → Outcome Value
unfolding format_as_dictionary format_as_string set_key change_value mask_credentials
compile_hello m params user_agent token masked =
    let copied = copy_entries (format_as_dictionary params (count_entries token + 1)) token in
    elim (set_key copied (count_entries token) user_agent_key) [
      | none ↦ fault
      | some (v, named) ↦
          let es = change_value named (count_entries token) (λ w. format_as_string w user_agent) in
          done (dictionary (mask_credentials m es masked))
    ]

-- The message in `BoltProtocolV3_hello`: its parameter when it is logged, and when it is sent.
unfoldable pub hello_message : Memory → List ℕ → Entries → Outcome (Value × Value)
unfolding compile_hello
hello_message m user_agent token = compile_hello m null user_agent token true >>= λ logged.
    compile_hello m logged user_agent token false >>= λ sent. done (logged, sent)
