-- ===== src/ProtocolV3/Transactions.antt =====
-- v3.c: the metadata of a transaction, a dictionary in the BEGIN and the RUN request.
use seabolt.Prelude.{ℕ, Bool, true, false, Option, none, some, List, [], ◌∷◌, if◌then◌else◌}
use seabolt.Prelude.Int.{ℤ, pos, negsuc}
use seabolt.Error
use seabolt.Values.{
  Value, Entries, string, list, dictionary, end, entry, format_as_null, format_as_integer,
  format_as_string, format_as_list, format_as_dictionary, copy,
}
use seabolt.Protocol.{Message, message_param}
use seabolt.Connection.{Outcome, done, fault, ◌>>=◌}
use seabolt.RoutingTable.{Memory}
use seabolt.ProtocolV1.Session.{set_param}
use seabolt.ProtocolV1.Requests.{bookmarks_key, all_strings}
use seabolt.ProtocolV3.Dictionary.{set_entry, clear_entry}

-- "tx_timeout", "tx_metadata", "mode", and "r", the mode for reading.
abbrev pub tx_timeout_key : List ℕ
tx_timeout_key = 116 ∷ 120 ∷ 95 ∷ 116 ∷ 105 ∷ 109 ∷ 101 ∷ 111 ∷ 117 ∷ 116 ∷ []

abbrev pub tx_metadata_key : List ℕ
tx_metadata_key = 116 ∷ 120 ∷ 95 ∷ 109 ∷ 101 ∷ 116 ∷ 97 ∷ 100 ∷ 97 ∷ 116 ∷ 97 ∷ []

abbrev pub mode_key : List ℕ
mode_key = 109 ∷ 111 ∷ 100 ∷ 101 ∷ []

abbrev pub read_mode_value : List ℕ
read_mode_value = 114 ∷ []

-- `BoltAccessMode`.
pub data AccessMode : Type 0 where
  write read : AccessMode

abbrev succeed : Entries → Outcome (ℕ × Entries)
succeed es = done (Error.success, es)

-- `_set_tx_bookmark`; `none` is NULL.
unfoldable pub set_tx_bookmark : Memory → Entries → Option Value → Outcome (ℕ × Entries)
unfolding set_entry clear_entry all_strings format_as_list
set_tx_bookmark m es none =
    succeed (clear_entry m es bookmarks_key (λ v. list (format_as_list v 0)))
set_tx_bookmark m es (some (list xs)) =
    let set = set_entry m es bookmarks_key (λ v. copy v (list xs)) >>= succeed in
    if all_strings xs then set else done (Error.protocol_violation, es)
set_tx_bookmark m es (some _) = done (Error.protocol_violation, es)

-- `_set_tx_timeout`
unfoldable pub set_tx_timeout : Memory → Entries → ℤ → Outcome (ℕ × Entries)
unfolding set_entry clear_entry format_as_null format_as_integer
set_tx_timeout m es (negsuc n) = succeed (clear_entry m es tx_timeout_key format_as_null)
set_tx_timeout m es (pos n) =
    set_entry m es tx_timeout_key (λ v. format_as_integer v (pos n)) >>= succeed

-- The loop over the keys of the metadata.
unfoldable pub all_text_keys : Entries → Bool
all_text_keys end = true
all_text_keys (entry (string k) v es) = all_text_keys es
all_text_keys (entry _ v es) = false

-- `_set_tx_metadata`; `none` is NULL.
unfoldable pub set_tx_metadata : Memory → Entries → Option Value → Outcome (ℕ × Entries)
unfolding set_entry clear_entry all_text_keys format_as_dictionary
set_tx_metadata m es none =
    succeed (clear_entry m es tx_metadata_key (λ v. dictionary (format_as_dictionary v 0)))
set_tx_metadata m es (some (dictionary fs)) =
    let set = set_entry m es tx_metadata_key (λ v. copy v (dictionary fs)) >>= succeed in
    if all_text_keys fs then set else done (Error.protocol_violation, es)
set_tx_metadata m es (some _) = done (Error.protocol_violation, es)

-- `_set_access_mode`
unfoldable pub set_access_mode : Memory → Entries → AccessMode → Outcome (ℕ × Entries)
unfolding set_entry format_as_string
set_access_mode m es write = succeed es
set_access_mode m es read =
    set_entry m es mode_key (λ v. format_as_string v read_mode_value) >>= succeed

-- `_clear_begin_tx`
unfoldable pub clear_begin_tx : Message → Message
unfolding format_as_dictionary
clear_begin_tx request = set_param request 0 (λ v. dictionary (format_as_dictionary v 0))

-- `_clear_run`
unfoldable pub clear_run : Message → Message
unfolding format_as_string format_as_dictionary
clear_run request =
    let statement = set_param request 0 (λ v. format_as_string v []) in
    let params = set_param statement 1 (λ v. dictionary (format_as_dictionary v 0)) in
    set_param params 2 (λ v. dictionary (format_as_dictionary v 0))

-- A setter on the metadata, the parameter at an index of a request. The lookup asserts that it is a
-- dictionary.
abbrev on_metadata : Message → ℕ → (Entries → Outcome (ℕ × Entries)) → Outcome (ℕ × Message)
on_metadata request i set = elim (message_param request i) [
  | some (dictionary es) ↦
      set es >>= λ (code, fs). done (code, set_param request i (λ v. dictionary fs))
  | _ ↦ fault
]

unfoldable pub set_begin_tx_bookmark : Memory → Message → Option Value → Outcome (ℕ × Message)
unfolding set_tx_bookmark message_param
set_begin_tx_bookmark m request v = on_metadata request 0 (λ es. set_tx_bookmark m es v)

unfoldable pub set_begin_tx_timeout : Memory → Message → ℤ → Outcome (ℕ × Message)
unfolding set_tx_timeout message_param
set_begin_tx_timeout m request n = on_metadata request 0 (λ es. set_tx_timeout m es n)

unfoldable pub set_begin_tx_metadata : Memory → Message → Option Value → Outcome (ℕ × Message)
unfolding set_tx_metadata message_param
set_begin_tx_metadata m request v = on_metadata request 0 (λ es. set_tx_metadata m es v)

unfoldable pub set_run_bookmark : Memory → Message → Option Value → Outcome (ℕ × Message)
unfolding set_tx_bookmark message_param
set_run_bookmark m request v = on_metadata request 2 (λ es. set_tx_bookmark m es v)

unfoldable pub set_run_tx_timeout : Memory → Message → ℤ → Outcome (ℕ × Message)
unfolding set_tx_timeout message_param
set_run_tx_timeout m request n = on_metadata request 2 (λ es. set_tx_timeout m es n)

unfoldable pub set_run_tx_metadata : Memory → Message → Option Value → Outcome (ℕ × Message)
unfolding set_tx_metadata message_param
set_run_tx_metadata m request v = on_metadata request 2 (λ es. set_tx_metadata m es v)
