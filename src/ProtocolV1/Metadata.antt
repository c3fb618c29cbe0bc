-- ===== src/ProtocolV1/Metadata.antt =====
-- v1.c, `BoltProtocolV1_extract_metadata`: what a summary's metadata leaves in the state.
use seabolt.Prelude.{
  ℕ, zero, suc, ◌+◌, Bool, false, ◌&&◌, Option, none, some, List, [], ◌∷◌, length, leb, ◌==◌,
  if◌then◌else◌,
}
use seabolt.Address.{c_string, same_text}
use seabolt.Values.{
  Value, Values, Entries, null, string, list, dictionary, nil, cons, end, entry, count,
  count_entries, format_as_null, format_as_string, format_as_list, format_as_dictionary, copy,
}
use seabolt.Connection.{Outcome, done, fault, ◌>>=◌}
use seabolt.ProtocolV1.Code
use seabolt.ProtocolV1.Session.{V1State, has_code}

-- `BoltString_equals`; `strncmp` stops at a NUL.
unfoldable pub string_equals : Value → List ℕ → Bool
unfolding same_text c_string
string_equals (string xs) text =
    (length xs == length text) && same_text (c_string xs) (c_string text)
string_equals _ text = false

-- The keys "bookmark", "fields", "server", "code" and "message".
abbrev pub bookmark_key : List ℕ
bookmark_key = 98 ∷ 111 ∷ 111 ∷ 107 ∷ 109 ∷ 97 ∷ 114 ∷ 107 ∷ []

abbrev pub fields_key : List ℕ
fields_key = 102 ∷ 105 ∷ 101 ∷ 108 ∷ 100 ∷ 115 ∷ []

abbrev pub server_key : List ℕ
server_key = 115 ∷ 101 ∷ 114 ∷ 118 ∷ 101 ∷ 114 ∷ []

abbrev pub code_key : List ℕ
code_key = 99 ∷ 111 ∷ 100 ∷ 101 ∷ []

abbrev pub message_key : List ℕ
message_key = 109 ∷ 101 ∷ 115 ∷ 115 ∷ 97 ∷ 103 ∷ 101 ∷ []

abbrev pub max_bookmark_size : ℕ
max_bookmark_size = 40

abbrev pub max_server_size : ℕ
max_server_size = 200

-- `memset` and `memcpy` into a block of `max` bytes: a longer text runs over its end.
unfoldable pub text_in : ℕ → List ℕ → Outcome (List ℕ)
text_in max xs = if leb (length xs) max then done xs else fault

-- The names of the fields: what is no text becomes null. The slots are the target's elements.
unfoldable pub name_fields : Values → Values → Values
unfolding format_as_string format_as_null
name_fields slots nil = slots
name_fields nil (cons x xs) = nil
name_fields (cons slot slots) (cons (string text) xs) =
    cons (format_as_string slot text) (name_fields slots xs)
name_fields (cons slot slots) (cons x xs) = cons (format_as_null slot) (name_fields slots xs)

-- `ensure_failure_data`.
unfoldable pub ensure_failure_data : Option Value → Value
ensure_failure_data none =
    dictionary (entry (string code_key) null (entry (string message_key) null end))
ensure_failure_data (some v) = v

-- The text becomes the value of the entry at an index; there are two entries.
unfoldable pub set_text : ℕ → List ℕ → Value → Outcome Value
unfolding format_as_string
set_text zero text (dictionary (entry k v es)) =
    done (dictionary (entry k (format_as_string v text) es))
set_text (suc zero) text (dictionary (entry k v (entry i w es))) =
    done (dictionary (entry k v (entry i (format_as_string w text) es)))
set_text _ text _ = fault

-- A copy of the key and the value in the last of the entries.
unfoldable pub set_last : Entries → Value → Value → Entries
set_last end k v = end
set_last (entry i w end) k v = entry (copy i k) (copy w v) end
set_last (entry i w (entry j x es)) k v = entry i w (set_last (entry j x es) k v)

-- The dictionary is made longer by one. The state holds a dictionary here.
unfoldable pub keep_metadata : Value → Value → Value → Outcome Value
unfolding format_as_dictionary set_last
keep_metadata (dictionary es) k v =
    done (dictionary (set_last (format_as_dictionary (dictionary es) (count_entries es + 1)) k v))
keep_metadata _ k v = fault

abbrev set_failure : ℕ → List ℕ → V1State → Outcome V1State
set_failure i text s = set_text i text (ensure_failure_data s.failure_data) >>= λ d.
    done (record s { failure_data = some d })

-- What each kind of key does with its value; a value of another type is passed over.
unfoldable pub take_bookmark : V1State → Value → Outcome V1State
unfolding text_in
take_bookmark s (string xs) =
    text_in max_bookmark_size xs >>= λ text. done (record s { last_bookmark = text })
take_bookmark s _ = done s

unfoldable pub take_fields : V1State → Value → Outcome V1State
unfolding name_fields format_as_list
take_fields s (list xs) =
    let slots = format_as_list s.result_field_names (count xs) in
    done (record s { result_field_names = list (name_fields slots xs) })
take_fields s _ = done s

unfoldable pub take_server : V1State → Value → Outcome V1State
unfolding text_in
take_server s (string xs) = text_in max_server_size xs >>= λ text. done (record s { server = text })
take_server s _ = done s

unfoldable pub take_failure : ℕ → V1State → Value → Outcome V1State
unfolding set_text ensure_failure_data
take_failure i s (string xs) = set_failure i xs s
take_failure i s _ = done s

unfoldable pub take_other : V1State → Value → Value → Outcome V1State
unfolding keep_metadata
take_other s k v =
    keep_metadata s.result_metadata k v >>= λ m. done (record s { result_metadata = m })

-- One round of the loop.
unfoldable pub extract_entry : V1State → Value → Value → Outcome V1State
unfolding string_equals take_bookmark take_fields take_server take_failure take_other
extract_entry s k v =
    let failed = has_code Code.failure s.data_type in
    if string_equals k bookmark_key
    then take_bookmark s v
    else if string_equals k fields_key
    then take_fields s v
    else if string_equals k server_key
    then take_server s v
    else if string_equals k code_key && failed
    then take_failure 0 s v
    else if string_equals k message_key && failed
    then take_failure 1 s v
    else take_other s k v

unfoldable pub extract_entries : V1State → Entries → Outcome V1State
unfolding extract_entry
extract_entries s end = done s
extract_entries s (entry k v es) = extract_entry s k v >>= λ r. extract_entries r es

unfoldable pub extract_metadata : V1State → Value → Outcome V1State
unfolding extract_entries
extract_metadata s (dictionary es) = extract_entries s es
extract_metadata s _ = done s
