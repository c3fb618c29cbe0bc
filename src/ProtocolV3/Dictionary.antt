-- ===== src/ProtocolV3/Dictionary.antt =====
-- values.c and v3.c: an entry of a dictionary is found by its key, made where it is missing, and gets
-- a value.
use seabolt.Prelude.{ℕ, zero, suc, ◌+◌, Option, none, some, List, if◌then◌else◌}
use seabolt.Values.{Value, Entries, dictionary, end, entry, count_entries, format_as_dictionary}
use seabolt.RoutingTable.{Memory, same_key, key_view}
use seabolt.Connection.{Outcome, done, fault}
use seabolt.ProtocolV1.Requests.{set_key}

-- `BoltDictionary_get_key_index` from the first entry on; `none` is -1.
unfoldable pub key_index : Memory → Entries → List ℕ → Option ℕ
key_index m end key = none
key_index m (entry k v es) key =
    let later = key_index m es key in
    if same_key (key_view m k) key
    then some 0
    else (elim later [ none ↦ none | some i ↦ some (suc i) ])

-- A write through the pointer that `BoltDictionary_value` gives.
unfoldable pub change_value : Entries → ℕ → (Value → Value) → Entries
change_value end i f = end
change_value (entry k v es) zero f = entry k (f v) es
change_value (entry k v es) (suc i) f = entry k v (change_value es i f)

-- One entry more, with a key.
unfoldable pub add_key : Entries → List ℕ → Option (Value × Entries)
unfolding format_as_dictionary set_key
add_key es key =
    set_key (format_as_dictionary (dictionary es) (count_entries es + 1)) (count_entries es) key

-- The value under a key is written; a missing entry is made behind the others.
unfoldable pub set_entry : Memory → Entries → List ℕ → (Value → Value) → Outcome Entries
unfolding key_index change_value add_key
set_entry m es key f = elim (key_index m es key) [
  | some i ↦ done (change_value es i f)
  | none ↦ elim (add_key es key) [
    | none ↦ fault
    | some (v, fs) ↦ done (change_value fs (count_entries es) f)
  ]
]

-- The value under a key is written if there is one.
unfoldable pub clear_entry : Memory → Entries → List ℕ → (Value → Value) → Entries
unfolding key_index change_value
clear_entry m es key f = elim (key_index m es key) [ none ↦ es | some i ↦ change_value es i f ]
