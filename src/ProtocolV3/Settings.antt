-- ===== src/ProtocolV3/Settings.antt =====
-- What the setters of a transaction's metadata do to the dictionary.
use seabolt.Prelude.{ℕ, ◌≡◌, Bool, true, false, Option, none, some, List}
use seabolt.Prelude.Int.{ℤ, pos, negsuc}
use seabolt.Error
use seabolt.Values.{Value, Entries, null, integer, string, list, dictionary, nil, end}
use seabolt.RoutingTable.{Memory, same_key, value_by_key}
use seabolt.Connection.{Outcome}
use seabolt.ProtocolV1.Requests.{bookmarks_key, all_strings}
use seabolt.ProtocolV3.Transactions.{
  tx_timeout_key, tx_metadata_key, mode_key, read_mode_value, AccessMode, write, read,
  all_text_keys, set_tx_bookmark, set_tx_timeout, set_tx_metadata, set_access_mode,
}
use seabolt.ProtocolV3.Assignment.{assign}

-- A setter with its argument; `none` is NULL.
pub data Setting : Type 0 where
  timeout : ℤ → Setting
  metadata : Option Value → Setting
  bookmarks : Option Value → Setting
  mode : AccessMode → Setting

abbrev pub key_of : Setting → List ℕ
key_of (timeout n) = tx_timeout_key
key_of (metadata v) = tx_metadata_key
key_of (bookmarks v) = bookmarks_key
key_of (mode a) = mode_key

abbrev pub is_accepted : Setting → Bool
is_accepted (metadata (some (dictionary es))) = all_text_keys es
is_accepted (metadata (some _)) = false
is_accepted (bookmarks (some (list xs))) = all_strings xs
is_accepted (bookmarks (some _)) = false
is_accepted _ = true

-- The value that is written whether the key was there or not.
abbrev pub puts : Setting → Option Value
puts (timeout (pos n)) = some (integer (pos n))
puts (timeout (negsuc n)) = none
puts (metadata v) = v
puts (bookmarks v) = v
puts (mode read) = some (string read_mode_value)
puts (mode write) = none

-- A value that was there is replaced.
abbrev pub emptied : Value → Option Value → Option Value
emptied v none = none
emptied v (some w) = some v

-- What is found under the key afterwards, from what was found before: WRITE changes nothing.
abbrev pub expected : Setting → Option Value → Option Value
expected (timeout (pos n)) old = some (integer (pos n))
expected (timeout (negsuc n)) old = emptied null old
expected (metadata none) old = emptied (dictionary end) old
expected (metadata (some v)) old = some v
expected (bookmarks none) old = emptied (list nil) old
expected (bookmarks (some v)) old = some v
expected (mode read) old = some (string read_mode_value)
expected (mode write) old = old

unfoldable pub set : Memory → Entries → Setting → Outcome (ℕ × Entries)
unfolding set_tx_timeout set_tx_metadata set_tx_bookmark set_access_mode
set m es (timeout n) = set_tx_timeout m es n
set m es (metadata v) = set_tx_metadata m es v
set m es (bookmarks v) = set_tx_bookmark m es v
set m es (mode a) = set_access_mode m es a

pub record Sets (m : Memory) (es : Entries) (s : Setting) (r : ℕ × Entries) : Type 0 where
  pub code : r.0 ≡ Error.success
  pub written : (v : Value) → puts s ≡ some v → r.1 ≡ assign m es (key_of s) v
  pub found : value_by_key m r.1 (key_of s) ≡ expected s (value_by_key m es (key_of s))
  pub kept :
      (other : List ℕ)
      → same_key (key_of s) other ≡ false
      → value_by_key m r.1 other ≡ value_by_key m es other

-- What a setter returns and leaves.
abbrev pub Answers : Memory → Entries → Setting → ℕ × Entries → Type 0
Answers m es s r =
    (is_accepted s ≡ true → Sets m es s r)
    × (is_accepted s ≡ false → r ≡ (Error.protocol_violation, es))
