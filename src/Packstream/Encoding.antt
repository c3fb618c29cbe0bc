-- ===== src/Packstream/Encoding.antt =====
-- The byte form of a value, as the PackStream format lays it down: what `load` should write.
use Prim.Native.Nat.{◌^◌, ◌<◌}
use seabolt.Prelude.{
  ℕ, ◌+◌, ◌-◌, ◌≡◌, Bool, true, false, List, [], ◌∷◌, ◌++◌, length, ltb, if◌then◌else◌,
}
use seabolt.Prelude.Int.{ℤ, pos, negsuc, IsInt}
use seabolt.Mem.{be_bytes}
use seabolt.Values.{
  Value, Values, Entries, null, boolean, integer, float, string, dictionary, list, bytes, structure,
  nil, cons, end, entry, count, count_entries,
}

-- The shortest of the five forms; a negative number is in two's complement.
unfoldable pub int_bytes : ℤ → List ℕ
int_bytes (pos n) =
    if ltb n 0x80
    then n ∷ []
    else if ltb n (2 ^ 15)
    then 0xC9 ∷ be_bytes 2 n
    else if ltb n (2 ^ 31)
    then 0xCA ∷ be_bytes 4 n
    else 0xCB ∷ be_bytes 8 n
int_bytes (negsuc n) =
    if ltb n 0x10
    then (0xFF - n) ∷ []
    else if ltb n 0x80
    then 0xC8 ∷ (0xFF - n) ∷ []
    else if ltb n (2 ^ 15)
    then 0xC9 ∷ be_bytes 2 (2 ^ 16 - 1 - n)
    else if ltb n (2 ^ 31)
    then 0xCA ∷ be_bytes 4 (2 ^ 32 - 1 - n)
    else 0xCB ∷ be_bytes 8 (2 ^ 64 - 1 - n)

-- A length: in the marker itself, or behind it in one, two or four bytes.
unfoldable pub header : ℕ → ℕ → ℕ → ℕ → ℕ → List ℕ
header tiny m8 m16 m32 n =
    if ltb n 0x10
    then (tiny + n) ∷ []
    else if ltb n 0x100
    then m8 ∷ n ∷ []
    else if ltb n 0x10000
    then m16 ∷ be_bytes 2 n
    else m32 ∷ be_bytes 4 n

unfoldable pub bytes_header : ℕ → List ℕ
bytes_header n =
    if ltb n 0x100
    then 0xCC ∷ n ∷ []
    else if ltb n 0x10000
    then 0xCD ∷ be_bytes 2 n
    else 0xCE ∷ be_bytes 4 n

unfoldable pub string_bytes : List ℕ → List ℕ
string_bytes xs = header 0x80 0xD0 0xD1 0xD2 (length xs) ++ xs

unfoldable pub key_bytes : Value → List ℕ
unfolding string_bytes
key_bytes (string xs) = string_bytes xs
key_bytes k = []

abbrev pub boolean_marker : Bool → ℕ
boolean_marker true = 0xC3
boolean_marker false = 0xC2

abbrev pub code_byte : ℤ → ℕ
code_byte (pos c) = c
code_byte (negsuc c) = 0

unfoldable mutual
  pub encode : Value → List ℕ
  encode null = 0xC0 ∷ []
  encode (boolean x) = boolean_marker x ∷ []
  encode (integer x) = int_bytes x
  encode (float x) = 0xC1 ∷ be_bytes 8 x
  encode (string xs) = string_bytes xs
  encode (bytes xs) = bytes_header (length xs) ++ xs
  encode (dictionary es) = header 0xA0 0xD8 0xD9 0xDA (count_entries es) ++ encode_entries es
  encode (list xs) = header 0x90 0xD4 0xD5 0xD6 (count xs) ++ encode_values xs
  encode (structure code xs) = (0xB0 + count xs) ∷ code_byte code ∷ encode_values xs

  pub encode_values : Values → List ℕ
  encode_values nil = []
  encode_values (cons x xs) = encode x ++ encode_values xs

  pub encode_entries : Entries → List ℕ
  encode_entries end = []
  encode_entries (entry k v es) = key_bytes k ++ (encode v ++ encode_entries es)

abbrev pub IsKey : Value → Type 0
IsKey (string xs) = length xs < 2 ^ 31
IsKey _ = ⊥

abbrev pub IsCode : ℤ → Type 0
IsCode (pos c) = c < 0x80
IsCode (negsuc c) = ⊥

-- The values that have a byte form: the C fields hold their type's range, keys are strings, and a
-- structure has at most 15 fields and a code of seven bits that the protocol accepts.
abbrev mutual
  pub IsEncodable : (ℤ → Bool) → Value → Type 0
  IsEncodable check null = Unit {0}
  IsEncodable check (boolean x) = Unit {0}
  IsEncodable check (integer x) = IsInt 64 x
  IsEncodable check (float x) = x < 2 ^ 64
  IsEncodable check (string xs) = length xs < 2 ^ 31
  IsEncodable check (bytes xs) = length xs < 2 ^ 31
  IsEncodable check (dictionary es) = (count_entries es < 2 ^ 31) × AreEncodableEntries check es
  IsEncodable check (list xs) = (count xs < 2 ^ 31) × AreEncodable check xs
  IsEncodable check (structure code xs) =
      (check code ≡ true) × IsCode code × (count xs < 0x10) × AreEncodable check xs

  pub AreEncodable : (ℤ → Bool) → Values → Type 0
  AreEncodable check nil = Unit {0}
  AreEncodable check (cons x xs) = IsEncodable check x × AreEncodable check xs

  pub AreEncodableEntries : (ℤ → Bool) → Entries → Type 0
  AreEncodableEntries check end = Unit {0}
  AreEncodableEntries check (entry k v es) =
      IsKey k × IsEncodable check v × AreEncodableEntries check es
