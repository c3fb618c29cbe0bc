-- ===== src/Packstream/Markers.antt =====
-- The first byte of a byte form tells the type of the value.
use seabolt.Prelude.{
  ℕ, ◌+◌, ◌≤◌, ◌<◌, ◌≡◌, refl, Bool, true, false, List, [], ◌∷◌, ◌++◌, length, arith,
}
use seabolt.Prelude.Int.{ℤ, pos, negsuc, IsInt}
use seabolt.Values.{
  Value, null, boolean, integer, float, string, dictionary, list, bytes, structure, count,
  count_entries,
}
use seabolt.Packstream.Unload.{
  PackStreamType, null_type, boolean_type, integer_type, float_type, string_type, bytes_type,
  list_type, map_type, structure_type, marker_type,
}
use seabolt.Packstream.Encoding.{
  int_bytes, header, bytes_header, string_bytes, encode, encode_values, encode_entries, IsEncodable,
}

abbrev pub type_of : Value → PackStreamType
type_of null = null_type
type_of (boolean x) = boolean_type
type_of (integer x) = integer_type
type_of (float x) = float_type
type_of (string xs) = string_type
type_of (bytes xs) = bytes_type
type_of (dictionary es) = map_type
type_of (list xs) = list_type
type_of (structure code xs) = structure_type

-- A byte form is not empty, and its first byte tells the type.
abbrev pub Starts : PackStreamType → List ℕ → Type 0
Starts t [] = ⊥
Starts t (m ∷ zs) = marker_type m ≡ t

Starts-append : (t : PackStreamType) (xs ys : List ℕ) → Starts t xs → Starts t (xs ++ ys)
Starts-append t [] ys h = absurd h
Starts-append t (x ∷ xs) ys h = h

pub Starts-length : (t : PackStreamType) (xs : List ℕ) → Starts t xs → 1 ≤ length xs
Starts-length t [] h = absurd h
Starts-length t (x ∷ xs) h = omega arith

int_bytes-Starts : (x : ℤ) → IsInt 64 x → Starts integer_type (int_bytes x)
unfolding int_bytes marker_type
int_bytes-Starts (pos n) h = ground arith
int_bytes-Starts (negsuc n) h = ground arith

pub header-Starts :
    (t : PackStreamType) (tiny m8 m16 m32 n : ℕ)
    → (n < 0x10 → marker_type (tiny + n) ≡ t)
    → marker_type m8 ≡ t
    → marker_type m16 ≡ t
    → marker_type m32 ≡ t
    → Starts t (header tiny m8 m16 m32 n)
unfolding header
header-Starts t tiny m8 m16 m32 n p8 p16 p32 p = ground arith

tiny-type :
    (n : ℕ)
    → n < 0x10
    → (marker_type (0x80 + n) ≡ string_type)
      × (marker_type (0x90 + n) ≡ list_type)
      × (marker_type (0xA0 + n) ≡ map_type)
      × (marker_type (0xB0 + n) ≡ structure_type)
unfolding marker_type
tiny-type n h = (ground arith, ground arith, ground arith, ground arith)

pub encode-Starts :
    (check : ℤ → Bool) (x : Value) → IsEncodable check x → Starts (type_of x) (encode x)
unfolding encode string_bytes bytes_header marker_type
encode-Starts check null h = refl
encode-Starts check (boolean true) h = refl
encode-Starts check (boolean false) h = refl
encode-Starts check (integer x) h = int_bytes-Starts x h
encode-Starts check (float x) h = refl
encode-Starts check (string xs) h = Starts-append string_type _ xs (
    header-Starts string_type 0x80 0xD0 0xD1 0xD2 (length xs) (λ p. (tiny-type _ p).0) refl refl
      refl)
encode-Starts check (bytes xs) h =
    Starts-append bytes_type (bytes_header (length xs)) xs (ground arith)
encode-Starts check (dictionary es) h = Starts-append map_type _ (encode_entries es) (
    header-Starts map_type 0xA0 0xD8 0xD9 0xDA (count_entries es) (λ p. (tiny-type _ p).2) refl refl
      refl)
encode-Starts check (list xs) h =
    Starts-append list_type _ (encode_values xs) (
      header-Starts list_type 0x90 0xD4 0xD5 0xD6 (count xs) (λ p. (tiny-type _ p).1) refl refl
        refl)
encode-Starts check (structure code xs) h = (tiny-type (count xs) h.2).3
