-- ===== src/Packstream/Unload.antt =====
-- packstream.c, `marker_type` to `unload`: a value is read from the front of a buffer into a slot.
use seabolt.Prelude.{
  ℕ, zero, suc, ◌+◌, ◌%◌, Bool, Option, none, some, List, ltb, leb, ◌==◌, ◌&&◌, ◌||◌, if◌then◌else◌,
}
use seabolt.Prelude.Int.{ℤ, pos, negsuc, ◌-ℤ◌}
use seabolt.Buffer
use seabolt.Buffer.{Buffer}
use seabolt.Values.{
  Value, Values, Entries, list, dictionary, structure, nil, cons, end, entry, format_as_null,
  format_as_boolean, format_as_integer, format_as_float, format_as_string, format_as_bytes,
  format_as_list, format_as_dictionary, format_as_structure,
}
use seabolt.Packstream.Result.{Result, ok, err, fault, stuck, protocol_violation, unexpected_marker}

pub data PackStreamType : Type 0 where
  null_type boolean_type integer_type float_type string_type bytes_type list_type map_type
        structure_type reserved :
      PackStreamType

unfoldable pub within : ℕ → ℕ → ℕ → Bool
within lo hi m = leb lo m && leb m hi

unfoldable pub marker_type : ℕ → PackStreamType
unfolding within
marker_type m =
    if ltb m 0x80 || within 0xC8 0xCB m || leb 0xF0 m
    then integer_type
    else if within 0x80 0x8F m || within 0xD0 0xD2 m
    then string_type
    else if within 0x90 0x9F m || within 0xD4 0xD6 m
    then list_type
    else if within 0xA0 0xAF m || within 0xD8 0xDA m
    then map_type
    else if within 0xB0 0xBF m || within 0xDC 0xDD m
    then structure_type
    else if m == 0xC0
    then null_type
    else if m == 0xC1
    then float_type
    else if m == 0xC2 || m == 0xC3
    then boolean_type
    else if m == 0xCC || m == 0xCD || m == 0xCE
    then bytes_type
    else reserved

-- The buffer and the slot after a call.
abbrev pub Read : Type 0
Read = Result (Buffer × Value)

-- The result of a read is not tested: where it fails, the variable was never set.
abbrev pub reading {ℓ} :
    {A : Type 0} {B : Type ℓ} → Option (A × Buffer) → (A → Buffer → Result B) → Result B
reading none k = fault
reading (some (x, b)) k = k x b

unfoldable pub unload_null : Buffer → Value → Read
unload_null b slot =
    reading (Buffer.unload_u8 b)
      λ m c. if m == 0xC0 then ok (c, format_as_null slot) else err unexpected_marker (c, slot)

unfoldable pub unload_boolean : Buffer → Value → Read
unload_boolean b slot = reading (Buffer.unload_u8 b) λ m c.
    if m == 0xC3
    then ok (c, format_as_boolean slot 1)
    else if m == 0xC2
    then ok (c, format_as_boolean slot 0)
    else err unexpected_marker (c, slot)

unfoldable pub unload_integer : Buffer → Value → Read
unload_integer b slot = reading (Buffer.unload_u8 b) λ m c.
    if ltb m 0x80
    then ok (c, format_as_integer slot (pos m))
    else if leb 0xF0 m
    then ok (c, format_as_integer slot (pos m -ℤ pos 0x100))
    else if m == 0xC8
    then reading (Buffer.unload_i8 c) (λ x d. ok (d, format_as_integer slot x))
    else if m == 0xC9
    then reading (Buffer.unload_i16be c) (λ x d. ok (d, format_as_integer slot x))
    else if m == 0xCA
    then reading (Buffer.unload_i32be c) (λ x d. ok (d, format_as_integer slot x))
    else if m == 0xCB
    then reading (Buffer.unload_i64be c) (λ x d. ok (d, format_as_integer slot x))
    else err unexpected_marker (c, slot)

unfoldable pub unload_float : Buffer → Value → Read
unload_float b slot = reading (Buffer.unload_u8 b) λ m c.
    if m == 0xC1
    then reading (Buffer.unload_f64be c) (λ x d. ok (d, format_as_float slot x))
    else err unexpected_marker (c, slot)

-- The lengths behind a marker: an `uint8_t`, an `uint16_t` or an `int32_t`.
unfoldable pub wide_size : ℕ → ℕ → ℕ → ℕ → Buffer → Result (Buffer × ℤ)
wide_size m8 m16 m32 m c =
    if m == m8
    then reading (Buffer.unload_u8 c) (λ n d. ok (d, pos n))
    else if m == m16
    then reading (Buffer.unload_u16be c) (λ n d. ok (d, pos n))
    else if m == m32
    then reading (Buffer.unload_i32be c) (λ n d. ok (d, n))
    else err unexpected_marker (c, pos 0)

-- `marker & 0x0F` is the remainder by 16.
unfoldable pub read_size : ℕ → ℕ → ℕ → ℕ → ℕ → Buffer → Result (Buffer × ℤ)
unfolding wide_size within
read_size tiny m8 m16 m32 m c =
    if within tiny (tiny + 0x0F) m then ok (c, pos (m % 16)) else wide_size m8 m16 m32 m c

-- `BoltBuffer_unload(buffer, data, size)` with its result dropped. After a short read the slot's
-- bytes were never set; a negative size makes `memcpy` copy nearly all of memory.
unfoldable pub fill : (List ℕ → Value) → Value → Result (Buffer × ℤ) → Read
fill format slot (ok (c, pos n)) = elim (Buffer.unload c n) [
  | none ↦ fault
  | some (xs, d) ↦ ok (d, format xs)
]
fill format slot (ok (c, negsuc n)) = fault
fill format slot (err e (c, n)) = err e (c, slot)
fill format slot fault = fault
fill format slot stuck = stuck

unfoldable pub unload_string : Buffer → Value → Read
unfolding read_size fill
unload_string b slot =
    reading (Buffer.unload_u8 b)
      λ m c. fill (format_as_string slot) slot (read_size 0x80 0xD0 0xD1 0xD2 m c)

unfoldable pub unload_bytes : Buffer → Value → Read
unfolding wide_size fill
unload_bytes b slot =
    reading (Buffer.unload_u8 b)
      λ m c. fill (format_as_bytes slot) slot (wide_size 0xCC 0xCD 0xCE m c)

-- The test `size < 0` of the containers, then the rest of the function.
abbrev pub sized : Value → Result (Buffer × ℤ) → (Buffer → ℕ → Read) → Read
sized slot (ok (c, pos n)) k = k c n
sized slot (ok (c, negsuc n)) k = err protocol_violation (c, slot)
sized slot (err e (c, n)) k = err e (c, slot)
sized slot fault k = fault
sized slot stuck k = stuck

abbrev pub map_result {ℓ κ} : {A : Type ℓ} {B : Type κ} → (A → B) → Result A → Result B
map_result f (ok a) = ok (f a)
map_result f (err e a) = err e (f a)
map_result f fault = fault
map_result f stuck = stuck

-- `rec` is `unload`. The slots are the elements of the container, as it was formatted.
module _ (rec : Buffer → Value → Read) where
  unfoldable pub unload_values : Buffer → Values → Result (Buffer × Values)
  unload_values b nil = ok (b, nil)
  unload_values b (cons x xs) = elim (rec b x) [
    | ok (c, y) ↦ map_result (λ r. (r.0, cons y r.1)) (unload_values c xs)
    | err e (c, y) ↦ err e (c, cons y xs)
    | fault ↦ fault
    | stuck ↦ stuck
  ]

  unfoldable pub unload_list : Buffer → Value → Read
  unfolding read_size unload_values
  unload_list b slot = reading (Buffer.unload_u8 b) λ m c.
      sized slot (read_size 0x90 0xD4 0xD5 0xD6 m c)
        λ d n. map_result (λ r. (r.0, list r.1)) (unload_values d (format_as_list slot n))

  unfoldable pub unload_entries : Buffer → Entries → Result (Buffer × Entries)
  unload_entries b end = ok (b, end)
  unload_entries b (entry k v es) = elim (rec b k) [
    | ok (c, key) ↦ elim (rec c v) [
      | ok (d, y) ↦ map_result (λ r. (r.0, entry key y r.1)) (unload_entries d es)
      | err e (d, y) ↦ err e (d, entry key y es)
      | fault ↦ fault
      | stuck ↦ stuck
    ]
    | err e (c, key) ↦ err e (c, entry key v es)
    | fault ↦ fault
    | stuck ↦ stuck
  ]

  unfoldable pub unload_map : Buffer → Value → Read
  unfolding read_size unload_entries
  unload_map b slot = reading (Buffer.unload_u8 b) λ m c.
      sized slot (read_size 0xA0 0xD8 0xD9 0xDA m c) λ d n.
        map_result (λ r. (r.0, dictionary r.1)) (unload_entries d (format_as_dictionary slot n))

  -- The status of each field is dropped: the loop goes on behind a field that failed.
  unfoldable pub unload_fields : Buffer → Values → Result (Buffer × Values)
  unload_fields b nil = ok (b, nil)
  unload_fields b (cons x xs) = elim (rec b x) [
    | ok (c, y) ↦ map_result (λ r. (r.0, cons y r.1)) (unload_fields c xs)
    | err e (c, y) ↦ map_result (λ r. (r.0, cons y r.1)) (unload_fields c xs)
    | fault ↦ fault
    | stuck ↦ stuck
  ]

  unfoldable pub unload_structure : (ℤ → Bool) → Buffer → Value → Read
  unfolding within unload_fields
  unload_structure check b slot = reading (Buffer.unload_u8 b) λ m c.
      if within 0xB0 0xBF m
      then reading (Buffer.unload_i8 c) (λ code d.
        if check code
        then map_result (λ r. (r.0, structure code r.1))
            (unload_fields d (format_as_structure slot (m % 16)))
        else err unexpected_marker (d, slot))
      else err unexpected_marker (c, slot)

  -- The `switch` of `unload`.
  unfoldable pub unload_as : (ℤ → Bool) → PackStreamType → Buffer → Value → Read
  unfolding unload_null unload_boolean unload_integer unload_float unload_string unload_bytes
      unload_list unload_map unload_structure
  unload_as check null_type b slot = unload_null b slot
  unload_as check boolean_type b slot = unload_boolean b slot
  unload_as check integer_type b slot = unload_integer b slot
  unload_as check float_type b slot = unload_float b slot
  unload_as check string_type b slot = unload_string b slot
  unload_as check bytes_type b slot = unload_bytes b slot
  unload_as check list_type b slot = unload_list b slot
  unload_as check map_type b slot = unload_map b slot
  unload_as check structure_type b slot = unload_structure check b slot
  unload_as check reserved b slot = err unexpected_marker (b, slot)

-- `fuel` bounds the nesting; `Termination` shows that one more than the bytes at hand is enough.
unfoldable pub unload_within : (ℤ → Bool) → ℕ → Buffer → Value → Read
unfolding marker_type unload_as
unload_within check zero b slot = stuck
unload_within check (suc fuel) b slot = elim (Buffer.peek_u8 b) [
  | none ↦ fault
  | some m ↦ unload_as (unload_within check fuel) check (marker_type m) b slot
]

unfoldable pub unload : (ℤ → Bool) → Buffer → Value → Read
unfolding unload_within
unload check b slot = unload_within check (suc (Buffer.unloadable b)) b slot
