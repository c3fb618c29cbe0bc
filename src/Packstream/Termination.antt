-- ===== src/Packstream/Termination.antt =====
-- `unload` ends: no input makes the model run out of fuel.
use seabolt.Prelude.{
  ℕ, zero, suc, ◌%◌, ◌≤◌, ◌<◌, ◌≢◌, refl, Bool, Option-cases, inl, inr, if◌then◌else◌, arith,
}
use seabolt.Prelude.Int.{ℤ}
use seabolt.Buffer
use seabolt.Buffer.{Buffer}
use seabolt.Values.{
  Value, Values, Entries, list, dictionary, structure, nil, cons, end, entry, format_as_structure,
  format_as_string, format_as_bytes,
}
use seabolt.Packstream.Result.{Result, ok, err, fault, stuck, unexpected_marker}
use seabolt.Packstream.Unload.{
  PackStreamType, null_type, boolean_type, integer_type, float_type, string_type, bytes_type,
  list_type, map_type, structure_type, reserved, marker_type, within, Read, map_result,
  unload_values, unload_list, unload_string, unload_bytes, unload_entries, unload_map,
  unload_fields, unload_structure, unload_as, unload_within, unload,
}
use seabolt.Packstream.Settles.{
  Settles-mono, Covers, Settles, fill-Settles, map_result-Settles, marker-Settles,
  read_size-Settles, reading-Settles, sized-Settles, unload_boolean-Settles, unload_float-Settles,
  unload_i8-Shorter, unload_integer-Settles, unload_null-Settles, wide_size-Settles,
}

-- One turn of each loop.
module _ (n : ℕ) (rec : Buffer → Value → Read) where
  values_turn :
      (xs : Values) (r : Read)
      → Settles n r
      → ((c : Buffer)
          → Buffer.unloadable c ≤ n
          → Settles (Buffer.unloadable c) (unload_values rec c xs))
      → Settles n (elim r [
        | ok (c, y) ↦ map_result (λ p. (p.0, cons y p.1)) (unload_values rec c xs)
        | err e (c, y) ↦ err e (c, cons y xs)
        | fault ↦ fault
        | stuck ↦ stuck
      ])
  values_turn xs (ok (c, y)) s next =
      map_result-Settles (cons y) n (unload_values rec c xs) (Settles-mono _ n _ s (next c s))
  values_turn xs (err e (c, y)) s next = s
  values_turn xs fault s next = s
  values_turn xs stuck s next = s

  fields_turn :
      (xs : Values) (r : Read)
      → Settles n r
      → ((c : Buffer)
          → Buffer.unloadable c ≤ n
          → Settles (Buffer.unloadable c) (unload_fields rec c xs))
      → Settles n (elim r [
        | ok (c, y) ↦ map_result (λ p. (p.0, cons y p.1)) (unload_fields rec c xs)
        | err e (c, y) ↦ map_result (λ p. (p.0, cons y p.1)) (unload_fields rec c xs)
        | fault ↦ fault
        | stuck ↦ stuck
      ])
  fields_turn xs (ok (c, y)) s next =
      map_result-Settles (cons y) n (unload_fields rec c xs) (Settles-mono _ n _ s (next c s))
  fields_turn xs (err e (c, y)) s next =
      map_result-Settles (cons y) n (unload_fields rec c xs) (Settles-mono _ n _ s (next c s))
  fields_turn xs fault s next = s
  fields_turn xs stuck s next = s

  value_turn :
      (key : Value) (es : Entries) (r : Read)
      → Settles n r
      → ((c : Buffer)
          → Buffer.unloadable c ≤ n
          → Settles (Buffer.unloadable c) (unload_entries rec c es))
      → Settles n (elim r [
        | ok (d, y) ↦ map_result (λ p. (p.0, entry key y p.1)) (unload_entries rec d es)
        | err e (d, y) ↦ err e (d, entry key y es)
        | fault ↦ fault
        | stuck ↦ stuck
      ])
  value_turn key es (ok (d, y)) s next =
      map_result-Settles (entry key y) n (unload_entries rec d es) (Settles-mono _ n _ s (next d s))
  value_turn key es (err e (d, y)) s next = s
  value_turn key es fault s next = s
  value_turn key es stuck s next = s

  entries_turn :
      (slot : Value) (es : Entries) (r : Read)
      → Settles n r
      → ((c : Buffer) → Buffer.unloadable c ≤ n → Settles (Buffer.unloadable c) (rec c slot))
      → ((c : Buffer)
          → Buffer.unloadable c ≤ n
          → Settles (Buffer.unloadable c) (unload_entries rec c es))
      → Settles n (elim r [
        | ok (c, key) ↦ elim (rec c slot) [
          | ok (d, y) ↦ map_result (λ p. (p.0, entry key y p.1)) (unload_entries rec d es)
          | err e (d, y) ↦ err e (d, entry key y es)
          | fault ↦ fault
          | stuck ↦ stuck
        ]
        | err e (c, key) ↦ err e (c, entry key slot es)
        | fault ↦ fault
        | stuck ↦ stuck
      ])
  entries_turn slot es (ok (c, key)) s next more =
      value_turn key es (rec c slot) (Settles-mono _ n _ s (next c s)) more
  entries_turn slot es (err e (c, key)) s next more = s
  entries_turn slot es fault s next more = s
  entries_turn slot es stuck s next more = s

module _ (fuel : ℕ) (rec : Buffer → Value → Read) (covers : Covers fuel rec) where
  unload_values-Settles :
      (b : Buffer) (xs : Values)
      → Buffer.unloadable b < fuel
      → Settles (Buffer.unloadable b) (unload_values rec b xs)
  unfolding unload_values
  unload_values-Settles b nil h = omega arith
  unload_values-Settles b (cons x xs) h =
      values_turn (Buffer.unloadable b) rec xs (rec b x) (covers b x h)
        (λ c s. unload_values-Settles c xs (omega arith))

  unload_fields-Settles :
      (b : Buffer) (xs : Values)
      → Buffer.unloadable b < fuel
      → Settles (Buffer.unloadable b) (unload_fields rec b xs)
  unfolding unload_fields
  unload_fields-Settles b nil h = omega arith
  unload_fields-Settles b (cons x xs) h =
      fields_turn (Buffer.unloadable b) rec xs (rec b x) (covers b x h)
        (λ c s. unload_fields-Settles c xs (omega arith))

  unload_entries-Settles :
      (b : Buffer) (es : Entries)
      → Buffer.unloadable b < fuel
      → Settles (Buffer.unloadable b) (unload_entries rec b es)
  unfolding unload_entries
  unload_entries-Settles b end h = omega arith
  unload_entries-Settles b (entry k v es) h =
      entries_turn (Buffer.unloadable b) rec v es (rec b k) (covers b k h)
        (λ c s. covers c v (omega arith)) (λ c s. unload_entries-Settles c es (omega arith))

  module _ (b : Buffer) (slot : Value) (h : Buffer.unloadable b < suc fuel) where
    unload_list-Settles : Settles (Buffer.unloadable b) (unload_list rec b slot)
    unfolding unload_list
    unload_list-Settles = marker-Settles b slot _ _ λ m c s.
        Settles-mono (Buffer.unloadable c) (Buffer.unloadable b) _ (omega arith) (
          sized-Settles slot (Buffer.unloadable c) _ _ (read_size-Settles c 0x90 0xD4 0xD5 0xD6 m)
            (λ d n t.
              map_result-Settles list (Buffer.unloadable c) _
                (Settles-mono _ _ _ t (unload_values-Settles d _ (omega arith)))))

    unload_map-Settles : Settles (Buffer.unloadable b) (unload_map rec b slot)
    unfolding unload_map
    unload_map-Settles = marker-Settles b slot _ _ λ m c s.
        Settles-mono (Buffer.unloadable c) (Buffer.unloadable b) _ (omega arith) (
          sized-Settles slot (Buffer.unloadable c) _ _ (read_size-Settles c 0xA0 0xD8 0xD9 0xDA m)
            (λ d n t.
              map_result-Settles dictionary (Buffer.unloadable c) _
                (Settles-mono _ _ _ t (unload_entries-Settles d _ (omega arith)))))

    structure_body-Settles :
        (check : ℤ → Bool) (n : ℕ) (code : ℤ) (d : Buffer)
        → Buffer.unloadable d < Buffer.unloadable b
        → Settles (Buffer.unloadable b) (
            if check code
            then map_result
                (λ r. (r.0, structure code r.1))
                (unload_fields rec d (format_as_structure slot n))
            else err unexpected_marker (d, slot))
    structure_body-Settles check n code d s =
        let slots = format_as_structure slot n in
        let fields = unload_fields-Settles d slots (omega arith) in
        let all =
          Settles-mono _ (Buffer.unloadable b) (unload_fields rec d slots) (omega arith) fields in
        ground (arith, map_result-Settles (structure code) (Buffer.unloadable b) _ all)

    unload_structure-Settles :
        (check : ℤ → Bool) → Settles (Buffer.unloadable b) (unload_structure rec check b slot)
    unfolding unload_structure within
    unload_structure-Settles check = marker-Settles b slot _ _ λ m c s. ground (
      arith,
      reading-Settles (suc (Buffer.unloadable c)) (Buffer.unloadable b) (Buffer.unload_i8 c) _
          (unload_i8-Shorter c)
          (λ code d t. structure_body-Settles check (m % 16) code d (omega arith)),
    )

    unload_as-Settles :
        (check : ℤ → Bool) (t : PackStreamType)
        → Settles (Buffer.unloadable b) (unload_as rec check t b slot)
    unfolding unload_as unload_string unload_bytes
    unload_as-Settles check null_type = unload_null-Settles b slot
    unload_as-Settles check boolean_type = unload_boolean-Settles b slot
    unload_as-Settles check integer_type = unload_integer-Settles b slot
    unload_as-Settles check float_type = unload_float-Settles b slot
    unload_as-Settles check string_type = marker-Settles b slot _ _ λ m c s.
        Settles-mono (Buffer.unloadable c) _ _ (omega arith) (
          fill-Settles (format_as_string slot) slot (Buffer.unloadable c) _
            (read_size-Settles c 0x80 0xD0 0xD1 0xD2 m))
    unload_as-Settles check bytes_type = marker-Settles b slot _ _ λ m c s.
        Settles-mono (Buffer.unloadable c) _ _ (omega arith) (
          fill-Settles (format_as_bytes slot) slot (Buffer.unloadable c) _
            (wide_size-Settles c 0xCC 0xCD 0xCE m))
    unload_as-Settles check list_type = unload_list-Settles
    unload_as-Settles check map_type = unload_map-Settles
    unload_as-Settles check structure_type = unload_structure-Settles check
    unload_as-Settles check reserved = omega arith

unload_within-Settles :
    (check : ℤ → Bool) (fuel : ℕ) (b : Buffer) (slot : Value)
    → Buffer.unloadable b < fuel
    → Settles (Buffer.unloadable b) (unload_within check fuel b slot)
unfolding unload_within
unload_within-Settles check zero b slot h = absurd (omega arith)
unload_within-Settles check (suc fuel) b slot h = elim (Option-cases (Buffer.peek_u8 b)) [
  | inl e ↦ rw (unload_within, e) tt
  | inr (m, e) ↦
      rw (unload_within, e)
        (unload_as-Settles fuel (unload_within check fuel) (unload_within-Settles check fuel) b slot
          h check (marker_type m))
]

-- The call returns a status, and at most `n` bytes are left.
abbrev pub Returns : {A : Type 0} → ℕ → Result (Buffer × A) → Type 0
Returns n (ok (c, x)) = Buffer.unloadable c ≤ n
Returns n (err _ (c, x)) = Buffer.unloadable c ≤ n
Returns n fault = ⊥
Returns n stuck = ⊥

settled-Returns :
    {A : Type 0} (n : ℕ) (r : Result (Buffer × A)) → Settles n r → r ≢ fault → Returns n r
settled-Returns n (ok (c, x)) s h = s
settled-Returns n (err e (c, x)) s h = s
settled-Returns n fault s h = h refl
settled-Returns n stuck s h = s

-- If no read of the call goes past the end of the buffer, takes a negative size or fails an assertion,
-- `unload` returns, with success or with an error code, whatever the bytes are, and leaves no more of
-- them than there were. Nothing is said of a call with such a read, behind which the C code goes on
-- with what was never set.
pub unload-Settles :
    (check : ℤ → Bool) (b : Buffer) (slot : Value)
    → unload check b slot ≢ fault
    → Returns (Buffer.unloadable b) (unload check b slot)
unfolding unload
unload-Settles check b slot defined =
    settled-Returns (Buffer.unloadable b) (unload check b slot)
      (unload_within-Settles check (suc (Buffer.unloadable b)) b slot (omega arith)) defined
