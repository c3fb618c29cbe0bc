-- ===== src/Packstream/RoundTrip.antt =====
-- `unload` reads back what `load` wrote, at every depth.
use seabolt.Prelude.{
  ℕ, zero, suc, ◌≤◌, ◌≡◌, refl, ap, sym, ◌∙◌, Bool, List, [], ◌∷◌, ◌++◌, append-nil, append_assoc,
  length, length-append, arith,
}
use seabolt.Prelude.Int.{ℤ}
use seabolt.Buffer
use seabolt.Buffer.{Buffer}
use seabolt.Buffer.Contents.{IsValid, contents, length-contents}
use seabolt.Buffer.Reads.{peek_u8_first}
use seabolt.Values.{
  Value, Values, Entries, null, boolean, integer, float, string, dictionary, list, bytes, structure,
  nil, cons, end, entry, count, count_entries,
}
use seabolt.Values.Copy.{
  count-format_as_list, count-format_as_structure, count_entries-format_as_dictionary,
}
use seabolt.Packstream.Result.{Result, ok, err, fault, stuck}
use seabolt.Packstream.Unload.{
  unload_values, unload_entries, unload_fields, unload_as, unload_within, unload,
}
use seabolt.Packstream.Encoding.{
  header, key_bytes, encode, encode_values, encode_entries, IsKey, IsEncodable, AreEncodable,
  AreEncodableEntries,
}
use seabolt.Packstream.Markers.{type_of, Starts, Starts-length, encode-Starts}
use seabolt.Packstream.Load.{load}
use seabolt.Packstream.Writes.{Adds, Writes, load-Writes}
use seabolt.Packstream.Containers.{
  values_turn, fields_turn, entries_turn, unload_list-Parses, unload_map-Parses,
  unload_structure-Parses,
}
use seabolt.Packstream.Parses.{
  Parses, unload_null-Parses, unload_boolean-Parses, unload_integer-Parses, unload_float-Parses,
}
use seabolt.Packstream.Sizes.{unload_string-Parses, unload_bytes-Parses}

-- The key of an encodable entry is written as the string that it is.
key_encodes :
    (check : ℤ → Bool) (k : Value) → IsKey k → IsEncodable check k × (key_bytes k ≡ encode k)
unfolding key_bytes encode
key_encodes check (string xs) h = (h, refl)
key_encodes check _ h = absurd h

behind_header :
    (tiny m8 m16 m32 n : ℕ) (xs : List ℕ)
    → suc (length xs) ≤ length (header tiny m8 m16 m32 n ++ xs)
unfolding header
behind_header tiny m8 m16 m32 n xs =
    omega (arith, length-append (header tiny m8 m16 m32 n) xs, header_length)
  where
    header_length : 1 ≤ length (header tiny m8 m16 m32 n)
    header_length = ground arith

regroup : (ws xs ys zs : List ℕ) → (ws ++ (xs ++ ys)) ++ zs ≡ ws ++ (xs ++ (ys ++ zs))
regroup ws xs ys zs = simp append_assoc

module _ (check : ℤ → Bool) where
  -- `unload` peeks at the marker and runs the case of its type.
  dispatch :
      {b : Buffer} (v : IsValid b) (fuel : ℕ) (x slot : Value) (rest : List ℕ)
      → IsEncodable check x
      → contents b ≡ encode x ++ rest
      → Parses x rest (unload_as (unload_within check fuel) check (type_of x) b slot)
      → Parses x rest (unload_within check (suc fuel) b slot)
  unfolding unload_within
  dispatch {b} v fuel x slot rest h e p = go (encode x) (encode-Starts check x h) e
    where
      go :
          (xs : List ℕ)
          → Starts (type_of x) xs
          → contents b ≡ xs ++ rest
          → Parses x rest (unload_within check (suc fuel) b slot)
      go [] s q = absurd s
      go (m ∷ zs) s q = rw (peek_u8_first v q, unload_within, s) p

  mutual
    unfolding unload_as encode unload_values unload_entries unload_fields

    reads :
        {b : Buffer} (v : IsValid b) (fuel : ℕ) (x slot : Value) (rest : List ℕ)
        → IsEncodable check x
        → contents b ≡ encode x ++ rest
        → length (encode x) ≤ fuel
        → Parses x rest (unload_within check fuel b slot)
    reads v zero x slot rest h e f =
        absurd (omega (arith, Starts-length (type_of x) (encode x) (encode-Starts check x h)))
    reads v (suc fuel) null slot rest h e f =
        dispatch v fuel null slot rest h e (unload_null-Parses v slot rest e)
    reads v (suc fuel) (boolean x) slot rest h e f =
        dispatch v fuel (boolean x) slot rest h e (unload_boolean-Parses v slot rest x e)
    reads v (suc fuel) (integer x) slot rest h e f =
        dispatch v fuel (integer x) slot rest h e (unload_integer-Parses v slot rest x h e)
    reads v (suc fuel) (float x) slot rest h e f =
        dispatch v fuel (float x) slot rest h e (unload_float-Parses v slot rest x h e)
    reads v (suc fuel) (string xs) slot rest h e f =
        dispatch v fuel (string xs) slot rest h e (unload_string-Parses v slot xs rest h e)
    reads v (suc fuel) (bytes xs) slot rest h e f =
        dispatch v fuel (bytes xs) slot rest h e (unload_bytes-Parses v slot xs rest h e)
    reads v (suc fuel) (dictionary es) slot rest h e f =
        let head = header 0xA0 0xD8 0xD9 0xDA (count_entries es) in
        let n = count_entries-format_as_dictionary slot (count_entries es) in
        dispatch v fuel (dictionary es) slot rest h e (
          unload_map-Parses (unload_within check fuel) v slot (encode_entries es ++ rest) rest es
            h.0 (e ∙ append_assoc head (encode_entries es) rest)
            (λ c w q. reads_entries w fuel es _ rest h.1 n q (
              omega
                (arith, behind_header 0xA0 0xD8 0xD9 0xDA (count_entries es) (encode_entries es)))))
    reads v (suc fuel) (list xs) slot rest h e f =
        let head = header 0x90 0xD4 0xD5 0xD6 (count xs) in
        let n = count-format_as_list slot (count xs) in
        dispatch v fuel (list xs) slot rest h e (
          unload_list-Parses (unload_within check fuel) v slot (encode_values xs ++ rest) rest xs
            h.0 (e ∙ append_assoc head (encode_values xs) rest)
            (λ c w q.
              reads_values w fuel xs _ rest h.1 n q
                (omega (arith, behind_header 0x90 0xD4 0xD5 0xD6 (count xs) (encode_values xs)))))
    reads v (suc fuel) (structure code xs) slot rest h e f =
        dispatch v fuel (structure code xs) slot rest h e (
          unload_structure-Parses (unload_within check fuel) v slot (encode_values xs ++ rest) rest
            check code xs h.0 h.1 h.2 e
            (λ c w q.
              reads_fields w fuel xs _ rest h.3 (count-format_as_structure slot (count xs)) q
                (omega arith)))

    reads_values :
        {b : Buffer} (v : IsValid b) (fuel : ℕ) (xs slots : Values) (rest : List ℕ)
        → AreEncodable check xs
        → count slots ≡ count xs
        → contents b ≡ encode_values xs ++ rest
        → length (encode_values xs) ≤ fuel
        → Parses xs rest (unload_values (unload_within check fuel) b slots)
    reads_values v fuel nil nil rest h n e f = (refl, v, e)
    reads_values v fuel nil (cons y ys) rest h n e f = absurd (omega arith)
    reads_values v fuel (cons x xs) nil rest h n e f = absurd (omega arith)
    reads_values {b} v fuel (cons x xs) (cons y ys) rest h n e f =
        let whole = length-append (encode x) (encode_values xs) in
        values_turn x xs ys (encode_values xs ++ rest) rest (unload_within check fuel b y)
          (unload_within check fuel)
          (reads v fuel x y (encode_values xs ++ rest) h.0
            (e ∙ append_assoc (encode x) (encode_values xs) rest) (omega (arith, whole)))
          (λ c w q. reads_values w fuel xs ys rest h.1 (omega arith) q (omega (arith, whole)))

    reads_fields :
        {b : Buffer} (v : IsValid b) (fuel : ℕ) (xs slots : Values) (rest : List ℕ)
        → AreEncodable check xs
        → count slots ≡ count xs
        → contents b ≡ encode_values xs ++ rest
        → length (encode_values xs) ≤ fuel
        → Parses xs rest (unload_fields (unload_within check fuel) b slots)
    reads_fields v fuel nil nil rest h n e f = (refl, v, e)
    reads_fields v fuel nil (cons y ys) rest h n e f = absurd (omega arith)
    reads_fields v fuel (cons x xs) nil rest h n e f = absurd (omega arith)
    reads_fields {b} v fuel (cons x xs) (cons y ys) rest h n e f =
        let whole = length-append (encode x) (encode_values xs) in
        fields_turn x xs ys (encode_values xs ++ rest) rest (unload_within check fuel b y)
          (unload_within check fuel)
          (reads v fuel x y (encode_values xs ++ rest) h.0
            (e ∙ append_assoc (encode x) (encode_values xs) rest) (omega (arith, whole)))
          (λ c w q. reads_fields w fuel xs ys rest h.1 (omega arith) q (omega (arith, whole)))

    reads_entries :
        {b : Buffer} (v : IsValid b) (fuel : ℕ) (es slots : Entries) (rest : List ℕ)
        → AreEncodableEntries check es
        → count_entries slots ≡ count_entries es
        → contents b ≡ encode_entries es ++ rest
        → length (encode_entries es) ≤ fuel
        → Parses es rest (unload_entries (unload_within check fuel) b slots)
    reads_entries v fuel end end rest h n e f = (refl, v, e)
    reads_entries v fuel end (entry i y ys) rest h n e f = absurd (omega arith)
    reads_entries v fuel (entry k x es) end rest h n e f = absurd (omega arith)
    reads_entries {b} v fuel (entry k x es) (entry i y ys) rest h n e f =
        let (key, same) = key_encodes check k h.0 in
        let tail = encode_entries es ++ rest in
        let whole = length-append (key_bytes k) (encode x ++ encode_entries es) in
        let part = length-append (encode x) (encode_entries es) in
        let key_length = ap length same in
        entries_turn k x es ys y (encode x ++ tail) tail rest (unload_within check fuel b i)
          (unload_within check fuel)
          (reads v fuel k i (encode x ++ tail) key
            (e
              ∙ regroup (key_bytes k) (encode x) (encode_entries es) rest
              ∙ ap (λ zs. zs ++ (encode x ++ tail)) same)
            (omega (arith, whole, key_length)))
          (λ c w q. reads w fuel x y tail h.1 q (omega (arith, whole, part)))
          (λ c w q.
            reads_entries w fuel es ys rest h.2 (omega arith) q (omega (arith, whole, part)))

-- `unload` of a valid buffer that holds the byte form of an encodable value, and any bytes behind
-- it, gives that value whatever the slot held, and leaves exactly the bytes behind it.
pub unload-Parses :
    (check : ℤ → Bool) {b : Buffer}
    → IsValid b
    → (x slot : Value) (rest : List ℕ) → IsEncodable check x
    → contents b ≡ encode x ++ rest
    → Parses x rest (unload check b slot)
unfolding unload
unload-Parses check {b} v x slot rest h e =
    reads check v (suc (Buffer.unloadable b)) x slot rest h e
      (omega (arith, length-contents b, ap length e, length-append (encode x) rest))

-- A call that writes succeeds.
pub Writes-ok :
    (b : Buffer) (xs : List ℕ) (r : Result Buffer)
    → Writes b xs r
    → (c : Buffer) × (r ≡ ok c) × Adds b xs c
Writes-ok b xs (ok c) p = (c, refl, p)
Writes-ok b xs (err _ c) p = absurd p
Writes-ok b xs fault p = absurd p
Writes-ok b xs stuck p = absurd p

-- `load` of an encodable value into a valid buffer with nothing left to unload succeeds, and
-- `unload` of the buffer that it leaves gives back the value, whatever the slot held, and leaves
-- nothing.
pub unload-load :
    (check : ℤ → Bool) {b : Buffer}
    → IsValid b
    → contents b ≡ []
    → (x slot : Value) → IsEncodable check x
    → (c : Buffer) × (load check b x ≡ ok c) × Parses x [] (unload check c slot)
unload-load check {b} v n x slot h =
    let (c, e, p) = Writes-ok b (encode x) (load check b x) (load-Writes check v x h) in
    let held : contents c ≡ encode x ++ [] =
      p.holds ∙ ap (λ zs. zs ++ encode x) n ∙ sym (append-nil (encode x)) in
    (c, e, unload-Parses check p.valid x slot [] h held)
