-- ===== src/Packstream/Writes.antt =====
-- `load` writes the byte form of a value behind what the buffer holds.
use seabolt.Prelude.{
  ℕ, ◌+◌, ◌-◌, ◌^◌, ◌<◌, ◌≡◌, ap, sym, ◌∙◌, Bool, true, false, List, [], ◌∷◌, ◌++◌, append-nil,
  append_assoc, length, arith,
}
use seabolt.Prelude.Int.{ℤ, pos, negsuc, IsInt}
use seabolt.Mem.{be_bytes}
use seabolt.Buffer
use seabolt.Buffer.{Buffer}
use seabolt.Buffer.Contents.{IsValid, contents, load-IsValid, contents-load}
use seabolt.Values.{
  Value, Values, Entries, null, boolean, integer, float, string, dictionary, list, bytes, structure,
  nil, cons, end, entry, count, count_entries, boolean_get,
}
use seabolt.Packstream.Result.{Result, ok, err, fault, stuck, ◌>>=◌}
use seabolt.Packstream.Load.{
  load_null, load_boolean, load_integer, load_float, load_bytes, load_string_header, load_string,
  load_header, load_list_header, load_map_header, load_structure_header, int8_size, load_key, load,
  load_values, load_entries,
}
use seabolt.Packstream.Encoding.{
  int_bytes, header, bytes_header, string_bytes, key_bytes, boolean_marker, code_byte, encode,
  encode_values, encode_entries, IsKey, IsCode, IsEncodable, AreEncodable, AreEncodableEntries,
}

-- From `b` to `c` the bytes `xs` are added at the end, and nothing else changes.
pub record Adds (b : Buffer) (xs : List ℕ) (c : Buffer) : Type 0 where
  pub valid : IsValid c
  pub holds : contents c ≡ contents b ++ xs

-- The call succeeds, and adds `xs`.
abbrev pub Writes : Buffer → List ℕ → Result Buffer → Type 0
Writes b xs (ok c) = Adds b xs c
Writes b xs (err _ c) = ⊥
Writes b xs fault = ⊥
Writes b xs stuck = ⊥

pub Adds-load : {b : Buffer} (xs : List ℕ) → IsValid b → Adds b xs (Buffer.load b xs)
Adds-load xs v = record { valid = load-IsValid xs v; holds = contents-load xs v }

pub Adds-trans : {b c d : Buffer} {xs ys : List ℕ} → Adds b xs c → Adds c ys d → Adds b (xs ++ ys) d
Adds-trans {b} {xs = xs} {ys = ys} p q = record {
  valid = q.valid;
  holds = q.holds ∙ ap (λ zs. zs ++ ys) p.holds ∙ append_assoc (contents b) xs ys;
}

pub Adds-refl : {b : Buffer} → IsValid b → Adds b [] b
Adds-refl {b} v = record { valid = v; holds = sym (append-nil (contents b)) }

-- `TRY(m); k` where `m` writes `xs` and `k` goes on to write `ys`.
bind-Writes :
    (b : Buffer) (xs ys : List ℕ) (m : Result Buffer) (k : Buffer → Result Buffer)
    → Writes b xs m
    → ((c : Buffer) → IsValid c → Writes c ys (k c))
    → Writes b (xs ++ ys) (m >>= k)
bind-Writes b xs ys (ok c) k p next = go (k c) (next c p.valid)
  where
    go : (r : Result Buffer) → Writes c ys r → Writes b (xs ++ ys) r
    go (ok d) q = Adds-trans p q
    go (err _ d) q = q
    go fault q = q
    go stuck q = q
bind-Writes b xs ys (err _ c) k p next = absurd p
bind-Writes b xs ys fault k p next = absurd p
bind-Writes b xs ys stuck k p next = absurd p

module _ {b : Buffer} (v : IsValid b) where
  -- A marker, then more bytes.
  marked : (m : ℕ) (xs : List ℕ) → Adds b (m ∷ xs) (Buffer.load (Buffer.load b (m ∷ [])) xs)
  marked m xs = Adds-trans (Adds-load (m ∷ []) v) (Adds-load xs (load-IsValid (m ∷ []) v))

  load_header-Writes :
      (tiny m8 m16 m32 n : ℕ)
      → n < 2 ^ 31
      → Writes b (header tiny m8 m16 m32 n) (load_header tiny m8 m16 m32 b (pos n))
  unfolding load_header header Buffer.load_u8 Buffer.load_u16be Buffer.load_i32be
  load_header-Writes tiny m8 m16 m32 n h = ground (
    arith,
    Adds-load ((tiny + n) ∷ []) v,
    marked m8 (n ∷ []),
    marked m16 (be_bytes 2 n),
    marked m32 (be_bytes 4 n),
  )

  load_integer-Writes : (x : ℤ) → IsInt 64 x → Writes b (int_bytes x) (load_integer b x)
  unfolding load_integer int_bytes Buffer.load_i8 Buffer.load_u8 Buffer.load_i16be Buffer.load_i32be
      Buffer.load_i64be
  load_integer-Writes (pos n) h = ground (
    arith,
    Adds-load (n ∷ []) v,
    marked 0xC9 (be_bytes 2 n),
    marked 0xCA (be_bytes 4 n),
    marked 0xCB (be_bytes 8 n),
  )
  load_integer-Writes (negsuc n) h = ground (
    arith,
    Adds-load ((0xFF - n) ∷ []) v,
    marked 0xC8 ((0xFF - n) ∷ []),
    marked 0xC9 (be_bytes 2 (2 ^ 16 - 1 - n)),
    marked 0xCA (be_bytes 4 (2 ^ 32 - 1 - n)),
    marked 0xCB (be_bytes 8 (2 ^ 64 - 1 - n)),
  )

  load_boolean-Writes :
      (x : Bool) → Writes b (boolean_marker x ∷ []) (load_boolean b (boolean_get x))
  unfolding load_boolean boolean_get Buffer.load_u8
  load_boolean-Writes true = Adds-load (0xC3 ∷ []) v
  load_boolean-Writes false = Adds-load (0xC2 ∷ []) v

  load_float-Writes : (x : ℕ) → Writes b (0xC1 ∷ be_bytes 8 x) (load_float b x)
  unfolding load_float Buffer.load_u8 Buffer.load_f64be
  load_float-Writes x = marked 0xC1 (be_bytes 8 x)

  load_bytes-Writes :
      (xs : List ℕ)
      → length xs < 2 ^ 31
      → Writes b (bytes_header (length xs) ++ xs) (load_bytes b xs (pos (length xs)))
  unfolding load_bytes bytes_header Buffer.load_u8 Buffer.load_u16be Buffer.load_i32be
  load_bytes-Writes xs h = ground (
    arith,
    then_bytes (marked 0xCC (n ∷ [])),
    then_bytes (marked 0xCD (be_bytes 2 n)),
    then_bytes (marked 0xCE (be_bytes 4 n)),
  )
    where
      n : ℕ
      n = length xs

      then_bytes : {c : Buffer} {ys : List ℕ} → Adds b ys c → Adds b (ys ++ xs) (Buffer.load c xs)
      then_bytes p = Adds-trans p (Adds-load xs p.valid)

  load_string-Writes :
      (xs : List ℕ)
      → length xs < 2 ^ 31
      → Writes b (string_bytes xs) (load_string b xs (pos (length xs)))
  unfolding load_string string_bytes
  load_string-Writes xs h =
      bind-Writes b (header 0x80 0xD0 0xD1 0xD2 (length xs)) xs
        (load_string_header b (pos (length xs))) (λ c. ok (Buffer.load c xs))
        (unfold load_string_header in load_header-Writes 0x80 0xD0 0xD1 0xD2 (length xs) h)
        (λ c w. Adds-load xs w)

  load_key-Writes : (k : Value) → IsKey k → Writes b (key_bytes k) (load_key k b)
  unfolding load_key key_bytes
  load_key-Writes (string xs) h = load_string-Writes xs h
  load_key-Writes _ h = absurd h

  load_structure_header-Writes :
      (code : ℤ) (n : ℕ)
      → IsCode code
      → n < 0x10
      → Writes b ((0xB0 + n) ∷ code_byte code ∷ []) (load_structure_header b code (int8_size n))
  unfolding load_structure_header Buffer.load_u8 Buffer.load_i8
  load_structure_header-Writes (pos c) n h k = ground (arith, marked (0xB0 + n) (c ∷ []))
  load_structure_header-Writes (negsuc c) n h k = absurd h

module _ (check : ℤ → Bool) where
  mutual
    unfolding load encode load_null load_list_header load_map_header Buffer.load_u8

    writes :
        {b : Buffer} (v : IsValid b) (x : Value)
        → IsEncodable check x
        → Writes b (encode x) (load check b x)
    writes v null h = Adds-load (0xC0 ∷ []) v
    writes v (boolean x) h = load_boolean-Writes v x
    writes v (integer x) h = load_integer-Writes v x h
    writes v (float x) h = load_float-Writes v x
    writes v (string xs) h = load_string-Writes v xs h
    writes v (bytes xs) h = load_bytes-Writes v xs h
    writes {b} v (dictionary es) h =
        bind-Writes b _ (encode_entries es) (load_map_header b (pos (count_entries es)))
          (λ c. load_entries check c es)
          (load_header-Writes v 0xA0 0xD8 0xD9 0xDA (count_entries es) h.0)
          (λ c w. writes_entries w es h.1)
    writes {b} v (list xs) h =
        bind-Writes b _ (encode_values xs) (load_list_header b (pos (count xs)))
          (λ c. load_values check c xs) (load_header-Writes v 0x90 0xD4 0xD5 0xD6 (count xs) h.0)
          (λ c w. writes_values w xs h.1)
    writes {b} v (structure code xs) h = rw h.0 (
        bind-Writes b (_ ∷ _ ∷ []) (encode_values xs)
          (load_structure_header b code (int8_size (count xs))) (λ c. load_values check c xs)
          (load_structure_header-Writes v code (count xs) h.1 h.2) (λ c w. writes_values w xs h.3))

    writes_values :
        {b : Buffer} (v : IsValid b) (xs : Values)
        → AreEncodable check xs
        → Writes b (encode_values xs) (load_values check b xs)
    writes_values v nil h = Adds-refl v
    writes_values {b} v (cons x xs) h =
        bind-Writes b (encode x) (encode_values xs) (load check b x) (λ c. load_values check c xs)
          (writes v x h.0) (λ c w. writes_values w xs h.1)

    writes_entries :
        {b : Buffer} (v : IsValid b) (es : Entries)
        → AreEncodableEntries check es
        → Writes b (encode_entries es) (load_entries check b es)
    writes_entries v end h = Adds-refl v
    writes_entries {b} v (entry k x es) h =
        bind-Writes b (key_bytes k) (encode x ++ encode_entries es) (load_key k b)
          (λ c. load check c x >>= λ d. load_entries check d es) (load_key-Writes v k h.0)
          λ c w.
            bind-Writes c (encode x) (encode_entries es) (load check c x)
              (λ d. load_entries check d es) (writes w x h.1) (λ d u. writes_entries u es h.2)

-- On a valid buffer, `load` of an encodable value succeeds, leaves a valid buffer, and adds exactly
-- the value's byte form behind the bytes that were there.
pub load-Writes :
    (check : ℤ → Bool) {b : Buffer}
    → IsValid b
    → (x : Value) → IsEncodable check x
    → Writes b (encode x) (load check b x)
load-Writes check v x h = writes check v x h
