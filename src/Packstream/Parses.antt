-- ===== src/Packstream/Parses.antt =====
-- The reads of one value that has no parts: each undoes its byte form.
use seabolt.Prelude.{
  ℕ, ◌-◌, ◌^◌, ◌<◌, ◌≡◌, refl, sym, subst, Bool, true, false, List, ◌∷◌, ◌++◌, Option, none, some,
  ltb, Bool-cases, inl, inr, lt→ltb, arith,
}
use seabolt.Prelude.Int.{ℤ, ◌-ℤ◌, pos, negsuc, IsInt, of_word}
use seabolt.Mem.{be_bytes}
use seabolt.Buffer
use seabolt.Buffer.{Buffer}
use seabolt.Buffer.Contents.{IsValid, contents}
use seabolt.Buffer.Reads.{
  Gets, unload_u8_first, unload_f64be_first, unload_i8_first, unload_i16be_first,
  unload_i32be_first, unload_i64be_first,
}
use seabolt.Values.{
  Value, null, boolean, integer, float, format_as_null, format_as_boolean, format_as_integer,
  format_as_float,
}
use seabolt.Packstream.Result.{Result, ok, err, fault, stuck}
use seabolt.Packstream.Unload.{reading, unload_null, unload_boolean, unload_integer, unload_float}
use seabolt.Packstream.Encoding.{int_bytes, boolean_marker}

-- The call succeeds with `a`, and leaves a valid buffer that holds `rest`.
abbrev pub Parses : {A : Type 0} → A → List ℕ → Result (Buffer × A) → Type 0
Parses a rest (ok (c, x)) = (x ≡ a) × IsValid c × (contents c ≡ rest)
Parses a rest (err _ _) = ⊥
Parses a rest fault = ⊥
Parses a rest stuck = ⊥

pub reading-Parses :
    {A B : Type 0} (a : A) (mid : List ℕ) (y : B) (rest : List ℕ) (o : Option (A × Buffer))
    (k : A → Buffer → Result (Buffer × B))
    → Gets a mid o
    → ((c : Buffer) → IsValid c → contents c ≡ mid → Parses y rest (k a c))
    → Parses y rest (reading o k)
reading-Parses a mid y rest none k g next = absurd g
reading-Parses a mid y rest (some (x, c)) k g next =
    subst (λ z. Parses y rest (k z c)) (sym g.0) (next c g.1 g.2)

module _ {b : Buffer} (v : IsValid b) (slot : Value) (rest : List ℕ) where
  pub unload_null-Parses : contents b ≡ 0xC0 ∷ rest → Parses null rest (unload_null b slot)
  unfolding unload_null format_as_null
  unload_null-Parses e =
      reading-Parses 0xC0 rest null rest (Buffer.unload_u8 b) _ (unload_u8_first v 0xC0 rest e)
        (λ c w l. (refl, w, l))

  pub unload_boolean-Parses :
      (x : Bool)
      → contents b ≡ boolean_marker x ∷ rest
      → Parses (boolean x) rest (unload_boolean b slot)
  unfolding unload_boolean format_as_boolean
  unload_boolean-Parses true e =
      reading-Parses 0xC3 rest (boolean true) rest (Buffer.unload_u8 b) _
        (unload_u8_first v 0xC3 rest e) (λ c w l. (refl, w, l))
  unload_boolean-Parses false e =
      reading-Parses 0xC2 rest (boolean false) rest (Buffer.unload_u8 b) _
        (unload_u8_first v 0xC2 rest e) (λ c w l. (refl, w, l))

  pub unload_float-Parses :
      (x : ℕ)
      → x < 2 ^ 64
      → contents b ≡ 0xC1 ∷ (be_bytes 8 x ++ rest)
      → Parses (float x) rest (unload_float b slot)
  unfolding unload_float format_as_float
  unload_float-Parses x h e =
      reading-Parses 0xC1 (be_bytes 8 x ++ rest) (float x) rest (Buffer.unload_u8 b) _
        (unload_u8_first v 0xC1 _ e)
        (λ c w l.
          reading-Parses x rest (float x) rest (Buffer.unload_f64be c) _
            (unload_f64be_first w x rest h l) (λ d u m. (refl, u, m)))

  -- The five forms of an integer.
  tiny_positive :
      (n : ℕ)
      → n < 0x80
      → contents b ≡ n ∷ rest
      → Parses (integer (pos n)) rest (unload_integer b slot)
  unfolding unload_integer format_as_integer
  tiny_positive n h e =
      reading-Parses n rest (integer (pos n)) rest (Buffer.unload_u8 b) _
        (unload_u8_first v n rest e) (λ c w l. rw (lt→ltb n 0x80 h) (refl, w, l))

  tiny_negative :
      (n : ℕ)
      → n < 0x10
      → contents b ≡ (0xFF - n) ∷ rest
      → Parses (integer (negsuc n)) rest (unload_integer b slot)
  unfolding unload_integer format_as_integer ◌-ℤ◌
  tiny_negative n h e =
      reading-Parses (0xFF - n) rest (integer (negsuc n)) rest (Buffer.unload_u8 b) _
        (unload_u8_first v (0xFF - n) rest e) (λ c w l. ground arith)

  byte_form :
      (x : ℕ)
      → x < 2 ^ 8
      → contents b ≡ 0xC8 ∷ x ∷ rest
      → Parses (integer (of_word 8 x)) rest (unload_integer b slot)
  unfolding unload_integer format_as_integer
  byte_form x h e =
      reading-Parses 0xC8 (x ∷ rest) (integer (of_word 8 x)) rest (Buffer.unload_u8 b) _
        (unload_u8_first v 0xC8 _ e)
        (λ c w l.
          reading-Parses (of_word 8 x) rest _ rest (Buffer.unload_i8 c) _
            (unload_i8_first w x rest h l) (λ d u m. (refl, u, m)))

  form_16 :
      (x : ℕ)
      → x < 2 ^ 16
      → contents b ≡ 0xC9 ∷ (be_bytes 2 x ++ rest)
      → Parses (integer (of_word 16 x)) rest (unload_integer b slot)
  unfolding unload_integer format_as_integer
  form_16 x h e =
      reading-Parses 0xC9 (be_bytes 2 x ++ rest) (integer (of_word 16 x)) rest (Buffer.unload_u8 b)
        _ (unload_u8_first v 0xC9 _ e)
        (λ c w l.
          reading-Parses (of_word 16 x) rest _ rest (Buffer.unload_i16be c) _
            (unload_i16be_first w x rest h l) (λ d u m. (refl, u, m)))

  form_32 :
      (x : ℕ)
      → x < 2 ^ 32
      → contents b ≡ 0xCA ∷ (be_bytes 4 x ++ rest)
      → Parses (integer (of_word 32 x)) rest (unload_integer b slot)
  unfolding unload_integer format_as_integer
  form_32 x h e =
      reading-Parses 0xCA (be_bytes 4 x ++ rest) (integer (of_word 32 x)) rest (Buffer.unload_u8 b)
        _ (unload_u8_first v 0xCA _ e)
        (λ c w l.
          reading-Parses (of_word 32 x) rest _ rest (Buffer.unload_i32be c) _
            (unload_i32be_first w x rest h l) (λ d u m. (refl, u, m)))

  form_64 :
      (x : ℕ)
      → x < 2 ^ 64
      → contents b ≡ 0xCB ∷ (be_bytes 8 x ++ rest)
      → Parses (integer (of_word 64 x)) rest (unload_integer b slot)
  unfolding unload_integer format_as_integer
  form_64 x h e =
      reading-Parses 0xCB (be_bytes 8 x ++ rest) (integer (of_word 64 x)) rest (Buffer.unload_u8 b)
        _ (unload_u8_first v 0xCB _ e)
        (λ c w l.
          reading-Parses (of_word 64 x) rest _ rest (Buffer.unload_i64be c) _
            (unload_i64be_first w x rest h l) (λ d u m. (refl, u, m)))

  as_integer :
      {x y : ℤ}
      → x ≡ y
      → Parses (integer x) rest (unload_integer b slot)
      → Parses (integer y) rest (unload_integer b slot)
  as_integer p = subst (λ z. Parses (integer z) rest (unload_integer b slot)) p

  positive-Parses :
      (n : ℕ)
      → n < 2 ^ 63
      → contents b ≡ int_bytes (pos n) ++ rest
      → Parses (integer (pos n)) rest (unload_integer b slot)
  unfolding int_bytes
  positive-Parses n h e = elim (Bool-cases (ltb n 0x80)) [
    | inl p ↦ tiny_positive n (ground (arith, p)) (rw p at e)
    | inr p ↦ elim (Bool-cases (ltb n (2 ^ 15))) [
      | inl q ↦ as_integer (ground (arith, q)) (form_16 n (ground (arith, q)) (rw (p, q) at e))
      | inr q ↦ elim (Bool-cases (ltb n (2 ^ 31))) [
        | inl r ↦ as_integer (ground (arith, r)) (form_32 n (ground (arith, r)) (rw (p, q, r) at e))
        | inr r ↦ as_integer (ground (arith, h)) (form_64 n (ground (arith, h)) (rw (p, q, r) at e))
      ]
    ]
  ]

  negative-Parses :
      (n : ℕ)
      → n < 2 ^ 63
      → contents b ≡ int_bytes (negsuc n) ++ rest
      → Parses (integer (negsuc n)) rest (unload_integer b slot)
  unfolding int_bytes
  negative-Parses n h e = elim (Bool-cases (ltb n 0x10)) [
    | inl p ↦ tiny_negative n (ground (arith, p)) (rw p at e)
    | inr p ↦ elim (Bool-cases (ltb n 0x80)) [
      | inl o ↦ as_integer (ground (arith, o)) (byte_form (0xFF - n) (omega arith) (rw (p, o) at e))
      | inr o ↦ elim (Bool-cases (ltb n (2 ^ 15))) [
        | inl q ↦
            as_integer (ground (arith, q))
              (form_16 (2 ^ 16 - 1 - n) (omega arith) (rw (p, o, q) at e))
        | inr q ↦ elim (Bool-cases (ltb n (2 ^ 31))) [
          | inl r ↦
              as_integer (ground (arith, r))
                (form_32 (2 ^ 32 - 1 - n) (omega arith) (rw (p, o, q, r) at e))
          | inr r ↦
              as_integer (ground (arith, h))
                (form_64 (2 ^ 64 - 1 - n) (omega arith) (rw (p, o, q, r) at e))
        ]
      ]
    ]
  ]

  pub unload_integer-Parses :
      (x : ℤ)
      → IsInt 64 x
      → contents b ≡ int_bytes x ++ rest
      → Parses (integer x) rest (unload_integer b slot)
  unload_integer-Parses (pos n) h e = positive-Parses n h e
  unload_integer-Parses (negsuc n) h e = negative-Parses n h e
