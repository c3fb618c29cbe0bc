-- ===== src/Packstream/Sizes.antt =====
-- Lengths behind a marker, and the strings and byte arrays that follow them.
use seabolt.Prelude.{
  ℕ, ◌+◌, ◌%◌, ◌^◌, ◌<◌, ◌≡◌, ap, sym, ◌∙◌, subst, true, false, List, ◌∷◌, ◌++◌, append_assoc,
  length, Option, none, some, ltb, leb, ◌==◌, ◌&&◌, Bool-cases, inl, inr, ltb→lt, arith,
}
use seabolt.Prelude.Int.{ℤ, pos, of_word}
use seabolt.Mem.{be_bytes}
use seabolt.Buffer
use seabolt.Buffer.{Buffer}
use seabolt.Buffer.Contents.{IsValid, contents}
use seabolt.Buffer.Reads.{
  Gets, unload_u8_first, unload_u16be_first, unload_i32be_first, unload_first,
}
use seabolt.Values.{Value, string, bytes, format_as_string, format_as_bytes}
use seabolt.Packstream.Result.{Result, ok, fault}
use seabolt.Packstream.Unload.{reading, wide_size, read_size, fill, unload_string, unload_bytes}
use seabolt.Packstream.Encoding.{header, bytes_header, string_bytes}
use seabolt.Packstream.Parses.{Parses, reading-Parses}

-- A read inside a larger computation `K`.
reading_in :
    {A B C : Type 0} (a : A) (mid : List ℕ) (y : B) (rest : List ℕ)
    (K : Result (Buffer × C) → Result (Buffer × B)) (o : Option (A × Buffer))
    (k : A → Buffer → Result (Buffer × C))
    → Gets a mid o
    → ((c : Buffer) → IsValid c → contents c ≡ mid → Parses y rest (K (k a c)))
    → Parses y rest (K (reading o k))
reading_in a mid y rest K none k g next = absurd g
reading_in a mid y rest K (some (x, c)) k g next =
    subst (λ z. Parses y rest (K (k z c))) (sym g.0) (next c g.1 g.2)

-- Markers that can be told apart.
pub record AreMarkers (tiny m8 m16 m32 : ℕ) : Type 0 where
  pub aligned : tiny % 16 ≡ 0
  pub above : tiny + 15 < m8
  pub second : m8 < m16
  pub third : m16 < m32

-- What follows the length runs on the buffer behind the whole header.
abbrev Follows :
    {B : Type 0} → (Result (Buffer × ℤ) → Result (Buffer × B)) → ℕ → List ℕ → B → List ℕ → Type 0
Follows K n zs y rest =
    (d : Buffer) → IsValid d → contents d ≡ zs → Parses y rest (K (ok (d, pos n)))

same : (m : ℕ) → (m == m) ≡ true
same m = ground arith

differ : (m k : ℕ) → k < m → (m == k) ≡ false
differ m k h = ground arith

module _ {B : Type 0} (K : Result (Buffer × ℤ) → Result (Buffer × B)) (y : B) (n : ℕ)
    (zs rest : List ℕ) (next : Follows K n zs y rest) where
  module _ {c : Buffer} (w : IsValid c) (m8 m16 m32 : ℕ) where
    -- The three wide forms, each behind its marker.
    wide_8 : contents c ≡ n ∷ zs → Parses y rest (K (wide_size m8 m16 m32 m8 c))
    unfolding wide_size
    wide_8 e =
        rw (same m8)
          (reading_in n zs y rest K (Buffer.unload_u8 c) _ (unload_u8_first w n zs e) next)

    wide_16 :
        n < 2 ^ 16
        → m8 < m16
        → contents c ≡ be_bytes 2 n ++ zs
        → Parses y rest (K (wide_size m8 m16 m32 m16 c))
    unfolding wide_size
    wide_16 h p e =
        rw (differ m16 m8 p, same m16)
          (reading_in n zs y rest K (Buffer.unload_u16be c) _ (unload_u16be_first w n zs h e) next)

    wide_32 :
        n < 2 ^ 31
        → m8 < m16
        → m16 < m32
        → contents c ≡ be_bytes 4 n ++ zs
        → Parses y rest (K (wide_size m8 m16 m32 m32 c))
    unfolding wide_size
    wide_32 h p q e =
        let value : of_word 32 n ≡ pos n = ground (arith, h) in
        rw (differ m32 m8 (omega arith), differ m32 m16 q, same m32)
          (reading_in (of_word 32 n) zs y rest K (Buffer.unload_i32be c) _
            (unload_i32be_first w n zs (omega arith) e) (λ d u m. rw value (next d u m)))

  module _ {b : Buffer} (v : IsValid b) where
    after_u8 :
        (m : ℕ) (mid : List ℕ) (k : ℕ → Buffer → Result (Buffer × B))
        → contents b ≡ m ∷ mid
        → ((c : Buffer) → IsValid c → contents c ≡ mid → Parses y rest (k m c))
        → Parses y rest (reading (Buffer.unload_u8 b) k)
    after_u8 m mid k e f =
        reading-Parses m mid y rest (Buffer.unload_u8 b) k (unload_u8_first v m mid e) f

    -- A marker and a length, for containers and strings.
    pub header-Parses :
        {tiny m8 m16 m32 : ℕ}
        → AreMarkers tiny m8 m16 m32
        → n < 2 ^ 31
        → contents b ≡ header tiny m8 m16 m32 n ++ zs
        → Parses y rest (reading (Buffer.unload_u8 b) (λ m c. K (read_size tiny m8 m16 m32 m c)))
    unfolding header read_size
    header-Parses {tiny} {m8} {m16} {m32} r h e = elim (Bool-cases (ltb n 0x10)) [
      | inl p ↦
          let inside : (leb tiny (tiny + n) && leb (tiny + n) (tiny + 15)) ≡ true =
            ground (arith, p) in
          let size : (tiny + n) % 16 ≡ n = omega (arith, ltb→lt n 0x10 p) in
          after_u8 (tiny + n) zs _ (rw p at e) (λ c w l. rw (inside, size) (next c w l))
      | inr p ↦ elim (Bool-cases (ltb n 0x100)) [
        | inl q ↦
            after_u8 m8 (n ∷ zs) _ (rw (p, q) at e)
              (λ c w l. rw (outside m8 (omega arith)) (wide_8 w m8 m16 m32 l))
        | inr q ↦ elim (Bool-cases (ltb n 0x10000)) [
          | inl o ↦ after_u8 m16 (be_bytes 2 n ++ zs) _ (rw (p, q, o) at e) (λ c w l.
              rw (outside m16 (omega arith))
                (wide_16 w m8 m16 m32 (ltb→lt n 0x10000 o) (omega arith) l))
          | inr o ↦ after_u8 m32 (be_bytes 4 n ++ zs) _ (rw (p, q, o) at e) (λ c w l.
              rw (outside m32 (omega arith)) (wide_32 w m8 m16 m32 h (omega arith) (omega arith) l))
        ]
      ]
    ]
      where
        outside : (m : ℕ) → tiny + 15 < m → (leb tiny m && leb m (tiny + 15)) ≡ false
        outside m g = ground arith

    pub bytes_header-Parses :
        n < 2 ^ 31
        → contents b ≡ bytes_header n ++ zs
        → Parses y rest (reading (Buffer.unload_u8 b) (λ m c. K (wide_size 0xCC 0xCD 0xCE m c)))
    unfolding bytes_header
    bytes_header-Parses h e = elim (Bool-cases (ltb n 0x100)) [
      | inl q ↦ after_u8 0xCC (n ∷ zs) _ (rw q at e) (λ c w l. wide_8 w 0xCC 0xCD 0xCE l)
      | inr q ↦ elim (Bool-cases (ltb n 0x10000)) [
        | inl o ↦
            after_u8 0xCD (be_bytes 2 n ++ zs) _ (rw (q, o) at e)
              (λ c w l. wide_16 w 0xCC 0xCD 0xCE (ltb→lt n 0x10000 o) (omega arith) l)
        | inr o ↦
            after_u8 0xCE (be_bytes 4 n ++ zs) _ (rw (q, o) at e)
              (λ c w l. wide_32 w 0xCC 0xCD 0xCE h (omega arith) (omega arith) l)
      ]
    ]

fill-Parses :
    (format : List ℕ → Value) (slot : Value) (xs rest : List ℕ)
    → Follows (fill format slot) (length xs) (xs ++ rest) (format xs) rest
unfolding fill
fill-Parses format slot xs rest d u e = go (Buffer.unload d (length xs)) (unload_first u xs rest e)
  where
    go :
        (o : Option (List ℕ × Buffer))
        → Gets xs rest o
        → Parses (format xs) rest (elim o [ none ↦ fault | some (ys, c) ↦ ok (c, format ys) ])
    go none g = g
    go (some (ys, c)) g = (ap format g.0, g.1, g.2)

module _ {b : Buffer} (v : IsValid b) (slot : Value) (xs rest : List ℕ)
    (h : length xs < 2 ^ 31) where
  pub unload_string-Parses :
      contents b ≡ string_bytes xs ++ rest → Parses (string xs) rest (unload_string b slot)
  unfolding unload_string string_bytes format_as_string
  unload_string-Parses e =
      header-Parses (fill (format_as_string slot) slot) (string xs) (length xs) (xs ++ rest) rest
        (fill-Parses (format_as_string slot) slot xs rest) v (omega arith) h
        (e ∙ append_assoc (header 0x80 0xD0 0xD1 0xD2 (length xs)) xs rest)

  pub unload_bytes-Parses :
      contents b ≡ (bytes_header (length xs) ++ xs) ++ rest
      → Parses (bytes xs) rest (unload_bytes b slot)
  unfolding unload_bytes format_as_bytes
  unload_bytes-Parses e =
      bytes_header-Parses (fill (format_as_bytes slot) slot) (bytes xs) (length xs) (xs ++ rest)
        rest (fill-Parses (format_as_bytes slot) slot xs rest) v h
        (e ∙ append_assoc (bytes_header (length xs)) xs rest)
