-- ===== src/Buffer/Reads.antt =====
-- What the typed reads find at the front of a buffer.
use Prim.Native.Nat.{◌^◌}
use seabolt.Prelude.{
  ℕ, ◌<◌, ◌≡◌, refl, ap, sym, ◌∙◌, List, [], ◌∷◌, ◌++◌, length, Option, none, some, le→ltb, arith,
}
use seabolt.Prelude.Int.{of_word}
use seabolt.Mem.{be_bytes, be_value}
use seabolt.Mem.Endian.{length-be_bytes, be_bytes_one, be_value-be_bytes}
use seabolt.Buffer.{
  Buffer, peek_u8, unload, unload_u8, unload_be, signed, unload_u16be, unload_i8, unload_i16be,
  unload_i32be, unload_i64be, unload_f64be,
}
use seabolt.Buffer.Memory.{slice}
use seabolt.Buffer.Contents.{
  IsValid, contents, contents-Front, Front, slice_one, advance, contents-compact, compact-IsValid,
}

-- The read succeeds with `a`, and leaves a valid buffer that holds `rest`.
abbrev pub Gets : {A : Type 0} → A → List ℕ → Option (A × Buffer) → Type 0
Gets a rest none = ⊥
Gets a rest (some (x, c)) = (x ≡ a) × IsValid c × (contents c ≡ rest)

module _ {b : Buffer} (v : IsValid b) where
  first_byte : {x : ℕ} {rest : List ℕ} → contents b ≡ x ∷ rest → b.bytes b.cursor ≡ x
  first_byte {x} {rest} e = cc (slice_one b, (contents-Front 1 (x ∷ []) rest v refl e).read)

  pub peek_u8_first : {x : ℕ} {rest : List ℕ} → contents b ≡ x ∷ rest → peek_u8 b ≡ some x
  unfolding peek_u8
  peek_u8_first {x} {rest} e =
      let f = contents-Front 1 (x ∷ []) rest v refl e in ground (arith, first_byte e, f.enough)

  pub unload_u8_first : (x : ℕ) (rest : List ℕ) → contents b ≡ x ∷ rest → Gets x rest (unload_u8 b)
  unfolding unload_u8
  unload_u8_first x rest e =
      let f = contents-Front 1 (x ∷ []) rest v refl e in
      ground (arith, first_byte e, f.enough, f.left, f.valid)

  -- The read of `k` big-endian bytes.
  be_first :
      (k x : ℕ) (rest : List ℕ)
      → x < 256 ^ k
      → contents b ≡ be_bytes k x ++ rest
      → Gets x rest (unload_be k b)
  unfolding unload_be
  be_first k x rest h e = rw (le→ltb _ _ f.enough) (value, f.valid, f.left)
    where
      f : Front b k (be_bytes k x) rest
      f = contents-Front k (be_bytes k x) rest v (length-be_bytes k x) e

      value : be_value k (slice b.bytes b.cursor k) ≡ x
      value = ap (be_value k) f.read ∙ be_value-be_bytes k x h

  pub unload_u16be_first :
      (x : ℕ) (rest : List ℕ)
      → x < 2 ^ 16
      → contents b ≡ be_bytes 2 x ++ rest
      → Gets x rest (unload_u16be b)
  unfolding unload_u16be
  unload_u16be_first x rest h e = be_first 2 x rest h e

  pub unload_f64be_first :
      (x : ℕ) (rest : List ℕ)
      → x < 2 ^ 64
      → contents b ≡ be_bytes 8 x ++ rest
      → Gets x rest (unload_f64be b)
  unfolding unload_f64be
  unload_f64be_first x rest h e = be_first 8 x rest h e

  signed_first :
      (k w x : ℕ) (rest : List ℕ)
      → x < 256 ^ k
      → contents b ≡ be_bytes k x ++ rest
      → Gets (of_word w x) rest (signed w (unload_be k b))
  unfolding signed
  signed_first k w x rest h e = go (unload_be k b) (be_first k x rest h e)
    where
      go : (o : Option (ℕ × Buffer)) → Gets x rest o → Gets (of_word w x) rest (signed w o)
      go none g = g
      go (some (y, c)) g = (ap (of_word w) g.0, g.1, g.2)

  pub unload_i8_first :
      (x : ℕ) (rest : List ℕ)
      → x < 2 ^ 8
      → contents b ≡ x ∷ rest
      → Gets (of_word 8 x) rest (unload_i8 b)
  unfolding unload_i8
  unload_i8_first x rest h e =
      let byte : be_bytes 1 x ≡ x ∷ [] = be_bytes_one x ∙ ap (λ y. y ∷ []) (omega arith) in
      signed_first 1 8 x rest h (e ∙ ap (λ ys. ys ++ rest) (sym byte))

  pub unload_i16be_first :
      (x : ℕ) (rest : List ℕ)
      → x < 2 ^ 16
      → contents b ≡ be_bytes 2 x ++ rest
      → Gets (of_word 16 x) rest (unload_i16be b)
  unfolding unload_i16be
  unload_i16be_first x rest h e = signed_first 2 16 x rest h e

  pub unload_i32be_first :
      (x : ℕ) (rest : List ℕ)
      → x < 2 ^ 32
      → contents b ≡ be_bytes 4 x ++ rest
      → Gets (of_word 32 x) rest (unload_i32be b)
  unfolding unload_i32be
  unload_i32be_first x rest h e = signed_first 4 32 x rest h e

  pub unload_i64be_first :
      (x : ℕ) (rest : List ℕ)
      → x < 2 ^ 64
      → contents b ≡ be_bytes 8 x ++ rest
      → Gets (of_word 64 x) rest (unload_i64be b)
  unfolding unload_i64be
  unload_i64be_first x rest h e = signed_first 8 64 x rest h e

  pub unload_first :
      (xs rest : List ℕ) → contents b ≡ xs ++ rest → Gets xs rest (unload b (length xs))
  unfolding unload
  unload_first xs rest e =
      let f = contents-Front (length xs) xs rest v refl e in
      ground (
        arith,
        f.enough,
        f.read,
        f.left,
        f.valid,
        contents-compact (advance b (length xs)),
        compact-IsValid f.valid,
      )
