-- ===== src/Buffer/Contents.antt =====
-- A buffer seen as the queue of the bytes that are loaded and not yet unloaded.
use seabolt.Prelude.{
  ℕ, ◌+◌, ◌-◌, ◌≤◌, ◌≡◌, refl, ap, sym, ◌∙◌, List, [], ◌∷◌, ◌++◌, length, length-append, take, drop,
  take-length_append, drop-length_append, ltb, ◌&&◌, Bool-cases, inl, inr, arith,
}
use seabolt.Buffer.{Buffer, create, compact, load, unloadable}
use seabolt.Buffer.Memory.{
  Cells, write, slice, length-slice, slice-write_below, slice-write_self, slice-add, take-slice,
  drop-slice,
}

pub record IsValid (b : Buffer) : Type 0 where
  pub ordered : b.cursor ≤ b.extent
  pub within : b.extent ≤ b.size

abbrev pub contents : Buffer → List ℕ
contents b = slice b.bytes b.cursor (b.extent - b.cursor)

pub length-contents : (b : Buffer) → length (contents b) ≡ unloadable b
unfolding unloadable
length-contents b = length-slice b.bytes b.cursor (b.extent - b.cursor)

pub create-contents : (block : Cells) (size : ℕ) → contents (create block size) ≡ []
unfolding create slice
create-contents block size = refl

pub create-IsValid : (block : Cells) (size : ℕ) → IsValid (create block size)
unfolding create
create-IsValid block size = omega arith

pub compact-IsValid : {b : Buffer} → IsValid b → IsValid (compact b)
unfolding compact
compact-IsValid v = ground arith

-- Compaction moves the bytes and keeps them.
pub contents-compact : (b : Buffer) → contents (compact b) ≡ contents b
unfolding compact
contents-compact b = elim (Bool-cases (ltb 0 b.cursor && ltb (b.extent - b.cursor) b.cursor)) [
  | inl moved ↦ rw moved (
      let left = contents b in
      ap (slice (write b.bytes 0 left) 0)
        (omega (arith, length-slice b.bytes b.cursor (b.extent - b.cursor)))
      ∙ slice-write_self b.bytes 0 left)
  | inr kept ↦ rw kept
]

pub load-IsValid : {b : Buffer} (xs : List ℕ) → IsValid b → IsValid (load b xs)
unfolding load
load-IsValid xs v = ground arith

-- Loading appends to the contents.
pub contents-load : {b : Buffer} (xs : List ℕ) → IsValid b → contents (load b xs) ≡ contents b ++ xs
unfolding load
contents-load {b} xs v =
    let old = b.extent - b.cursor in
    let whole : b.extent + length xs - b.cursor ≡ old + length xs = omega arith in
    let next : b.cursor + old ≡ b.extent = omega arith in
    rw (whole, slice-add, next, slice-write_self)
      (rw (slice-write_below b.bytes b.cursor old b.extent xs (omega arith)))

-- What the reads do: the cursor moves on.
abbrev pub advance : Buffer → ℕ → Buffer
advance b n = record b { cursor = b.cursor + n }

pub advance-IsValid : {b : Buffer} (n : ℕ) → n ≤ unloadable b → IsValid b → IsValid (advance b n)
unfolding unloadable
advance-IsValid n h v = omega arith

pub contents-advance :
    (b : Buffer) (n : ℕ) → n ≤ unloadable b → contents (advance b n) ≡ drop n (contents b)
unfolding unloadable
contents-advance b n h = sym (
    drop-slice b.bytes b.cursor n (b.extent - b.cursor) h
    ∙ ap (slice b.bytes (b.cursor + n)) (omega arith))

pub slice-take :
    (b : Buffer) (n : ℕ) → n ≤ unloadable b → slice b.bytes b.cursor n ≡ take n (contents b)
unfolding unloadable
slice-take b n h = sym (take-slice b.bytes b.cursor n (b.extent - b.cursor) h)

-- What a read of the `n` bytes `xs` at the front of the buffer finds, and leaves.
pub record Front (b : Buffer) (n : ℕ) (xs rest : List ℕ) : Type 0 where
  pub enough : n ≤ unloadable b
  pub read : slice b.bytes b.cursor n ≡ xs
  pub left : contents (advance b n) ≡ rest
  pub valid : IsValid (advance b n)

pub contents-Front :
    {b : Buffer} (n : ℕ) (xs rest : List ℕ)
    → IsValid b
    → length xs ≡ n
    → contents b ≡ xs ++ rest
    → Front b n xs rest
contents-Front {b} n xs rest v m e = record {
  enough = enough;
  read =
      slice-take b n enough
      ∙ ap (take n) e
      ∙ ap (λ k. take k (xs ++ rest)) (sym m)
      ∙ take-length_append xs rest;
  left =
      contents-advance b n enough
      ∙ ap (drop n) e
      ∙ ap (λ k. drop k (xs ++ rest)) (sym m)
      ∙ drop-length_append xs rest;
  valid = advance-IsValid n enough v;
}
  where
    enough : n ≤ unloadable b
    enough = omega (arith, length-contents b, ap length e, length-append xs rest)

pub contents-empty : (b : Buffer) → b.extent ≤ b.cursor → contents b ≡ []
unfolding slice
contents-empty b h = let none_left : b.extent - b.cursor ≡ 0 = omega arith in rw none_left

pub slice_one : (b : Buffer) → slice b.bytes b.cursor 1 ≡ b.bytes b.cursor ∷ []
unfolding slice
slice_one b = refl
