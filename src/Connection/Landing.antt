-- ===== src/Connection/Landing.antt =====
-- The receive buffer while bytes arrive.
use seabolt.Prelude.{
  ℕ, ◌+◌, ◌-◌, ◌≤◌, ◌≡◌, ap, ◌∙◌, Bool-cases, Option, none, some, List, ◌++◌, length, ◌==◌, inl,
  inr, if◌then◌else◌, arith,
}
use seabolt.Buffer
use seabolt.Buffer.{Buffer}
use seabolt.Buffer.Memory.{write}
use seabolt.Buffer.Contents.{IsValid, contents, contents-load, compact-IsValid, contents-compact}
use seabolt.Buffer.Reads.{Gets}

-- Where `xs` is put into the room for `max` bytes that `load_pointer` made, and the extent is set
-- back to the bytes that came.
abbrev pub landed : Buffer → ℕ → List ℕ → Buffer
landed b max xs =
    let (target, grown) = Buffer.load_pointer b max in
    record grown { bytes = write grown.bytes target xs; extent = grown.extent - max + length xs }

pub landed-IsValid :
    {b : Buffer} (max : ℕ) (xs : List ℕ) → IsValid b → length xs ≤ max → IsValid (landed b max xs)
unfolding Buffer.load_pointer Buffer.loadable
landed-IsValid max xs v h = ground arith

-- The same before the extent is set back.
abbrev pub grown : Buffer → ℕ → List ℕ → Buffer
grown b max xs =
    let (target, c) = Buffer.load_pointer b max in record c { bytes = write c.bytes target xs }

pub grown-IsValid : {b : Buffer} (max : ℕ) (xs : List ℕ) → IsValid b → IsValid (grown b max xs)
unfolding Buffer.load_pointer Buffer.loadable
grown-IsValid max xs v = ground arith

pub contents-landed :
    {b : Buffer} (max : ℕ) (xs : List ℕ) → IsValid b → contents (landed b max xs) ≡ contents b ++ xs
unfolding Buffer.load_pointer Buffer.load
contents-landed {b} max xs v =
    ap (λ e. Buffer.Memory.slice (write b.bytes b.extent xs) b.cursor (e - b.cursor)) (omega arith)
    ∙ contents-load xs v

-- The round's buffer: compacted if it is full.
abbrev pub roomy : Buffer → Buffer
roomy b = if Buffer.loadable b == 0 then Buffer.compact b else b

pub roomy-IsValid : {b : Buffer} → IsValid b → IsValid (roomy b)
roomy-IsValid {b} v = elim (Bool-cases (Buffer.loadable b == 0)) [
  | inl full ↦ rw full (compact-IsValid v)
  | inr kept ↦ rw kept v
]

pub contents-roomy : (b : Buffer) → contents (roomy b) ≡ contents b
contents-roomy b = elim (Bool-cases (Buffer.loadable b == 0)) [
  | inl full ↦ rw full (contents-compact b)
  | inr kept ↦ rw kept
]

pub Gets-some :
    {A : Type 0} {a : A} {rest : List ℕ} {o : Option (A × Buffer)}
    → Gets a rest o
    → (b : Buffer) × (o ≡ some (a, b)) × IsValid b × (contents b ≡ rest)
Gets-some {o = none} g = absurd g
Gets-some {o = some (x, b)} (e, v, r) = (b, ap (λ y. some (y, b)) e, v, r)
