-- ===== src/Mem/Endian.antt =====
-- What `memcpy_be` does to the bytes of an integer.
use Prim.Native.Nat.{◌^◌, ◌<◌}
use mathlib.Core.List.{reverse-cons, reverse-reverse}
use native.Mathlib.Nat.{pow-suc}
use seabolt.Prelude.{
  ℕ, zero, suc, ◌/◌, ◌%◌, ◌≡◌, refl, sym, ap, ◌∙◌, List, [], ◌∷◌, ◌++◌, reverse, length,
  length-reverse, All, arith,
}
use seabolt.Mem.{byte_at, reverse_copy, le_bytes, le_value, be_bytes, be_value}

abbrev pub IsByte : ℕ → Type 0
IsByte b = b < 256

pub length-le_bytes : (k x : ℕ) → length (le_bytes k x) ≡ k
unfolding le_bytes
length-le_bytes zero x = refl
length-le_bytes (suc k) x = ap suc (length-le_bytes k (x / 256))

le_bytes-IsByte : (k x : ℕ) → All IsByte (le_bytes k x)
unfolding le_bytes
le_bytes-IsByte zero x = tt
le_bytes-IsByte (suc k) x = (omega arith, le_bytes-IsByte k (x / 256))

pub le_value-le_bytes : (k x : ℕ) → x < 256 ^ k → le_value (le_bytes k x) ≡ x
unfolding le_bytes le_value
le_value-le_bytes zero x h = omega arith
le_value-le_bytes (suc k) x h =
    omega (arith, le_value-le_bytes k (x / 256) (omega (arith, pow-suc 256 k)))

-- The loop over a block whose first byte is `x`.
reverse_copy-cons :
    (x : ℕ) (xs : List ℕ) (k : ℕ) → reverse_copy (x ∷ xs) (suc k) ≡ reverse_copy xs k ++ (x ∷ [])
unfolding reverse_copy
reverse_copy-cons x xs zero = refl
reverse_copy-cons x xs (suc k) = ap (◌∷◌ (byte_at xs k)) (reverse_copy-cons x xs k)

pub reverse_copy-reverse : (xs : List ℕ) → reverse_copy xs (length xs) ≡ reverse xs
reverse_copy-reverse [] = unfold reverse_copy in refl
reverse_copy-reverse (x ∷ xs) =
    reverse_copy-cons x xs (length xs)
    ∙ ap (λ ys. ys ++ (x ∷ [])) (reverse_copy-reverse xs)
    ∙ sym (reverse-cons x xs)

reverse_copy_twice : (xs : List ℕ) → reverse_copy (reverse_copy xs (length xs)) (length xs) ≡ xs
reverse_copy_twice xs = rw reverse_copy-reverse (
    ap (reverse_copy (reverse xs)) (sym (length-reverse xs))
    ∙ reverse_copy-reverse (reverse xs)
    ∙ reverse-reverse xs)

pub length-be_bytes : (k x : ℕ) → length (be_bytes k x) ≡ k
unfolding be_bytes reverse_copy
length-be_bytes k x = go k (le_bytes k x)
  where
    go : (n : ℕ) (src : List ℕ) → length (reverse_copy src n) ≡ n
    go zero src = refl
    go (suc n) src = ap suc (go n src)

-- An integer that fits k bytes is read back from its big-endian form.
pub be_value-be_bytes : (k x : ℕ) → x < 256 ^ k → be_value k (be_bytes k x) ≡ x
unfolding be_bytes be_value
be_value-be_bytes k x h =
    ap le_value (
      ap (λ n. reverse_copy (reverse_copy (le_bytes k x) n) n) (sym (length-le_bytes k x))
      ∙ reverse_copy_twice (le_bytes k x))
    ∙ le_value-le_bytes k x h

-- The big-endian form of a 16-bit integer is its high byte, then its low byte.
pub be_bytes_two : (x : ℕ) → be_bytes 2 x ≡ x / 256 % 256 ∷ x % 256 ∷ []
unfolding be_bytes reverse_copy le_bytes
be_bytes_two x = refl

pub be_bytes_one : (x : ℕ) → be_bytes 1 x ≡ x % 256 ∷ []
unfolding be_bytes reverse_copy le_bytes
be_bytes_one x = refl

pub be_value_one : (x : ℕ) → be_value 1 (x ∷ []) ≡ x
unfolding be_value reverse_copy le_value
be_value_one x = omega arith
