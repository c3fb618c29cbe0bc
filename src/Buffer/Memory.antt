-- ===== src/Buffer/Memory.antt =====
-- A block of memory as a map from indices to bytes: copying a run of bytes in and out.
use seabolt.Prelude.{
  ℕ, zero, suc, ◌+◌, ◌≤◌, ◌-◌, ◌<◌, ◌≡◌, refl, ap, ap₂, take, drop, ◌∙◌, List, [], ◌∷◌, ◌++◌,
  length, ◌==◌, if◌then◌else◌, arith,
}

abbrev pub Cells : Type 0
Cells = ℕ → ℕ

-- `memcpy(m + i, xs, length xs)`
unfoldable pub write : Cells → ℕ → List ℕ → Cells
write m i [] j = m j
write m i (x ∷ xs) j = if j == i then x else write m (suc i) xs j

-- The `n` bytes from index `i` on.
unfoldable pub slice : Cells → ℕ → ℕ → List ℕ
slice m i zero = []
slice m i (suc n) = m i ∷ slice m (suc i) n

pub length-slice : (m : Cells) (i n : ℕ) → length (slice m i n) ≡ n
unfolding slice
length-slice m i zero = refl
length-slice m i (suc n) = ap suc (length-slice m (suc i) n)

pub slice_cong :
    (f g : Cells) (i n : ℕ) → ((j : ℕ) → i ≤ j → j < i + n → f j ≡ g j) → slice f i n ≡ slice g i n
unfolding slice
slice_cong f g i zero h = refl
slice_cong f g i (suc n) h =
    rw (h i (omega arith) (omega arith))
      (ap (◌∷◌ (g i)) (slice_cong f g (suc i) n (λ j p q. h j (omega arith) (omega arith))))

pub write_below : (m : Cells) (i : ℕ) (xs : List ℕ) (j : ℕ) → j < i → write m i xs j ≡ m j
unfolding write
write_below m i [] j h = refl
write_below m i (x ∷ xs) j h = ground (arith, write_below m (suc i) xs j)

-- A run of bytes below a write is as it was; the run that was written is the bytes written.
pub slice-write_below :
    (m : Cells) (i n k : ℕ) (xs : List ℕ) → i + n ≤ k → slice (write m k xs) i n ≡ slice m i n
slice-write_below m i n k xs h =
    slice_cong (write m k xs) m i n (λ j p q. write_below m k xs j (omega arith))

pub slice-write_self : (m : Cells) (i : ℕ) (xs : List ℕ) → slice (write m i xs) i (length xs) ≡ xs
unfolding slice write
slice-write_self m i [] = refl
slice-write_self m i (x ∷ xs) = ground (
  arith,
  slice_cong (write m i (x ∷ xs)) (write m (suc i) xs) (suc i) (length xs) (λ j p q. ground arith),
  slice-write_self m (suc i) xs,
)

pub slice-add : (m : Cells) (i n k : ℕ) → slice m i (n + k) ≡ slice m i n ++ slice m (i + n) k
unfolding slice
slice-add m i zero k = ground arith
slice-add m i (suc n) k =
    let left : suc n + k ≡ suc (n + k) = omega arith in
    let right : i + suc n ≡ suc i + n = omega arith in
    rw (left, right) (ap (◌∷◌ (m i)) (slice-add m (suc i) n k))

pub take-slice : (m : Cells) (i n k : ℕ) → n ≤ k → take n (slice m i k) ≡ slice m i n
unfolding slice
take-slice m i zero k h = refl
take-slice m i (suc n) zero h = absurd (omega arith)
take-slice m i (suc n) (suc k) h = ap (◌∷◌ (m i)) (take-slice m (suc i) n k (omega arith))

pub drop-slice : (m : Cells) (i n k : ℕ) → n ≤ k → drop n (slice m i k) ≡ slice m (i + n) (k - n)
unfolding slice
drop-slice m i zero k h = ap₂ (slice m) (omega arith) (omega arith)
drop-slice m i (suc n) zero h = absurd (omega arith)
drop-slice m i (suc n) (suc k) h =
    drop-slice m (suc i) n k (omega arith) ∙ ap₂ (slice m) (omega arith) (omega arith)
