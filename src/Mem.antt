-- ===== src/Mem.antt =====
-- src/seabolt/src/bolt/mem.c: the allocation counters, and `memcpy_be` of mem.h on a little-endian
-- host. `malloc`, `realloc` and `free` are the C library's: the blocks they hand out are parameters.
pub mod Endian
pub mod Accounting
use seabolt.Prelude.{
  ℕ, zero, suc, ◌+◌, ◌*◌, ◌/◌, ◌%◌, Bool, true, false, Option, none, some, List, [], ◌∷◌, ◌==◌,
  if◌then◌else◌,
}
use seabolt.Prelude.Int.{ℤ, pos, ◌+ℤ◌, ◌-ℤ◌, ltb_ℤ}

-- `src[i]`; the second list case is a read past the block, which `Endian` rules out.
abbrev pub byte_at : List ℕ → ℕ → ℕ
byte_at [] i = 0
byte_at (x ∷ xs) zero = x
byte_at (x ∷ xs) (suc i) = byte_at xs i

-- `dest[i] = src[n - i - 1]` for i from 0 to n - 1: the bytes src[n - 1], ..., src[0].
pub reverse_copy : List ℕ → ℕ → List ℕ
reverse_copy src zero = []
reverse_copy src (suc k) = byte_at src k ∷ reverse_copy src k

-- How the host keeps a k-byte unsigned integer in memory: lowest byte first.
pub le_bytes : ℕ → ℕ → List ℕ
le_bytes zero x = []
le_bytes (suc k) x = x % 256 ∷ le_bytes k (x / 256)

pub le_value : List ℕ → ℕ
le_value [] = 0
le_value (b ∷ bs) = b + 256 * le_value bs

-- `memcpy_be(target, &x, k)`, and `memcpy_be(&x, source, k)`.
pub be_bytes : ℕ → ℕ → List ℕ
be_bytes k x = reverse_copy (le_bytes k x) k

pub be_value : ℕ → List ℕ → ℕ
be_value k bytes = le_value (reverse_copy bytes k)

-- The three static counters. They are `int64_t`; the model does not wrap them.
pub record Counters : Type 0 where
  pub allocation : ℤ
  pub peak_allocation : ℤ
  pub allocation_events : ℕ

raise_peak : Counters → ℤ → ℕ → Counters
raise_peak c now events = record {
  allocation = now;
  peak_allocation =
      if ltb_ℤ c.peak_allocation now
      then c.peak_allocation +ℤ (now -ℤ c.peak_allocation)
      else c.peak_allocation;
  allocation_events = events;
}

-- A call also returns the pointer; `p` is what the C library's allocator answered. Sizes are never
-- negative: every caller passes a `size_t`.
pub allocate : Option ℕ → ℕ → Counters → Option ℕ × Counters
unfolding raise_peak
allocate p new_size c = (p, raise_peak c (c.allocation +ℤ pos new_size) (suc c.allocation_events))

pub reallocate : Option ℕ → ℕ → ℕ → Counters → Option ℕ × Counters
unfolding raise_peak
reallocate p old_size new_size c =
    (p, raise_peak c (c.allocation +ℤ (pos new_size -ℤ pos old_size)) (suc c.allocation_events))

-- Freeing NULL does nothing. Freeing a block leaves the peak alone.
pub deallocate : Option ℕ → ℕ → Counters → Option ℕ × Counters
deallocate none old_size c = (none, c)
deallocate (some a) old_size c = (
  none,
  record c {
    allocation = c.allocation -ℤ pos old_size;
    allocation_events = suc c.allocation_events;
  },
)

-- `ptr` is the block to adjust, `p` what the allocator would answer.
pub adjust : Option ℕ → ℕ → ℕ → Option ℕ → Counters → Option ℕ × Counters
unfolding allocate reallocate deallocate
adjust ptr old_size new_size p c =
    if new_size == old_size
    then (ptr, c)
    else if old_size == 0
    then allocate p new_size c
    else if new_size == 0
    then deallocate ptr old_size c
    else reallocate p old_size new_size c
