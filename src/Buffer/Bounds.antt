-- ===== src/Buffer/Bounds.antt =====
-- The `int` fields of a buffer and the memory that its operations touch.
use seabolt.Prelude.{ℕ, ◌+◌, ◌≤◌, ◌≡◌, ◌⊎◌, arith}
use seabolt.Buffer.{Buffer, int_max, load_pointer}
use seabolt.Buffer.Contents.{IsValid}

-- In a valid buffer whose size is an `int`, and if the loaded bytes end below 2 ^ 31: the room that a
-- load is given lies inside the block, whose size is an `int` still, and the block is grown only if it
-- is too small, to no more than what the bytes need.
pub load_pointer-within :
    {b : Buffer} (n : ℕ)
    → IsValid b
    → b.size ≤ int_max
    → b.extent + n ≤ int_max
    → let (target, c) = load_pointer b n in
      (target + n ≤ c.size)
      × (c.size ≤ int_max)
      × (c.extent ≡ b.extent + n)
      × (b.size ≤ c.size)
      × ((c.size ≡ b.size) ⊎ (c.size ≡ b.extent + n))
unfolding load_pointer
load_pointer-within n v h k = ground arith
