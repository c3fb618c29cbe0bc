-- ===== src/Packstream/Result.antt =====
-- How the functions of packstream.c end, and the `TRY` macro.

-- The status codes of error.h that packstream.c and protocol.c return, other than BOLT_SUCCESS.
pub data Code : Type 0 where
  protocol_violation unsupported_type not_implemented_type unexpected_marker : Code

-- A call changes its argument also where it fails, so `err` carries the state that is left.
-- `fault`: the C code fails an assertion, reads a variable or bytes that were never set, or copies a
-- block of negative size. `stuck` is no result of the C code: the model ran out of fuel.
pub data Result {ℓ} (A : Type ℓ) : Type ℓ where
  ok : A → Result A
  err : Code → A → Result A
  fault : Result A
  stuck : Result A

-- `TRY(m); k`
infixl 5 ◌>>=◌
abbrev pub ◌>>=◌ {ℓ} : {A : Type ℓ} → Result A → (A → Result A) → Result A
ok a >>= k = k a
err c a >>= k = err c a
fault >>= k = fault
stuck >>= k = stuck
