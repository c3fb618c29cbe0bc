-- ===== src/ProtocolV1/Signatures.antt =====
-- v1.h, v1.c and v2.c: the codes of messages and structures, and which of them may be read and
-- written.
use seabolt.Prelude.{ℕ, Bool, false, List, [], ◌∷◌, ◌||◌, ◌==◌}
use seabolt.ProtocolV1.Code
use seabolt.Prelude.Int.{ℤ, pos, negsuc}

-- A `switch` with one result for all its cases.
abbrev pub one_of : List ℕ → ℕ → Bool
one_of [] c = false
one_of (x ∷ xs) c = c == x || one_of xs c

-- `signature` is an `int16_t`; no case is negative.
abbrev pub signature_in : List ℕ → ℤ → Bool
signature_in xs (pos c) = one_of xs c
signature_in xs (negsuc c) = false

-- The characters 'N', 'R', 'r' and 'P' of the graph types.
abbrev pub graph_types : List ℕ
graph_types = 0x4E ∷ 0x52 ∷ 0x72 ∷ 0x50 ∷ []

unfoldable pub check_readable_v1 : ℤ → Bool
check_readable_v1 signature =
    signature_in (Code.success ∷ Code.failure ∷ Code.ignored ∷ Code.record_code ∷ graph_types)
      signature

unfoldable pub check_writable_v1 : ℤ → Bool
check_writable_v1 signature = signature_in (0x01 ∷ 0x0E ∷ 0x0F ∷ 0x10 ∷ 0x2F ∷ 0x3F ∷ []) signature

-- The characters 'X', 'Y', 'D', 'd', 't', 'T', 'F', 'f' and 'E' of the points and times.
abbrev pub point_and_time_types : List ℕ
point_and_time_types = 0x58 ∷ 0x59 ∷ 0x44 ∷ 0x64 ∷ 0x74 ∷ 0x54 ∷ 0x46 ∷ 0x66 ∷ 0x45 ∷ []

unfoldable pub check_readable_v2 : ℤ → Bool
unfolding check_readable_v1
check_readable_v2 signature =
    check_readable_v1 signature || signature_in point_and_time_types signature

unfoldable pub check_writable_v2 : ℤ → Bool
unfolding check_writable_v1
check_writable_v2 signature =
    check_writable_v1 signature || signature_in point_and_time_types signature
