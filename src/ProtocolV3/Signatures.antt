-- ===== src/ProtocolV3/Signatures.antt =====
-- v3.h and v3.c: the codes of version 3, and which structures may be read and written.
use seabolt.Prelude.{ℕ, Bool, [], ◌∷◌, ◌++◌}
use seabolt.Prelude.Int.{ℤ}
use seabolt.ProtocolV1.Code
use seabolt.ProtocolV1.Signatures.{signature_in, graph_types, point_and_time_types}

abbrev pub hello : ℕ
hello = 0x01

abbrev pub goodbye : ℕ
goodbye = 0x02

abbrev pub begin_code : ℕ
begin_code = 0x11

abbrev pub commit : ℕ
commit = 0x12

abbrev pub rollback : ℕ
rollback = 0x13

unfoldable pub check_readable_v3 : ℤ → Bool
check_readable_v3 signature =
    let responses = Code.success ∷ Code.failure ∷ Code.ignored ∷ Code.record_code ∷ [] in
    signature_in (responses ++ (graph_types ++ point_and_time_types)) signature

unfoldable pub check_writable_v3 : ℤ → Bool
check_writable_v3 signature =
    let requests = Code.reset ∷ Code.discard_all ∷ Code.pull_all ∷ [] in
    let later = hello ∷ Code.run ∷ begin_code ∷ commit ∷ rollback ∷ goodbye ∷ [] in
    signature_in (requests ++ (point_and_time_types ++ later)) signature
