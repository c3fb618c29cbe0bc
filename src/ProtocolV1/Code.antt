-- ===== src/ProtocolV1/Code.antt =====
-- The message codes of v1.h.
use seabolt.Prelude.{ℕ}

abbrev pub init : ℕ
init = 0x01

abbrev pub ack_failure : ℕ
ack_failure = 0x0E

abbrev pub reset : ℕ
reset = 0x0F

abbrev pub run : ℕ
run = 0x10

abbrev pub discard_all : ℕ
discard_all = 0x2F

abbrev pub pull_all : ℕ
pull_all = 0x3F

abbrev pub success : ℕ
success = 0x70

abbrev pub record_code : ℕ
record_code = 0x71

abbrev pub ignored : ℕ
ignored = 0x7E

abbrev pub failure : ℕ
failure = 0x7F
