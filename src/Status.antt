-- ===== src/Status.antt =====
-- src/seabolt/src/bolt/status.h and status.c: the state of a connection and its last error. The text
-- of the error context is not part of the model.
use seabolt.Prelude.{ℕ, Bool, ◌==◌}
use seabolt.Error

-- `BoltConnectionState`.
pub data State : Type 0 where
  disconnected connected ready failed defunct : State

-- The numbers of the enumeration, by which states are compared.
abbrev pub state_number : State → ℕ
state_number disconnected = 0
state_number connected = 1
state_number ready = 2
state_number failed = 3
state_number defunct = 4

abbrev pub same_state : State → State → Bool
same_state s t = state_number s == state_number t

-- `struct BoltStatus`.
pub record Status : Type 0 where
  pub state : State
  pub error : ℕ

unfoldable pub create : Status
create = record { state = disconnected; error = Error.success }

unfoldable pub set_error : Status → ℕ → Status
set_error s error = record s { error = error }
