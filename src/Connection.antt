-- ===== src/Connection.antt =====
-- src/seabolt/src/bolt/connection.c, below the protocol: the status of a connection, and the bytes
-- that it sends and receives through its two buffers. The address, the metrics and the log lines are
-- not part of the model. A buffer's memory is mapped by index, as in `Buffer`.
pub mod Outcomes
pub mod Statuses
pub mod Landing
pub mod Receive
pub mod Delivery
use seabolt.Prelude.{
  ◌≡◌, ℕ, zero, suc, ◌+◌, ◌-◌, Bool, false, true, not, ◌&&◌, Option, none, some, List, [], ◌∷◌,
  length, ltb, ◌==◌, if◌then◌else◌,
}
use seabolt.Error
use seabolt.Status.{Status, State, failed, defunct, same_state}
use seabolt.Buffer
use seabolt.Buffer.{Buffer}
use seabolt.Buffer.Memory.{write}
use seabolt.Protocol.{pointed}
use seabolt.Communication
use seabolt.Communication.{Transport}

-- The fields of `struct BoltConnection` that take part in a conversation. `watched` says that
-- `on_error_cb` is not NULL, and `reported` is what its calls found in the status, the latest first.
pub record Connection {ℓ} (S : Type ℓ) : Type ℓ where
  pub status : Status
  pub watched : Bool
  pub reported : List Status
  pub transport : S
  pub tx : Buffer
  pub rx : Buffer

-- How a call ends. `fault`: the C code reads memory that was never set. `stuck` is no result of the C
-- code: the model ran out of fuel.
pub data Outcome {ℓ} (A : Type ℓ) : Type ℓ where
  done : A → Outcome A
  fault : Outcome A
  stuck : Outcome A

-- The call ends, with a result that meets `P`.
abbrev pub Ends {ℓ κ} : {A : Type ℓ} → Outcome A → (A → Type κ) → Type (ℓ ⊔ κ)
Ends {A} r P = (a : A) × (r ≡ done a) × P a

infixl 5 ◌>>=◌
abbrev pub ◌>>=◌ {ℓ κ} : {A : Type ℓ} {B : Type κ} → Outcome A → (A → Outcome B) → Outcome B
done a >>= k = k a
fault >>= k = fault
stuck >>= k = stuck

-- The end of `_status_changed`: the callback is told of a connection that has failed.
abbrev pub is_broken : State → Bool
is_broken failed = true
is_broken defunct = true
is_broken _ = false

unfoldable pub status_changed {ℓ} : {S : Type ℓ} → Connection S → Connection S
status_changed c =
    if is_broken c.status.state && c.watched
    then record c { reported = c.status ∷ c.reported }
    else c

-- `_set_status` and `_set_status_with_ctx`.
unfoldable pub set_status {ℓ} : {S : Type ℓ} → Connection S → State → ℕ → Connection S
unfolding status_changed
set_status c state error =
    let d = record c { status = record { state = state; error = error } } in
    if not (same_state state c.status.state) then status_changed d else d

-- `comm_error` is what the calls of the transport leave in the status of the communication.
module _ {ℓ} {S : Type ℓ} (t : Transport S) (comm_error : S → ℕ) where
  -- `_set_status_from_comm` with DEFUNCT.
  unfoldable pub set_status_from_comm : Connection S → Connection S
  unfolding set_status
  set_status_from_comm c = set_status c defunct (comm_error c.transport)

  -- `BoltConnection_send`. The pointer is read by the call behind it.
  unfoldable pub send : Connection S → Outcome (ℕ × Connection S)
  send c =
      let (xs, tx) = pointed c.tx (Buffer.unloadable c.tx) in
      elim (Communication.send t c.transport xs) [
        | none ↦ stuck
        | some (code, s) ↦
            let d = record c { tx = tx; transport = s } in
            let e = if code == Error.success then d else set_status_from_comm d in
            let status = if code == Error.success then code else Error.status_set in
            done (status, record e { tx = Buffer.compact e.tx })
      ]

  -- What `BoltCommunication_receive` gave in the room for `max_size` bytes behind what the buffer
  -- holds; the extent is set back by the room that was not used.
  unfoldable pub received :
      Connection S → Buffer → ℕ → Option (ℕ × (List ℕ × S)) → Outcome (ℕ × ℕ × Connection S)
  received c rx max_size none = stuck
  received c rx max_size (some (code, (xs, s))) =
      let (target, grown) = Buffer.load_pointer rx max_size in
      let filled = record grown { bytes = write grown.bytes target xs } in
      let d = record c { rx = filled; transport = s } in
      let extent = filled.extent - max_size + length xs in
      done (
        if code == Error.success
        then (Error.success, length xs, record d { rx = record filled { extent = extent } })
        else (Error.status_set, 0, set_status_from_comm d))

  -- One round of the loop of `BoltConnection_receive`, for at least `delta` bytes.
  unfoldable pub receive_round : Connection S → ℕ → Outcome (ℕ × ℕ × Connection S)
  receive_round c delta =
      let rx = if Buffer.loadable c.rx == 0 then Buffer.compact c.rx else c.rx in
      let room = Buffer.loadable rx in
      let max_size = if ltb room delta then delta else room in
      received c rx max_size (Communication.receive t c.transport delta max_size)

  -- Each round that succeeds receives `delta` bytes at least, so that one is enough.
  unfoldable pub receive_loop : ℕ → Connection S → ℕ → Outcome (ℕ × Connection S)
  receive_loop zero c delta = if ltb 0 delta then stuck else done (Error.success, c)
  receive_loop (suc fuel) c delta =
      let round = receive_round c delta in
      let more = round >>= λ (code, received, d). elim (code == Error.success) [
        | true ↦ receive_loop fuel d (delta - received)
        | false ↦ done (code, d)
      ] in
      if ltb 0 delta then more else done (Error.success, c)

  -- What is read, and nothing if the call fails. The result of the last `BoltBuffer_unload` is
  -- dropped: where it fails, the caller reads bytes that were never set.
  abbrev pub take_bytes : Connection S → ℕ → Outcome (ℕ × List ℕ × Connection S)
  take_bytes c size = elim (Buffer.unload c.rx size) [
    | none ↦ fault
    | some (xs, rx) ↦ done (Error.success, xs, record c { rx = rx })
  ]

  -- `BoltConnection_receive`: the status, the bytes that were written to `buffer`, and what is left.
  unfoldable pub receive : Connection S → ℕ → Outcome (ℕ × List ℕ × Connection S)
  receive c size =
      let available = Buffer.unloadable c.rx in
      let filled = receive_loop (size - available) c (size - available) in
      let got = filled >>= λ (code, d). elim (code == Error.success) [
        | true ↦ take_bytes d size
        | false ↦ done (Error.status_set, [], d)
      ] in
      if size == 0 then done (Error.success, [], c) else got
