-- ===== src/DirectPool.antt =====
-- src/seabolt/src/bolt/direct-pool.c: the pool of connections towards one server. A call runs under
-- the pool's mutex, so that calls are steps one behind the other; a caller that waits for the
-- condition variable gives the mutex up, and its next round is a step of its own. The pool's address,
-- name, lock and log lines are not part of the model, nor are the results that a run and a
-- transaction have left in a connection's protocol state and that `release` clears.
pub mod Scan
pub mod Leases
pub mod System
use seabolt.Prelude.{
  ℕ, zero, suc, ◌+◌, Bool, true, false, not, ◌&&◌, Option, none, some, List, [], ◌∷◌, length, set,
  replicate, get_elem?, ltb, ◌==◌, if◌then◌else◌,
}
use seabolt.Prelude.Int.{ℤ, pos, ◌+ℤ◌, ◌-ℤ◌, leb_ℤ, ltb_ℤ}
use seabolt.Error
pub use seabolt.Status.{State, disconnected, connected, ready, failed, defunct}

-- The fields of `struct BoltConnection` that the pool reads and writes. `agent` says that the field
-- is not NULL, `secured` that the pool's security context was assigned; `opened` is `time_opened` in
-- milliseconds.
pub record Connection : Type 0 where
  pub state : State
  pub error : ℕ
  pub agent : Bool
  pub opened : ℤ
  pub secured : Bool

-- What the pool calls of connection.c and address.c. A Boolean says that the call
-- succeeded; `send` and `fetch_summary` return a status, of which the pool asks whether it is negative.
pub record Calls : Type 0 where
  pub resolve : Bool
  pub open_connection : Connection → Bool × Connection
  pub init : Connection → Bool × Connection
  pub load_reset_request : Connection → Bool × Connection
  pub send : Connection → ℤ × Connection
  pub fetch_summary : Connection → ℤ × Connection
  pub summary_success : Connection → Bool
  pub close : Connection → Connection

-- `config` is the two times of it that the pool reads; `connections` has `max_size` elements.
pub record Pool : Type 0 where
  pub max_connection_life_time : ℤ
  pub max_connection_acquisition_time : ℤ
  pub in_use_count : ℤ
  pub connections : List Connection

abbrev pub max_size : Pool → ℕ
max_size p = length p.connections

-- `BoltConnection_create`.
abbrev pub fresh : Connection
fresh = record {
  state = disconnected;
  error = Error.success;
  agent = false;
  opened = pos 0;
  secured = false;
}

-- The loop that assigns the security context writes `connections[0]` in each round.
unfoldable pub assign_sec_context : ℕ → List Connection → List Connection
assign_sec_context zero cs = cs
assign_sec_context (suc n) [] = []
assign_sec_context (suc n) (c ∷ cs) = assign_sec_context n (record c { secured = true } ∷ cs)

unfoldable pub create : Bool → ℕ → ℤ → ℤ → Pool
unfolding assign_sec_context
create encrypted max life wait = record {
  max_connection_life_time = life;
  max_connection_acquisition_time = wait;
  in_use_count = pos 0;
  connections =
      if encrypted then assign_sec_context max (replicate max fresh) else replicate max fresh;
}

abbrev pub is_disconnected : State → Bool
is_disconnected disconnected = true
is_disconnected _ = false

abbrev pub is_closed : State → Bool
is_closed disconnected = true
is_closed defunct = true
is_closed _ = false

module _ (calls : Calls) where
  unfoldable pub close_pool_entry : Connection → Connection
  close_pool_entry c = if is_disconnected c.state then c else calls.close c

  -- The check of a connection's age.
  unfoldable pub expire : ℤ → ℤ → Connection → Connection
  unfolding close_pool_entry ◌-ℤ◌
  expire life now c =
      if not (is_closed c.state) && (ltb_ℤ (pos 0) life && ltb_ℤ life (now -ℤ c.opened))
      then close_pool_entry c
      else c

  -- The loop of `find_unused_connection`: the index and what stands there.
  unfoldable pub scan_unused : ℤ → ℤ → List Connection → Option (ℕ × Connection)
  unfolding expire
  scan_unused life now [] = none
  scan_unused life now (c ∷ cs) =
      let found = scan_unused life now cs in
      if c.agent
      then elim found [ none ↦ none | some (i, d) ↦ some (suc i, d) ]
      else some (0, expire life now c)

  unfoldable pub find_unused_connection : ℤ → Pool → Option (ℕ × Connection)
  unfolding scan_unused
  find_unused_connection now p =
      if leb_ℤ (pos (max_size p)) p.in_use_count
      then none
      else scan_unused p.max_connection_life_time now p.connections

  -- These return the status and the connection as they leave it.
  unfoldable pub init : Connection → ℕ × Connection
  init c =
      let (good, d) = calls.init c in
      (if good then Error.success else Error.connection_has_more_info, d)

  -- A status of `send` that tells of a failure is positive, so that it does not end the call.
  unfoldable pub reset : Connection → Bool × Connection
  reset c =
      let (loaded, d) = calls.load_reset_request c in
      let (sent, e) = calls.send d in
      let (fetched, f) = calls.fetch_summary e in
      if not loaded
      then (false, d)
      else if ltb_ℤ sent (pos 0)
      then (false, e)
      else if ltb_ℤ fetched (pos 0)
      then (false, f)
      else (calls.summary_success f, f)

  unfoldable pub open_init : Connection → ℕ × Connection
  unfolding init
  open_init c =
      let (opened, d) = calls.open_connection c in
      if not calls.resolve
      then (Error.address_not_resolved, c)
      else if opened
      then init d
      else (Error.connection_has_more_info, d)

  unfoldable pub reset_or_open_init : Connection → ℕ × Connection
  unfolding reset open_init
  reset_or_open_init c = let (good, d) = reset c in if good then (Error.success, d) else open_init d

  unfoldable pub reset_or_close : Connection → Connection
  unfolding reset close_pool_entry
  reset_or_close c = let (good, d) = reset c in if good then d else close_pool_entry d

  -- The `switch` on the state of the connection that was found.
  unfoldable pub prepare : Connection → ℕ × Connection
  unfolding open_init init reset_or_open_init
  prepare c = elim c.state [
    | disconnected ↦ open_init c
    | defunct ↦ open_init c
    | connected ↦ init c
    | failed ↦ reset_or_open_init c
    | ready ↦ (Error.success, c)
  ]

-- How a round of the loop of `BoltDirectPool_acquire` ends: with the connection at an index, whose
-- state is reported; with NULL and a state and an error; or in a wait for a release.
pub data Outcome : Type 0 where
  acquired : ℕ → State → Outcome
  refused : State → ℕ → Outcome
  waits : Outcome

-- The retry at the end of a round.
unfoldable pub retry : Pool → State → ℕ → Outcome
retry p state error =
    if error == Error.pool_full && ltb_ℤ (pos 0) p.max_connection_acquisition_time
    then waits
    else refused state error

-- The wait ends without a signal.
abbrev pub timed_out : Outcome
timed_out = refused disconnected Error.pool_acquisition_timed_out

-- The `switch` on `pool_error`, for the connection at `i` as it was prepared.
unfoldable pub hand_out : Pool → ℕ → ℕ × Connection → Outcome × Pool
unfolding retry ◌+ℤ◌
hand_out p i (code, c) =
    if code == Error.success
    then (
      acquired i c.state,
      record p {
        connections = set p.connections i (record c { agent = true });
        in_use_count = p.in_use_count +ℤ pos 1;
      },
    )
    else let q : Pool = record p { connections = set p.connections i c } in
      (
        if code == Error.connection_has_more_info
            then retry p c.state c.error
            else retry p disconnected code,
        q,
      )

module _ (calls : Calls) where
  -- A round of the loop of `BoltDirectPool_acquire`; `now` is the time.
  unfoldable pub try_acquire : ℤ → Pool → Outcome × Pool
  unfolding find_unused_connection hand_out prepare retry
  try_acquire now p = elim (find_unused_connection calls now p) [
    | none ↦ (retry p disconnected Error.pool_full, p)
    | some (i, c) ↦ hand_out p i (prepare calls c)
  ]

  -- A connection is named by its index; any number that is no index stands for a pointer that
  -- `find_connection` does not find, -1.
  unfoldable pub release : ℕ → Pool → Option ℕ × Pool
  unfolding reset_or_close ◌-ℤ◌
  release i p = elim (get_elem? p.connections i) [
    | some c ↦ (
      some i,
      record p {
        connections = set p.connections i (reset_or_close calls (record c { agent = false }));
        in_use_count = p.in_use_count -ℤ pos 1;
      },
    )
    | none ↦ (none, record p { in_use_count = p.in_use_count -ℤ pos 1 })
  ]

  -- The loop of `BoltDirectPool_destroy`: each entry is closed, and its memory is freed.
  unfoldable pub close_entries : List Connection → List Connection
  unfolding close_pool_entry
  close_entries [] = []
  close_entries (c ∷ cs) = close_pool_entry calls c ∷ close_entries cs
