-- ===== src/NoPool.antt =====
-- src/seabolt/src/bolt/no-pool.c: a pool that opens a connection for each acquisition and closes it
-- with its release. A pointer to a connection is a number; what `malloc` returns for a new one is an
-- argument. The two sections under the mutex, and the calls around them, are one step each: they touch
-- a connection that no other thread has. Names, locks and log lines are not part of the model.
pub mod Arrays
pub mod Liveness
pub mod Removal
pub mod Lifetimes
use seabolt.Prelude.{
  ℕ, zero, suc, Bool, true, false, Option, none, some, List, [], ◌∷◌, ◌++◌, ◌==◌, if◌then◌else◌,
}
use seabolt.Error
use seabolt.Status as Status
use seabolt.Status.{Status, disconnected}

-- What the pool calls of connection.c and address.c, on the status of a connection. A Boolean says
-- that the call succeeded.
pub record Calls : Type 0 where
  pub resolve : Bool
  pub open_connection : Status → Bool × Status
  pub init : Status → Bool × Status

-- `connections` is the array of the pool. `live` has the status of each connection that was created
-- and not destroyed.
pub record Pool : Type 0 where
  pub connections : List ℕ
  pub live : ℕ → Option Status

abbrev pub put : (ℕ → Option Status) → ℕ → Option Status → ℕ → Option Status
put live p o q = if q == p then o else live q

-- `BoltNoPool_create`.
unfoldable pub create : Pool
create = record { connections = []; live = λ p. none }

unfoldable pub find_open_connection : List ℕ → ℕ → Option ℕ
find_open_connection [] connection = none
find_open_connection (c ∷ cs) connection =
    let later = find_open_connection cs connection in
    if c == connection then some 0 else (elim later [ none ↦ none | some i ↦ some (suc i) ])

-- The calls up to the switch on `pool_error`: the error, and the status that they leave.
unfoldable pub prepare : Calls → Status → ℕ × Status
prepare calls s =
    let (opened, s') = calls.open_connection s in
    let (ready, s'') = calls.init s' in
    if calls.resolve
    then (if opened
        then (if ready then (Error.success, s'') else (Error.connection_has_more_info, s''))
        else (Error.connection_has_more_info, s'))
    else (Error.address_not_resolved, s)

-- `BoltNoPool_acquire`: the connection, the caller's status, and the pool. The connection is returned
-- also where the acquisition failed.
unfoldable pub acquire : Calls → ℕ → Pool → ℕ × Status × Pool
unfolding prepare Status.create
acquire calls new pool =
    let (pool_error, s) = prepare calls Status.create in
    let live = put pool.live new (some s) in
    if pool_error == Error.success
    then (
      new,
      record { state = s.state; error = Error.success },
      record { connections = pool.connections ++ (new ∷ []); live = live },
    )
    else if pool_error == Error.connection_has_more_info
    then (new, s, record pool { live = live })
    else (new, record { state = disconnected; error = pool_error }, record pool { live = live })

-- The loop that moves each later connection one place forward, and the shorter block.
unfoldable pub remove_at : List ℕ → ℕ → List ℕ
remove_at [] i = []
remove_at (c ∷ cs) zero = cs
remove_at (c ∷ cs) (suc i) = c ∷ remove_at cs i

-- `BoltNoPool_release` where it closes and destroys the connection: the index, `none` for -1, and the
-- pool.
unfoldable pub taken : Pool → ℕ → Option ℕ × Pool
taken pool connection =
    let index = find_open_connection pool.connections connection in
    let live = put pool.live connection none in
    (
      index,
      elim index [
        | none ↦ record pool { live = live }
        | some i ↦ record { connections = remove_at pool.connections i; live = live }
      ],
    )

-- `BoltNoPool_release`. The connection is closed and destroyed whatever the index is: `none` is a call
-- with the address of a connection that was destroyed before, and frees its memory again.
unfoldable pub release : Pool → ℕ → Option (Option ℕ × Pool)
unfolding taken
release pool connection = elim (pool.live connection) [
  | none ↦ none
  | some s ↦ some (taken pool connection)
]

-- The loop of `BoltNoPool_destroy` destroys what the array holds; `none` as for `release`.
unfoldable pub destroyed : List ℕ → (ℕ → Option Status) → Option (ℕ → Option Status)
destroyed [] live = some live
destroyed (c ∷ cs) live =
    let rest = destroyed cs (put live c none) in elim (live c) [ none ↦ none | some s ↦ rest ]

-- `BoltNoPool_destroy`: the connections that are left alive.
unfoldable pub destroy : Pool → Option (ℕ → Option Status)
unfolding destroyed
destroy pool = destroyed pool.connections pool.live
