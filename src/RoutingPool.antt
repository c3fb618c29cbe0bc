-- ===== src/RoutingPool.antt =====
-- src/seabolt/src/bolt/routing-pool.c: a direct pool for each known server, chosen by the routing
-- table. Log lines are not part of the model; a call that lets its lock go takes what the other
-- threads do meanwhile as an argument.
pub mod Servers
pub mod Choice
pub mod Refresh
use seabolt.Prelude.{
  ℕ, zero, suc, ◌+◌, ◌%◌, Bool, true, false, not, ◌&&◌, ◌||◌, Option, none, some, List, [], ◌∷◌,
  ◌++◌, length, get_elem?, ltb, ◌==◌, if◌then◌else◌,
}
use seabolt.Prelude.Int.{ℤ, pos, ltb_ℤ}
use seabolt.Error
use seabolt.Address.{Address, c_string, same_text}
use seabolt.AddressSet
use seabolt.AddressSet.{AddressSet, index_of}
use seabolt.Values.{Value, Entries}
use seabolt.DirectPool.{Pool}
use seabolt.RoutingTable
use seabolt.RoutingTable.{RoutingTable, Memory, value_by_key, key_view, ◌>>=◌}

-- `server_pools` has an element for each of `servers`.
pub record RoutingPool : Type 0 where
  pub servers : AddressSet
  pub server_pools : List Pool
  pub routing_table : RoutingTable
  pub readers_offset : ℕ
  pub writers_offset : ℕ

unfoldable pub create : RoutingPool
unfolding RoutingTable.create
create = record {
  servers = AddressSet.create;
  server_pools = [];
  routing_table = RoutingTable.create;
  readers_offset = 0;
  writers_offset = 0;
}

-- The part of `ensure_server` under the write lock; `made` is what `BoltDirectPool_create` returns.
unfoldable pub add_server : Pool → RoutingPool → Address → Option ℕ × RoutingPool
unfolding index_of AddressSet.add
add_server made p server = elim (index_of p.servers server) [
  | some i ↦ (some i, p)
  | none ↦
      let (index, servers) = AddressSet.add p.servers server in
      (index, record p { servers = servers; server_pools = p.server_pools ++ (made ∷ []) })
]

-- No lock is held in two places: `meanwhile` is what the other threads make of the pool until the
-- write lock is taken, and `afterwards` what they make of it from its release until the read lock is
-- taken again. The index is that of the set under the write lock. The loop is left after one round,
-- since the index is one then.
unfoldable pub ensure_server :
    Pool
    → (RoutingPool → RoutingPool)
    → (RoutingPool → RoutingPool)
    → RoutingPool
    → Address
    → Bool
    → Option ℕ × RoutingPool
unfolding index_of add_server
ensure_server made meanwhile afterwards p server create_direct_pool =
    elim (index_of p.servers server) [
      | some i ↦ (some i, p)
      | none ↦
          let (index, q) = add_server made (meanwhile p) server in
          if create_direct_pool then (index, afterwards q) else (none, p)
    ]

-- `BoltRoutingPool_update_routing_table_from` returns a status and leaves a table.
abbrev pub Discovery : Type 0
Discovery = RoutingTable → Address → ℕ × RoutingTable

-- The loop over the routers.
unfoldable pub try_routers : Discovery → AddressSet → RoutingTable → ℕ × RoutingTable
try_routers from [] t = (Error.unable_to_retrieve_routing_table, t)
try_routers from (router ∷ routers) t =
    let (status, next) = from t router in
    let rest = try_routers from routers next in
    if status == Error.success then (Error.success, next) else rest

-- The routers that a refresh asks, in order: those of the table, then what the resolver gives, or the
-- address of the connector if it gives nothing.
unfoldable pub routers_to_try : AddressSet → Address → RoutingTable → AddressSet
unfolding AddressSet.add AddressSet.add_all
routers_to_try resolved address t =
    let initial =
      if AddressSet.size resolved == 0 then (AddressSet.add resolved address).1 else resolved in
    AddressSet.add_all (AddressSet.add_all AddressSet.create t.routers) initial

unfoldable pub update_routing_table :
    Discovery → AddressSet → Address → RoutingPool → ℕ × RoutingPool
unfolding try_routers routers_to_try
update_routing_table from resolved address p =
    let t = p.routing_table in
    let (status, next) = try_routers from (routers_to_try resolved address t) t in
    (status, record p { routing_table = next })

unfoldable pub forget_server : RoutingPool → Address → RoutingPool
unfolding RoutingTable.forget_server
forget_server p a = record p { routing_table = RoutingTable.forget_server p.routing_table a }

unfoldable pub forget_writer : RoutingPool → Address → RoutingPool
unfolding RoutingTable.forget_writer
forget_writer p a = record p { routing_table = RoutingTable.forget_writer p.routing_table a }

-- The cases of the `switch` of `handle_connection_error_by_code`, all of which forget the server.
unfoldable pub is_fatal : ℕ → Bool
is_fatal code =
    code == Error.unable_to_retrieve_routing_table
    || (code == Error.no_servers_to_select
        || (code == Error.unable_to_construct_pool_for_server
            || (code == Error.unable_to_refresh_routing_table
                || (code == Error.unexpected_discovery_response
                    || (code == Error.interrupted
                        || (code == Error.connection_reset
                            || (code == Error.no_valid_address
                                || (code == Error.timed_out
                                    || (code == Error.connection_refused
                                        || (code == Error.network_unreachable
                                            || (code == Error.tls_error
                                                || (code == Error.end_of_transmission
                                                    || code
                                                      == Error.address_not_resolved))))))))))))

unfoldable pub handle_connection_error_by_code : RoutingPool → Address → ℕ → RoutingPool
unfolding is_fatal forget_server
handle_connection_error_by_code p server code = if is_fatal code then forget_server p server else p

-- The texts that the code compares with.
-- "Neo.ClientError.General.ForbiddenOnReadOnlyDatabase"
abbrev pub forbidden_on_read_only_database : List ℕ
forbidden_on_read_only_database =
    78 ∷ 101 ∷ 111 ∷ 46 ∷ 67 ∷ 108 ∷ 105 ∷ 101 ∷ 110 ∷ 116 ∷ 69 ∷ 114 ∷ 114 ∷ 111 ∷ 114 ∷ 46 ∷ 71
    ∷ 101 ∷ 110 ∷ 101 ∷ 114 ∷ 97 ∷ 108 ∷ 46 ∷ 70 ∷ 111 ∷ 114 ∷ 98 ∷ 105 ∷ 100 ∷ 100 ∷ 101 ∷ 110 ∷ 79
    ∷ 110 ∷ 82 ∷ 101 ∷ 97 ∷ 100 ∷ 79 ∷ 110 ∷ 108 ∷ 121 ∷ 68 ∷ 97 ∷ 116 ∷ 97 ∷ 98 ∷ 97 ∷ 115 ∷ 101
    ∷ []

-- "Neo.ClientError.Cluster.NotALeader"
abbrev pub not_a_leader : List ℕ
not_a_leader =
    78 ∷ 101 ∷ 111 ∷ 46 ∷ 67 ∷ 108 ∷ 105 ∷ 101 ∷ 110 ∷ 116 ∷ 69 ∷ 114 ∷ 114 ∷ 111 ∷ 114 ∷ 46 ∷ 67
    ∷ 108 ∷ 117 ∷ 115 ∷ 116 ∷ 101 ∷ 114 ∷ 46 ∷ 78 ∷ 111 ∷ 116 ∷ 65 ∷ 76 ∷ 101 ∷ 97 ∷ 100 ∷ 101 ∷ 114
    ∷ []

-- "Neo.TransientError.General.DatabaseUnavailable"
abbrev pub database_unavailable : List ℕ
database_unavailable =
    78 ∷ 101 ∷ 111 ∷ 46 ∷ 84 ∷ 114 ∷ 97 ∷ 110 ∷ 115 ∷ 105 ∷ 101 ∷ 110 ∷ 116 ∷ 69 ∷ 114 ∷ 114 ∷ 111
    ∷ 114 ∷ 46 ∷ 71 ∷ 101 ∷ 110 ∷ 101 ∷ 114 ∷ 97 ∷ 108 ∷ 46 ∷ 68 ∷ 97 ∷ 116 ∷ 97 ∷ 98 ∷ 97 ∷ 115
    ∷ 101 ∷ 85 ∷ 110 ∷ 97 ∷ 118 ∷ 97 ∷ 105 ∷ 108 ∷ 97 ∷ 98 ∷ 108 ∷ 101 ∷ []

-- "code"
abbrev pub code_key : List ℕ
code_key = 99 ∷ 111 ∷ 100 ∷ 101 ∷ []

-- `failure` is the entries of the failure's dictionary; `none` is NULL. The `size` bytes of the code,
-- whatever its type is, are copied and read as a text.
unfoldable pub handle_connection_error_by_failure :
    Memory → RoutingPool → Address → Option Entries → RoutingPool
unfolding value_by_key c_string same_text forget_writer forget_server
handle_connection_error_by_failure m p server failure =
    elim (failure >>= λ es. value_by_key m es code_key) [
      | none ↦ p
      | some code ↦
          let text = c_string (key_view m code) in
          if same_text text forbidden_on_read_only_database
          then forget_writer p server
          else if same_text text not_a_leader
          then forget_writer p server
          else if same_text text database_unavailable
          then forget_server p server
          else p
    ]

unfoldable pub handle_connection_error :
    Memory → RoutingPool → Address → ℕ → Option Entries → RoutingPool
unfolding handle_connection_error_by_failure handle_connection_error_by_code
handle_connection_error m p server error failure =
    if error == Error.success
    then p
    else if error == Error.server_failure
    then handle_connection_error_by_failure m p server failure
    else handle_connection_error_by_code p server error

-- The number of connections towards a server: none if it has no pool.
unfoldable pub active_connections : RoutingPool → Address → ℤ
unfolding index_of
active_connections p server = elim (index_of p.servers server >>= get_elem? p.server_pools) [
  | none ↦ pos 0
  | some pool ↦ pool.in_use_count
]

-- The index stays in range, so that there is an element. The loop of `select_least_connected`, which `fuel` rounds go through; `best` and `least` are
-- `least_connected_server` and `least_connected`.
unfoldable pub select_loop :
    RoutingPool → AddressSet → ℕ → ℕ → ℕ → Option Address → ℤ → Option Address
unfolding active_connections
select_loop p servers start zero index best least = best
select_loop p servers start (suc fuel) index best least = elim (get_elem? servers index) [
  | none ↦ best
  | some server ↦
      let active = active_connections p server in
      let next = (index + 1) % AddressSet.size servers in
      let better = ltb_ℤ active least in
      let chosen = if better then some server else best in
      let fewest = if better then active else least in
      let more = select_loop p servers start fuel next chosen fewest in
      if next == start then chosen else more
]

abbrev pub int_max : ℕ
int_max = 0x7FFFFFFF

-- `none` is NULL. The loop has as many rounds as there are servers.
unfoldable pub select_least_connected : RoutingPool → AddressSet → ℕ → Option Address
unfolding select_loop
select_least_connected p servers offset =
    if AddressSet.size servers == 0
    then none
    else let start = offset % AddressSet.size servers in
      select_loop p servers start (AddressSet.size servers) start none (pos int_max)
