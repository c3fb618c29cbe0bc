-- ===== src/Examples/Pools.antt =====
-- Addresses, address sets, the routing table, the pools and the transfer loops: small inputs.
use seabolt.Prelude.{
  if◌then◌else◌, inr, inl, Bool-cases, sym, append-nil, ℕ, zero, suc, ◌≡◌, ◌≢◌, subst, get_elem?,
  refl, ◌↔◌, ◌⊎◌, true, false, none, some, List, [], ◌∷◌, arith,
}
use seabolt.Prelude.Int.{ℤ, pos, ◌+ℤ◌, ◌≤ℤ◌, ltb_ℤ}
use mathlib.Core.List.{Memᴰ}
use seabolt.Error
use seabolt.Address.{Address, same_text, colon, create_from_string}
use seabolt.Address.Parse.{IsNamed, create_from_string-print}
use seabolt.AddressSet
use seabolt.AddressSet.{AddressSet, index_of, same}
use seabolt.AddressSet.Members as Members
use seabolt.AddressSet.Members.{add_members, remove_members}
use seabolt.AddressSet.Reach as Reach
use seabolt.AddressSet.Reach.{add_all_members, Reachable-IsValid}
use seabolt.RoutingTable
use seabolt.RoutingTable.{
  Memory, RoutingTable, reads, writes, routes, update, int64, thousandfold, forget_server,
  forget_writer,
}
use seabolt.RoutingTable.Update.{Server, IsPrintable, print_response, named_for, update-print}
use seabolt.RoutingTable.Safety.{Finished, update-Finished, forget_members}
use seabolt.DirectPool.{
  Connection, Calls, Pool, ready, fresh, max_size, find_unused_connection, try_acquire, release,
}
use seabolt.DirectPool as DirectPool
use seabolt.DirectPool.Scan.{KeepsAgent, used}
use seabolt.DirectPool.Leases as Leases
use seabolt.DirectPool.Leases.{
  Handed, try_acquire-Handed, find_unused_iff, release-frees, create-IsValid,
}
use seabolt.DirectPool.System as System
use seabolt.DirectPool.System.{Reachable-counted}
use seabolt.RoutingPool.Choice.{IsLeast, select_least_connected-IsLeast}
use seabolt.RoutingPool.{
  active_connections, select_least_connected, RoutingPool, ensure_server, update_routing_table,
  Discovery,
}
use seabolt.RoutingPool as RoutingPool
use seabolt.RoutingPool.Refresh.{KeepsTable, Tried, Asked, update_routing_table-Tried}
use seabolt.RoutingPool.Servers.{IsAligned, Ensured, Adds, ensure_server-Ensured}
use seabolt.Examples.Line.{Line, line, line-Transmits}
use seabolt.Status as Status
use seabolt.NoPool as NoPool
use seabolt.NoPool.{acquire}
use seabolt.NoPool.Lifetimes as Lifetimes
use seabolt.NoPool.Lifetimes.{IsSafe, Reachable-IsSafe}
use seabolt.Communication as Communication
use seabolt.Communication.{Transport}
use seabolt.Communication.Transfer.{Sent, Received, send-Sent, receive-Received}

-- "a:1" and "b:2".
abbrev server_a : Address
server_a = record { host = 97 ∷ []; port = 49 ∷ [] }

abbrev server_b : Address
server_b = record { host = 98 ∷ []; port = 50 ∷ [] }

server_a-IsNamed : IsNamed server_a
server_a-IsNamed = record { has_host = λ e. ground (arith, e); has_port = λ e. ground (arith, e) }

server_b-IsNamed : IsNamed server_b
server_b-IsNamed = record { has_host = λ e. ground (arith, e); has_port = λ e. ground (arith, e) }

create_from_string-print_example : create_from_string (97 ∷ colon ∷ 49 ∷ []) ≡ server_a
create_from_string-print_example =
    create_from_string-print server_a server_a-IsNamed (omega arith, tt) (omega arith, tt)
      (omega arith, tt)

abbrev just_a : AddressSet
just_a = server_a ∷ []

just_a-IsValid : Members.IsValid just_a
just_a-IsValid = record { distinct = ((λ m. elim m [ ]), tt); named = (server_a-IsNamed, tt) }

add_all_members_example :
    Memᴰ server_a (AddressSet.add_all [] just_a) ↔ (Memᴰ server_a [] ⊎ Memᴰ server_a just_a)
add_all_members_example = add_all_members [] just_a (server_a-IsNamed, tt) server_a

Reachable-IsValid_example : Members.IsValid (AddressSet.add AddressSet.create server_a).1
Reachable-IsValid_example =
    Reachable-IsValid (AddressSet.add AddressSet.create server_a).1
      (Reach.added server_a server_a-IsNamed Reach.created)

abbrev cleared : Memory
cleared = record { behind = λ xs. 0 ∷ []; raw = λ v. [] }

abbrev two_servers : List Server
two_servers =
    record { role = routes; addresses = server_a ∷ server_b ∷ [] }
    ∷ record { role = reads; addresses = just_a }
    ∷ []

a-IsPrintable : IsPrintable server_a
a-IsPrintable = record {
  named = server_a-IsNamed;
  host_text = (omega arith, tt);
  port_text = (omega arith, tt);
  port_plain = (omega arith, tt);
}

b-IsPrintable : IsPrintable server_b
b-IsPrintable = record {
  named = server_b-IsNamed;
  host_text = (omega arith, tt);
  port_text = (omega arith, tt);
  port_plain = (omega arith, tt);
}

update-print_example :
    update cleared (pos 5000) RoutingTable.create (print_response (pos 300) two_servers)
    ≡ some (
      Error.success,
      record {
        expires = int64 (pos 5000 +ℤ int64 (thousandfold (pos 300)));
        last_updated = pos 5000;
        readers = named_for reads two_servers;
        writers = named_for writes two_servers;
        routers = named_for routes two_servers;
      },
    )
update-print_example =
    update-print cleared (pos 5000) (pos 300) RoutingTable.create two_servers (λ r. ([], refl))
      ((a-IsPrintable, (b-IsPrintable, tt)), ((a-IsPrintable, tt), tt))

update-Finished_example :
    Finished
      (pos 5000)
      RoutingTable.create
      (update cleared (pos 5000) RoutingTable.create (print_response (pos 300) two_servers))
update-Finished_example =
    update-Finished cleared (pos 5000) RoutingTable.create (print_response (pos 300) two_servers)

abbrev small_table : RoutingTable
small_table = record {
  expires = pos 9;
  last_updated = pos 1;
  readers = just_a;
  writers = just_a;
  routers = just_a;
}

forget_members_example :
    (Memᴰ server_b (forget_server small_table server_a).readers
      ↔ (Memᴰ server_b just_a × (server_b ≢ server_a)))
    × (Memᴰ server_b (forget_server small_table server_a).writers
        ↔ (Memᴰ server_b just_a × (server_b ≢ server_a)))
    × (Memᴰ server_b (forget_server small_table server_a).routers
        ↔ (Memᴰ server_b just_a × (server_b ≢ server_a)))
    × (Memᴰ server_b (forget_writer small_table server_a).writers
        ↔ (Memᴰ server_b just_a × (server_b ≢ server_a)))
    × ((forget_writer small_table server_a).readers ≡ just_a)
    × ((forget_writer small_table server_a).routers ≡ just_a)
forget_members_example =
    forget_members small_table server_a
      record { readers = just_a-IsValid; writers = just_a-IsValid; routers = just_a-IsValid }
      server_b

-- Calls that all succeed and make the connection ready.
abbrev good_calls : Calls
good_calls = record {
  resolve = true;
  open_connection = λ c. (true, c);
  init = λ c. (true, record c { state = ready });
  load_reset_request = λ c. (true, c);
  send = λ c. (pos 0, c);
  fetch_summary = λ c. (pos 0, c);
  summary_success = λ c. true;
  close = λ c. record c { state = DirectPool.disconnected };
}

good_calls-KeepsAgent : KeepsAgent good_calls
good_calls-KeepsAgent = record {
  opens = λ c. refl;
  inits = λ c. refl;
  loads = λ c. refl;
  sends = λ c. refl;
  fetches = λ c. refl;
  closes = λ c. refl;
}

abbrev two_slots : Pool
two_slots = DirectPool.create false 2 (pos 0) (pos 100)

abbrev one_lease : Pool
one_lease = (try_acquire good_calls (pos 7) two_slots).1

try_acquire-Handed_example : Handed two_slots (try_acquire good_calls (pos 7) two_slots)
try_acquire-Handed_example = try_acquire-Handed good_calls-KeepsAgent (pos 7) two_slots

find_unused_iff_example :
    (find_unused_connection good_calls (pos 7) two_slots ≡ none)
    ↔ (used two_slots.connections ≡ max_size two_slots)
find_unused_iff_example =
    find_unused_iff good_calls-KeepsAgent (pos 7) two_slots
      (create-IsValid false 2 (pos 0) (pos 100))

Reachable-counted_example :
    (one_lease.in_use_count ≡ pos (used one_lease.connections))
    × (one_lease.in_use_count ≤ℤ pos (max_size one_lease))
Reachable-counted_example =
    Reachable-counted good_calls-KeepsAgent one_lease
      (System.rounded (pos 7) (System.created false 2 (pos 0) (pos 100)))

abbrev busy : Connection
busy = record fresh { state = ready; agent = true }

abbrev full_pool : Pool
full_pool = record {
  max_connection_life_time = pos 0;
  max_connection_acquisition_time = pos 100;
  in_use_count = pos 1;
  connections = busy ∷ [];
}

full_pool-IsValid : Leases.IsValid full_pool
unfolding used
full_pool-IsValid = record { counted = refl }

release-frees_example :
    let q = (release good_calls 0 full_pool).1 in
    Leases.IsValid q
    × (suc (used q.connections) ≡ used full_pool.connections)
    × ((now : ℤ) → find_unused_connection good_calls now q ≢ none)
release-frees_example =
    release-frees good_calls-KeepsAgent full_pool 0 busy full_pool-IsValid refl refl

empty-IsAligned : IsAligned RoutingPool.create
unfolding RoutingPool.create
empty-IsAligned = record { servers = record { distinct = tt; named = tt }; pools = refl }

-- No other thread comes in between.
nothing_added : Adds (λ r. r)
nothing_added = record { keeps = λ q v. v; behind = λ q. ([], sym (append-nil q.servers)) }

ensure_server-Ensured_example :
    let (index, q) = ensure_server two_slots (λ r. r) (λ r. r) RoutingPool.create server_a true in
    (i : ℕ) × (index ≡ some i) × Ensured server_a i q
ensure_server-Ensured_example =
    ensure_server-Ensured two_slots (λ r. r) (λ r. r) RoutingPool.create server_a server_a-IsNamed
      empty-IsAligned (λ r v. v) nothing_added

-- The router of the table does not answer, and the connector's address does.
abbrev answers_b : Discovery
answers_b t a =
    if AddressSet.same a server_b then (Error.success, small_table) else (Error.timed_out, t)

answers_b-KeepsTable : KeepsTable answers_b
answers_b-KeepsTable t a h = elim (Bool-cases (AddressSet.same a server_b)) [
  | inl good ↦ absurd (h (rw good refl))
  | inr bad ↦ rw bad refl
]

abbrev old_pool : RoutingPool
old_pool = record RoutingPool.create { routing_table = small_table }

update_routing_table-Tried_example :
    let (status, q) = update_routing_table answers_b [] server_b old_pool in
    Tried answers_b (Asked [] server_b small_table) small_table (status, q.routing_table)
    × (q ≡ record old_pool { routing_table = q.routing_table })
update_routing_table-Tried_example =
    update_routing_table-Tried answers_b [] server_b old_pool answers_b-KeepsTable tt
      server_b-IsNamed (server_a-IsNamed, tt)

abbrev three_bytes : Line
three_bytes = record { taken = []; to_come = 1 ∷ 2 ∷ 3 ∷ [] }

send-Sent_example :
    Sent (λ (l : Line). l.taken) (4 ∷ 5 ∷ []) (Communication.send line three_bytes (4 ∷ 5 ∷ []))
send-Sent_example = send-Sent line-Transmits three_bytes (4 ∷ 5 ∷ [])

receive-Received_example :
    Received
      (λ (l : Line). l.to_come)
      (1 ∷ 2 ∷ 3 ∷ [])
      2
      3
      (Communication.receive line three_bytes 2 3)
receive-Received_example = receive-Received line-Transmits three_bytes 2 3 (omega arith)

-- The pool of "a:1" has a connection in use, and "b:2" has no pool.
abbrev busy_a : RoutingPool
unfolding RoutingPool.create
busy_a = record RoutingPool.create { servers = just_a; server_pools = full_pool ∷ [] }

abbrev both : AddressSet
both = server_a ∷ server_b ∷ []

few_connections :
    (j : ℕ) (s : Address)
    → get_elem? both j ≡ some s
    → ltb_ℤ (active_connections busy_a s) (pos RoutingPool.int_max) ≡ true
unfolding active_connections RoutingPool.create index_of same same_text
few_connections zero s e =
    subst
      (λ o. elim o [
        | none ↦ Unit
        | some x ↦ ltb_ℤ (active_connections busy_a x) (pos RoutingPool.int_max) ≡ true
      ])
      e refl
few_connections (suc zero) s e =
    subst
      (λ o. elim o [
        | none ↦ Unit
        | some x ↦ ltb_ℤ (active_connections busy_a x) (pos RoutingPool.int_max) ≡ true
      ])
      e refl
few_connections (suc (suc j)) s e = ground (arith, e)

select_least_connected-IsLeast_example : IsLeast busy_a both (select_least_connected busy_a both 4)
select_least_connected-IsLeast_example =
    select_least_connected-IsLeast busy_a both 4 (omega arith) few_connections

-- Connections that open, and connections that cannot be opened.
abbrev opening : NoPool.Calls
opening = record {
  resolve = true;
  open_connection = λ s. (true, record s { state = Status.connected });
  init = λ s. (true, record s { state = Status.ready });
}

abbrev refusing : NoPool.Calls
refusing = record opening { open_connection = λ s. (false, record s { error = 11 }) }

-- One connection is acquired, an acquisition fails, and the first one is released.
abbrev one_open : NoPool.Pool
one_open = (acquire refusing 8 (acquire opening 7 NoPool.create).2).2

abbrev none_open : NoPool.Pool
none_open = (NoPool.taken one_open 7).1

none_open-Reachable : Lifetimes.Reachable none_open
unfolding NoPool.create acquire NoPool.prepare NoPool.release NoPool.taken
    NoPool.find_open_connection NoPool.remove_at
none_open-Reachable =
    Lifetimes.released 7 (λ e. cc) refl
      (Lifetimes.acquired refusing 8 refl (Lifetimes.acquired opening 7 refl Lifetimes.created))

Reachable-IsSafe_example : IsSafe none_open
Reachable-IsSafe_example = Reachable-IsSafe none_open none_open-Reachable
