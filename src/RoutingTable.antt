-- ===== src/RoutingTable.antt =====
-- src/seabolt/src/bolt/routing-table.c: which servers read, write and route, and until when that is
-- known.
pub mod Update
pub mod Safety
use seabolt.Prelude.{
  ℕ, ◌+◌, ◌*◌, ◌-◌, Bool, true, false, ◌||◌, ◌&&◌, Option, none, some, List, [], ◌∷◌, ◌++◌, length,
  ◌==◌, if◌then◌else◌,
}
use seabolt.Prelude.Int.{ℤ, pos, negsuc, ◌+ℤ◌, leb_ℤ, to_word, of_word}
use seabolt.Error
use seabolt.Address.{Address, c_string, same_text, create_from_string}
use seabolt.AddressSet
use seabolt.AddressSet.{AddressSet}
use seabolt.Values.{
  Value, Values, Entries, integer, string, dictionary, list, nil, cons, end, entry,
}

-- Times are `int64_t` milliseconds.
pub record RoutingTable : Type 0 where
  pub expires : ℤ
  pub last_updated : ℤ
  pub readers : AddressSet
  pub writers : AddressSet
  pub routers : AddressSet

unfoldable pub create : RoutingTable
create = record { expires = pos 0; last_updated = pos 0; readers = []; writers = []; routers = [] }

-- `BoltAccessMode`.
pub data AccessMode : Type 0 where
  write read : AccessMode

-- `now` is what `BoltTime_get_time_ms` returns.
unfoldable pub is_expired : RoutingTable → AccessMode → ℤ → Bool
is_expired t mode now =
    AddressSet.size t.routers == 0
    || (elim mode [ read ↦ AddressSet.size t.readers == 0 | write ↦ AddressSet.size t.writers == 0 ]
        || leb_ℤ t.expires now)

unfoldable pub forget_server : RoutingTable → Address → RoutingTable
unfolding AddressSet.remove
forget_server t a = record t {
  routers = (AddressSet.remove t.routers a).1;
  readers = (AddressSet.remove t.readers a).1;
  writers = (AddressSet.remove t.writers a).1;
}

unfoldable pub forget_writer : RoutingTable → Address → RoutingTable
unfolding AddressSet.remove
forget_writer t a = record t { writers = (AddressSet.remove t.writers a).1 }

-- What the code reads of a value's memory beyond the value that it stands for: `behind` is what
-- follows the bytes of a text, and `raw` the bytes that `BoltString_get` finds in a dictionary's key
-- that is no text, as many as the key's `size`.
pub record Memory : Type 0 where
  pub behind : List ℕ → List ℕ
  pub raw : Value → List ℕ

-- `strncmp(s, t, n) == 0` on two blocks of `n` bytes.
abbrev pub same_key : List ℕ → List ℕ → Bool
unfolding same_text c_string
same_key xs ys = (length xs == length ys) && same_text (c_string xs) (c_string ys)

abbrev pub key_view : Memory → Value → List ℕ
key_view m (string xs) = xs
key_view m k = m.raw k

-- `BoltDictionary_value_by_key`, with the loop of `BoltDictionary_get_key_index`; `none` is NULL.
unfoldable pub value_by_key : Memory → Entries → List ℕ → Option Value
value_by_key m end key = none
value_by_key m (entry k v es) key =
    let rest = value_by_key m es key in if same_key (key_view m k) key then some v else rest

-- "READ", "WRITE" and "ROUTE".
pub data Role : Type 0 where
  reads writes routes : Role

abbrev pub role_name : Role → List ℕ
role_name reads = 82 ∷ 69 ∷ 65 ∷ 68 ∷ []
role_name writes = 87 ∷ 82 ∷ 73 ∷ 84 ∷ 69 ∷ []
role_name routes = 82 ∷ 79 ∷ 85 ∷ 84 ∷ 69 ∷ []

-- The chain of `strcmp` on the role, which reads on until a NUL.
unfoldable pub role_of : List ℕ → Option Role
unfolding same_text
role_of text =
    if same_text text (role_name reads)
    then some reads
    else if same_text text (role_name writes)
    then some writes
    else if same_text text (role_name routes)
    then some routes
    else none

-- The three local sets.
pub record Sets : Type 0 where
  pub readers : AddressSet
  pub writers : AddressSet
  pub routers : AddressSet

abbrev pub no_sets : Sets
no_sets = record { readers = []; writers = []; routers = [] }

unfoldable pub add_to : Role → Address → Sets → Sets
unfolding AddressSet.add
add_to reads a s = record s { readers = (AddressSet.add s.readers a).1 }
add_to writes a s = record s { writers = (AddressSet.add s.writers a).1 }
add_to routes a s = record s { routers = (AddressSet.add s.routers a).1 }

-- The keys "ttl", "servers", "role" and "addresses".
abbrev pub ttl_key : List ℕ
ttl_key = 116 ∷ 116 ∷ 108 ∷ []

abbrev pub servers_key : List ℕ
servers_key = 115 ∷ 101 ∷ 114 ∷ 118 ∷ 101 ∷ 114 ∷ 115 ∷ []

abbrev pub role_key : List ℕ
role_key = 114 ∷ 111 ∷ 108 ∷ 101 ∷ []

abbrev pub addresses_key : List ℕ
addresses_key = 97 ∷ 100 ∷ 100 ∷ 114 ∷ 101 ∷ 115 ∷ 115 ∷ 101 ∷ 115 ∷ []

-- The tests of a value's type, and what a value of that type holds.
abbrev pub text_of : Value → Option (List ℕ)
text_of (string xs) = some xs
text_of _ = none

abbrev pub entries_of : Value → Option Entries
entries_of (dictionary es) = some es
entries_of _ = none

abbrev pub list_of : Value → Option Values
list_of (list xs) = some xs
list_of _ = none

abbrev pub integer_of : Value → Option ℤ
integer_of (integer x) = some x
integer_of _ = none

-- In the loops, `none` is the status BOLT_ROUTING_UNEXPECTED_DISCOVERY_RESPONSE, which ends them.
infixl 5 ◌>>=◌
abbrev pub ◌>>=◌ {ℓ κ} : {A : Type ℓ} {B : Type κ} → Option A → (A → Option B) → Option B
none >>= k = none
some a >>= k = k a

-- The inner loop.
unfoldable pub add_addresses : Option Role → Values → Sets → Option Sets
unfolding add_to create_from_string
add_addresses role nil s = some s
add_addresses role (cons x others) s = do
  text ← text_of x
  known ← role
  add_addresses role others (add_to known (create_from_string text) s)

-- One round of the outer loop.
unfoldable pub add_server : Memory → Value → Sets → Option Sets
unfolding value_by_key role_of add_addresses c_string
add_server m x s = do
  es ← entries_of x
  role_value ← value_by_key m es role_key
  role ← text_of role_value
  addresses_value ← value_by_key m es addresses_key
  addresses ← list_of addresses_value
  add_addresses (role_of (c_string (role ++ m.behind role))) addresses s

unfoldable pub add_servers : Memory → Values → Sets → Option Sets
unfolding add_server
add_servers m nil s = some s
add_servers m (cons x xs) s = do t ← add_server m x s; add_servers m xs t

-- An `int64_t` result that leaves the range wraps around.
abbrev pub int64 : ℤ → ℤ
int64 x = of_word 64 (to_word 64 x)

abbrev pub thousandfold : ℤ → ℤ
thousandfold (pos n) = pos (n * 1000)
thousandfold (negsuc n) = negsuc (n * 1000 + 999)

-- The end of `RoutingTable_update`: the loop's sets replace the table's.
unfoldable pub replace_sets : ℤ → ℤ → Sets → RoutingTable → RoutingTable
unfolding AddressSet.replace
replace_sets now ttl s t = record {
  expires = int64 (now +ℤ int64 (thousandfold ttl));
  last_updated = now;
  readers = AddressSet.replace t.readers s.readers;
  writers = AddressSet.replace t.writers s.writers;
  routers = AddressSet.replace t.routers s.routers;
}

-- `RoutingTable_update` returns a status and leaves a table. `none` is a read through a NULL pointer:
-- of `ttl_value`, or of `servers_value`, which the loop's condition reads whatever the status is.
unfoldable pub update : Memory → ℤ → RoutingTable → Value → Option (ℕ × RoutingTable)
unfolding value_by_key add_servers replace_sets
update m now t response = do
  es ← entries_of response
  ttl_value ← value_by_key m es ttl_key
  ttl ← integer_of ttl_value
  servers_value ← value_by_key m es servers_key
  some (elim (list_of servers_value >>= λ servers. add_servers m servers no_sets) [
    | some s ↦ (Error.success, replace_sets now ttl s t)
    | none ↦ (Error.unexpected_discovery_response, t)
  ])
