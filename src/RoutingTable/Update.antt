-- ===== src/RoutingTable/Update.antt =====
-- What `RoutingTable_update` makes of a response, and what the table holds after each operation.
use seabolt.Prelude.{
  ℕ, ◌≡◌, refl, ap, sym, ◌∙◌, Bool, true, false, List, [], ◌∷◌, ◌++◌, none, some, All,
  if◌then◌else◌,
}
use seabolt.Prelude.Int.{ℤ, ◌+ℤ◌}
use seabolt.Error
use seabolt.Address.{Address, colon, c_string}
use seabolt.Address.Parse.{IsNamed, IsText, IsPlain, create_from_string-print}
use seabolt.AddressSet.{AddressSet, add, add_all, replace}
use seabolt.AddressSet.Reach.{replace_lem, add_all-IsValid}
use seabolt.Values.{Value, Values, integer, string, dictionary, list, nil, cons, end, entry}
use seabolt.RoutingTable.{
  RoutingTable, Memory, Role, reads, writes, routes, role_name, role_of, Sets, no_sets, add_to,
  add_addresses, add_server, add_servers, value_by_key, int64, thousandfold, replace_sets, update,
  ttl_key, servers_key, role_key, addresses_key,
}

-- A server of a response: its role and its addresses.
pub record Server : Type 0 where
  pub role : Role
  pub addresses : List Address

-- The response that the server writes for such a list.
unfoldable pub print_addresses : List Address → Values
print_addresses [] = nil
print_addresses (a ∷ more) = cons (string (a.host ++ (colon ∷ a.port))) (print_addresses more)

unfoldable pub print_servers : List Server → Values
unfolding print_addresses
print_servers [] = nil
print_servers (s ∷ servers) =
    cons
      (dictionary (
        entry (string addresses_key) (list (print_addresses s.addresses))
          (entry (string role_key) (string (role_name s.role)) end)))
      (print_servers servers)

unfoldable pub print_response : ℤ → List Server → Value
unfolding print_servers
print_response ttl servers = dictionary (
    entry (string ttl_key) (integer ttl)
      (entry (string servers_key) (list (print_servers servers)) end))

abbrev pub set_of : Role → Sets → AddressSet
set_of reads s = s.readers
set_of writes s = s.writers
set_of routes s = s.routers

abbrev same_role : Role → Role → Bool
same_role reads reads = true
same_role writes writes = true
same_role routes routes = true
same_role _ _ = false

-- The addresses that a response names for a role, in order.
unfoldable pub of_role : Role → List Server → List Address
of_role q [] = []
of_role q (s ∷ servers) = (if same_role q s.role then s.addresses else []) ++ of_role q servers

-- An address whose text the parser reads back.
pub record IsPrintable (a : Address) : Type 0 where
  pub named : IsNamed a
  pub host_text : IsText a.host
  pub port_text : IsText a.port
  pub port_plain : IsPlain a.port

add_many : Role → List Address → Sets → Sets
add_many r [] s = s
add_many r (a ∷ more) s = add_many r more (add_to r a s)

gather : List Server → Sets → Sets
unfolding add_many
gather [] s = s
gather (x ∷ servers) s = gather servers (add_many x.role x.addresses s)

add_addresses_lem :
    (r : Role) (xs : List Address) (s : Sets)
    → All IsPrintable xs
    → add_addresses (some r) (print_addresses xs) s ≡ some (add_many r xs s)
unfolding add_addresses print_addresses add_many
add_addresses_lem r [] s h = refl
add_addresses_lem r (a ∷ more) s h =
    rw
      (
        add_addresses,
        create_from_string-print a h.0.named h.0.host_text h.0.port_text h.0.port_plain,
      )
      (add_addresses_lem r more (add_to r a s) h.1)

-- The bytes behind a role's name start with a NUL.
abbrev pub IsClear : Memory → Type 0
IsClear m = (r : Role) → (rest : List ℕ) × (m.behind (role_name r) ≡ 0 ∷ rest)

role_of_name : (r : Role) (rest : List ℕ) → role_of (c_string (role_name r ++ (0 ∷ rest))) ≡ some r
unfolding role_of c_string
role_of_name reads rest = refl
role_of_name writes rest = refl
role_of_name routes rest = refl

module _ (m : Memory) (clear : IsClear m) where
  add_server_lem :
      (x : Server) (s : Sets)
      → All IsPrintable x.addresses
      → add_server m
          (dictionary (
            entry
              (string addresses_key)
              (list (print_addresses x.addresses))
              (entry (string role_key) (string (role_name x.role)) end)))
          s
        ≡ some (add_many x.role x.addresses s)
  unfolding add_server value_by_key c_string
  add_server_lem x s h =
      let (rest, e) = clear x.role in
      ap
        (λ behind.
          add_addresses (role_of (c_string (role_name x.role ++ behind)))
            (print_addresses x.addresses) s)
        e
      ∙ ap (λ r. add_addresses r (print_addresses x.addresses) s) (role_of_name x.role rest)
      ∙ add_addresses_lem x.role x.addresses s h

  add_servers_lem :
      (servers : List Server) (s : Sets)
      → All (λ x. All IsPrintable x.addresses) servers
      → add_servers m (print_servers servers) s ≡ some (gather servers s)
  unfolding add_servers print_servers gather
  add_servers_lem [] s h = refl
  add_servers_lem (x ∷ servers) s h =
      rw (add_servers, add_server_lem x s h.0)
        (add_servers_lem servers (add_many x.role x.addresses s) h.1)

add_all-append : (s xs ys : AddressSet) → add_all s (xs ++ ys) ≡ add_all (add_all s xs) ys
unfolding add_all
add_all-append s [] ys = refl
add_all-append s (x ∷ xs) ys = add_all-append (add s x).1 xs ys

add_to_lem :
    (q r : Role) (a : Address) (s : Sets)
    → set_of q (add_to r a s) ≡ add_all (set_of q s) (if same_role q r then a ∷ [] else [])
unfolding add_to add_all
add_to_lem reads reads a s = refl
add_to_lem reads writes a s = refl
add_to_lem reads routes a s = refl
add_to_lem writes reads a s = refl
add_to_lem writes writes a s = refl
add_to_lem writes routes a s = refl
add_to_lem routes reads a s = refl
add_to_lem routes writes a s = refl
add_to_lem routes routes a s = refl

if_cons :
    (b : Bool) (a : Address) (xs : List Address)
    → (if b then a ∷ xs else []) ≡ (if b then a ∷ [] else []) ++ (if b then xs else [])
if_cons true a xs = refl
if_cons false a xs = refl

abbrev nobody : List Address
nobody = []

if_nil : (b : Bool) → (if b then nobody else nobody) ≡ nobody
if_nil true = refl
if_nil false = refl

add_many_lem :
    (q r : Role) (xs : List Address) (s : Sets)
    → set_of q (add_many r xs s) ≡ add_all (set_of q s) (if same_role q r then xs else [])
unfolding add_many add_all
add_many_lem q r [] s = rw (if_nil (same_role q r)) refl
add_many_lem q r (a ∷ xs) s =
    add_many_lem q r xs (add_to r a s)
    ∙ ap (λ t. add_all t (if same_role q r then xs else [])) (add_to_lem q r a s)
    ∙ sym (
        add_all-append (set_of q s) (if same_role q r then a ∷ [] else [])
          (if same_role q r then xs else []))
    ∙ ap (add_all (set_of q s)) (sym (if_cons (same_role q r) a xs))

gather_lem :
    (q : Role) (servers : List Server) (s : Sets)
    → set_of q (gather servers s) ≡ add_all (set_of q s) (of_role q servers)
unfolding gather of_role add_all
gather_lem q [] s = refl
gather_lem q (x ∷ servers) s =
    gather_lem q servers (add_many x.role x.addresses s)
    ∙ ap (λ t. add_all t (of_role q servers)) (add_many_lem q x.role x.addresses s)
    ∙ sym (
        add_all-append (set_of q s) (if same_role q x.role then x.addresses else [])
          (of_role q servers))

append-IsNamed : (xs ys : List Address) → All IsNamed xs → All IsNamed ys → All IsNamed (xs ++ ys)
append-IsNamed [] ys h k = k
append-IsNamed (x ∷ xs) ys h k = (h.0, append-IsNamed xs ys h.1 k)

printable-IsNamed : (xs : List Address) → All IsPrintable xs → All IsNamed xs
printable-IsNamed [] h = tt
printable-IsNamed (x ∷ xs) h = (h.0.named, printable-IsNamed xs h.1)

of_role-IsNamed :
    (q : Role) (servers : List Server)
    → All (λ x. All IsPrintable x.addresses) servers
    → All IsNamed (of_role q servers)
unfolding of_role
of_role-IsNamed q [] h = tt
of_role-IsNamed q (x ∷ servers) h =
    append-IsNamed (if same_role q x.role then x.addresses else []) (of_role q servers)
      (elim (same_role q x.role) as (λ b. All IsNamed (if b then x.addresses else [])) [
        | true ↦ printable-IsNamed x.addresses h.0
        | false ↦ tt
      ])
      (of_role-IsNamed q servers h.1)

-- The set of the addresses that a response names for a role.
abbrev pub named_for : Role → List Server → AddressSet
named_for q servers = add_all [] (of_role q servers)

gathered-copy :
    (q : Role) (servers : List Server) (dest : AddressSet)
    → All (λ x. All IsPrintable x.addresses) servers
    → replace dest (set_of q (gather servers no_sets)) ≡ named_for q servers
gathered-copy q servers dest h =
    let e : set_of q (gather servers no_sets) ≡ named_for q servers =
      gather_lem q servers no_sets
      ∙ ap (λ s. add_all s (of_role q servers))
          (elim q as (λ r. set_of r no_sets ≡ []) [
            | reads ↦ refl
            | writes ↦ refl
            | routes ↦ refl
          ]) in
    ap (replace dest) e
    ∙ replace_lem dest (named_for q servers)
        (add_all-IsValid {s = []} (of_role q servers) (of_role-IsNamed q servers h)
          record { distinct = tt; named = tt }).named

-- If a NUL stands in memory behind the text of each role, a response that lists servers by role, with addresses whose host and port are not empty and hold no NUL, and whose port
-- holds no colon, succeeds: each set of the table becomes the set of the addresses named for its role,
-- whatever it held, and the table expires the stated number of seconds from now. The code
-- neither writes that NUL nor asks for it: it is what a slot held before, and where it is missing the
-- comparison of the role reads on behind the text.
pub update-print :
    (m : Memory) (now ttl : ℤ) (t : RoutingTable) (servers : List Server)
    → IsClear m
    → All (λ x. All IsPrintable x.addresses) servers
    → update m now t (print_response ttl servers)
      ≡ some (
        Error.success,
        record {
          expires = int64 (now +ℤ int64 (thousandfold ttl));
          last_updated = now;
          readers = named_for reads servers;
          writers = named_for writes servers;
          routers = named_for routes servers;
        },
      )
unfolding update value_by_key print_response replace_sets
update-print m now ttl t servers clear h = ap some (
    ap
      (λ o. elim o [
        | some s ↦ (Error.success, replace_sets now ttl s t)
        | none ↦ (Error.unexpected_discovery_response, t)
      ])
      (add_servers_lem m clear servers no_sets h)
    ∙ rw
        (
          gathered-copy reads servers t.readers h,
          gathered-copy writes servers t.writers h,
          gathered-copy routes servers t.routers h,
        )
        refl)
