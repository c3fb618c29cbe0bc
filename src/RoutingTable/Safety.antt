-- ===== src/RoutingTable/Safety.antt =====
-- What every response leaves in the table, and what the table forgets.
use seabolt.Prelude.{
  ℕ, ◌≡◌, ◌≢◌, refl, ◌↔◌, ◌⊎◌, inl, inr, List, [], ◌++◌, Option, none, some, Option-cases,
}
use seabolt.Prelude.Int.{ℤ}
use mathlib.Core.List.{Memᴰ}
use seabolt.Error
use seabolt.Address.{Address, c_string, create_from_string, split_last}
use seabolt.Address.Parse.{IsNamed, create-IsNamed}
use seabolt.AddressSet.Members as Members
use seabolt.AddressSet.Members.{remove_members}
use seabolt.AddressSet.Reach.{add-IsValid, remove-IsValid, replace_lem}
use seabolt.Values.{Value, Values, nil, cons}
use seabolt.RoutingTable.{
  text_of, entries_of, list_of, integer_of, ◌>>=◌, RoutingTable, Memory, Role, reads, writes,
  routes, role_of, Sets, no_sets, add_to, add_addresses, add_server, add_servers, value_by_key,
  replace_sets, update, ttl_key, servers_key, role_key, addresses_key, forget_server, forget_writer,
}

pub record IsValid (t : RoutingTable) : Type 0 where
  pub readers : Members.IsValid t.readers
  pub writers : Members.IsValid t.writers
  pub routers : Members.IsValid t.routers

record AreValid (s : Sets) : Type 0 where
  readers : Members.IsValid s.readers
  writers : Members.IsValid s.writers
  routers : Members.IsValid s.routers

create_from_string-IsNamed : (xs : List ℕ) → IsNamed (create_from_string xs)
unfolding create_from_string
create_from_string-IsNamed xs = elim (Option-cases (split_last (c_string xs))) [
  | inl e ↦ rw (create_from_string, e) (create-IsNamed (c_string xs) [])
  | inr ((host, port), e) ↦ rw (create_from_string, e) (create-IsNamed host port)
]

add_to-AreValid :
    (r : Role) (a : Address) {s : Sets} → IsNamed a → AreValid s → AreValid (add_to r a s)
unfolding add_to
add_to-AreValid reads a h v = record {
  readers = add-IsValid a h v.readers;
  writers = v.writers;
  routers = v.routers;
}
add_to-AreValid writes a h v = record {
  readers = v.readers;
  writers = add-IsValid a h v.writers;
  routers = v.routers;
}
add_to-AreValid routes a h v = record {
  readers = v.readers;
  writers = v.writers;
  routers = add-IsValid a h v.routers;
}

-- A loop that ends well leaves valid sets.
abbrev Leaves : Option Sets → Type 0
Leaves none = Unit
Leaves (some s) = AreValid s

bind-Leaves {ℓ} :
    {A : Type ℓ} (o : Option A) (k : A → Option Sets) → ((a : A) → Leaves (k a)) → Leaves (o >>= k)
bind-Leaves none k h = tt
bind-Leaves (some a) k h = h a

add_addresses-Leaves :
    (r : Option Role) (xs : Values) (s : Sets) → AreValid s → Leaves (add_addresses r xs s)
unfolding add_addresses
add_addresses-Leaves r nil s v = v
add_addresses-Leaves r (cons x others) s v = bind-Leaves (text_of x) _ (λ xs.
    bind-Leaves r _ (λ known.
      add_addresses-Leaves r others (add_to known (create_from_string xs) s)
        (add_to-AreValid known (create_from_string xs) (create_from_string-IsNamed xs) v)))

add_server-Leaves : (m : Memory) (x : Value) (s : Sets) → AreValid s → Leaves (add_server m x s)
unfolding add_server
add_server-Leaves m x s v = bind-Leaves (entries_of x) _ (λ es.
    bind-Leaves (value_by_key m es role_key) _ (λ r. bind-Leaves (text_of r) _ (λ role.
      bind-Leaves (value_by_key m es addresses_key) _ (λ a.
        bind-Leaves (list_of a) _
          (λ xs. add_addresses-Leaves (role_of (c_string (role ++ m.behind role))) xs s v)))))

then-Leaves :
    (o : Option Sets) (k : Sets → Option Sets)
    → Leaves o
    → ((t : Sets) → AreValid t → Leaves (k t))
    → Leaves (o >>= k)
then-Leaves none k l h = tt
then-Leaves (some t) k l h = h t l

add_servers-Leaves :
    (m : Memory) (xs : Values) (s : Sets) → AreValid s → Leaves (add_servers m xs s)
unfolding add_servers
add_servers-Leaves m nil s v = v
add_servers-Leaves m (cons x xs) s v =
    then-Leaves (add_server m x s) (add_servers m xs) (add_server-Leaves m x s v)
      (λ t w. add_servers-Leaves m xs t w)

-- A finished update: the status is success, the table is new, valid and stamped with the time; or it
-- is BOLT_ROUTING_UNEXPECTED_DISCOVERY_RESPONSE and the table is the old one.
abbrev pub Finished : ℤ → RoutingTable → Option (ℕ × RoutingTable) → Type 0
Finished now t none = Unit
Finished now t (some (code, t')) =
    ((code ≡ Error.success) × IsValid t' × (t'.last_updated ≡ now))
    ⊎ ((code ≡ Error.unexpected_discovery_response) × (t' ≡ t))

bind-Finished {ℓ} :
    (now : ℤ) (t : RoutingTable) {A : Type ℓ} (o : Option A) (k : A → Option (ℕ × RoutingTable))
    → ((a : A) → Finished now t (k a))
    → Finished now t (o >>= k)
bind-Finished now t none k h = tt
bind-Finished now t (some a) k h = h a

replace_sets-IsValid :
    (now ttl : ℤ) (s : Sets) (t : RoutingTable) → AreValid s → IsValid (replace_sets now ttl s t)
unfolding replace_sets
replace_sets-IsValid now ttl s t v = record {
  readers = rw (replace_lem t.readers s.readers v.readers.named) v.readers;
  writers = rw (replace_lem t.writers s.writers v.writers.named) v.writers;
  routers = rw (replace_lem t.routers s.routers v.routers.named) v.routers;
}

-- An update that does not read through a NULL pointer either succeeds and leaves a valid table,
-- updated now, or returns BOLT_ROUTING_UNEXPECTED_DISCOVERY_RESPONSE and leaves the table as it was:
-- no response is taken over in part.
pub update-Finished :
    (m : Memory) (now : ℤ) (t : RoutingTable) (response : Value)
    → Finished now t (update m now t response)
unfolding update replace_sets
update-Finished m now t response = bind-Finished now t (entries_of response) _ (λ es.
    bind-Finished now t (value_by_key m es ttl_key) _ (λ v.
      bind-Finished now t (integer_of v) _ (λ ttl.
        bind-Finished now t (value_by_key m es servers_key) _ (λ w.
          go ttl (list_of w >>= λ xs. add_servers m xs no_sets)
            (bind-Leaves (list_of w) _ (λ xs. add_servers-Leaves m xs no_sets no_sets-AreValid))))))
  where
    no_sets-AreValid : AreValid no_sets
    no_sets-AreValid = record {
      readers = record { distinct = tt; named = tt };
      writers = record { distinct = tt; named = tt };
      routers = record { distinct = tt; named = tt };
    }

    go :
        (ttl : ℤ) (o : Option Sets)
        → Leaves o
        → Finished now t (
            some (elim o [
              | some s ↦ (Error.success, replace_sets now ttl s t)
              | none ↦ (Error.unexpected_discovery_response, t)
            ]))
    go ttl none l = inr (refl, refl)
    go ttl (some s) l = inl (refl, replace_sets-IsValid now ttl s t l, refl)

-- In a valid table, a server that is forgotten is left in none of the three sets, and every other
-- address keeps its places; a writer that is forgotten is left out of the writers alone.
pub forget_members :
    (t : RoutingTable) (a : Address)
    → IsValid t
    → (x : Address)
    → (Memᴰ x (forget_server t a).readers ↔ (Memᴰ x t.readers × (x ≢ a)))
      × (Memᴰ x (forget_server t a).writers ↔ (Memᴰ x t.writers × (x ≢ a)))
      × (Memᴰ x (forget_server t a).routers ↔ (Memᴰ x t.routers × (x ≢ a)))
      × (Memᴰ x (forget_writer t a).writers ↔ (Memᴰ x t.writers × (x ≢ a)))
      × ((forget_writer t a).readers ≡ t.readers)
      × ((forget_writer t a).routers ≡ t.routers)
unfolding forget_server forget_writer
forget_members t a v x = (
  remove_members t.readers a v.readers.distinct x,
  remove_members t.writers a v.writers.distinct x,
  remove_members t.routers a v.routers.distinct x,
  remove_members t.writers a v.writers.distinct x,
  refl,
  refl,
)

pub forget_server-IsValid :
    {t : RoutingTable} (a : Address) → IsValid t → IsValid (forget_server t a)
unfolding forget_server
forget_server-IsValid a v = record {
  readers = remove-IsValid a v.readers;
  writers = remove-IsValid a v.writers;
  routers = remove-IsValid a v.routers;
}
