-- ===== src/RoutingPool/Refresh.antt =====
-- The refresh of the routing table: which routers it asks, and what it leaves.
use seabolt.Prelude.{
  ℕ, ◌≡◌, ◌≢◌, ◌⊎◌, ◌↔◌, refl, ap, sym, subst, inl, inr, false, Bool-cases, [], ◌∷◌, All, ◌==◌,
  arith,
}
use mathlib.Core.List.{Memᴰ}
use mathlib.Core.List.Memᴰ.{head, tail, cases_cons}
use seabolt.Error
use seabolt.Address.{Address}
use seabolt.Address.Parse.{IsNamed}
use seabolt.AddressSet
use seabolt.AddressSet.{AddressSet}
use seabolt.AddressSet.Members.{add_members}
use seabolt.AddressSet.Reach.{add_all_members, add-IsValid}
use seabolt.RoutingTable.{RoutingTable}
use seabolt.RoutingPool.{RoutingPool, Discovery, try_routers, routers_to_try, update_routing_table}

-- A router that does not answer leaves the table as it was.
abbrev pub KeepsTable : Discovery → Type 0
KeepsTable from = (t : RoutingTable) (a : Address) → (from t a).0 ≢ Error.success → (from t a).1 ≡ t

-- What the tries leave: the table of a router that answered, or the one that there was, and then no
-- router answers.
abbrev pub Tried : Discovery → (Address → Type 0) → RoutingTable → ℕ × RoutingTable → Type 0
Tried from Asked t (status, next) =
    ((status ≡ Error.success) × ((a : Address) × Asked a × (from t a ≡ (Error.success, next))))
    ⊎ ((status ≡ Error.unable_to_retrieve_routing_table)
        × (next ≡ t)
        × ((a : Address) → Asked a → (from t a).0 ≢ Error.success))

try_routers-Tried :
    (from : Discovery) (routers : AddressSet) (t : RoutingTable)
    → KeepsTable from
    → Tried from (λ a. Memᴰ a routers) t (try_routers from routers t)
unfolding try_routers
try_routers-Tried from [] t k = inr (refl, refl, λ a m. elim m [ ])
try_routers-Tried from (r ∷ routers) t k = elim (Bool-cases ((from t r).0 == Error.success)) [
  | inl good ↦
      let e : (from t r).0 ≡ Error.success = ground (arith, good) in
      rw good (inl (refl, (r, head refl, ap (λ s. (s, (from t r).1)) e)))
  | inr bad ↦
      let e : (from t r).0 ≢ Error.success = (λ q. ground (arith, bad, q)) in
      let same = k t r e in
      rw (bad, same)
        (elim (try_routers-Tried from routers t k) [
          | inl (good, (a, m, q)) ↦ inl (good, (a, tail m, q))
          | inr (none_good, kept, others) ↦ inr (
            none_good,
            kept,
            λ a m. elim (cases_cons m) [
              | inl here ↦ subst (λ b. (from t b).0 ≢ Error.success) (sym here) e
              | inr there ↦ others a there
            ],
          )
        ])
]

-- The routers of the table, and those that the resolver names, or the address of the connector if it
-- names none.
abbrev pub Asked : AddressSet → Address → RoutingTable → Address → Type 0
Asked [] address t a = Memᴰ a t.routers ⊎ (a ≡ address)
Asked (r ∷ resolved) address t a = Memᴰ a t.routers ⊎ Memᴰ a (r ∷ resolved)

union_members :
    (routers initial : AddressSet)
    → All IsNamed routers
    → All IsNamed initial
    → (a : Address)
    → Memᴰ a (AddressSet.add_all (AddressSet.add_all AddressSet.create routers) initial)
      ↔ (Memᴰ a routers ⊎ Memᴰ a initial)
union_members routers initial n k a =
    let (f, g) = add_all_members (AddressSet.add_all [] routers) initial k a in
    let (f', g') = add_all_members [] routers n a in
    (
      (λ m. elim (f m) [
        | inl x ↦ elim (f' x) [ inl y ↦ elim y [ ] | inr y ↦ inl y ]
        | inr x ↦ inr x
      ]),
      λ r. elim r [ inl x ↦ g (inl (g' (inr x))) | inr x ↦ g (inr x) ],
    )

to_try-Asked :
    (resolved : AddressSet) (address : Address) (t : RoutingTable)
    → All IsNamed resolved
    → IsNamed address
    → All IsNamed t.routers
    → (a : Address) → Memᴰ a (routers_to_try resolved address t) ↔ Asked resolved address t a
unfolding routers_to_try
to_try-Asked [] address t h n k a =
    let (f, g) = add_members [] address n a in
    let (f', g') =
      union_members t.routers (AddressSet.add [] address).1 k
        (add-IsValid {s = []} address n (record { distinct = tt; named = tt })).named a in
    (
      (λ m. elim (f' m) [
        | inl x ↦ inl x
        | inr x ↦ elim (f x) [ inl y ↦ elim y [ ] | inr y ↦ inr y ]
      ]),
      λ r. elim r [ inl x ↦ g' (inl x) | inr x ↦ g' (inr (g (inr x))) ],
    )
to_try-Asked (r ∷ resolved) address t h n k a =
    let more : (AddressSet.size (r ∷ resolved) == 0) ≡ false = ground arith in
    rw more (union_members t.routers (r ∷ resolved) k h a)

retried :
    (from : Discovery) {A B : Address → Type 0} {t : RoutingTable} {r : ℕ × RoutingTable}
    → ((a : Address) → A a ↔ B a)
    → Tried from A t r
    → Tried from B t r
retried from h (inl (good, (a, m, q))) = inl (good, (a, (h a).0 m, q))
retried from h (inr (bad, kept, others)) = inr (bad, kept, λ a m. others a ((h a).1 m))

-- The routers of the table, what the resolver names and the connector's address have a host and a port,
-- and a router that does not answer leaves the table as it was. Then a refresh either succeeds, with
-- the table that a router it had to ask made of the old one, or it fails with
-- BOLT_ROUTING_UNABLE_TO_RETRIEVE_ROUTING_TABLE, the table is the old one, and none of those routers
-- answers. They are the routers of the table, and those that the resolver names, or the connector's
-- address if it names none. Nothing but the table changes.
pub update_routing_table-Tried :
    (from : Discovery) (resolved : AddressSet) (address : Address) (p : RoutingPool)
    → KeepsTable from
    → All IsNamed resolved
    → IsNamed address
    → All IsNamed p.routing_table.routers
    → let (status, q) = update_routing_table from resolved address p in
      Tried from (Asked resolved address p.routing_table) p.routing_table (status, q.routing_table)
      × (q ≡ record p { routing_table = q.routing_table })
unfolding update_routing_table
update_routing_table-Tried from resolved address p k h n m =
    let t = p.routing_table in
    (
      retried from (to_try-Asked resolved address t h n m)
          (try_routers-Tried from (routers_to_try resolved address t) t k),
      refl,
    )
