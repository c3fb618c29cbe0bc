-- ===== src/RoutingPool/Servers.antt =====
-- Each server that the pool knows has its direct pool, in the place of the server.
use seabolt.Prelude.{
  ℕ, zero, suc, ◌<◌, ◌≡◌, ◌∙◌, refl, ap, subst, inl, inr, true, none, some, Option-cases, List, [],
  ◌∷◌, ◌++◌, length, length-append, get_elem?, arith,
}
use seabolt.Address.{Address}
use seabolt.Address.Parse.{IsNamed}
use seabolt.AddressSet
use seabolt.AddressSet.{AddressSet, index_of}
use seabolt.AddressSet.Members as Members
use seabolt.AddressSet.Members.{index_of-Searched, copy_named, get_last}
use seabolt.AddressSet.Reach.{add-IsValid}
use seabolt.DirectPool.{Pool}
use seabolt.RoutingPool.{RoutingPool, add_server, ensure_server}

pub record IsAligned (p : RoutingPool) : Type 0 where
  pub servers : Members.IsValid p.servers
  pub pools : length p.server_pools ≡ length p.servers

-- What a call that makes sure of a server returns and leaves.
pub record Ensured (server : Address) (i : ℕ) (p : RoutingPool) : Type 0 where
  pub there : get_elem? p.servers i ≡ some server
  pub in_range : i < length p.server_pools
  pub aligned : IsAligned p

get_elem-in_range {ℓ} :
    {A : Type ℓ} (xs : List A) (i : ℕ) (a : A) → get_elem? xs i ≡ some a → i < length xs
get_elem-in_range [] i a e = ground (arith, e)
get_elem-in_range (x ∷ xs) zero a e = omega arith
get_elem-in_range (x ∷ xs) (suc i) a e = omega (arith, get_elem-in_range xs i a e)

add_server-Ensured :
    (made : Pool) (p : RoutingPool) (server : Address)
    → IsNamed server
    → IsAligned p
    → (i : ℕ) × ((add_server made p server).0 ≡ some i)
      × Ensured server i (add_server made p server).1
unfolding add_server AddressSet.add
add_server-Ensured made p server n v = elim (Option-cases (index_of p.servers server)) [
  | inr (i, present) ↦
      rw (add_server, present)
        (let there = (rw present at (index_of-Searched p.servers server)).0 in
          (
            i,
            refl,
            record {
              there = there;
              in_range = omega (arith, v.pools, get_elem-in_range p.servers i server there);
              aligned = v;
            },
          ))
  | inl absent ↦
      rw (add_server, absent, added p.servers server n absent)
        (let set_valid : Members.IsValid (p.servers ++ (server ∷ [])) =
            subst Members.IsValid (ap (λ r. r.1) (added p.servers server n absent))
              (add-IsValid server n v.servers) in
          (
            length p.servers,
            refl,
            record {
              there = get_last p.servers server;
              in_range = omega (arith, length-append p.server_pools (made ∷ []), v.pools);
              aligned = record {
                servers = set_valid;
                pools = omega (
                  arith,
                  length-append p.server_pools (made ∷ []),
                  length-append p.servers (server ∷ []),
                  v.pools,
                );
              };
            },
          ))
]
  where
    added :
        (s : AddressSet) (a : Address)
        → IsNamed a
        → index_of s a ≡ none
        → AddressSet.add s a ≡ (some (length s), s ++ (a ∷ []))
    added s a n absent = rw (AddressSet.add, absent, copy_named n) refl

-- What other threads may do: they keep the pool aligned, and add servers behind those that are there.
pub record Adds (f : RoutingPool → RoutingPool) : Type 0 where
  pub keeps : (q : RoutingPool) → IsAligned q → IsAligned (f q)
  pub behind : (q : RoutingPool) → (rest : AddressSet) × ((f q).servers ≡ q.servers ++ rest)

get_elem-append {ℓ} :
    {A : Type ℓ} (xs ys : List A) (i : ℕ) (a : A)
    → get_elem? xs i ≡ some a
    → get_elem? (xs ++ ys) i ≡ some a
get_elem-append [] ys i a e = cc
get_elem-append (x ∷ xs) ys zero a e = e
get_elem-append (x ∷ xs) ys (suc i) a e = get_elem-append xs ys i a e

added-Ensured :
    {f : RoutingPool → RoutingPool} (h : Adds f) {server : Address} {i : ℕ} {p : RoutingPool}
    → Ensured server i p
    → Ensured server i (f p)
added-Ensured {f} h {server} {i} {p} e =
    let (rest, more) = h.behind p in
    let aligned = h.keeps p e.aligned in
    let there : get_elem? (f p).servers i ≡ some server =
      ap (λ s. get_elem? s i) more ∙ get_elem-append p.servers rest i server e.there in
    record {
      there = there;
      in_range = omega (arith, aligned.pools, get_elem-in_range (f p).servers i server there);
      aligned = aligned;
    }

-- Asked to make a pool for a server with a host and a port, in a pool that is aligned, `ensure_server`
-- returns an index at which the server stands in the set and a direct pool in the array, and the pool
-- is aligned. What the other threads do until the write lock is taken keeps the pool aligned; what
-- they do between the release of the write lock and the read lock keeps it aligned too, and may add
-- servers behind the others but neither remove nor move one, as a cleanup would.
pub ensure_server-Ensured :
    (made : Pool) (meanwhile afterwards : RoutingPool → RoutingPool) (p : RoutingPool)
    (server : Address)
    → IsNamed server
    → IsAligned p
    → ((q : RoutingPool) → IsAligned q → IsAligned (meanwhile q))
    → Adds afterwards
    → let (index, q) = ensure_server made meanwhile afterwards p server true in
      (i : ℕ) × (index ≡ some i) × Ensured server i q
unfolding ensure_server
ensure_server-Ensured made meanwhile afterwards p server n v keeps adds =
    elim (Option-cases (index_of p.servers server)) [
      | inr (i, present) ↦
          rw (ensure_server, present)
            (let there = (rw present at (index_of-Searched p.servers server)).0 in
              (
                i,
                refl,
                record {
                  there = there;
                  in_range = omega (arith, v.pools, get_elem-in_range p.servers i server there);
                  aligned = v;
                },
              ))
      | inl absent ↦
          let (i, e, ensured) = add_server-Ensured made (meanwhile p) server n (keeps p v) in
          rw (ensure_server, absent) (i, e, added-Ensured adds ensured)
    ]
