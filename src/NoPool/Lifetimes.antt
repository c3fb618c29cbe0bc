-- ===== src/NoPool/Lifetimes.antt =====
-- Over any sequence of acquisitions and releases the pool holds live connections, each once, so that
-- its own calls free no connection twice.
use seabolt.NoPool.Removal.{taken-IsValid}
use seabolt.NoPool.Liveness.{dead-Absent, put-AreLive, append-Distinct, append-AreLive}
use seabolt.NoPool.Arrays.{Absent, Distinct, AreLive, IsValid}
use seabolt.Prelude.{
  ℕ, ◌≡◌, ◌≢◌, refl, ◌∙◌, subst, true, false, Bool-cases, Option, none, some, Option-cases, List,
  [], ◌∷◌, inl, inr, ◌==◌, arith,
}
use seabolt.Error
use seabolt.Status as Status
use seabolt.Status.{Status}
use seabolt.NoPool.{Calls, Pool, put, create, prepare, acquire, taken, release, destroyed, destroy}

create-IsValid : IsValid create
unfolding create
create-IsValid = record { distinct = tt; alive = tt }

some-ne-none {ℓ} : {A : Type ℓ} {a : A} → some a ≢ none
some-ne-none e = cc

some-injective {ℓ} : {A : Type ℓ} {a b : A} → some a ≡ some b → a ≡ b
some-injective e = cc

-- The new connection is live.
put-live : (live : ℕ → Option Status) (c : ℕ) (s : Status) → put live c (some s) c ≢ none
put-live live c s e =
    let same : (c == c) ≡ true = ground arith in some-ne-none {a = s} (rw same at e)

pub acquire-IsValid :
    (calls : Calls) (new : ℕ) (p : Pool)
    → p.live new ≡ none
    → IsValid p
    → IsValid (acquire calls new p).2
unfolding acquire
acquire-IsValid calls new p fresh v =
    let (pool_error, s) = prepare calls Status.create in
    let absent = dead-Absent p.live new p.connections fresh v.alive in
    let kept = put-AreLive p.live new (some s) p.connections absent v.alive in
    elim (Bool-cases (pool_error == Error.success)) [
      | inl good ↦ rw good (record {
        distinct = append-Distinct p.connections new absent v.distinct;
        alive =
            append-AreLive (put p.live new (some s)) p.connections new kept (put-live p.live new s);
      })
      | inr bad ↦ rw bad (elim (Bool-cases (pool_error == Error.connection_has_more_info)) [
        | inl more ↦ rw more (record { distinct = v.distinct; alive = kept })
        | inr none_more ↦ rw none_more (record { distinct = v.distinct; alive = kept })
      ])
    ]

-- A write of what is not asked for.
Absent-live :
    (live : ℕ → Option Status) (c : ℕ) (cs : List ℕ) (q : ℕ)
    → Absent q (c ∷ cs)
    → put live c none q ≡ live q
Absent-live live c cs q (other, _) =
    let apart : (q == c) ≡ false = ground (arith, other) in rw apart refl

put-same : (live : ℕ → Option Status) (c q : ℕ) → c ≡ q → put live c none q ≡ none
put-same live c q same = let e : (q == c) ≡ true = ground (arith, same) in rw e refl

destroyed_all :
    (cs : List ℕ) (live : ℕ → Option Status)
    → Distinct cs
    → AreLive live cs
    → (left : ℕ → Option Status) × (destroyed cs live ≡ some left)
      × ((q : ℕ) → Absent q cs → left q ≡ live q)
      × ((q : ℕ) → left q ≢ none → Absent q cs)
unfolding destroyed
destroyed_all [] live d a = (live, refl, (λ q _. refl), λ q alive. tt)
destroyed_all (c ∷ cs) live (k, d) (l, a) =
    let (left, went, kept, dead) =
      destroyed_all cs (put live c none) d (put-AreLive live c none cs k a) in
    elim (Option-cases (live c)) [
      | inl e ↦ absurd (l e)
      | inr (s, e) ↦ (
        left,
        rw (destroyed, e, went) refl,
        (λ q (other, rest). kept q rest ∙ Absent-live live c cs q (other, rest)),
        λ q alive. ((λ same. alive (kept q (dead q alive) ∙ put-same live c q same)), dead q alive),
      )
    ]

-- What callers do, one step behind the other: they acquire, at an address that `malloc` says is free,
-- and release what they acquired and did not release before.
pub data Reachable : Pool → Type 0 where
  created : Reachable create
  acquired :
      {p : Pool} (calls : Calls) (new : ℕ)
      → p.live new ≡ none
      → Reachable p
      → Reachable (acquire calls new p).2
  released :
      {p q : Pool} (c : ℕ) {o : Option ℕ}
      → p.live c ≢ none
      → release p c ≡ some (o, q)
      → Reachable p
      → Reachable q

released-IsValid :
    (p q : Pool) (c : ℕ) (o : Option ℕ)
    → p.live c ≢ none
    → release p c ≡ some (o, q)
    → IsValid p
    → IsValid q
unfolding release
released-IsValid p q c o alive e v = elim (Option-cases (p.live c)) [
  | inl dead ↦ absurd (alive dead)
  | inr (s, there) ↦
      let same : some (taken p c) ≡ some (o, q) = rw (release, there) at e in
      let kept = (taken-IsValid p c v).0 in
      subst (λ (r : Option ℕ × Pool). IsValid r.1) (some-injective same) kept
]

holds_once : (p : Pool) → Reachable p → IsValid p
holds_once _ created = create-IsValid
holds_once _ (acquired {p} calls new fresh r) = acquire-IsValid calls new p fresh (holds_once p r)
holds_once _ (released {p} {q} c {o} alive e r) = released-IsValid p q c o alive e (holds_once p r)

-- A pool whose calls free no connection twice.
pub record IsSafe (p : Pool) : Type 0 where
  pub valid : IsValid p
  pub releases :
      (c : ℕ)
      → p.live c ≢ none
      → (o : Option ℕ) × (q : Pool) × (release p c ≡ some (o, q))
        × Absent c q.connections
        × (q.live c ≡ none)
  pub destroys :
      (left : ℕ → Option Status) × (destroy p ≡ some left)
      × ((c : ℕ) → Absent c p.connections → left c ≡ p.live c)
      × ((c : ℕ) → left c ≢ none → Absent c p.connections)

-- After any acquisitions, whether they succeed or not, and any releases, each of a connection that was
-- acquired and not released since, if no new connection gets an address in use: the array of the pool
-- holds live connections only, and each at most once. A further such release destroys its connection
-- once and leaves it out of the array, and the destruction of the pool destroys what the array holds,
-- each once, and nothing else.
pub Reachable-IsSafe : (p : Pool) → Reachable p → IsSafe p
unfolding release destroy
Reachable-IsSafe p r =
    let v = holds_once p r in
    record {
      valid = v;
      releases = λ c alive. elim (Option-cases (p.live c)) [
        | inl dead ↦ absurd (alive dead)
        | inr (s, there) ↦
            let (w, absent, gone) = taken-IsValid p c v in
            ((taken p c).0, (taken p c).1, rw (release, there) refl, absent, gone)
      ];
      destroys = destroyed_all p.connections p.live v.distinct v.alive;
    }
