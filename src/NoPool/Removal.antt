-- ===== src/NoPool/Removal.antt =====
-- What `BoltNoPool_release` takes out of the array, and from the connections that live.
use seabolt.NoPool.Liveness.{put-AreLive}
use seabolt.NoPool.Arrays.{Absent, Distinct, AreLive, IsValid}
use seabolt.Prelude.{
  ℕ, zero, suc, ◌≡◌, ◌≢◌, ap, sym, ◌∙◌, subst, true, Bool-cases, Option, none, some, Option-cases,
  List, [], ◌∷◌, inl, inr, ◌==◌, arith,
}
use seabolt.Status.{Status}
use seabolt.NoPool.{Pool, put, find_open_connection, remove_at, taken}

remove_at-Absent : (c : ℕ) (cs : List ℕ) (i : ℕ) → Absent c cs → Absent c (remove_at cs i)
unfolding remove_at
remove_at-Absent c [] i a = tt
remove_at-Absent c (d ∷ ds) zero (k, a) = a
remove_at-Absent c (d ∷ ds) (suc i) (k, a) = (k, remove_at-Absent c ds i a)

remove_at-Distinct : (cs : List ℕ) (i : ℕ) → Distinct cs → Distinct (remove_at cs i)
unfolding remove_at
remove_at-Distinct [] i h = tt
remove_at-Distinct (d ∷ ds) zero (a, h) = h
remove_at-Distinct (d ∷ ds) (suc i) (a, h) = (remove_at-Absent d ds i a, remove_at-Distinct ds i h)

remove_at-AreLive :
    (live : ℕ → Option Status) (cs : List ℕ) (i : ℕ)
    → AreLive live cs
    → AreLive live (remove_at cs i)
unfolding remove_at
remove_at-AreLive live [] i h = tt
remove_at-AreLive live (d ∷ ds) zero (k, h) = h
remove_at-AreLive live (d ∷ ds) (suc i) (k, h) = (k, remove_at-AreLive live ds i h)

-- What is left of the array when a connection was looked for and removed.
abbrev without : List ℕ → Option ℕ → List ℕ
without cs none = cs
without cs (some i) = remove_at cs i

found-Absent :
    (c : ℕ) (cs : List ℕ) → Distinct cs → Absent c (without cs (find_open_connection cs c))
unfolding find_open_connection remove_at
found-Absent c [] h = tt
found-Absent c (d ∷ ds) (a, h) = elim (Bool-cases (d == c)) [
  | inl same ↦ rw same (subst (λ x. Absent x ds) (ground (arith, same)) a)
  | inr other ↦
      rw other
        (go (λ e. ground (arith, other, e)) (find_open_connection ds c) (found-Absent c ds h))
]
  where
    go :
        d ≢ c
        → (o : Option ℕ) → Absent c (without ds o)
        → Absent c (without (d ∷ ds) (elim o [ none ↦ none | some i ↦ some (suc i) ]))
    go k none b = (k, b)
    go k (some i) b = (k, b)

taken-connections :
    (p : Pool) (c : ℕ)
    → (taken p c).1.connections ≡ without p.connections (find_open_connection p.connections c)
unfolding taken
taken-connections p c = elim (Option-cases (find_open_connection p.connections c)) [
  | inl nowhere ↦ rw (nowhere, taken, without)
  | inr (i, found) ↦ rw (found, taken, without)
]

taken-live : (p : Pool) (c : ℕ) → (taken p c).1.live ≡ put p.live c none
unfolding taken
taken-live p c = elim (Option-cases (find_open_connection p.connections c)) [
  | inl nowhere ↦ rw (nowhere, taken)
  | inr (i, found) ↦ rw (found, taken)
]

without-Distinct : (cs : List ℕ) (o : Option ℕ) → Distinct cs → Distinct (without cs o)
without-Distinct cs none h = h
without-Distinct cs (some i) h = remove_at-Distinct cs i h

without-AreLive :
    (live : ℕ → Option Status) (cs : List ℕ) (o : Option ℕ)
    → AreLive live cs
    → AreLive live (without cs o)
without-AreLive live cs none h = h
without-AreLive live cs (some i) h = remove_at-AreLive live cs i h

-- Taking out any connection keeps the pool well-formed, takes the connection out of the array wherever
-- it stood, and destroys it.
pub taken-IsValid :
    (p : Pool) (c : ℕ)
    → IsValid p
    → IsValid (taken p c).1 × Absent c (taken p c).1.connections × ((taken p c).1.live c ≡ none)
taken-IsValid p c v =
    let o = find_open_connection p.connections c in
    let absent = found-Absent c p.connections v.distinct in
    let array = taken-connections p c in
    let memory = taken-live p c in
    (
      record {
        distinct = subst Distinct (sym array) (without-Distinct p.connections o v.distinct);
        alive =
            subst (λ l. AreLive l (taken p c).1.connections) (sym memory)
              (subst (AreLive (put p.live c none)) (sym array) (
                put-AreLive p.live c none (without p.connections o) absent
                  (without-AreLive p.live p.connections o v.alive)));
      },
      subst (Absent c) (sym array) absent,
      ap (λ (l : ℕ → Option Status). l c) memory ∙ put-dead p.live c,
    )
  where
    put-dead : (live : ℕ → Option Status) (q : ℕ) → put live q none q ≡ none
    put-dead live q = let same : (q == q) ≡ true = ground arith in rw same
