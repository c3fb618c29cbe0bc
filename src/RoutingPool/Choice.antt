-- ===== src/RoutingPool/Choice.antt =====
-- The choice of a server goes through all of them and takes one with the fewest connections.
use seabolt.Prelude.{
  ℕ, zero, suc, ◌+◌, ◌%◌, ◌≤◌, ◌<◌, ◌≡◌, refl, ap, sym, ◌∙◌, subst, ◌⊎◌, inl, inr, true, false,
  Bool-cases, Option, none, some, List, [], ◌∷◌, length, get_elem?, ltb, ◌==◌, if◌then◌else◌, arith,
}
use seabolt.Prelude.Int.{ℤ, pos, ltb_ℤ, ◌≤ℤ◌, ltb_ℤ→lt, not_ltb_ℤ→le}
use native.Mathlib.Nat.{mod-eq_of_lt, mod_self, mod-lt}
use seabolt.Address.{Address}
use seabolt.AddressSet.{AddressSet}
use seabolt.RoutingPool.{
  RoutingPool, active_connections, select_loop, select_least_connected, int_max,
}

-- The loop has been at the positions that the test `V` names: `best` has the fewest connections of
-- those, and stands in the set.
abbrev Best : RoutingPool → AddressSet → (ℕ → Type 0) → Option Address → ℤ → Type 0
Best p servers V none least = ((j : ℕ) → V j → ⊥) × (least ≡ pos int_max)
Best p servers V (some b) least =
    ((i : ℕ) × (get_elem? servers i ≡ some b))
    × (active_connections p b ≡ least)
    × ((j : ℕ) (s : Address) → V j → get_elem? servers j ≡ some s → least ≤ℤ active_connections p s)

some_inj : {a b : Address} → some a ≡ some b → a ≡ b
some_inj e = ground (arith, e)

module _ (p : RoutingPool) (servers : AddressSet) where
  Best-step :
      (V W : ℕ → Type 0) (index : ℕ) (server : Address) (best : Option Address) (least : ℤ)
      → get_elem? servers index ≡ some server
      → ltb_ℤ (active_connections p server) (pos int_max) ≡ true
      → ((j : ℕ) → W j → V j ⊎ (j ≡ index))
      → Best p servers V best least
      → let better = ltb_ℤ (active_connections p server) least in
        Best p servers W
          (if better then some server else best)
          (if better then active_connections p server else least)
  Best-step V W index server none least e small grows (nobody, start) =
      rw (start, small)
        (
          (index, e),
          refl,
          λ j s w f. elim (grows j w) [
            | inl v ↦ absurd (nobody j v)
            | inr same ↦
                let h : server ≡ s = some_inj (sym e ∙ ap (get_elem? servers) (sym same) ∙ f) in
                rw h (omega arith)
          ],
        )
  Best-step V W index server (some b) least e small grows ((i, there), has, low) =
      elim (Bool-cases (ltb_ℤ (active_connections p server) least)) [
        | inl better ↦ rw better (
          (index, e),
          refl,
          λ j s w f. elim (grows j w) [
            | inl v ↦
                omega (arith, low j s v f, ltb_ℤ→lt (active_connections p server) least better)
            | inr same ↦
                let h : server ≡ s = some_inj (sym e ∙ ap (get_elem? servers) (sym same) ∙ f) in
                rw h (omega arith)
          ],
        )
        | inr worse ↦ rw worse (
          (i, there),
          has,
          λ j s w f. elim (grows j w) [
            | inl v ↦ low j s v f
            | inr same ↦
                let h : server ≡ s = some_inj (sym e ∙ ap (get_elem? servers) (sym same) ∙ f) in
                rw⁻¹ h (not_ltb_ℤ→le (active_connections p server) least worse)
          ],
        )
      ]

in_range {ℓ} :
    {A : Type ℓ} (xs : List A) (i : ℕ) → i < length xs → (a : A) × (get_elem? xs i ≡ some a)
in_range [] i h = absurd (omega (arith, h))
in_range (x ∷ xs) zero h = (x, refl)
in_range (x ∷ xs) (suc i) h = in_range xs i (omega (arith, h))

next_index :
    (n index : ℕ)
    → index < n
    → (((index + 1) % n ≡ index + 1) × (index + 1 < n)) ⊎ (((index + 1) % n ≡ 0) × (index + 1 ≡ n))
next_index n index h = elim (Bool-cases (ltb (index + 1) n)) [
  | inl less ↦ inl (mod-eq_of_lt (ground (arith, less)), ground (arith, less))
  | inr not_less ↦
      let e : index + 1 ≡ n = ground (arith, h, not_less) in
      inr (subst (λ m. m % n ≡ 0) (sym e) (mod_self n), e)
]

-- A server of the set, and none has fewer connections.
abbrev pub IsLeast : RoutingPool → AddressSet → Option Address → Type 0
IsLeast p servers none = ⊥
IsLeast p servers (some b) =
    ((i : ℕ) × (get_elem? servers i ≡ some b))
    × ((j : ℕ) (s : Address)
        → get_elem? servers j ≡ some s
        → active_connections p b ≤ℤ active_connections p s)

get_elem_bound : (xs : AddressSet) (i : ℕ) (a : Address) → get_elem? xs i ≡ some a → i < length xs
get_elem_bound [] i a e = ground (arith, e)
get_elem_bound (x ∷ xs) zero a e = omega arith
get_elem_bound (x ∷ xs) (suc i) a e = omega (arith, get_elem_bound xs i a e)

module _ (p : RoutingPool) (servers : AddressSet) (start : ℕ) where
  -- The positions that `k` rounds have been at.
  Visited : ℕ → ℕ → Type 0
  Visited k j =
      (j < length servers) × (((start ≤ j) × (j < start + k)) ⊎ (j + length servers < start + k))

  all-IsLeast :
      (best : Option Address) (least : ℤ) (k : ℕ)
      → k ≡ length servers
      → 0 < k
      → start < k
      → Best p servers (Visited k) best least
      → IsLeast p servers best
  unfolding Visited
  all-IsLeast none least k e h l (nobody, _) =
      nobody start (omega (arith, e, l), inl (omega arith, omega (arith, h)))
  all-IsLeast (some b) least k e h l (there, has, low) = (
    there,
    λ j s f.
        let bound = get_elem_bound servers j s f in
        let seen : Visited k j = (bound, ground (arith, bound, e)) in rw has (low j s seen f),
  )

  select_loop-IsLeast :
      ((j : ℕ) (s : Address)
        → get_elem? servers j ≡ some s
        → ltb_ℤ (active_connections p s) (pos int_max) ≡ true)
      → start < length servers
      → (fuel k index : ℕ) (best : Option Address) (least : ℤ) → k + fuel ≡ length servers
      → 0 < fuel
      → index < length servers
      → (index ≡ start + k) ⊎ (index + length servers ≡ start + k)
      → Best p servers (Visited k) best least
      → IsLeast p servers (select_loop p servers start fuel index best least)
  unfolding select_loop Visited
  select_loop-IsLeast small l zero k index best least e pos_fuel h at v =
      absurd (omega (arith, pos_fuel))
  select_loop-IsLeast small l (suc fuel) k index best least e pos_fuel h at v =
      let n = length servers in
      let (server, found) = in_range servers index h in
      let active = active_connections p server in
      let w =
        Best-step p servers (Visited k) (Visited (k + 1)) index server best least found
          (small index server found) (λ j seen. ground (arith, seen, at)) v in
      let chosen = if ltb_ℤ active least then some server else best in
      let fewest = if ltb_ℤ active least then active else least in
      let next = (index + 1) % n in
      rw (select_loop, found)
        (elim (Bool-cases (next == start)) [
          | inl stop ↦ rw stop (
              all-IsLeast chosen fewest (k + 1) (ground (arith, next_index n index h, stop, at, e))
                (omega arith) (ground (arith, next_index n index h, stop, at, e, l)) w)
          | inr more ↦ rw more (
              select_loop-IsLeast small l fuel (k + 1) next chosen fewest (omega (arith, e))
                (ground (arith, next_index n index h, more, at, e, l))
                (ground (arith, next_index n index h))
                (ground (arith, next_index n index h, at, e, more, l)) w)
        ])

-- From any offset, the choice from a set that is not empty is a server of the set with no more
-- connections than any other, provided that each has fewer than INT_MAX.
pub select_least_connected-IsLeast :
    (p : RoutingPool) (servers : AddressSet) (offset : ℕ)
    → 0 < length servers
    → ((j : ℕ) (s : Address)
        → get_elem? servers j ≡ some s
        → ltb_ℤ (active_connections p s) (pos int_max) ≡ true)
    → IsLeast p servers (select_least_connected p servers offset)
unfolding select_least_connected Visited
select_least_connected-IsLeast p servers offset h small =
    let n = length servers in
    let start = offset % n in
    let l : start < n = mod-lt offset h in
    let full : (n == 0) ≡ false = ground (arith, h) in
    rw full (
      select_loop-IsLeast p servers start small l n 0 start none (pos int_max) (omega arith) h l
        (inl (omega arith)) ((λ j seen. ground (arith, seen, l)), refl))
