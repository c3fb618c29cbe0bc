-- ===== src/Mem/Accounting.antt =====
-- The counters under any sequence of the allocator's calls.
use seabolt.Prelude.{
  Bool-cases, ==_iff, ◌==◌, inl, inr, ℕ, ◌≤◌, ◌≡◌, ◌≢◌, refl, Option, none, some, List, [], ◌∷◌,
  arith,
}
use seabolt.Prelude.Int.{ℤ, int_laws, ltb_ℤ, ltb_ℤ→lt, not_ltb_ℤ→le, pos, ◌+ℤ◌, ◌≤ℤ◌}
use seabolt.Mem.{Counters, raise_peak, allocate, reallocate, deallocate, adjust}

pub data Call : Type 0 where
  allocates : Option ℕ → ℕ → Call
  reallocates : Option ℕ → ℕ → ℕ → Call
  deallocates : Option ℕ → ℕ → Call
  adjusts : Option ℕ → ℕ → ℕ → Option ℕ → Call

pub step : Counters → Call → Counters
unfolding allocate reallocate deallocate adjust
step c (allocates p n) = (allocate p n c).1
step c (reallocates p m n) = (reallocate p m n c).1
step c (deallocates p n) = (deallocate p n c).1
step c (adjusts ptr m n p) = (adjust ptr m n p c).1

pub run : Counters → List Call → Counters
unfolding step
run c [] = c
run c (x ∷ xs) = run (step c x) xs

abbrev pub Bounded : Counters → Type 0
Bounded c = c.allocation ≤ℤ c.peak_allocation

-- One call keeps the peak at or above the allocation, and lowers neither the peak nor the events.
pub record Grows (c d : Counters) : Type 0 where
  pub below : Bounded d
  pub kept : c.peak_allocation ≤ℤ d.peak_allocation
  pub counted : c.allocation_events ≤ d.allocation_events

raise_peak-Grows :
    (c : Counters) (now : ℤ) (events : ℕ)
    → Bounded c
    → c.allocation_events ≤ events
    → Grows c (raise_peak c now events)
unfolding raise_peak
raise_peak-Grows c now events h k = elim (Bool-cases (ltb_ℤ c.peak_allocation now)) [
  | inl up ↦ rw up (record {
    below = omega (int_laws, ltb_ℤ→lt c.peak_allocation now up);
    kept = omega (int_laws, ltb_ℤ→lt c.peak_allocation now up);
    counted = k;
  })
  | inr flat ↦ rw flat (record {
    below = omega (int_laws, not_ltb_ℤ→le c.peak_allocation now flat);
    kept = omega arith;
    counted = k;
  })
]

deallocate-Grows :
    (ptr : Option ℕ) (m : ℕ) (c : Counters) → Bounded c → Grows c (deallocate ptr m c).1
unfolding deallocate
deallocate-Grows none m c h = record { below = h; kept = omega arith; counted = omega arith }
deallocate-Grows (some a) m c h = record {
  below = omega int_laws;
  kept = omega arith;
  counted = omega arith;
}

-- The four ways through `BoltMem_adjust`.
adjust-cases {ℓ} :
    (P : Option ℕ × Counters → Type ℓ) (ptr p : Option ℕ) (m n : ℕ) (c : Counters)
    → (n ≡ m → P (ptr, c))
    → (m ≡ 0 → P (allocate p n c))
    → (m ≢ 0 → n ≡ 0 → P (deallocate ptr m c))
    → (m ≢ 0 → P (reallocate p m n c))
    → P (adjust ptr m n p c)
unfolding adjust
adjust-cases P ptr p m n c same fresh freed moved = elim (Bool-cases (n == m)) [
  | inl e ↦ rw e (same ((==_iff n m).0 e))
  | inr e ↦ elim (Bool-cases (m == 0)) [
    | inl z ↦ rw (e, z) (fresh ((==_iff m 0).0 z))
    | inr z ↦ elim (Bool-cases (n == 0)) [
      | inl o ↦ rw (e, z, o) (freed (λ q. ground (arith, q)) ((==_iff n 0).0 o))
      | inr o ↦ rw (e, z, o) (moved (λ q. ground (arith, q)))
    ]
  ]
]

adjust-Grows :
    (ptr p : Option ℕ) (m n : ℕ) (c : Counters) → Bounded c → Grows c (adjust ptr m n p c).1
unfolding allocate reallocate
adjust-Grows ptr p m n c h =
    adjust-cases (λ r. Grows c r.1) ptr p m n c
      (λ _. record { below = h; kept = omega arith; counted = omega arith })
      (λ _. raise_peak-Grows c _ _ h (omega arith)) (λ _ _. deallocate-Grows ptr m c h)
      (λ _. raise_peak-Grows c _ _ h (omega arith))

step-Grows : (c : Counters) (x : Call) → Bounded c → Grows c (step c x)
unfolding step allocate reallocate
step-Grows c (allocates p n) h = raise_peak-Grows c _ _ h (omega arith)
step-Grows c (reallocates p m n) h = raise_peak-Grows c _ _ h (omega arith)
step-Grows c (deallocates ptr n) h = deallocate-Grows ptr n c h
step-Grows c (adjusts ptr m n p) h = adjust-Grows ptr p m n c h

Grows-trans : {c d e : Counters} → Grows c d → Grows d e → Grows c e
Grows-trans g h = omega arith

-- After any sequence of allocator calls from counters whose peak is at least the allocation, the
-- peak is still at least the allocation, and neither the peak nor the count of events has fallen.
pub run-Grows : (c : Counters) (xs : List Call) → Bounded c → Grows c (run c xs)
unfolding run
run-Grows c [] h = record { below = h; kept = omega arith; counted = omega arith }
run-Grows c (x ∷ xs) h = let g = step-Grows c x h in Grows-trans g (run-Grows (step c x) xs g.below)

-- Whichever way `BoltMem_adjust` goes, it accounts for the change of size, provided that a block of
-- positive size is not NULL.
pub adjust_lem :
    (ptr p : Option ℕ) (m n : ℕ) (c : Counters)
    → (m ≢ 0 → ptr ≢ none)
    → (adjust ptr m n p c).1.allocation +ℤ pos m ≡ c.allocation +ℤ pos n
unfolding allocate reallocate deallocate raise_peak
adjust_lem ptr p m n c h =
    adjust-cases (λ r. r.1.allocation +ℤ pos m ≡ c.allocation +ℤ pos n) ptr p m n c
      (λ e. omega (int_laws, e)) (λ e. omega (int_laws, e)) (λ z e. freed ptr (h z) e)
      (λ _. omega int_laws)
  where
    freed :
        (q : Option ℕ)
        → q ≢ none
        → n ≡ 0
        → (deallocate q m c).1.allocation +ℤ pos m ≡ c.allocation +ℤ pos n
    freed none k e = absurd (k refl)
    freed (some a) k e = omega (int_laws, e)
