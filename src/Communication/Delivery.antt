-- ===== src/Communication/Delivery.antt =====
-- A transport that gives what is there: receiving what arrives succeeds.
use seabolt.Prelude.{
  ℕ, zero, suc, ◌-◌, ◌≤◌, ◌≡◌, ap, Option, none, some, List, [], ◌++◌, length, length-append, ltb,
  ◌==◌, Bool-cases, inl, inr, arith, false,
}
use seabolt.Error
use seabolt.Communication.{Transport, receive_loop, restore, receive}
use seabolt.Communication.Transfer.{Transmits}

-- The signal handler can be set, and a call that asks for bytes succeeds while some are arriving.
pub record Delivers {ℓ} {S : Type ℓ} (t : Transport S) (arriving : S → List ℕ) : Type ℓ where
  pub ready : (s : S) → (t.ignore_sigpipe s).0 ≡ Error.success
  pub restored : (s : S) → (t.restore_sigpipe s).0 ≡ Error.success
  pub gives :
      (s : S) (max : ℕ) → 1 ≤ max → 1 ≤ length (arriving s) → (t.recv s max).0 ≡ Error.success

abbrev pub Succeeds {ℓ} : {S : Type ℓ} → Option (ℕ × (List ℕ × S)) → Type 0
Succeeds none = ⊥
Succeeds (some (code, (xs, s))) = code ≡ Error.success

module _ {ℓ} {S : Type ℓ} {t : Transport S} {sent arriving : S → List ℕ}
    (h : Transmits t sent arriving) (d : Delivers t arriving) where
  receive_loop-Succeeds :
      (fuel : ℕ) (s : S) (left room : ℕ) (total : List ℕ)
      → left ≤ fuel
      → left ≤ room
      → left ≤ length (arriving s)
      → Succeeds (receive_loop t fuel s left room total)
  unfolding receive_loop
  receive_loop-Succeeds zero s left room total f r n =
      let nothing : ltb 0 left ≡ false = ground (arith, f) in rw nothing
  receive_loop-Succeeds (suc fuel) s left room total f r n = elim (Bool-cases (ltb 0 left)) [
    | inr nothing ↦ rw nothing
    | inl more ↦
        let (xs, next) = (t.recv s room).1 in
        let good = d.gives s room (ground (arith, more, r)) (ground (arith, more, n)) in
        let (one, within, split) = h.receives s room good in
        rw (more, good)
          (receive_loop-Succeeds fuel next (left - length xs) (room - length xs) (total ++ xs)
            (omega (arith, f, one)) (omega (arith, r))
            (omega (arith, n, ap length split, length-append xs (arriving next))))
  ]

  restored-Succeeds :
      (o : Option (ℕ × (List ℕ × S)))
      → Succeeds o
      → Succeeds (elim o [
        | none ↦ none
        | some (code, (xs, next)) ↦
            let (restored, last) = restore t (code, next) in some (restored, (xs, last))
      ])
  unfolding restore
  restored-Succeeds none g = g
  restored-Succeeds (some (code, (xs, s))) g = rw (d.restored s) g

  -- If as many bytes as are asked for are on their way, receiving them succeeds.
  pub receive-Succeeds :
      (s : S) (min max : ℕ) → min ≤ max → min ≤ length (arriving s) → Succeeds (receive t s min max)
  unfolding receive
  receive-Succeeds s min max k n =
      let next = (t.ignore_sigpipe s).1 in
      elim (Bool-cases (min == 0)) [
        | inl nothing ↦ rw nothing
        | inr more ↦
            rw (more, d.ready s)
              (restored-Succeeds (receive_loop t min next min max []) (
                receive_loop-Succeeds min next min max [] (omega arith) k
                  (omega (arith, n, ap length (h.ignores s).1))))
      ]
