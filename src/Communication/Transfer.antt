-- ===== src/Communication/Transfer.antt =====
-- The loops end, and a transfer that succeeds is complete.
use seabolt.Prelude.{
  ℕ, zero, suc, ◌+◌, ◌-◌, ◌≤◌, ◌≡◌, refl, ap, sym, ◌∙◌, subst, Bool, true, false, Bool-cases,
  Option, none, some, List, [], ◌∷◌, ◌++◌, append-nil, append_assoc, length, length-append,
  length-drop, take, drop, take-drop, ltb, inl, inr, ◌==◌, if◌then◌else◌, arith,
}
use seabolt.Error
use seabolt.Communication.{Transport, send_loop, receive_loop, restore, send, receive}

-- A transport that passes bytes on in order: `sent` is what it has taken, `arriving` what it will
-- still give. A call that succeeds moves a byte at least and no more than was asked; the calls that
-- set the signal handler move none.
pub record Transmits {ℓ} {S : Type ℓ} (t : Transport S) (sent arriving : S → List ℕ) : Type ℓ where
  pub sends :
      (s : S) (xs : List ℕ)
      → let (code, (n, next)) = t.send s xs in
        code ≡ Error.success → (1 ≤ n) × (n ≤ length xs) × (sent next ≡ sent s ++ take n xs)
  pub receives :
      (s : S) (max : ℕ)
      → let (code, (xs, next)) = t.recv s max in
        code ≡ Error.success
        → (1 ≤ length xs) × (length xs ≤ max) × (arriving s ≡ xs ++ arriving next)
  pub ignores :
      (s : S)
      → let next = (t.ignore_sigpipe s).1 in (sent next ≡ sent s) × (arriving next ≡ arriving s)
  pub restores :
      (s : S)
      → let next = (t.restore_sigpipe s).1 in (sent next ≡ sent s) × (arriving next ≡ arriving s)

-- A call of `send` that came back; if with success, all the bytes were taken.
abbrev pub Sent {ℓ} : {S : Type ℓ} → (S → List ℕ) → List ℕ → Option (ℕ × S) → Type 0
Sent sent all none = ⊥
Sent sent all (some (code, s)) = (code ≡ Error.success) → sent s ≡ all

-- A call of `receive` that came back; if with success, with as many bytes as were asked for, and they
-- are the next ones.
abbrev pub Received {ℓ} :
    {S : Type ℓ} → (S → List ℕ) → List ℕ → ℕ → ℕ → Option (ℕ × (List ℕ × S)) → Type 0
Received arriving all min max none = ⊥
Received arriving all min max (some (code, (xs, s))) =
    (code ≡ Error.success) → (min ≤ length xs) × (length xs ≤ max) × (all ≡ xs ++ arriving s)

module _ {ℓ} {S : Type ℓ} {t : Transport S} {sent arriving : S → List ℕ}
    (h : Transmits t sent arriving) where
  -- A round, whose successor `more` is known to send what is left.
  send_round :
      (s : S) (xs : List ℕ) (more : Option (ℕ × S)) (good : Bool)
      → let (code, (n, next)) = t.send s xs in
        (code == Error.success) ≡ good
        → (code ≡ Error.success → Sent sent (sent next ++ drop n xs) more)
        → Sent sent (sent s ++ xs) (if good then more else some (Error.status_set, next))
  send_round s xs more true e rest =
      let (code, (n, next)) = t.send s xs in
      let success : code ≡ Error.success = ground (arith, e) in
      let (_, _, taken) = h.sends s xs success in
      subst (λ all. Sent sent all more)
        (ap (λ ys. ys ++ drop n xs) taken
          ∙ append_assoc (sent s) (take n xs) (drop n xs)
          ∙ ap (λ ys. sent s ++ ys) (take-drop n xs))
        (rest success)
  send_round s xs more false e rest = λ impossible. ground (arith, impossible)

  send_loop-Sent :
      (fuel : ℕ) (s : S) (xs : List ℕ)
      → length xs ≤ fuel
      → Sent sent (sent s ++ xs) (send_loop t fuel s xs)
  unfolding send_loop
  send_loop-Sent fuel s [] k = λ e. sym (append-nil (sent s))
  send_loop-Sent zero s (x ∷ xs) k = omega (arith, k)
  send_loop-Sent (suc fuel) s (x ∷ xs) k =
      let (code, (n, next)) = t.send s (x ∷ xs) in
      send_round s (x ∷ xs) (send_loop t fuel next (drop n (x ∷ xs))) (code == Error.success) refl
        λ good.
          let (some_taken, _, _) = h.sends s (x ∷ xs) good in
          send_loop-Sent fuel next (drop n (x ∷ xs))
            (omega (arith, k, some_taken, length-drop n (x ∷ xs)))

  restore-keeps :
      (code : ℕ) (s : S)
      → let (restored, next) = restore t (code, s) in
        (sent next ≡ sent s)
        × (arriving next ≡ arriving s)
        × (restored ≡ Error.success → code ≡ Error.success)
  unfolding restore
  restore-keeps code s = let (a, b) = h.restores s in (a, b, λ e. ground (arith, e))

  restored-Sent :
      (all : List ℕ) (o : Option (ℕ × S))
      → Sent sent all o
      → Sent sent all (elim o [ none ↦ none | some r ↦ some (restore t r) ])
  restored-Sent all none g = g
  restored-Sent all (some (code, s)) g =
      λ e. let (kept, _, good) = restore-keeps code s in kept ∙ g (good e)

  -- Over a transport of which each call that succeeds moves a byte at least, no more than it was asked
  -- to, and the next ones in order, and whose signal handler moves none: sending ends, after as many
  -- rounds as there are bytes at most. If it reports success, all the bytes have been handed to the
  -- transport, in order, behind those that were sent before. A transport that succeeds with no bytes
  -- is left out: over one that goes on so, the loop of the C code does not end.
  pub send-Sent : (s : S) (xs : List ℕ) → Sent sent (sent s ++ xs) (send t s xs)
  unfolding send
  send-Sent s [] = λ e. sym (append-nil (sent s))
  send-Sent s (x ∷ xs) =
      let ready = (t.ignore_sigpipe s).1 in
      let more : (suc (length xs) == 0) ≡ false = ground arith in
      rw more (elim (Bool-cases ((t.ignore_sigpipe s).0 == Error.success)) [
        | inr failed ↦ rw failed (λ e. ground (arith, failed, e))
        | inl good ↦ rw good (
            restored-Sent (sent s ++ (x ∷ xs)) (send_loop t (suc (length xs)) ready (x ∷ xs)) (
              subst
                (λ ys. Sent sent (ys ++ (x ∷ xs)) (send_loop t (suc (length xs)) ready (x ∷ xs)))
                (h.ignores s).0 (send_loop-Sent (suc (length xs)) ready (x ∷ xs) (omega arith))))
      ])

  -- What has arrived so far, in a loop that has `left` bytes of `min` to wait for.
  receive_round :
      (min max left room : ℕ) (all total : List ℕ) (s : S) (more : Option (ℕ × (List ℕ × S)))
      (good : Bool)
      → let (code, (xs, next)) = t.recv s room in
        (code == Error.success) ≡ good
        → (code ≡ Error.success → Received arriving all min max more)
        → Received arriving all min max
            (if good then more else some (Error.status_set, (total, next)))
  receive_round min max left room all total s more true e rest = rest (ground (arith, e))
  receive_round min max left room all total s more false e rest =
      λ impossible. ground (arith, impossible)

  receive_loop-Received :
      (fuel left room min max : ℕ) (s : S) (all total : List ℕ)
      → left ≤ fuel
      → min ≤ left + length total
      → room + length total ≡ max
      → left ≤ room
      → all ≡ total ++ arriving s
      → Received arriving all min max (receive_loop t fuel s left room total)
  unfolding receive_loop
  receive_loop-Received zero left room min max s all total f m r l e =
      let done : ltb 0 left ≡ false = ground (arith, f) in
      rw done (λ _. (omega (arith, f, m), omega (arith, r), e))
  receive_loop-Received (suc fuel) left room min max s all total f m r l e =
      let (code, (xs, next)) = t.recv s room in
      let more = receive_loop t fuel next (left - length xs) (room - length xs) (total ++ xs) in
      elim (Bool-cases (ltb 0 left)) [
        | inr done ↦ rw done (λ _. (ground (arith, done, m), omega (arith, r), e))
        | inl waiting ↦ rw waiting (
            receive_round min max left room all total s more (code == Error.success) refl λ good.
              let (one, within, next_bytes) = h.receives s room good in
              let n = length-append total xs in
              receive_loop-Received fuel (left - length xs) (room - length xs) min max next all
                (total ++ xs) (omega (arith, f, one)) (omega (arith, m, n))
                (omega (arith, r, n, within)) (omega (arith, l))
                (e
                  ∙ ap (λ ys. total ++ ys) next_bytes
                  ∙ sym (append_assoc total xs (arriving next))))
      ]

  restored-Received :
      (all : List ℕ) (min max : ℕ) (o : Option (ℕ × (List ℕ × S)))
      → Received arriving all min max o
      → Received arriving all min max (elim o [
        | none ↦ none
        | some (code, (xs, next)) ↦
            let (restored, last) = restore t (code, next) in some (restored, (xs, last))
      ])
  restored-Received all min max none g = g
  restored-Received all min max (some (code, (xs, s))) g = λ e.
      let (_, kept, good) = restore-keeps code s in
      let (low, high, all_bytes) = g (good e) in
      (low, high, all_bytes ∙ ap (λ ys. xs ++ ys) (sym kept))

  -- Over a transport of which each call that succeeds moves a byte at least, no more than it was asked
  -- to, and the next ones in order, and whose signal handler moves none: receiving at least `min` and
  -- at most `max` bytes, where `min` is no more than `max`, ends, after `min` rounds at most. If it
  -- reports success, so many bytes stand in the buffer, and they are the next ones that the transport
  -- gives. A transport that succeeds with no bytes is left out: over one that goes on so, the loop of
  -- the C code does not end.
  pub receive-Received :
      (s : S) (min max : ℕ)
      → min ≤ max
      → Received arriving (arriving s) min max (receive t s min max)
  unfolding receive
  receive-Received s min max k =
      let ready = (t.ignore_sigpipe s).1 in
      elim (Bool-cases (min == 0)) [
        | inl nothing ↦ rw nothing (λ e. (ground (arith, nothing), omega arith, refl))
        | inr some_bytes ↦
            rw some_bytes (elim (Bool-cases ((t.ignore_sigpipe s).0 == Error.success)) [
              | inr failed ↦ rw failed (λ e. ground (arith, failed, e))
              | inl good ↦ rw good (
                  restored-Received (arriving s) min max (receive_loop t min ready min max []) (
                    receive_loop-Received min min max min max ready (arriving s) [] (omega arith)
                      (omega arith) (omega arith) k (sym (h.ignores s).1)))
            ])
      ]
