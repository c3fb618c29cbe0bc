-- ===== src/Connection/Delivery.antt =====
-- Over a transport that gives what is there, `BoltConnection_receive` succeeds.
use seabolt.Prelude.{
  ℕ, zero, suc, ◌-◌, ◌≤◌, ◌≡◌, refl, ap, ap₂, Option-cases, sym, ◌∙◌, true, Bool-cases, Option,
  none, some, List, ◌++◌, length, length-append, take, drop, take-length_append, drop-length_append,
  ltb, ◌==◌, inl, inr, if◌then◌else◌, arith, subst,
}
use seabolt.Error
use seabolt.Buffer
use seabolt.Buffer.{Buffer}
use seabolt.Buffer.Contents.{IsValid, contents, length-contents}
use seabolt.Communication
use seabolt.Communication.{Transport}
use seabolt.Communication.Transfer.{Transmits}
use seabolt.Communication.Delivery.{Delivers, Succeeds, receive-Succeeds}
use seabolt.Connection.Outcomes.{done-inj}
use seabolt.Connection.{
  Connection, done, Ends, received, receive_round, receive_loop, receive, take_bytes,
}
use seabolt.Connection.Receive.{pending, Takes, round-Fills, receive-Receives, enough}

-- A split of a list after so many elements is unique.
split_unique :
    (xs ys us vs : List ℕ) → xs ++ us ≡ ys ++ vs → length xs ≡ length ys → (xs ≡ ys) × (us ≡ vs)
split_unique xs ys us vs e n = (
  sym (take-length_append xs us)
      ∙ ap (take (length xs)) e
      ∙ ap (λ k. take k (ys ++ vs)) n
      ∙ take-length_append ys vs,
  sym (drop-length_append xs us)
      ∙ ap (drop (length xs)) e
      ∙ ap (λ k. drop k (ys ++ vs)) n
      ∙ drop-length_append ys vs,
)

module _ {ℓ} {S : Type ℓ} (t : Transport S) (comm_error : S → ℕ) {sent arriving : S → List ℕ}
    (h : Transmits t sent arriving) (v : Delivers t arriving) where
  received-good :
      (c : Connection S) (rx : Buffer) (max : ℕ) (o : Option (ℕ × (List ℕ × S)))
      → Succeeds o
      → Ends (received t comm_error c rx max o) (λ r. r.0 ≡ Error.success)
  unfolding received
  received-good c rx max none g = absurd g
  received-good c rx max (some (code, (xs, s))) g = rw g (_, refl, refl)

  round-good :
      (c : Connection S) (delta : ℕ)
      → delta ≤ length (arriving c.transport)
      → Ends (receive_round t comm_error c delta) (λ r. r.0 ≡ Error.success)
  unfolding receive_round
  round-good c delta n =
      let rx = if Buffer.loadable c.rx == 0 then Buffer.compact c.rx else c.rx in
      let room = Buffer.loadable rx in
      let max = if ltb room delta then delta else room in
      received-good c rx max (Communication.receive t c.transport delta max)
        (receive-Succeeds h v c.transport delta max (ground arith) n)

  loop-good :
      (c : Connection S) (delta : ℕ)
      → IsValid c.rx
      → delta ≤ length (arriving c.transport)
      → Ends (receive_loop t comm_error delta c delta) (λ r. r.0 ≡ Error.success)
  unfolding receive_loop
  loop-good c zero valid n = ((Error.success, c), refl, refl)
  loop-good c (suc fuel) valid n =
      let ((code, k, d), e, fills) = round-Fills t comm_error arriving h c (suc fuel) valid in
      let (r, e', good) = round-good c (suc fuel) n in
      let success : code ≡ Error.success =
        ap (λ (q : ℕ × ℕ × Connection S). q.0) (done-inj (sym e ∙ e')) ∙ good in
      let positive : ltb 0 (suc fuel) ≡ true = ground arith in
      elim fills [
        | inl (_, low, _, _) ↦
            let left : suc fuel - k ≡ 0 = omega arith in
            let went = e ∙ ap (λ q. done (q, k, d)) success in
            (
              (Error.success, d),
              rw (positive, went, left) (enough t comm_error arriving h fuel d),
              refl,
            )
        | inr (bad, _) ↦ absurd (omega (arith, bad, success))
      ]

  take_bytes-good :
      (d : Connection S) (size code : ℕ) (xs : List ℕ) (e : Connection S)
      → take_bytes t comm_error d size ≡ done (code, xs, e)
      → code ≡ Error.success
  take_bytes-good d size code xs e p = elim (Option-cases (Buffer.unload d.rx size)) [
    | inl nothing ↦ cc
    | inr (r, found) ↦ cc
  ]

  receive-good :
      (c : Connection S) (size : ℕ)
      → IsValid c.rx
      → size ≤ length (pending t comm_error arriving c)
      → (code : ℕ) (xs : List ℕ) (e : Connection S)
      → receive t comm_error c size ≡ done (code, xs, e)
      → code ≡ Error.success
  unfolding receive
  receive-good c size valid n code xs e p =
      let missing = size - Buffer.unloadable c.rx in
      let at_hand = length-append (contents c.rx) (arriving c.transport) in
      let ((k, d), q, good) =
        loop-good c missing valid (omega (arith, n, at_hand, length-contents c.rx)) in
      let went = q ∙ ap (λ j. done (j, d)) good in
      elim (Bool-cases (size == 0)) [
        | inl nothing ↦
            sym (ap (λ (r : ℕ × List ℕ × Connection S). r.0) (done-inj (rw nothing at p)))
        | inr more ↦ take_bytes-good d size code xs e (rw (more, went) at p)
      ]

  -- With a valid receive buffer: if `xs` are the next bytes, those at hand and those on their way,
  -- receiving so many succeeds and gives them, over a transport that passes bytes on in order, of which
  -- each call succeeds while some are on their way and moves one at least.
  pub receive-Takes :
      (c : Connection S) (xs rest : List ℕ)
      → IsValid c.rx
      → pending t comm_error arriving c ≡ xs ++ rest
      → (d : Connection S) × (receive t comm_error c (length xs) ≡ done (Error.success, xs, d))
        × Takes t comm_error arriving c xs d
        × (pending t comm_error arriving d ≡ rest)
  receive-Takes c xs rest valid all =
      let ((code, ys, d), e, got) = receive-Receives t comm_error arriving h c (length xs) valid in
      let whole : length xs ≤ length (pending t comm_error arriving c) =
        omega (arith, ap length all, length-append xs rest) in
      elim got [
        | inl (good, n, takes) ↦
            let (same, left) = split_unique ys xs _ rest (sym takes.bytes ∙ all) n in
            (
              d,
              e ∙ ap₂ (λ k zs. done (k, zs, d)) good same,
              subst (λ zs. Takes t comm_error arriving c zs d) same takes,
              left,
            )
        | inr (bad, _) ↦
            absurd (omega (arith, bad, receive-good c (length xs) valid whole code ys d e))
      ]
