-- ===== src/Connection/Receive.antt =====
-- `BoltConnection_receive` hands out the bytes of the transport in order, over the receive buffer.
use seabolt.Connection.Landing.{
  landed, landed-IsValid, grown, grown-IsValid, contents-landed, roomy, roomy-IsValid,
  contents-roomy, Gets-some,
}
use seabolt.Prelude.{
  ℕ, zero, suc, ◌+◌, ◌-◌, ◌≤◌, ◌≡◌, refl, ap, sym, ◌∙◌, true, Bool-cases, Option, none, some, List,
  [], subst, ◌++◌, append_assoc, length, length-append, ltb, ◌==◌, inl, inr, ◌⊎◌, if◌then◌else◌,
  arith, take, take-drop, length-take,
}
use seabolt.Error
use seabolt.Status.{defunct}
use seabolt.Buffer
use seabolt.Buffer.{Buffer}
use seabolt.Buffer.Contents.{IsValid, contents, length-contents}
use seabolt.Buffer.Reads.{unload_first}
use seabolt.Communication
use seabolt.Communication.{Transport}
use seabolt.Communication.Transfer.{Transmits, Received, receive-Received}
use seabolt.Connection.{
  Connection, done, set_status, set_status_from_comm, status_changed, received, receive_round,
  receive_loop, Ends, take_bytes, receive, take_bytes, receive,
}

module _ {ℓ} {S : Type ℓ} (t : Transport S) (comm_error : S → ℕ) (arriving : S → List ℕ) where
  -- The bytes that the connection will still hand out: those that have arrived, then the others.
  abbrev pub pending : Connection S → List ℕ
  pending c = contents c.rx ++ arriving c.transport

  -- From `c` to `d` the bytes `xs` are taken from the front, and nothing else changes.
  pub record Takes (c : Connection S) (xs : List ℕ) (d : Connection S) : Type ℓ where
    pub valid : IsValid d.rx
    pub bytes : pending c ≡ xs ++ pending d
    pub kept : d ≡ record c { transport = d.transport; rx = d.rx }

  -- A failed call leaves the connection defunct.
  pub record Breaks (d : Connection S) : Type ℓ where
    pub valid : IsValid d.rx
    pub broken : d.status.state ≡ defunct

  set_status-broken :
      (c : Connection S) (error : ℕ) → (set_status c defunct error).status.state ≡ defunct
  unfolding set_status status_changed
  set_status-broken c error = ground arith

  set_status-rx : (c : Connection S) (error : ℕ) → (set_status c defunct error).rx ≡ c.rx
  unfolding set_status status_changed
  set_status-rx c error = ground arith

  -- A round that succeeds has all it was asked for.
  abbrev pub Fills : Connection S → ℕ → ℕ × ℕ × Connection S → Type ℓ
  Fills c delta (code, n, d) =
      ((code ≡ Error.success)
        × (delta ≤ n)
        × (Buffer.unloadable c.rx + delta ≤ Buffer.unloadable d.rx)
        × Takes c [] d)
      ⊎ ((code ≡ Error.status_set) × Breaks d)

  landed-Takes :
      (c : Connection S) (max : ℕ) (xs : List ℕ) (s : S)
      → IsValid c.rx
      → length xs ≤ max
      → arriving c.transport ≡ xs ++ arriving s
      → Takes c [] (record c { rx = landed (roomy c.rx) max xs; transport = s })
  landed-Takes c max xs s v h e = record {
    valid = landed-IsValid max xs (roomy-IsValid v) h;
    bytes =
        ap (λ ys. contents c.rx ++ ys) e
        ∙ sym (append_assoc (contents c.rx) xs (arriving s))
        ∙ ap (λ ys. ys ++ arriving s)
            (sym (
              contents-landed max xs (roomy-IsValid v)
              ∙ ap (λ ys. ys ++ xs) (contents-roomy c.rx)));
    kept = refl;
  }

  longer :
      (c : Connection S) (delta max : ℕ) (xs : List ℕ)
      → IsValid c.rx
      → delta ≤ length xs
      → length xs ≤ max
      → Buffer.unloadable c.rx + delta ≤ Buffer.unloadable (landed (roomy c.rx) max xs)
  longer c delta max xs v low high = omega (
    arith,
    length-contents (landed (roomy c.rx) max xs),
    ap length (contents-landed max xs (roomy-IsValid v)),
    length-append (contents (roomy c.rx)) xs,
    ap length (contents-roomy c.rx),
    length-contents c.rx,
  )

  received-Fills :
      (c : Connection S) (delta max : ℕ) (o : Option (ℕ × (List ℕ × S)))
      → IsValid c.rx
      → Received arriving (arriving c.transport) delta max o
      → Ends (received t comm_error c (roomy c.rx) max o) (Fills c delta)
  unfolding received set_status_from_comm
  received-Fills c delta max none v g = absurd g
  received-Fills c delta max (some (code, (xs, s))) v g =
      let d = record c { rx = grown (roomy c.rx) max xs; transport = s } in
      elim (Bool-cases (code == Error.success)) [
        | inl good ↦
            let (low, high, all) = g (ground (arith, good)) in
            (
              (
                Error.success,
                length xs,
                record c { rx = landed (roomy c.rx) max xs; transport = s },
              ),
              rw good,
              inl (refl, low, longer c delta max xs v low high, landed-Takes c max xs s v high all),
            )
        | inr bad ↦ (
          (Error.status_set, 0, set_status_from_comm t comm_error d),
          rw bad,
          inr (
            refl,
            record {
              valid =
                  subst IsValid (sym (set_status-rx d (comm_error s)))
                    (grown-IsValid max xs (roomy-IsValid v));
              broken = set_status-broken d (comm_error s);
            },
          ),
        )
      ]

  module _ {sent : S → List ℕ} (h : Transmits t sent arriving) where
    pub round-Fills :
        (c : Connection S) (delta : ℕ)
        → IsValid c.rx
        → Ends (receive_round t comm_error c delta) (Fills c delta)
    unfolding receive_round
    round-Fills c delta v =
        let room = Buffer.loadable (roomy c.rx) in
        let max = if ltb room delta then delta else room in
        received-Fills c delta max (Communication.receive t c.transport delta max) v
          (receive-Received h c.transport delta max (ground arith))

    -- The loop ends with enough bytes at hand, or with a defunct connection.
    abbrev pub Loops : Connection S → ℕ → ℕ × Connection S → Type ℓ
    Loops c delta (code, d) =
        ((code ≡ Error.success)
          × (Buffer.unloadable c.rx + delta ≤ Buffer.unloadable d.rx)
          × Takes c [] d)
        ⊎ ((code ≡ Error.status_set) × Breaks d)

    pub enough :
        (fuel : ℕ) (d : Connection S) → receive_loop t comm_error fuel d 0 ≡ done (Error.success, d)
    unfolding receive_loop
    enough zero d = refl
    enough (suc fuel) d = refl

    pub receive_loop-Loops :
        (c : Connection S) (delta : ℕ)
        → IsValid c.rx
        → Ends (receive_loop t comm_error delta c delta) (Loops c delta)
    unfolding receive_loop
    receive_loop-Loops c zero v = (
      (Error.success, c),
      refl,
      inl (refl, omega arith, record { valid = v; bytes = refl; kept = refl }),
    )
    receive_loop-Loops c (suc fuel) v =
        let ((code, n, d), e, fills) = round-Fills c (suc fuel) v in
        let positive : ltb 0 (suc fuel) ≡ true = ground arith in
        elim fills [
          | inl (good, low, more, takes) ↦
              let left : suc fuel - n ≡ 0 = omega arith in
              let went = e ∙ ap (λ k. done (k, n, d)) good in
              (
                (Error.success, d),
                rw (positive, went, left) (enough fuel d),
                inl (refl, more, takes),
              )
          | inr (bad, breaks) ↦
              let went = e ∙ ap (λ k. done (k, n, d)) bad in
              ((Error.status_set, d), rw (positive, went), inr (refl, breaks))
        ]

    -- What `receive` leaves: the next `size` bytes in the caller's buffer, or a defunct connection.
    abbrev pub Receives : Connection S → ℕ → ℕ × List ℕ × Connection S → Type ℓ
    Receives c size (code, xs, d) =
        ((code ≡ Error.success) × (length xs ≡ size) × Takes c xs d)
        ⊎ ((code ≡ Error.status_set) × Breaks d)

    take_bytes-Receives :
        (c d : Connection S) (size : ℕ)
        → size ≤ Buffer.unloadable d.rx
        → Takes c [] d
        → Ends (take_bytes t comm_error d size) (Receives c size)
    take_bytes-Receives c d size h takes =
        let xs = take size (contents d.rx) in
        let n = length-take size (contents d.rx) (omega (arith, length-contents d.rx)) in
        let split = take-drop size (contents d.rx) in
        let (rx, e, valid, rest) = Gets-some (unload_first takes.valid xs _ (sym split)) in
        (
          (Error.success, xs, record d { rx = rx }),
          rw (ap (Buffer.unload d.rx) (sym n) ∙ e, take_bytes),
          inl (
            refl,
            n,
            record {
              valid = valid;
              bytes =
                  takes.bytes
                  ∙ ap (λ ys. ys ++ arriving d.transport)
                      (sym split ∙ ap (λ ys. xs ++ ys) (sym rest))
                  ∙ append_assoc xs (contents rx) (arriving d.transport);
              kept = ap (λ (k : Connection S). record k { rx = rx }) takes.kept;
            },
          ),
        )

    -- With a valid receive buffer, and over a transport that passes bytes on in order, at least one in
    -- each call that succeeds and no more than it was asked for, receiving `size` bytes ends. It succeeds with exactly so many, the next ones of those that the buffer
    -- holds and the transport gives, and changes nothing but the buffer and the transport; or it
    -- reports BOLT_STATUS_SET and leaves the connection defunct.
    pub receive-Receives :
        (c : Connection S) (size : ℕ)
        → IsValid c.rx
        → Ends (receive t comm_error c size) (Receives c size)
    unfolding receive
    receive-Receives c size v =
        let missing = size - Buffer.unloadable c.rx in
        let ((code, d), e, loops) = receive_loop-Loops c missing v in
        elim (Bool-cases (size == 0)) [
          | inl nothing ↦ (
            (Error.success, [], c),
            rw nothing,
            inl (refl, ground (arith, nothing), record { valid = v; bytes = refl; kept = refl }),
          )
          | inr more ↦ rw more (elim loops [
            | inl (good, long, takes) ↦
                let went = e ∙ ap (λ k. done (k, d)) good in
                rw went (take_bytes-Receives c d size (omega arith) takes)
            | inr (bad, breaks) ↦
                let went = e ∙ ap (λ k. done (k, d)) bad in
                ((Error.status_set, [], d), rw went, inr (refl, breaks))
          ])
        ]
