-- ===== src/Communication.antt =====
-- src/seabolt/src/bolt/communication.c: the loops that send and receive a number of bytes over a
-- transport that takes and gives a part at a time. The transport (communication-plain.c,
-- communication-secure-*.c and the sockets below them) is a parameter. The texts of the error context
-- are not part of the model.
pub mod Transfer
pub mod Delivery
use seabolt.Prelude.{
  ℕ, zero, suc, ◌+◌, ◌-◌, Bool, Option, none, some, List, [], ◌∷◌, ◌++◌, length, drop, ltb, ◌==◌,
  if◌then◌else◌,
}
use seabolt.Error

-- The function pointers of `struct BoltCommunication`, on a state of the transport: `send` returns a
-- status and how many bytes it took, `recv` a status and the bytes it gave, at most as many as asked.
pub record Transport {ℓ} (S : Type ℓ) : Type ℓ where
  pub ignore_sigpipe : S → ℕ × S
  pub restore_sigpipe : S → ℕ × S
  pub send : S → List ℕ → ℕ × (ℕ × S)
  pub recv : S → ℕ → ℕ × (List ℕ × S)

-- A failure that is not BOLT_STATUS_SET is written to the status and becomes BOLT_STATUS_SET.
abbrev pub noted : ℕ → ℕ
noted code = Error.status_set

module _ {ℓ} {S : Type ℓ} (t : Transport S) where
  -- `none`: the fuel ends before the loop does.
  unfoldable pub send_loop : ℕ → S → List ℕ → Option (ℕ × S)
  send_loop fuel s [] = some (Error.success, s)
  send_loop zero s (x ∷ xs) = none
  send_loop (suc fuel) s (x ∷ xs) =
      let (code, (sent, next)) = t.send s (x ∷ xs) in
      let more = send_loop fuel next (drop sent (x ∷ xs)) in
      if code == Error.success then more else some (noted code, next)

  -- `total` is what has arrived, `left` how many of `min_size` bytes are missing.
  unfoldable pub receive_loop : ℕ → S → ℕ → ℕ → List ℕ → Option (ℕ × (List ℕ × S))
  receive_loop zero s left max_remaining total =
      if ltb 0 left then none else some (Error.success, (total, s))
  receive_loop (suc fuel) s left max_remaining total =
      let (code, (xs, next)) = t.recv s max_remaining in
      let more =
        receive_loop fuel next (left - length xs) (max_remaining - length xs) (total ++ xs) in
      if ltb 0 left
      then (if code == Error.success then more else some (noted code, (total, next)))
      else some (Error.success, (total, s))

  -- The `TRY_COMM` around the restored signal handler at the end of each call.
  unfoldable pub restore : ℕ × S → ℕ × S
  restore (code, s) =
      let (restored, next) = t.restore_sigpipe s in
      (if restored == Error.success then code else restored, next)

  -- `BoltCommunication_send`. Each round takes a byte at least, so `size` rounds are enough.
  unfoldable pub send : S → List ℕ → Option (ℕ × S)
  unfolding send_loop restore
  send s xs =
      let (ignored, ready) = t.ignore_sigpipe s in
      if length xs == 0
      then some (Error.success, s)
      else if ignored == Error.success
      then elim (send_loop (length xs) ready xs) [ none ↦ none | some r ↦ some (restore r) ]
      else some (ignored, ready)

  -- `BoltCommunication_receive`; the list is what stands in the buffer, and its length what is
  -- stored in `received`. A call with `min_size` 0 or without a signal handler stores nothing.
  unfoldable pub receive : S → ℕ → ℕ → Option (ℕ × (List ℕ × S))
  unfolding receive_loop restore
  receive s min_size max_size =
      let (ignored, ready) = t.ignore_sigpipe s in
      if min_size == 0
      then some (Error.success, ([], s))
      else if ignored == Error.success
      then elim (receive_loop min_size ready min_size max_size []) [
        | none ↦ none
        | some (code, (xs, next)) ↦
            let (restored, last) = restore (code, next) in some (restored, (xs, last))
      ]
      else some (ignored, ([], ready))
