-- ===== src/Conversation.antt =====
-- src/seabolt/src/bolt/connection.c, above the protocol: responses and the status that they leave.
-- The function pointers of `struct BoltProtocol` (protocol.h) are an interface that a version of the
-- protocol fills; `Conversation.V1` is that of versions 1 and 2.
pub mod V1
pub mod Fetches
pub mod Summary
use seabolt.Prelude.{ℕ, zero, suc, ◌+◌, Bool, true, false, Option, none, some, ◌==◌, if◌then◌else◌}
use seabolt.Prelude.Int.{ℤ, pos, negsuc}
use seabolt.Error
use seabolt.Status.{State, ready, failed, defunct}
use seabolt.Connection.{Outcome, done, fault, stuck, ◌>>=◌}

-- `C` is a connection with the state of its protocol; the status is set as `_set_status` does. The
-- number given to `fetch` is its fuel. `has_failure` says that `failure` is not NULL.
pub record Protocol {ℓ} (C : Type ℓ) : Type ℓ where
  pub set_status : C → State → ℕ → C
  pub fetch : ℕ → C → ℕ → Outcome (ℤ × C)
  pub is_success_summary : C → Bool
  pub is_ignored_summary : C → Bool
  pub is_failure_summary : C → Bool
  pub has_failure : C → Bool

-- `FETCH_ERROR`.
abbrev pub fetch_error : ℤ
fetch_error = negsuc 0

module _ {ℓ} {C : Type ℓ} (p : Protocol C) where
  -- The status behind a summary, and what `BoltConnection_fetch` returns.
  unfoldable pub summarise : ℤ → C → ℤ × C
  summarise fetched c =
      if p.is_success_summary c
      then (fetched, p.set_status c ready Error.success)
      else if p.is_ignored_summary c
      then (fetched, if p.has_failure c then p.set_status c failed Error.server_failure else c)
      else if p.is_failure_summary c
      then (fetched, p.set_status c failed Error.server_failure)
      else (fetch_error, p.set_status c defunct Error.protocol_violation)

  -- The end of `BoltConnection_fetch`.
  unfoldable pub fetched : ℤ × C → ℤ × C
  unfolding summarise
  fetched (pos zero, c) = summarise (pos zero) c
  fetched (status, c) = (status, c)

  unfoldable pub fetch : ℕ → C → ℕ → Outcome (ℤ × C)
  fetch fuel c request = p.fetch fuel c request >>= λ r. done (fetched r)

  -- `BoltConnection_fetch_summary`: the number of records, or the error. `rounds` bounds them.
  unfoldable pub fetch_summary : ℕ → ℕ → C → ℕ → ℕ → Outcome (ℤ × C)
  fetch_summary zero fuel c request records = stuck
  fetch_summary (suc rounds) fuel c request records = fetch fuel c request >>= λ (status, d).
      elim status [
        | negsuc n ↦ done (negsuc n, d)
        | pos zero ↦ done (pos records, d)
        | pos (suc n) ↦ fetch_summary rounds fuel d request (records + suc n)
      ]

  -- The macro `TRY` of connection.c around a call of the protocol.
  unfoldable pub attempt : Outcome (ℕ × C) → Outcome (ℤ × C)
  attempt r = r >>= λ (status, c).
      if status == Error.success
      then done (pos Error.success, c)
      else if status == Error.status_set
      then done (negsuc 0, c)
      else done (pos status, p.set_status c defunct status)
