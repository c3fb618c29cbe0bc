-- ===== src/Connection/Statuses.antt =====
-- What a change of the status leaves alone, and when it is reported.
use seabolt.Prelude.{
  ℕ, ◌≡◌, refl, ap, sym, ◌∙◌, not, ◌&&◌, List, [], ◌∷◌, ◌++◌, append_assoc, Bool, true, false,
  Bool-cases, inl, inr, if◌then◌else◌,
}
use seabolt.Status.{State, Status, same_state, failed, defunct}
use seabolt.Connection.{Connection, is_broken, status_changed, set_status}

module _ {ℓ} {S : Type ℓ} where
  pub set_status_kept :
      (c : Connection S) (state : State) (error : ℕ)
      → set_status c state error ≡ record c {
        status = record { state = state; error = error };
        reported = (set_status c state error).reported;
      }
  unfolding set_status status_changed
  set_status_kept c state error = elim (Bool-cases (same_state state c.status.state)) [
    | inl same ↦ rw same
    | inr other ↦ rw other (elim (Bool-cases (is_broken state && c.watched)) [
      | inl told ↦ rw told
      | inr silent ↦ rw silent
    ])
  ]

-- The failures among the changes of a status, the last one first: a change to FAILED or DEFUNCT from
-- any other state is one, and a repetition of the state is none.
abbrev pub news : State → State → Status → List Status
news failed failed s = []
news _ failed s = s ∷ []
news defunct defunct s = []
news _ defunct s = s ∷ []
news _ _ s = []

abbrev pub failures : State → List Status → List Status
failures from [] = []
failures from (s ∷ ss) = failures s.state ss ++ news from s.state s

abbrev pub last_status : Status → List Status → Status
last_status s [] = s
last_status s (r ∷ rs) = last_status r rs

told :
    (from to : State) (s : Status) (old : List Status)
    → (if not (same_state to from) then (if is_broken to then s ∷ old else old) else old)
      ≡ news from to s ++ old
told failed failed s old = refl
told _ failed s old = refl
told defunct defunct s old = refl
told _ defunct s old = refl
told _ _ s old = refl

joined :
    (w : Bool) (xs ys old : List Status)
    → (let now = if w then ys ++ old else old in if w then xs ++ now else now)
      ≡ (if w then (xs ++ ys) ++ old else old)
joined true xs ys old = sym (append_assoc xs ys old)
joined false xs ys old = refl

module _ {ℓ} {S : Type ℓ} where
  -- One change behind the other.
  unfoldable pub set_all : Connection S → List Status → Connection S
  unfolding set_status
  set_all c [] = c
  set_all c (s ∷ ss) = set_all (set_status c s.state s.error) ss

  -- What the callback was told: nothing if there is none.
  abbrev pub heard : Connection S → List Status → List Status
  heard c reports = if c.watched then reports ++ c.reported else c.reported

  set_status_lem :
      (c : Connection S) (s : Status)
      → set_status c s.state s.error
        ≡ record c { status = s; reported = heard c (news c.status.state s.state s) }
  unfolding set_status status_changed
  set_status_lem c s =
      let t = told c.status.state s.state s c.reported in
      elim (Bool-cases (same_state s.state c.status.state)) [
        | inl same ↦ elim (Bool-cases c.watched) [
          | inl w ↦
              rw (same, w)
                (ap (λ l. record c { status = s; watched = true; reported = l }) (rw same at t))
          | inr w ↦ rw (same, w) refl
        ]
        | inr other ↦ elim (Bool-cases (is_broken s.state)) [
          | inl bad ↦ elim (Bool-cases c.watched) [
            | inl w ↦
                rw (other, bad, w)
                  (ap (λ l. record c { status = s; watched = true; reported = l })
                    (rw (other, bad) at t))
            | inr w ↦ rw (other, bad, w) refl
          ]
          | inr good ↦ elim (Bool-cases c.watched) [
            | inl w ↦
                rw (other, good, w)
                  (ap (λ l. record c { status = s; watched = true; reported = l })
                    (rw (other, good) at t))
            | inr w ↦ rw (other, good, w) refl
          ]
        ]
      ]

  -- Over any sequence of changes, the status is the last one, and a callback, if there is one, is told
  -- of each change to FAILED or DEFUNCT from another state, once, with its status and in order, and of
  -- nothing else. Nothing else of the connection changes.
  pub set_status-reports :
      (c : Connection S) (ss : List Status)
      → set_all c ss ≡ record c {
        status = last_status c.status ss;
        reported = heard c (failures c.status.state ss);
      }
  unfolding set_all
  set_status-reports c [] = elim (Bool-cases c.watched) [ inl w ↦ rw w refl | inr w ↦ rw w refl ]
  set_status-reports c (s ∷ ss) =
      ap (λ d. set_all d ss) (set_status_lem c s)
      ∙ set_status-reports
          (record c { status = s; reported = heard c (news c.status.state s.state s) }) ss
      ∙ ap (λ l. record c { status = last_status s ss; reported = l })
          (joined c.watched (failures s.state ss) (news c.status.state s.state s) c.reported)
