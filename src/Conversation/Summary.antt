-- ===== src/Conversation/Summary.antt =====
-- The status that a summary leaves.
use seabolt.Prelude.{
  ℕ, ◌≡◌, refl, ap, sym, subst, ◌∙◌, Bool, true, false, Bool-cases, ◌⊎◌, inl, inr, if◌then◌else◌,
  arith,
}
use seabolt.Prelude.Int.{ℤ, pos}
use seabolt.Error
use seabolt.Status.{State, ready, failed}
use seabolt.Communication.{Transport}
use seabolt.Connection
use seabolt.Connection.Statuses.{set_status_kept}
use seabolt.Conversation.{Protocol, summarise, fetched}
use seabolt.Conversation.V1.{protocol, is_there}
use seabolt.ProtocolV1.Code
use seabolt.ProtocolV1.Session.{
  Session, has_code, is_success_summary, is_failure_summary, is_ignored_summary,
}

-- The codes of summaries.
abbrev pub IsSummary : ℕ → Type 0
IsSummary code = (code ≡ Code.success) ⊎ ((code ≡ Code.failure) ⊎ (code ≡ Code.ignored))

module _ {ℓ} {C : Type ℓ} (p : Protocol C) (status : ℤ) (c : C) where
  summarise_success :
      p.is_success_summary c ≡ true
      → summarise p status c ≡ (status, p.set_status c ready Error.success)
  unfolding summarise
  summarise_success e = rw e

  summarise_ignored :
      p.is_success_summary c ≡ false
      → p.is_ignored_summary c ≡ true
      → summarise p status c
        ≡ (status, if p.has_failure c then p.set_status c failed Error.server_failure else c)
  unfolding summarise
  summarise_ignored e f = rw (e, f)

  summarise_failure :
      p.is_success_summary c ≡ false
      → p.is_ignored_summary c ≡ false
      → p.is_failure_summary c ≡ true
      → summarise p status c ≡ (status, p.set_status c failed Error.server_failure)
  unfolding summarise
  summarise_failure e f g = rw (e, f, g)

module _ {ℓ} {S : Type ℓ} (t : Transport S) (comm_error : S → ℕ)
    (writable readable : ℤ → Bool) where
  abbrev p : Protocol (Session S)
  p = protocol t comm_error writable readable

  -- Behind a summary, the status tells how the request went; nothing else changes but what was
  -- reported.
  pub record Concludes (code : ℕ) (c d : Session S) : Type ℓ where
    pub state_kept : d.state ≡ c.state
    pub link_kept : d.link ≡ record c.link { status = d.link.status; reported = d.link.reported }
    pub success :
        code ≡ Code.success → d.link.status ≡ record { state = ready; error = Error.success }
    pub failure :
        code ≡ Code.failure
        → d.link.status ≡ record { state = failed; error = Error.server_failure }
    pub ignored :
        code ≡ Code.ignored
        → is_there c.state.failure_data ≡ true
        → d.link.status ≡ record { state = failed; error = Error.server_failure }

  abbrev Fetched : ℕ → Session S → ℤ × Session S → Type ℓ
  Fetched code c (status, d) = (status ≡ pos 0) × Concludes code c d

  abbrev with_status : Session S → State → ℕ → Session S
  with_status c state error = record c { link = Connection.set_status c.link state error }

  status_set :
      (c : Session S) (state : State) (error : ℕ)
      → (with_status c state error).link.status ≡ record { state = state; error = error }
  status_set c state error =
      ap (λ (k : Connection.Connection S). k.status) (set_status_kept c.link state error)

  link_set :
      (c : Session S) (state : State) (error : ℕ)
      → let d = with_status c state error in
        d.link ≡ record c.link { status = d.link.status; reported = d.link.reported }
  link_set c state error =
      let d = with_status c state error in
      set_status_kept c.link state error
      ∙ ap (λ k. record c.link { status = k; reported = d.link.reported })
          (sym (status_set c state error))

  success-Concludes : (c : Session S) → Concludes Code.success c (with_status c ready Error.success)
  success-Concludes c = record {
    state_kept = refl;
    link_kept = link_set c ready Error.success;
    success = λ e. status_set c ready Error.success;
    failure = λ e. absurd (omega (arith, e));
    ignored = λ e. absurd (omega (arith, e));
  }

  failure-Concludes :
      (c : Session S) → Concludes Code.failure c (with_status c failed Error.server_failure)
  failure-Concludes c = record {
    state_kept = refl;
    link_kept = link_set c failed Error.server_failure;
    success = λ e. absurd (omega (arith, e));
    failure = λ e. status_set c failed Error.server_failure;
    ignored = λ e. absurd (omega (arith, e));
  }

  abbrev after_ignored : Session S → Session S
  after_ignored c =
      if is_there c.state.failure_data then with_status c failed Error.server_failure else c

  ignored-Concludes : (c : Session S) → Concludes Code.ignored c (after_ignored c)
  ignored-Concludes c = elim (Bool-cases (is_there c.state.failure_data)) [
    | inl earlier ↦ rw earlier (record {
      state_kept = refl;
      link_kept = link_set c failed Error.server_failure;
      success = λ e. absurd (omega (arith, e));
      failure = λ e. absurd (omega (arith, e));
      ignored = λ e there. status_set c failed Error.server_failure;
    })
    | inr clean ↦ rw clean (record {
      state_kept = refl;
      link_kept = refl;
      success = λ e. absurd (omega (arith, e));
      failure = λ e. absurd (omega (arith, e));
      ignored = λ e there. cc;
    })
  ]

  -- Behind a summary of one of the three codes `fetch` of connection.c still returns 0.
  pub fetched-Concludes :
      (code : ℕ) (c : Session S)
      → c.state.data_type ≡ pos code
      → IsSummary code
      → Fetched code c (fetched p (pos 0, c))
  unfolding fetched protocol is_success_summary is_failure_summary is_ignored_summary
  fetched-Concludes code c e (inl s) =
      let one = ap (has_code Code.success) (e ∙ ap pos s) in
      subst (Fetched code c) (sym (summarise_success p (pos 0) c one)) (
        refl,
        subst (λ k. Concludes k c (with_status c ready Error.success)) (sym s)
            (success-Concludes c),
      )
  fetched-Concludes code c e (inr (inl f)) =
      let one = ap (has_code Code.success) (e ∙ ap pos f) in
      let two = ap (has_code Code.ignored) (e ∙ ap pos f) in
      let three = ap (has_code Code.failure) (e ∙ ap pos f) in
      subst (Fetched code c) (sym (summarise_failure p (pos 0) c one two three)) (
        refl,
        subst (λ k. Concludes k c (with_status c failed Error.server_failure)) (sym f)
            (failure-Concludes c),
      )
  fetched-Concludes code c e (inr (inr i)) =
      let one = ap (has_code Code.success) (e ∙ ap pos i) in
      let two = ap (has_code Code.ignored) (e ∙ ap pos i) in
      subst (Fetched code c) (sym (summarise_ignored p (pos 0) c one two))
        (refl, subst (λ k. Concludes k c (after_ignored c)) (sym i) (ignored-Concludes c))
