-- ===== src/DirectPool/Scan.antt =====
-- What the search of the pool finds, and what the calls on one connection keep.
use seabolt.Prelude.{
  ℕ, zero, suc, ◌+◌, ◌≡◌, refl, ap, ◌∙◌, Bool, true, false, Option, none, some, List, [], ◌∷◌,
  length, set, get_elem?, if◌then◌else◌, arith,
}
use seabolt.Prelude.Int.{ℤ}
use seabolt.DirectPool.{
  Connection, Calls, close_pool_entry, expire, scan_unused, init, reset, open_init,
  reset_or_open_init, reset_or_close, prepare,
}

-- No call of connection.c that the pool makes touches the field `agent`.
pub record KeepsAgent (calls : Calls) : Type 0 where
  pub opens : (c : Connection) → (calls.open_connection c).1.agent ≡ c.agent
  pub inits : (c : Connection) → (calls.init c).1.agent ≡ c.agent
  pub loads : (c : Connection) → (calls.load_reset_request c).1.agent ≡ c.agent
  pub sends : (c : Connection) → (calls.send c).1.agent ≡ c.agent
  pub fetches : (c : Connection) → (calls.fetch_summary c).1.agent ≡ c.agent
  pub closes : (c : Connection) → (calls.close c).agent ≡ c.agent

-- How many connections are handed out.
unfoldable pub used : List Connection → ℕ
used [] = 0
used (c ∷ cs) = (if c.agent then 1 else 0) + used cs

module _ {calls : Calls} (k : KeepsAgent calls) where
  close_pool_entry-agent : (c : Connection) → (close_pool_entry calls c).agent ≡ c.agent
  unfolding close_pool_entry
  close_pool_entry-agent c = ground (arith, k.closes c)

  expire-agent : (life now : ℤ) (c : Connection) → (expire calls life now c).agent ≡ c.agent
  unfolding expire
  expire-agent life now c = ground (arith, close_pool_entry-agent c)

  init-agent : (c : Connection) → (init calls c).1.agent ≡ c.agent
  unfolding init
  init-agent c = k.inits c

  reset-agent : (c : Connection) → (reset calls c).1.agent ≡ c.agent
  unfolding reset
  reset-agent c =
      let d = (calls.load_reset_request c).1 in
      let e = (calls.send d).1 in ground (arith, k.loads c, k.sends d, k.fetches e)

  open_init-agent : (c : Connection) → (open_init calls c).1.agent ≡ c.agent
  unfolding open_init
  open_init-agent c = ground (arith, k.opens c, init-agent (calls.open_connection c).1)

  pub reset_or_close-agent : (c : Connection) → (reset_or_close calls c).agent ≡ c.agent
  unfolding reset_or_close
  reset_or_close-agent c = ground (arith, reset-agent c, close_pool_entry-agent (reset calls c).1)

  reset_or_open_init-agent : (c : Connection) → (reset_or_open_init calls c).1.agent ≡ c.agent
  unfolding reset_or_open_init
  reset_or_open_init-agent c = ground (arith, reset-agent c, open_init-agent (reset calls c).1)

  pub prepare-agent : (c : Connection) → (prepare calls c).1.agent ≡ c.agent
  unfolding prepare
  prepare-agent c = ground (arith, open_init-agent c, init-agent c, reset_or_open_init-agent c)

  -- What a search finds: an index in range, of a connection that is not handed out, and what is
  -- there now has no agent either. A search that finds nothing means that all are handed out.
  abbrev pub Found : List Connection → Option (ℕ × Connection) → Type 0
  Found cs none = used cs ≡ length cs
  Found cs (some (i, c)) =
      (c.agent ≡ false) × ((d : Connection) × (get_elem? cs i ≡ some d) × (d.agent ≡ false))

  Found-later :
      (c : Connection) (cs : List Connection) (o : Option (ℕ × Connection))
      → c.agent ≡ true
      → Found cs o
      → Found (c ∷ cs) (elim o [ none ↦ none | some (i, d) ↦ some (suc i, d) ])
  unfolding used
  Found-later c cs none busy h = ground (arith, busy, h)
  Found-later c cs (some (i, d)) busy h = h

  Found-here :
      (c d : Connection) (cs : List Connection) (b : Bool) (o : Option (ℕ × Connection))
      → c.agent ≡ b
      → d.agent ≡ c.agent
      → (b ≡ true → Found (c ∷ cs) o)
      → Found (c ∷ cs) (if b then o else some (0, d))
  Found-here c d cs true o e h next = next refl
  Found-here c d cs false o e h next = (h ∙ e, (c, refl, e))

  pub scan_unused-Found :
      (life now : ℤ) (cs : List Connection) → Found cs (scan_unused calls life now cs)
  unfolding scan_unused used
  scan_unused-Found life now [] = refl
  scan_unused-Found life now (c ∷ cs) =
      Found-here c (expire calls life now c) cs c.agent _ refl (expire-agent life now c) λ busy.
        Found-later c cs (scan_unused calls life now cs) busy (scan_unused-Found life now cs)

-- Writing over a connection changes the count by what it was and is.
pub used-set :
    (cs : List Connection) (i : ℕ) (c d : Connection)
    → get_elem? cs i ≡ some c
    → used (set cs i d) + (if c.agent then 1 else 0) ≡ used cs + (if d.agent then 1 else 0)
unfolding used
used-set [] i c d e = ground (arith, e)
used-set (x ∷ cs) zero c d e =
    let h : x.agent ≡ c.agent = ap (λ o. elim o [ none ↦ false | some y ↦ y.agent ]) e in
    rw h (omega arith)
used-set (x ∷ cs) (suc i) c d e = omega (arith, used-set cs i c d e)
