-- ===== src/DirectPool/Leases.antt =====
-- The count of the connections in use, and which connection a round hands out.
use seabolt.Prelude.{
  ℕ, zero, suc, ◌≤◌, ◌≡◌, ◌≢◌, refl, ap, sym, ◌∙◌, ◌↔◌, ◌&&◌, Bool, true, false, Option, none, some,
  List, [], ◌∷◌, length, length-set, set, replicate, get_elem?, ◌==◌, if◌then◌else◌, arith,
}
use seabolt.Prelude.Int.{ℤ, pos, ◌+ℤ◌, ◌-ℤ◌, leb_ℤ, ltb_ℤ}
use seabolt.Error
use seabolt.DirectPool.{
  Connection, Calls, Pool, Outcome, acquired, refused, waits, disconnected, State, create, fresh,
  assign_sec_context, max_size, scan_unused, find_unused_connection, prepare, hand_out, try_acquire,
  release, reset_or_close, retry,
}
use seabolt.DirectPool.Scan.{
  KeepsAgent, used, Found, scan_unused-Found, prepare-agent, reset_or_close-agent, used-set,
}

-- The count is that of the connections that are handed out.
pub record IsValid (p : Pool) : Type 0 where
  pub counted : p.in_use_count ≡ pos (used p.connections)

minus_one : (n : ℕ) → pos (suc n) -ℤ pos 1 ≡ pos n
unfolding ◌-ℤ◌
minus_one n = ground arith

pub plus_one : (n : ℕ) → pos n +ℤ pos 1 ≡ pos (suc n)
unfolding ◌+ℤ◌
plus_one n = ground arith

pub used_le : (cs : List Connection) → used cs ≤ length cs
unfolding used
used_le [] = omega arith
used_le (c ∷ cs) = ground (arith, used_le cs)

used-replicate : (n : ℕ) → used (replicate n fresh) ≡ 0
unfolding used
used-replicate zero = refl
used-replicate (suc n) = omega (arith, used-replicate n)

used-assign : (n : ℕ) (cs : List Connection) → used (assign_sec_context n cs) ≡ used cs
unfolding used assign_sec_context
used-assign zero cs = refl
used-assign (suc n) [] = refl
used-assign (suc n) (c ∷ cs) = used-assign n (record c { secured = true } ∷ cs)

pub create-IsValid :
    (encrypted : Bool) (n : ℕ) (life wait : ℤ) → IsValid (create encrypted n life wait)
unfolding create
create-IsValid true n life wait = record {
  counted = ap pos (sym (used-assign n (replicate n fresh) ∙ used-replicate n));
}
create-IsValid false n life wait = record { counted = ap pos (sym (used-replicate n)) }

abbrev pub Unchanged : Pool → Pool → Type 0
Unchanged p q =
    (q.in_use_count ≡ p.in_use_count)
    × (used q.connections ≡ used p.connections)
    × (max_size q ≡ max_size p)

-- What a round does: it hands out a connection that was free, marks it and keeps all others; or it
-- hands out nothing, and no connection changes hands.
abbrev pub Handed : Pool → Outcome × Pool → Type 0
Handed p (acquired i state, q) =
    (q.in_use_count ≡ p.in_use_count +ℤ pos 1)
    × (used q.connections ≡ suc (used p.connections))
    × ((c : Connection) × (get_elem? p.connections i ≡ some c) × (c.agent ≡ false))
    × ((d : Connection) × (q.connections ≡ set p.connections i d)
        × (d.agent ≡ true)
        × (d.state ≡ state))
Handed p (refused state error, q) = Unchanged p q
Handed p (waits, q) = Unchanged p q

retry-Handed :
    (p q : Pool) (state : State) (error : ℕ) → Unchanged p q → Handed p (retry p state error, q)
unfolding retry
retry-Handed p q state error e =
    go (error == Error.pool_full && ltb_ℤ (pos 0) p.max_connection_acquisition_time)
  where
    go : (b : Bool) → Handed p ((if b then waits else refused state error), q)
    go true = e
    go false = e

hand_out-Handed :
    (p : Pool) (i code : ℕ) (b c : Connection)
    → get_elem? p.connections i ≡ some b
    → b.agent ≡ false
    → c.agent ≡ false
    → Handed p (hand_out p i (code, c))
unfolding hand_out
hand_out-Handed p i code b c e idle kept =
    go (code == Error.success) (code == Error.connection_has_more_info)
  where
    q : Pool
    q = record p { connections = set p.connections i c }

    same : Unchanged p q
    same =
        let h = used-set p.connections i b c e in
        (refl, ground (arith, h, idle, kept), length-set p.connections i c)

    lease : Connection
    lease = record c { agent = true }

    more : used (set p.connections i lease) ≡ suc (used p.connections)
    more = let h = used-set p.connections i b lease e in ground (arith, h, idle)

    go :
        (success info : Bool)
        → Handed p (
            if success
            then (
              acquired i c.state,
              record p {
                connections = set p.connections i lease;
                in_use_count = p.in_use_count +ℤ pos 1;
              },
            )
            else (if info then retry p c.state c.error else retry p disconnected code, q))
    go true info = (refl, more, (b, e, idle), (lease, refl, refl, refl))
    go false true = retry-Handed p q c.state c.error same
    go false false = retry-Handed p q disconnected code same

module _ {calls : Calls} (k : KeepsAgent calls) where
  round-Handed :
      (p : Pool) (full : Bool) (o : Option (ℕ × Connection))
      → Found k p.connections o
      → Handed p (elim (if full then none else o) [
        | none ↦ (retry p disconnected Error.pool_full, p)
        | some (i, c) ↦ hand_out p i (prepare calls c)
      ])
  round-Handed p true o f = retry-Handed p p disconnected Error.pool_full (refl, refl, refl)
  round-Handed p false none f = retry-Handed p p disconnected Error.pool_full (refl, refl, refl)
  round-Handed p false (some (i, c)) (idle, (b, e, free)) =
      hand_out-Handed p i (prepare calls c).0 b (prepare calls c).1 e free
        (prepare-agent k c ∙ idle)

  -- A round that hands out a connection hands out one that was free, marks it, and changes nothing
  -- else in the array; it reports the state of what is handed out. A round that ends in an error or
  -- in a wait leaves as many connections handed out as there were.
  pub try_acquire-Handed : (now : ℤ) (p : Pool) → Handed p (try_acquire calls now p)
  unfolding try_acquire
  try_acquire-Handed now p =
      round-Handed p (leb_ℤ (pos (max_size p)) p.in_use_count)
        (scan_unused calls p.max_connection_life_time now p.connections)
        (scan_unused-Found k p.max_connection_life_time now p.connections)

  -- In a pool whose count is right, the search comes back without a connection exactly if all of
  -- them are handed out.
  pub find_unused_iff :
      (now : ℤ) (p : Pool)
      → IsValid p
      → (find_unused_connection calls now p ≡ none) ↔ (used p.connections ≡ max_size p)
  unfolding find_unused_connection
  find_unused_iff now p v =
      go (scan_unused calls p.max_connection_life_time now p.connections)
        (scan_unused-Found k p.max_connection_life_time now p.connections)
    where
      go :
          (o : Option (ℕ × Connection))
          → Found k p.connections o
          → ((if leb_ℤ (pos (max_size p)) p.in_use_count then none else o) ≡ none)
            ↔ (used p.connections ≡ max_size p)
      go none f = let h = v.counted in rw h (ground (arith, used_le p.connections, f))
      go (some (i, c)) (idle, (b, e, free)) =
          let h = v.counted in rw h (ground (arith, used_le p.connections))

  -- Releasing a connection that is handed out frees it: the count stays right and goes down by one,
  -- and the search finds a connection again, so that a woken caller need not wait.
  pub release-frees :
      (p : Pool) (i : ℕ) (c : Connection)
      → IsValid p
      → get_elem? p.connections i ≡ some c
      → c.agent ≡ true
      → let q = (release calls i p).1 in
        IsValid q
        × (suc (used q.connections) ≡ used p.connections)
        × ((now : ℤ) → find_unused_connection calls now q ≢ none)
  unfolding release
  release-frees p i c v e busy =
      rw (release, e)
        (let d = reset_or_close calls (record c { agent = false }) in
          let h = used-set p.connections i c d e in
          let free : d.agent ≡ false = reset_or_close-agent k (record c { agent = false }) in
          let fewer : suc (used (set p.connections i d)) ≡ used p.connections =
            ground (arith, h, free, busy) in
          let q : Pool = record p {
            connections = set p.connections i d;
            in_use_count = p.in_use_count -ℤ pos 1;
          } in
          let w : IsValid q = record {
            counted = rw (v.counted, sym fewer) (minus_one (used (set p.connections i d)));
          } in
          (
            w,
            fewer,
            λ now none_left.
                let all = (find_unused_iff now q w).0 none_left in
                omega (arith, all, fewer, used_le p.connections, length-set p.connections i d),
          ))
