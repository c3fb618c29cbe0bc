-- ===== src/DirectPool/System.antt =====
-- All that a pool can come to, with any number of callers: rounds of `acquire`, which a waiting
-- caller repeats when it is woken, and releases of connections that are handed out, in any order.
use seabolt.Prelude.{ℕ, ◌≡◌, Bool, true, some, get_elem?, arith}
use seabolt.Prelude.Int.{ℤ, pos, ◌≤ℤ◌}
use seabolt.DirectPool.{
  Connection, Calls, Pool, Outcome, acquired, refused, waits, create, max_size, try_acquire,
  release,
}
use seabolt.DirectPool.Scan.{KeepsAgent, used}
use seabolt.DirectPool.Leases.{
  IsValid, Handed, create-IsValid, try_acquire-Handed, release-frees, plus_one, used_le,
}

module _ (calls : Calls) where
  pub data Reachable : Pool → Type 0 where
    created :
        (encrypted : Bool) (max : ℕ) (life wait : ℤ) → Reachable (create encrypted max life wait)
    rounded : {p : Pool} (now : ℤ) → Reachable p → Reachable (try_acquire calls now p).1
    released :
        {p : Pool} (i : ℕ) (c : Connection)
        → get_elem? p.connections i ≡ some c
        → c.agent ≡ true
        → Reachable p
        → Reachable (release calls i p).1

Handed-IsValid : (p : Pool) (r : Outcome × Pool) → Handed p r → IsValid p → IsValid r.1
Handed-IsValid p (acquired i state, q) (count, more, _, _) v = record {
  counted = rw (count, v.counted, more) (plus_one (used p.connections));
}
Handed-IsValid p (refused state error, q) (count, same, _) v = record {
  counted = rw (count, same) v.counted;
}
Handed-IsValid p (waits, q) (count, same, _) v = record { counted = rw (count, same) v.counted }

-- However the callers interleave, the count of connections in use is the number of those that are
-- handed out, and never more than the size of the pool, if each release is of a connection that is
-- handed out and no call of connection.c touches the field `agent`.
pub Reachable-counted :
    {calls : Calls}
    → KeepsAgent calls
    → (p : Pool) → Reachable calls p
    → (p.in_use_count ≡ pos (used p.connections)) × (p.in_use_count ≤ℤ pos (max_size p))
Reachable-counted k p r =
    let v = valid k p r in (v.counted, rw v.counted (omega (arith, used_le p.connections)))
  where
    valid : {calls : Calls} → KeepsAgent calls → (p : Pool) → Reachable calls p → IsValid p
    valid k p (created encrypted max life wait) = create-IsValid encrypted max life wait
    valid {calls} k _ (rounded {p} now r) =
        Handed-IsValid p (try_acquire calls now p) (try_acquire-Handed k now p) (valid k p r)
    valid k _ (released {p} i c e busy r) = (release-frees k p i c (valid k p r) e busy).0
