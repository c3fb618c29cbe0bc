-- ===== src/NoPool/Liveness.antt =====
-- Writes to the array and to the live connections, seen apart.
use seabolt.NoPool.Arrays.{Absent, Distinct, AreLive}
use seabolt.Prelude.{
  ℕ, ◌≡◌, ◌≢◌, ap, sym, ◌∙◌, false, Option, none, List, [], ◌∷◌, ◌++◌, ◌==◌, arith,
}
use seabolt.Status.{Status}
use seabolt.NoPool.{put}

-- What is not live is not in the pool.
pub dead-Absent :
    (live : ℕ → Option Status) (c : ℕ) (cs : List ℕ) → live c ≡ none → AreLive live cs → Absent c cs
dead-Absent live c [] e h = tt
dead-Absent live c (d ∷ ds) e (h, hs) = ((λ same. h (ap live same ∙ e)), dead-Absent live c ds e hs)

-- A write elsewhere keeps what is live.
pub put-AreLive :
    (live : ℕ → Option Status) (c : ℕ) (o : Option Status) (cs : List ℕ)
    → Absent c cs
    → AreLive live cs
    → AreLive (put live c o) cs
put-AreLive live c o [] a h = tt
put-AreLive live c o (d ∷ ds) (other, a) (h, hs) =
    let apart : (d == c) ≡ false = ground (arith, other) in
    (rw apart h, put-AreLive live c o ds a hs)

pub append-Absent : (c d : ℕ) (cs : List ℕ) → Absent c cs → d ≢ c → Absent c (cs ++ (d ∷ []))
append-Absent c d [] a h = (h, tt)
append-Absent c d (x ∷ xs) (k, a) h = (k, append-Absent c d xs a h)

pub append-Distinct : (cs : List ℕ) (c : ℕ) → Absent c cs → Distinct cs → Distinct (cs ++ (c ∷ []))
append-Distinct [] c a d = (tt, tt)
append-Distinct (x ∷ xs) c (k, a) (b, d) =
    (append-Absent x c xs b (λ e. k (sym e)), append-Distinct xs c a d)

pub append-AreLive :
    (live : ℕ → Option Status) (cs : List ℕ) (c : ℕ)
    → AreLive live cs
    → live c ≢ none
    → AreLive live (cs ++ (c ∷ []))
append-AreLive live [] c h k = (k, tt)
append-AreLive live (x ∷ xs) c (y, h) k = (y, append-AreLive live xs c h k)
