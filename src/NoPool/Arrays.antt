-- ===== src/NoPool/Arrays.antt =====
-- The array of the pool: which connections it holds, and which of them are live.
use seabolt.Prelude.{ℕ, ◌≢◌, Option, none, List, [], ◌∷◌}
use seabolt.Status.{Status}
use seabolt.NoPool.{Pool}

-- `c` is not in the list.
abbrev pub Absent : ℕ → List ℕ → Type 0
Absent c [] = Unit {0}
Absent c (d ∷ ds) = (d ≢ c) × Absent c ds

abbrev pub Distinct : List ℕ → Type 0
Distinct [] = Unit {0}
Distinct (c ∷ cs) = Absent c cs × Distinct cs

abbrev pub AreLive : (ℕ → Option Status) → List ℕ → Type 0
AreLive live [] = Unit {0}
AreLive live (c ∷ cs) = (live c ≢ none) × AreLive live cs

pub record IsValid (p : Pool) : Type 0 where
  pub distinct : Distinct p.connections
  pub alive : AreLive p.live p.connections
