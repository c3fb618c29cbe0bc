-- ===== src/Connection/Outcomes.antt =====
-- The constructors of an outcome are injective and apart.
use seabolt.Prelude.{◌≡◌}
use seabolt.Connection.{done, fault, stuck}

module _ {ℓ} {A : Type ℓ} where
  pub done-inj : {a b : A} → done a ≡ done b → a ≡ b
  done-inj e = cc

  pub fault-ne-done : {a : A} → fault ≡ done a → ⊥
  fault-ne-done e = cc

  pub stuck-ne-done : {a : A} → stuck ≡ done a → ⊥
  stuck-ne-done e = cc
