-- ===== src/Wire/Numbers.antt =====
-- A variant's number finds the variant again.
use hi_rodrop.Prelude.{some, ◌≡◌}
use hi_rodrop.Wire.Enumeration.{Enumeration, as_i32, try_from}

module _ {E : Type 0} ⦃e : Enumeration E⦄ where
  pub try_from-as_i32 : (v : E) → try_from (as_i32 v) ≡ some v
  try_from-as_i32 v = e.covers v
