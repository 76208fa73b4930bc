-- ===== src/Text/Equality.antt =====
-- The Boolean equality of texts decides equality.
use pcilibs_rs.Prelude.{◌∷◌, ◌≡◌, ◌↔◌, true, arith}
use pcilibs_rs.Text.{Bytes, equal}

pub equal_iff : (s t : Bytes) → (equal s t ≡ true) ↔ (s ≡ t)
unfolding equal
equal_iff (c ∷ s) (d ∷ t) = ground (arith, equal_iff s t)
equal_iff _ _ = ground arith
