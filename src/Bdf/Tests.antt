-- ===== src/Bdf/Tests.antt =====
-- Addresses, and the theorems at them.
use pcilibs_rs.Prelude.{none, some, ◌≡◌, refl}
use pcilibs_rs.Text.{codes, split_once}
use pcilibs_rs.Text.Hex.{from_str_radix, digit, digits}
use pcilibs_rs.Bdf.{render, normalize_bdf}
use pcilibs_rs.Bdf.Canonical.{Normalized, normalize_bdf-Normalized}

pub normalize_upper : normalize_bdf (codes "9:6F:0.0") ≡ some (codes "0009:6f:00.0")
unfolding normalize_bdf split_once from_str_radix digit digits render
normalize_upper = refl

normalize_refused :
    (normalize_bdf (codes "../../../etc/shadow") ≡ none)
    × (normalize_bdf (codes "0000:../:00.0") ≡ none)
    × (normalize_bdf (codes "0000:65:00.0/../..") ≡ none)
    × (normalize_bdf (codes "0000:0000:65:00.0") ≡ none)
    × (normalize_bdf (codes "") ≡ none)
unfolding normalize_bdf split_once from_str_radix digit digits render
normalize_refused = (refl, refl, refl, refl, refl)

normalize_bdf-Normalized_example : Normalized (codes "0009:6f:00.0")
normalize_bdf-Normalized_example = normalize_bdf-Normalized (codes "9:6F:0.0") normalize_upper
