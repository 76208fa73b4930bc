-- ===== src/Cc/Spelling.antt =====
-- The text forms of the modes.
use pcilibs_rs.Prelude.{some, ◌≡◌, ◌↔◌, refl, ◌∙◌, ap, arith}
use pcilibs_rs.Text.{Bytes, codes, equal}
use pcilibs_rs.Text.Equality.{equal_iff}
use pcilibs_rs.Cc.Modes.{CcMode, cc_off, cc_on, cc_devtools, parse_cc_mode, print_cc_mode}

parse-print_cc_mode : (m : CcMode) → parse_cc_mode (print_cc_mode m) ≡ some m
unfolding parse_cc_mode print_cc_mode equal
parse-print_cc_mode cc_off = refl
parse-print_cc_mode cc_on = refl
parse-print_cc_mode cc_devtools = refl

parse_cc_mode_sound : (s : Bytes) (m : CcMode) → parse_cc_mode s ≡ some m → s ≡ print_cc_mode m
unfolding parse_cc_mode print_cc_mode
parse_cc_mode_sound s m h =
    ground
      (arith, equal_iff s (codes "off"), equal_iff s (codes "on"), equal_iff s (codes "devtools"))

-- The texts that parse as a CC mode are exactly the ones that the modes are printed as.
pub parse_cc_mode_iff :
    (s : Bytes) (m : CcMode) → (parse_cc_mode s ≡ some m) ↔ (s ≡ print_cc_mode m)
parse_cc_mode_iff s m = (parse_cc_mode_sound s m, λ e. ap parse_cc_mode e ∙ parse-print_cc_mode m)
