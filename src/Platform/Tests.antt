-- ===== src/Platform/Tests.antt =====
-- Classification on a small catalog, and the theorems at it.
use mathlib.Core.List.{Permᴰ}
use pcilibs_rs.Prelude.{ℕ, [], ◌∷◌, ◌≡◌, refl, ◌↔◌, ok}
use pcilibs_rs.Text.{equal}
use pcilibs_rs.Text.Hex.{digit}
use pcilibs_rs.Catalog.Records.{PciIdentity, matches}
use pcilibs_rs.Catalog.Parser.{parse_entry, record_lines}
use pcilibs_rs.Catalog.Snapshot.{lookup, lookup_lines, builtin}
use pcilibs_rs.Catalog.Tests.{bundled, added, extended, validate-bundled, parse-added}
use pcilibs_rs.Gpu
use pcilibs_rs.Gpu.Chips.{chip_for_range}
use pcilibs_rs.Platform.Classify.{classify-perm}
use pcilibs_rs.Platform.Uniform.{IsNamed, IsUniform, classify-named_iff, reports}
use pcilibs_rs.Platform.{direct_nv_switch, hgx_hx00, classify_with_catalog}

abbrev board : ℕ → ℕ → PciIdentity
board device subsystem = record {
  vendor = 0x10de;
  device = device;
  subsystem_vendor = 0x10de;
  subsystem_device = subsystem;
}

abbrev h100 : PciIdentity
h100 = board 0x2330 0x16c0

abbrev gh200 : PciIdentity
gh200 = board 0x2342 0x16eb

hgx-IsNamed : IsNamed hgx_hx00
hgx-IsNamed = (λ e. cc e, λ e. cc e)

classify-h100 :
    classify_with_catalog bundled (h100 ∷ h100 ∷ []) direct_nv_switch extended
    ≡ ok (reports 2 direct_nv_switch hgx_hx00)
unfolding classify_with_catalog lookup builtin lookup_lines parse_entry record_lines digit matches
    equal Gpu.properties chip_for_range
classify-h100 = refl

classify-perm_example :
    classify_with_catalog bundled (h100 ∷ gh200 ∷ []) direct_nv_switch extended
    ≡ classify_with_catalog bundled (gh200 ∷ h100 ∷ []) direct_nv_switch extended
classify-perm_example =
    classify-perm bundled added direct_nv_switch validate-bundled parse-added (Permᴰ.swap refl refl)

classify-named_iff_example :
    (classify_with_catalog bundled (h100 ∷ h100 ∷ []) direct_nv_switch extended
      ≡ ok (reports 2 direct_nv_switch hgx_hx00))
    ↔ IsUniform bundled extended (h100 ∷ h100 ∷ []) direct_nv_switch hgx_hx00
classify-named_iff_example =
    classify-named_iff bundled added (h100 ∷ h100 ∷ []) direct_nv_switch hgx_hx00 validate-bundled
      parse-added hgx-IsNamed
