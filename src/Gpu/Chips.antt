-- ===== src/Gpu/Chips.antt =====
-- src/gpu/chips.rs: the CC-capable GPU generations and their PCI device-ID ranges.
use pcilibs_rs.Prelude.{
  ℕ, Bool, true, false, ◌&&◌, Option, none, some, List, [], ◌∷◌, leb, if◌then◌else◌,
}
use pcilibs_rs.Text.{Bytes, codes}

pub data Family : Type 0 where
  hopper blackwell rubin : Family

pub record Chip : Type 0 where
  pub family : Family
  pub name : Bytes
  pub devid : ℕ × ℕ
  pub hopper : Bool
  pub c2c_cc_supported : Bool
  pub boot_complete : ℕ

abbrev chip : Family → Bytes → ℕ × ℕ → Bool → Bool → ℕ → Chip
chip family name devid is_hopper c2c boot_complete = record {
  family = family;
  name = name;
  devid = devid;
  hopper = is_hopper;
  c2c_cc_supported = c2c;
  boot_complete = boot_complete;
}

unfoldable pub chips : List Chip
chips =
    chip Family.hopper (codes "GH100") (0x22f0, 0x237f) true false 0x200bc
    ∷ chip Family.blackwell (codes "GB100") (0x2900, 0x297f) false false 0x200bc
    ∷ chip Family.blackwell (codes "GB102") (0x2980, 0x29ff) false false 0x200bc
    ∷ chip Family.blackwell (codes "GB110") (0x3180, 0x31ff) false false 0x200bc
    ∷ chip Family.blackwell (codes "GB112") (0x3200, 0x327f) false false 0x200bc
    ∷ chip Family.blackwell (codes "GB202") (0x2b80, 0x2bff) false false 0xad00bc
    ∷ chip Family.blackwell (codes "GB203") (0x2c00, 0x2c7f) false false 0xad00bc
    ∷ chip Family.blackwell (codes "GB205") (0x2f00, 0x2f7f) false false 0xad00bc
    ∷ chip Family.blackwell (codes "GB206") (0x2d00, 0x2d7f) false false 0xad00bc
    ∷ chip Family.blackwell (codes "GB207") (0x2d80, 0x2dff) false false 0xad00bc
    ∷ chip Family.rubin (codes "GR100") (0x3000, 0x307f) false true 0xad00bc
    ∷ chip Family.rubin (codes "GR102") (0x3080, 0x30ff) false true 0xad00bc
    ∷ []

-- `(c.devid.0..=c.devid.1).contains(&devid)`
unfoldable pub covers : Chip → ℕ → Bool
covers c devid = leb c.devid.0 devid && leb devid c.devid.1

-- `iter().find(..)`
unfoldable pub find_chip : (Chip → Bool) → List Chip → Option Chip
find_chip test [] = none
find_chip test (c ∷ cs) = if test c then some c else find_chip test cs

unfoldable pub chip_for_range : ℕ → Option Chip
unfolding chips covers find_chip
chip_for_range devid = find_chip (λ c. covers c devid) chips
