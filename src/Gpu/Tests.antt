-- ===== src/Gpu/Tests.antt =====
-- The chip table on single IDs, and the theorems at them.
use pcilibs_rs.Prelude.{Bool, true, some, ◌≡◌, refl}
use pcilibs_rs.Text.{codes, equal}
use pcilibs_rs.Catalog.Records.{gpu, sxm}
use pcilibs_rs.Catalog.Records as Records
use pcilibs_rs.Gpu.Chips.{Chip, Family, chips, chip_for_range, find_chip}
use pcilibs_rs.Gpu.{Properties, properties}

abbrev gh100 : Chip
gh100 = record {
  family = Family.hopper;
  name = codes "GH100";
  devid = (0x22f0, 0x237f);
  hopper = true;
  c2c_cc_supported = Bool.false;
  boot_complete = 0x200bc;
}

abbrev sxm_record : Records.Properties
sxm_record = record { kind = gpu; profile = codes "GH100"; attachment = sxm }

abbrev sxm_properties : Properties
sxm_properties = record { chip = gh100; attachment = sxm }

properties-sxm : properties 0x10de 0x2330 sxm_record ≡ some sxm_properties
unfolding properties chip_for_range equal find_chip chips
properties-sxm = refl
