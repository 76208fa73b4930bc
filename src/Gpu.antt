-- ===== src/Gpu.antt =====
-- src/gpu.rs: the NVIDIA register profiles behind catalog records.
-- A panic of the catalog passes through, as in pcilibs_rs.Catalog.Snapshot.
pub mod Chips
pub mod Support
mod Tests
use pcilibs_rs.Prelude.{
  ℕ, Bool, true, false, ◌&&◌, ◌||◌, not, Option, none, some, List, [], ◌∷◌, ◌==◌, if◌then◌else◌,
  Result, ok, err, ◌>>=◌,
}
use pcilibs_rs.Text.{Bytes, equal}
use pcilibs_rs.Catalog.Records.{
  Attachment, pcie, sxm, coherent, unknown, gpu, kind_eq, attachment_eq, Entry,
}
use pcilibs_rs.Catalog.Records as Records
use pcilibs_rs.Catalog.Parser.{parse_entry, record_lines}
use pcilibs_rs.Catalog.Validate.{Checked, expect}
use pcilibs_rs.Catalog.Snapshot.{Catalog, builtin, lookup, may_be_coherent}
use Chips.{Chip, chips, find_chip, chip_for_range}

abbrev pub nvidia : ℕ
nvidia = 0x10de

pub record Properties : Type 0 where
  pub chip : Chip
  pub attachment : Attachment

abbrev cc_for : Attachment → Chip → Bool
cc_for pcie chip = true
cc_for sxm chip = true
cc_for coherent chip = chip.c2c_cc_supported
cc_for unknown chip = false

unfoldable pub in_band_cc_supported : Properties → Bool
in_band_cc_supported p = cc_for p.attachment p.chip

-- `chip_for_range(device).is_some_and(|range| range.name != chip.name)`
abbrev names_other : Option Chip → Chip → Bool
names_other none chip = false
names_other (some range) chip = not (equal range.name chip.name)

unfoldable pub properties : ℕ → ℕ → Records.Properties → Option Properties
properties vendor device p =
    if not (vendor == nvidia) || not (kind_eq p.kind gpu) || attachment_eq p.attachment unknown
    then none
    else elim (find_chip (λ c. equal c.name p.profile) chips) [
      | none ↦ none
      | some chip ↦
          if names_other (chip_for_range device) chip
          then none
          else some (record { chip = chip; attachment = p.attachment })
    ]

-- `found.is_some_and(|previous| previous.name != chip.name)`; the loop over the NVIDIA records of
-- one device, which stops at a record without a profile and at a second profile.
unfoldable pub catalog_chip_from : List (ℕ × Bytes) → ℕ → Option Chip → Checked (Option Chip)
unfolding properties
catalog_chip_from [] device found = ok found
catalog_chip_from ((_, text) ∷ rest) device found =
    let next = λ (f : Option Chip). catalog_chip_from rest device f in
    do
      entry ← expect (parse_entry text)
      (if entry.vendor == nvidia && entry.device == device
          then (elim (properties entry.vendor device entry.properties) [
            | none ↦ ok none
            | some p ↦ if names_other found p.chip then ok none else next (some p.chip)
          ])
          else next found)

unfoldable pub catalog_chip : Catalog → ℕ → Checked (Option Chip)
unfolding catalog_chip_from
catalog_chip c device = catalog_chip_from (record_lines c.text) device none

module _ (builtin_text : Bytes) where
  unfoldable pub chip_for : ℕ → Checked (Option Chip)
  unfolding catalog_chip
  chip_for devid = elim (chip_for_range devid) [
    | some c ↦ ok (some c)
    | none ↦ catalog_chip (builtin builtin_text) devid
  ]

  unfoldable pub is_c2c : ℕ → Checked Bool
  is_c2c devid = may_be_coherent builtin_text (builtin builtin_text) nvidia devid

  unfoldable pub attachment : ℕ → ℕ → Checked Attachment
  attachment device subsystem_device = do
    found ← lookup builtin_text (builtin builtin_text) (record {
      vendor = nvidia;
      device = device;
      subsystem_vendor = nvidia;
      subsystem_device = subsystem_device;
    })
    elim found [ none ↦ ok unknown | some p ↦ ok p.attachment ]
