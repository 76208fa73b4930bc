-- ===== src/Catalog/Tests.antt =====
-- The catalog on small texts, and the theorems at them.
use mathlib.Core.Path.{◌≡◌, refl}
use pcilibs_rs.Prelude.{true, some, none, [], ◌∷◌, ◌↔◌, ok, here, there}
use pcilibs_rs.Text.{Bytes, codes, equal}
use pcilibs_rs.Text.Hex.{digit}
use pcilibs_rs.Catalog.Records.{
  Properties, PciIdentity, Entry, gpu, sxm, coherent, matches, overlaps, key_leb, properties_eq,
}
use pcilibs_rs.Catalog.Identity.{overlaps_iff}
use pcilibs_rs.Catalog.Parser.{
  parse_entry, record_lines, unsorted, overlapping, four_digits, extra_fields,
  conflicts_with_builtin,
}
use pcilibs_rs.Catalog.Validate.{fail, validate}
use pcilibs_rs.Catalog.Parsed.{Parses, nil, cons}
use pcilibs_rs.Catalog.Accepted.{validate_iff, IsValid}
use pcilibs_rs.Catalog.Queries.{lookup-listed, lookup-parse_keeps}
use pcilibs_rs.Catalog.Coherence.{may_be_coherent-lookup}
use pcilibs_rs.Catalog.Snapshot.{Catalog, builtin, parse, lookup, may_be_coherent, lookup_lines}

abbrev pub bundled : Bytes
bundled = codes "# NVIDIA\n10de 2330 * 16c0 gpu GH100 sxm\n10de 2342 * 16eb gpu GH100 coherent\n"

abbrev pub added : Bytes
added = codes "10de 2342 * 16eb gpu GH100 coherent\r\n\n 0x15B3 1021 * * nic ConnectX-7 pcie"

abbrev pub grace : Properties
grace = record { kind = gpu; profile = codes "GH100"; attachment = coherent }

abbrev grace_entry : Entry
grace_entry = record {
  vendor = 0x10de;
  device = 0x2342;
  subsystem_vendor = none;
  subsystem_device = some 0x16eb;
  properties = grace;
}

abbrev hopper_entry : Entry
hopper_entry = record {
  vendor = 0x10de;
  device = 0x2330;
  subsystem_vendor = none;
  subsystem_device = some 0x16c0;
  properties = record { kind = gpu; profile = codes "GH100"; attachment = sxm };
}

abbrev pub grace_id : PciIdentity
grace_id = record {
  vendor = 0x10de;
  device = 0x2342;
  subsystem_vendor = 0x10de;
  subsystem_device = 0x16eb;
}

abbrev pub extended : Catalog
extended = record { text = added; extension = true }

pub validate-bundled : validate bundled ≡ ok tt
unfolding validate parse_entry record_lines digit key_leb overlaps
validate-bundled = refl

pub parse-added : parse bundled added ≡ ok extended
unfolding parse validate parse_entry record_lines digit key_leb overlaps properties_eq equal
parse-added = refl

entries-bundled : Parses (record_lines bundled) (hopper_entry ∷ grace_entry ∷ [])
unfolding record_lines parse_entry digit
entries-bundled = cons refl (cons refl nil)

matches-grace : matches grace_entry grace_id ≡ true
unfolding matches
matches-grace = refl

pub lookup-bundled : lookup bundled (builtin bundled) grace_id ≡ ok (some grace)
unfolding lookup builtin lookup_lines parse_entry record_lines digit matches
lookup-bundled = refl

lookup-extended : lookup bundled extended grace_id ≡ ok (some grace)
unfolding lookup lookup_lines parse_entry record_lines digit matches
lookup-extended = refl

refused :
    (validate (codes "15b3 0001 * * nic NIC pcie\n10de 0001 * * gpu GH100 pcie") ≡ fail 2 unsorted)
    × (validate (
          codes
            "10de 0001 * 0001 gpu GH100 pcie\n10de 0001 * 0002 gpu GH100 pcie\n10de 0001 10de 0001 gpu GH100 pcie")
        ≡ fail 3 overlapping)
    × (validate (codes "10de 001 * * gpu GH100 pcie") ≡ fail 1 four_digits)
    × (validate (codes "10de 0001 * * gpu GH100 pcie extra") ≡ fail 1 extra_fields)
    × (parse bundled (codes "10de 2330 * 16c0 gpu GH100 pcie") ≡ fail 1 conflicts_with_builtin)
unfolding parse validate parse_entry record_lines digit key_leb overlaps properties_eq equal
refused = (refl, refl, refl, refl, refl)

lookup-listed_example : lookup bundled (builtin bundled) grace_id ≡ ok (some grace)
unfolding builtin
lookup-listed_example =
    lookup-listed bundled (builtin bundled) grace_id grace_entry validate-bundled entries-bundled
      (there (here refl)) matches-grace

lookup-parse_keeps_example : lookup bundled extended grace_id ≡ ok (some grace)
lookup-parse_keeps_example =
    lookup-parse_keeps bundled added grace_id validate-bundled parse-added lookup-bundled

may_be_coherent-lookup_example : may_be_coherent bundled extended 0x10de 0x2342 ≡ ok true
may_be_coherent-lookup_example =
    may_be_coherent-lookup bundled added grace_id validate-bundled parse-added lookup-extended refl

validate_iff_example : (validate bundled ≡ ok tt) ↔ IsValid bundled
validate_iff_example = validate_iff bundled

overlaps_iff_example :
    (overlaps hopper_entry grace_entry ≡ true)
    ↔ ((i : PciIdentity) × (matches hopper_entry i ≡ true) × (matches grace_entry i ≡ true))
overlaps_iff_example = overlaps_iff hopper_entry grace_entry
