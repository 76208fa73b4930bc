-- ===== src/Catalog/Snapshot.antt =====
-- src/catalog.rs: a catalog is a validated text; lookup falls back to the built-in text.
-- `builtin_text` is the file that the build bundles, which is not in the repository.
use pcilibs_rs.Prelude.{
  ℕ, Bool, true, false, ◌&&◌, ◌||◌, not, Option, none, some, List, [], ◌∷◌, ◌==◌, ltb,
  if◌then◌else◌, ok, ◌>>=◌, ◌>>◌,
}
use pcilibs_rs.Text.{Bytes}
use pcilibs_rs.Catalog.Records.{
  Properties, PciIdentity, Entry, coherent, attachment_eq, matches, overlaps, properties_eq,
}
use pcilibs_rs.Catalog.Parser.{conflicts_with_builtin, parse_entry, record_lines}
use pcilibs_rs.Catalog.Validate.{Checked, fail, expect, validate}

pub record Catalog : Type 0 where
  pub text : Bytes
  pub extension : Bool

-- `(entry.vendor, entry.device) > (identity.vendor, identity.device)`
unfoldable pub is_past : Entry → PciIdentity → Bool
is_past e i = ltb i.vendor e.vendor || e.vendor == i.vendor && ltb i.device e.device

-- The loop of `lookup`: records are parsed as they are reached.
unfoldable pub lookup_lines : List (ℕ × Bytes) → PciIdentity → Checked (Option Properties)
unfolding is_past
lookup_lines [] i = ok none
lookup_lines ((_, text) ∷ rest) i =
    let later = lookup_lines rest i in
    do
      entry ← expect (parse_entry text)
      (if is_past entry i
          then ok none
          else if matches entry i
          then ok (some entry.properties)
          else later)

-- The closure of `may_be_coherent`.
unfoldable pub is_coherent_for : ℕ → ℕ → Entry → Bool
is_coherent_for vendor device e =
    e.vendor == vendor && e.device == device && attachment_eq e.properties.attachment coherent

unfoldable pub any_coherent : List (ℕ × Bytes) → ℕ → ℕ → Checked Bool
unfolding is_coherent_for
any_coherent [] vendor device = ok false
any_coherent ((_, text) ∷ rest) vendor device =
    let later = any_coherent rest vendor device in
    do
      entry ← expect (parse_entry text)
      (if is_coherent_for vendor device entry then ok true else later)

-- The inner loop of `parse`, over the built-in records.
unfoldable pub no_conflict : ℕ → Entry → List (ℕ × Bytes) → Checked (Unit {0})
no_conflict line entry [] = ok tt
no_conflict line entry ((_, text) ∷ rest) =
    let later = no_conflict line entry rest in
    do
      known ← expect (parse_entry text)
      (if overlaps entry known && not (properties_eq entry.properties known.properties)
          then fail line conflicts_with_builtin
          else later)

-- The outer loop of `parse`.
unfoldable pub no_conflicts : List (ℕ × Bytes) → List (ℕ × Bytes) → Checked (Unit {0})
unfolding no_conflict
no_conflicts builtin [] = ok tt
no_conflicts builtin ((line, text) ∷ rest) =
    let later = no_conflicts builtin rest in
    do entry ← expect (parse_entry text); no_conflict line entry builtin; later

module _ (builtin_text : Bytes) where
  unfoldable pub builtin : Catalog
  builtin = record { text = builtin_text; extension = false }

  unfoldable pub parse : Bytes → Checked Catalog
  unfolding builtin no_conflicts
  parse text = do
    validate text
    no_conflicts (record_lines builtin.text) (record_lines text)
    ok (record { text = text; extension = true })

  unfoldable pub lookup : Catalog → PciIdentity → Checked (Option Properties)
  unfolding builtin
  lookup c i = do
    found ← lookup_lines (record_lines c.text) i
    elim found [
      | some p ↦ ok (some p)
      | none ↦ if c.extension then lookup_lines (record_lines builtin.text) i else ok none
    ]

  unfoldable pub may_be_coherent : Catalog → ℕ → ℕ → Checked Bool
  unfolding builtin
  may_be_coherent c vendor device = do
    found ← any_coherent (record_lines c.text) vendor device
    (if found
        then ok true
        else if c.extension
        then any_coherent (record_lines builtin.text) vendor device
        else ok false)
