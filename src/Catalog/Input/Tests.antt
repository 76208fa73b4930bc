-- ===== src/Catalog/Input/Tests.antt =====
-- A directory with one catalog file, and the theorems at it.
use pcilibs_rs.Prelude.{true, some, [], ◌∷◌, ◌≡◌, refl, ok, if◌then◌else◌}
use pcilibs_rs.Text.{Bytes, codes, equal}
use pcilibs_rs.Text.Hex.{digit}
use pcilibs_rs.Sort.{insert, sort_by, text_le}
use pcilibs_rs.Sysfs.{join, needs_separator}
use pcilibs_rs.Files.{Files, no_files, regular, directory}
use pcilibs_rs.Catalog.Records.{overlaps, key_leb, key_eq, properties_eq}
use pcilibs_rs.Catalog.Parser.{parse_entry, record_lines}
use pcilibs_rs.Catalog.Validate.{validate}
use pcilibs_rs.Catalog.Snapshot.{parse, lookup}
use pcilibs_rs.Catalog.Tests.{bundled, grace, grace_id, validate-bundled, lookup-bundled}
use pcilibs_rs.Catalog.Input.{
  gather, gather_all, duplicate, merge_sorted, merge, extension_from, read_file, candidates,
  read_texts, read, read_catalog,
}
use pcilibs_rs.Catalog.Input.Loaded.{read_catalog-keeps}

abbrev file_text : Bytes
file_text = codes "# more\n10de ffff * * gpu GR100 coherent"

abbrev merged_text : Bytes
merged_text = codes "10de ffff * * gpu GR100 coherent\n"

abbrev catalogs : Files (Unit {0})
catalogs = record (no_files (λ path text s. s)) {
  metadata = λ path s. ok (if equal path (codes "/etc/gpus") then directory else regular);
  open_file = λ path s. ok tt;
  read_bytes = λ path s. ok file_text;
  read_dir = λ path s. ok (ok (codes "notes.txt") ∷ ok (codes "a.catalog") ∷ []);
}

read_catalog-catalogs :
    read_catalog catalogs bundled (codes "/etc/gpus") tt
    ≡ ok (record { text = merged_text; extension = true })
unfolding read_catalog read candidates extension_from read_texts read_file gather gather_all
    duplicate merge_sorted merge insert sort_by text_le join needs_separator parse validate
    parse_entry record_lines digit key_leb key_eq overlaps properties_eq equal
read_catalog-catalogs = refl

read_catalog-keeps_example :
    lookup bundled (record { text = merged_text; extension = true }) grace_id ≡ ok (some grace)
read_catalog-keeps_example =
    read_catalog-keeps catalogs bundled (codes "/etc/gpus") tt grace_id validate-bundled
      read_catalog-catalogs lookup-bundled
