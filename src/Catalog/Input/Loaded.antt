-- ===== src/Catalog/Input/Loaded.antt =====
-- A catalog that is loaded extends the built-in one and no more.
use pcilibs_rs.Prelude.{some, true, ◌≡◌, ok, err, bind-eq-ok}
use pcilibs_rs.Text.{Bytes}
use pcilibs_rs.Sysfs.{FilePath}
use pcilibs_rs.Files.{Files}
use pcilibs_rs.Catalog.Records.{PciIdentity, Properties}
use pcilibs_rs.Catalog.Validate.{Fault, failed, Checked, validate}
use pcilibs_rs.Catalog.Snapshot.{Catalog, builtin, parse, no_conflicts, lookup}
use pcilibs_rs.Catalog.Parser.{record_lines}
use pcilibs_rs.Catalog.Queries.{lookup-parse_keeps}
use pcilibs_rs.Catalog.Input.{invalid_text, read, read_catalog}

invalid_text-eq-ok : {A : Type 0} (r : Checked A) {a : A} → invalid_text r ≡ ok a → r ≡ ok a
invalid_text-eq-ok (ok b) h = cc h
invalid_text-eq-ok (err (failed e)) h = cc h
invalid_text-eq-ok (err Fault.panicked) h = cc h

parse-text :
    (builtin_text text : Bytes) {c : Catalog}
    → parse builtin_text text ≡ ok c
    → record { text = text; extension = true } ≡ c
unfolding parse
parse-text builtin_text text h =
    let (_, _, rest) = bind-eq-ok (validate text) _ h in
    let (_, _, same) =
      bind-eq-ok (no_conflicts (record_lines (builtin builtin_text).text) (record_lines text)) _
        rest in
    cc same

module _ {S : Type 0} (files : Files S) where
  -- With a bundled text that `validate` accepts: a catalog that is loaded from a file or from a
  -- directory, whatever they hold, does not change the answer for any identity that the built-in
  -- catalog knows.
  pub read_catalog-keeps :
      (builtin_text : Bytes) (path : FilePath) (s : S) (i : PciIdentity) {c : Catalog}
      {p : Properties}
      → validate builtin_text ≡ ok tt
      → read_catalog files builtin_text path s ≡ ok c
      → lookup builtin_text (builtin builtin_text) i ≡ ok (some p)
      → lookup builtin_text c i ≡ ok (some p)
  unfolding read_catalog
  read_catalog-keeps builtin_text path s i {c} {p} bundled h k =
      let (text, _, rest) = bind-eq-ok (read files path s) _ h in
      let (parsed, accepted, same) = bind-eq-ok (invalid_text (parse builtin_text text)) _ rest in
      let whole = invalid_text-eq-ok (parse builtin_text text) accepted in
      let loaded : record { text = text; extension = true } ≡ c = cc same in
      let parses : parse builtin_text text ≡ ok c =
        cc (whole, parse-text builtin_text text whole, loaded) in
      lookup-parse_keeps builtin_text text i bundled parses k
