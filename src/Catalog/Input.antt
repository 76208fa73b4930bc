-- ===== src/Catalog/Input.antt =====
-- src/catalog/input.rs and src/catalog/file.rs: reading a catalog from a file, or from the `.catalog`
-- files of a directory, which are merged. A failed `expect` is `panicked`; texts are ASCII.
pub mod Merge
pub mod Loaded
mod Tests
use pcilibs_rs.Prelude.{
  ℕ, ◌+◌, ◌-◌, Bool, true, false, ◌&&◌, ◌==◌, ltb, leb, Option, none, some, List, [], ◌∷◌, ◌++◌,
  length, take, if◌then◌else◌, Result, ok, err, ◌>>=◌, ◌>>◌,
}
use pcilibs_rs.Text.{Bytes, codes, equal}
use pcilibs_rs.Sort.{sort_by, text_le}
use pcilibs_rs.Sysfs.{FilePath, join}
use pcilibs_rs.Files.{Files, IoError, invalid_data, panicked, FileType, regular, directory, special}
use pcilibs_rs.Catalog.Records.{Entry, key, key_eq, key_leb, properties_eq, overlaps}
use pcilibs_rs.Catalog.Parser.{Message, parse_entry, record_lines}
use pcilibs_rs.Catalog.Validate.{Fault, failed, Checked, max_bytes, max_entries, validate}
use pcilibs_rs.Catalog.Snapshot.{Catalog, parse}

-- `map_err(|e| invalid(e.to_string()))`
abbrev pub invalid_text : {A : Type 0} → Checked A → Result IoError A
invalid_text (ok a) = ok a
invalid_text (err (failed e)) = err invalid_data
invalid_text (err Fault.panicked) = err panicked

abbrev pub expect_entry : Result Message Entry → Result IoError Entry
expect_entry (ok e) = ok e
expect_entry (err m) = err panicked

-- A record with its text; its place is only for messages.
pub record Sourced : Type 0 where
  pub entry : Entry
  pub text : Bytes

-- The records of one file, behind those before it.
unfoldable pub gather : List (ℕ × Bytes) → List Sourced → Result IoError (List Sourced)
unfolding parse_entry
gather [] entries = ok entries
gather ((_, text) ∷ lines) entries =
    let next = λ (e : Entry). gather lines (entries ++ record { entry = e; text = text } ∷ []) in
    (if leb max_entries (length entries) then err invalid_data else ok tt)
    >> (expect_entry (parse_entry text) >>= next)

unfoldable pub gather_all : List Bytes → List Sourced → Result IoError (List Sourced)
unfolding gather record_lines
gather_all [] entries = ok entries
gather_all (text ∷ texts) entries =
    gather (record_lines text) entries >>= λ more. gather_all texts more

-- The inner loop: whether the record stands in the accepted ones already.
unfoldable pub duplicate : Entry → List Entry → Result IoError Bool
unfolding key_eq overlaps
duplicate e [] = ok false
duplicate e (prev ∷ accepted) =
    let later = duplicate e accepted in
    if key_eq (key e) (key prev) && properties_eq e.properties prev.properties
    then ok true
    else if overlaps e prev
    then err invalid_data
    else later

unfoldable pub merge_sorted : List Sourced → List Entry → Bytes → Result IoError Bytes
unfolding duplicate
merge_sorted [] accepted merged = ok merged
merge_sorted (s ∷ rest) accepted merged =
    let skip = merge_sorted rest accepted merged in
    let push = merge_sorted rest (accepted ++ s.entry ∷ []) (merged ++ (s.text ++ 10 ∷ [])) in
    duplicate s.entry accepted >>= λ again. (if again then skip else push)

abbrev pub by_identity : Sourced → Sourced → Bool
by_identity a b = key_leb (key a.entry) (key b.entry)

abbrev pub accepted_text : Bytes → Result IoError Bytes
accepted_text merged = invalid_text (validate merged) >> ok merged

unfoldable pub merge : List Bytes → Result IoError Bytes
unfolding gather_all merge_sorted sort_by validate key_leb
merge texts = do
  entries ← gather_all texts []
  merged ← merge_sorted (sort_by by_identity entries) [] []
  accepted_text merged

-- What follows the last dot of a name, if something stands before that dot.
abbrev behind : Bytes → Option Bytes → Option Bytes
behind s (some extension) = some extension
behind s none = some s

unfoldable pub extension_from : Bool → Bytes → Option Bytes
extension_from inside [] = none
extension_from inside (c ∷ s) =
    let later = extension_from true s in if c == b'.' && inside then behind s later else later

-- `Path::extension` of a name
abbrev pub extension : Bytes → Option Bytes
extension name = extension_from false name

abbrev pub is_catalog : Option Bytes → Bool
is_catalog none = false
is_catalog (some ext) = equal ext (codes "catalog")

module _ {S : Type 0} (files : Files S) where
  abbrev pub take_text : ℕ → Bytes → Result IoError Bytes
  take_text limit text =
      if ltb limit (length text)
      then err invalid_data
      else (invalid_text (validate text) >> ok text)

  abbrev pub read_typed : FilePath → ℕ → FileType → S → Result IoError Bytes
  read_typed path limit regular s = do
    files.open_file path s
    image ← files.read_bytes path s
    take_text limit (take (limit + 1) image)
  read_typed path limit _ s = err invalid_data

  unfoldable pub read_file : FilePath → ℕ → S → Result IoError Bytes
  unfolding validate
  read_file path limit s = files.metadata path s >>= λ t. read_typed path limit t s

  abbrev pub push_candidate : Bytes → List Bytes → FileType → Result IoError (List Bytes)
  push_candidate name names directory = ok names
  push_candidate name names _ =
      if leb max_entries (length names) then err invalid_data else ok (names ++ name ∷ [])

  -- The `.catalog` files among the entries of a directory, by name.
  unfoldable pub candidates :
      FilePath → List (Result IoError Bytes) → List Bytes → S → Result IoError (List Bytes)
  unfolding equal extension_from
  candidates path [] names s = ok names
  candidates path (err e ∷ entries) names s = err e
  candidates path (ok name ∷ entries) names s =
      let next = λ (more : List Bytes). candidates path entries more s in
      if is_catalog (extension name)
      then (files.metadata (join path name) s >>= λ t. push_candidate name names t >>= next)
      else next names

  -- The limit of bytes is for all files together.
  unfoldable pub read_texts : FilePath → List Bytes → ℕ → S → Result IoError (List Bytes)
  unfolding read_file
  read_texts path [] remaining s = ok []
  read_texts path (name ∷ names) remaining s = read_file (join path name) remaining s >>= λ text.
      read_texts path names (remaining - length text) s >>= λ texts. ok (text ∷ texts)

  abbrev pub read_directory : FilePath → S → Result IoError Bytes
  read_directory path s = do
    entries ← files.read_dir path s
    names ← candidates path entries [] s
    texts ← read_texts path (sort_by text_le names) max_bytes s
    merge texts

  abbrev pub read_by_type : FilePath → FileType → S → Result IoError Bytes
  read_by_type path directory s = read_directory path s
  read_by_type path _ s = read_file path max_bytes s

  unfoldable pub read : FilePath → S → Result IoError Bytes
  unfolding candidates read_texts merge text_le
  read path s = files.metadata path s >>= λ t. read_by_type path t s

  -- `CatalogFile::read` and `CatalogFile::catalog`
  unfoldable pub read_catalog : Bytes → FilePath → S → Result IoError Catalog
  unfolding read parse
  read_catalog builtin_text path s = do
    text ← read path s
    _ ← invalid_text (parse builtin_text text)
    ok (record { text = text; extension = true })
