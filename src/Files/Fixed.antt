-- ===== src/Files/Fixed.antt =====
-- A file system with fixed contents, on which examples run.
use pcilibs_rs.Prelude.{true, Option, none, some, List, [], ◌∷◌, map, if◌then◌else◌, ok, ok_or}
use pcilibs_rs.Text.{Bytes, equal}
use pcilibs_rs.Sysfs.{FilePath}
use pcilibs_rs.Files.{Files, no_files, not_found}

unfoldable pub text_at : FilePath → List (FilePath × Bytes) → Option Bytes
unfolding equal
text_at path [] = none
text_at path ((p, text) ∷ texts) =
    let rest = text_at path texts in if equal path p then some text else rest

-- Every directory has these names, and every path exists.
abbrev pub fixed : List Bytes → List (FilePath × Bytes) → Files (Unit {0})
fixed names texts = record (no_files (λ path text s. s)) {
  exists = λ path s. true;
  read_to_string = λ path s. ok_or (text_at path texts) not_found;
  read_dir = λ path s. ok (map ok names);
}
