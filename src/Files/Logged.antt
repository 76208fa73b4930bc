-- ===== src/Files/Logged.antt =====
-- A file system that says what was written: what is relied on of the kernel's attribute files.
use pcilibs_rs.Prelude.{ℕ, List, ◌∷◌, ◌≡◌, ok, err}
use pcilibs_rs.Text.{Bytes}
use pcilibs_rs.Sysfs.{FilePath}
use pcilibs_rs.Files.{Files, IoError}

abbrev pub Log : Type 0
Log = List (FilePath × Bytes)

-- The writes that were done, the latest first; one that fails is not done.
pub record IsLogged {S : Type 0} (files : Files S) (log : S → Log) : Type 0 where
  pub done :
      (path : FilePath) (text : Bytes) (s : S)
      → (files.write path text s).0 ≡ ok tt
      → log (files.write path text s).1 ≡ (path, text) ∷ log s
  pub undone :
      (path : FilePath) (text : Bytes) (s : S) (e : IoError)
      → (files.write path text s).0 ≡ err e
      → log (files.write path text s).1 ≡ log s
  pub done_at :
      (path : FilePath) (offset : ℕ) (text : Bytes) (s : S)
      → (files.write_at path offset text s).0 ≡ ok tt
      → log (files.write_at path offset text s).1 ≡ (path, text) ∷ log s
  pub undone_at :
      (path : FilePath) (offset : ℕ) (text : Bytes) (s : S) (e : IoError)
      → (files.write_at path offset text s).0 ≡ err e
      → log (files.write_at path offset text s).1 ≡ log s
