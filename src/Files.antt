-- ===== src/Files.antt =====
-- What the code asks of a file system: the standard library and the kernel's sysfs, a parameter.
-- Reading changes nothing; a path is a byte string, and so is a text.
pub mod Logged
pub mod Fixed
use pcilibs_rs.Prelude.{ℕ, Bool, false, Option, none, some, List, [], ◌∷◌, Result, ok, err}
use pcilibs_rs.Text.{Bytes}
use pcilibs_rs.Sysfs.{FilePath, Component, normal, components}

-- `io::ErrorKind`; a failed `expect` is `panicked`.
pub data IoError : Type 0 where
  not_found resource_busy timed_out invalid_input invalid_data other panicked : IoError
  os_error : ℕ → IoError

pub data FileType : Type 0 where
  regular directory special : FileType

-- An entry of a directory may be unreadable; a text that is read is ASCII.
pub record Files (S : Type 0) : Type 0 where
  pub is_dir : FilePath → S → Bool
  pub exists : FilePath → S → Bool
  pub metadata : FilePath → S → Result IoError FileType
  pub file_len : FilePath → S → Result IoError ℕ
  pub read_link : FilePath → S → Result IoError FilePath
  pub open_file : FilePath → S → Result IoError (Unit {0})
  pub read_bytes : FilePath → S → Result IoError Bytes
  pub read_to_string : FilePath → S → Result IoError Bytes
  pub read_at : FilePath → ℕ → ℕ → S → Result IoError Bytes
  pub symlink_metadata : FilePath → S → Result IoError (Unit {0})
  pub read_dir : FilePath → S → Result IoError (List (Result IoError Bytes))
  pub write : FilePath → Bytes → S → Result IoError (Unit {0}) × S
  pub write_at : FilePath → ℕ → Bytes → S → Result IoError (Unit {0}) × S

-- A file system without files, on which a write has the effect of `write`.
abbrev pub no_files : {S : Type 0} → (FilePath → Bytes → S → S) → Files S
no_files write = record {
  is_dir = λ path s. false;
  exists = λ path s. false;
  metadata = λ path s. err not_found;
  file_len = λ path s. err not_found;
  read_link = λ path s. err not_found;
  open_file = λ path s. err not_found;
  read_bytes = λ path s. err not_found;
  read_to_string = λ path s. err not_found;
  read_at = λ path offset n s. err not_found;
  symlink_metadata = λ path s. err not_found;
  read_dir = λ path s. err not_found;
  write = λ path text s. (ok tt, write path text s);
  write_at = λ path offset text s. (ok tt, write path text s);
}

unfoldable pub last_name : List Component → Option Bytes
last_name [] = none
last_name (normal name ∷ []) = some name
last_name (_ ∷ []) = none
last_name (_ ∷ c ∷ cs) = last_name (c ∷ cs)

-- `Path::file_name`
unfoldable pub file_name : FilePath → Option Bytes
unfolding last_name
file_name path = last_name (components path)
