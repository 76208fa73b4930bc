-- ===== src/Infiniband.antt =====
-- src/linux.rs: the snapshot of the InfiniBand devices, a text for the log. The file system is a
-- parameter, and so is what the package nix says of the metadata of a file.
pub mod Reported
mod Tests
use pcilibs_rs.Prelude.{
  ℕ, bit_and, ◌==◌, if◌then◌else◌, Option, none, some, List, [], ◌∷◌, ◌++◌, Result, ok, err,
}
use pcilibs_rs.Text.{Bytes, codes, strip_prefix, trim}
use pcilibs_rs.Text.Debug.{debug}
use pcilibs_rs.Text.Decimal.{printed}
use pcilibs_rs.Sysfs.{Sysfs, FilePath, join, infiniband, infiniband_verbs}
use pcilibs_rs.Files.{Files, IoError, file_name}

-- `DirEntry::metadata`, with the `mode` and the `rdev` of the answer.
pub record Metadata : Type 0 where
  pub mode : ℕ
  pub rdev : ℕ

-- `SFlag` with its constants, and `stat::major` and `stat::minor`.
pub record Nix : Type 0 where
  pub from_bits_truncate : ℕ → ℕ
  pub s_ifmt : ℕ
  pub s_ifchr : ℕ
  pub s_ifblk : ℕ
  pub major : ℕ → ℕ
  pub minor : ℕ → ℕ

abbrev pub kind_name : Nix → ℕ → Bytes
kind_name nix kind =
    if kind == nix.s_ifchr
    then codes "char"
    else if kind == nix.s_ifblk
    then codes "block"
    else codes "other"

unfoldable pub device_kind : Nix → ℕ → Bytes
device_kind nix mode = kind_name nix (bit_and (nix.from_bits_truncate mode) nix.s_ifmt)

-- `.map(|s| s.trim().to_string()).unwrap_or_default()`
abbrev pub trimmed : Result IoError Bytes → Bytes
trimmed (ok text) = trim text
trimmed (err e) = []

abbrev name_or_none : Option Bytes → Bytes
name_or_none (some name) = name
name_or_none none = codes "<none>"

-- The name that a link ends in.
unfoldable pub link_name : Result IoError FilePath → Bytes
unfolding file_name
link_name (ok target) = name_or_none (file_name target)
link_name (err e) = codes "<none>"

-- `entries.flatten()`
unfoldable pub flatten : List (Result IoError Bytes) → List Bytes
flatten [] = []
flatten (err e ∷ entries) = flatten entries
flatten (ok name ∷ entries) = name ∷ flatten entries

-- An unreadable directory has no entries.
abbrev pub listed : Result IoError (List (Result IoError Bytes)) → List Bytes
listed (ok entries) = flatten entries
listed (err e) = []

-- `parts.join(", ")`
unfoldable pub join_parts : List Bytes → Bytes
join_parts [] = []
join_parts (p ∷ []) = p
join_parts (p ∷ q ∷ parts) = p ++ codes ", " ++ join_parts (q ∷ parts)

-- A part that is skipped is `none`.
abbrev pub push_part : Option Bytes → List Bytes → List Bytes
push_part none parts = parts
push_part (some p) parts = p ∷ parts

unfoldable pub parts_of : (Bytes → Option Bytes) → List Bytes → List Bytes
parts_of part [] = []
parts_of part (name ∷ names) = push_part (part name) (parts_of part names)

module _ {S : Type 0} (files : Files S) (sysfs : Sysfs) where
  abbrev pub attribute : FilePath → Bytes → S → Bytes
  attribute path name s = trimmed (files.read_to_string (join path name) s)

  unfoldable pub ib_text : S → Bytes → Bytes
  unfolding trim link_name
  ib_text s name =
      let path = join (infiniband sysfs) name in
      name
      ++ codes "=[bdf="
      ++ link_name (files.read_link (join path (codes "device")) s)
      ++ codes ",node_type="
      ++ debug (attribute path (codes "node_type") s)
      ++ codes ",fw="
      ++ attribute path (codes "fw_ver") s
      ++ codes "]"

  abbrev pub ib_part : S → Bytes → Option Bytes
  ib_part s name = some (ib_text s name)

  abbrev pub verbs_text : S → Bytes → Bytes
  verbs_text s name =
      let path = join (infiniband_verbs sysfs) name in
      name
      ++ codes "=[ibdev="
      ++ attribute path (codes "ibdev") s
      ++ codes ",dev="
      ++ attribute path (codes "dev") s
      ++ codes "]"

  abbrev verbs_if : S → Bytes → Option Bytes → Option Bytes
  verbs_if s name none = none
  verbs_if s name (some rest) = some (verbs_text s name)

  -- `name.starts_with("uverbs")`
  unfoldable pub verbs_part : S → Bytes → Option Bytes
  unfolding strip_prefix trim
  verbs_part s name = verbs_if s name (strip_prefix (codes "uverbs") name)

  module _ (nix : Nix) (entry_metadata : FilePath → S → Result IoError Metadata) where
    abbrev pub node_text : Bytes → Result IoError Metadata → Option Bytes
    node_text name (err e) = none
    node_text name (ok metadata) = some (
        name
        ++ codes "=["
        ++ device_kind nix metadata.mode
        ++ codes ","
        ++ printed 10 (nix.major metadata.rdev)
        ++ codes ":"
        ++ printed 10 (nix.minor metadata.rdev)
        ++ codes "]")

    unfoldable pub chardev_part : FilePath → S → Bytes → Option Bytes
    unfolding device_kind
    chardev_part dev_dir s name = node_text name (entry_metadata (join dev_dir name) s)

    unfoldable pub snapshot_infiniband : FilePath → S → Bytes
    unfolding ib_text verbs_part chardev_part flatten parts_of join_parts
    snapshot_infiniband dev_dir s =
        codes "ib_devices=["
        ++ join_parts (parts_of (ib_part s) (listed (files.read_dir (infiniband sysfs) s)))
        ++ codes "] uverbs=["
        ++ join_parts (parts_of (verbs_part s) (listed (files.read_dir (infiniband_verbs sysfs) s)))
        ++ codes "] chardevs=["
        ++ join_parts (parts_of (chardev_part dev_dir s) (listed (files.read_dir dev_dir s)))
        ++ codes "]"
