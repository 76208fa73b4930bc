-- ===== src/Infiniband/Tests.antt =====
-- The snapshots of the tests of src/linux.rs.
use pcilibs_rs.Prelude.{
  ◌≡◌, refl, ◌%◌, ◌/◌, ◌*◌, List, [], ◌∷◌, ◌++◌, if◌then◌else◌, Result, ok, err, ok_or,
}
use pcilibs_rs.Text.{Bytes, codes, equal, strip_prefix, trim, split}
use pcilibs_rs.Text.Debug.{escape_debug, escaped}
use pcilibs_rs.Text.Decimal
use pcilibs_rs.Sysfs.{
  FilePath, default, needs_separator, join, class_path, infiniband, infiniband_verbs, components,
  piece, pieces,
}
use pcilibs_rs.Files.{Files, IoError, no_files, not_found, file_name, last_name}
use pcilibs_rs.Files.Fixed.{text_at}
use pcilibs_rs.Infiniband.{
  Nix, Metadata, device_kind, link_name, flatten, join_parts, parts_of, ib_text, verbs_part,
  chardev_part, snapshot_infiniband,
}

-- The constants of Linux, and numbers of 8 bits.
abbrev linux : Nix
linux = record {
  from_bits_truncate = λ mode. mode / 4096 % 16 * 4096;
  s_ifmt = 0xf000;
  s_ifchr = 0x2000;
  s_ifblk = 0x6000;
  major = λ rdev. rdev / 256;
  minor = λ rdev. rdev % 256;
}

abbrev null : FilePath → Unit {0} → Result IoError Metadata
null path s = ok (record { mode = 0x21b6; rdev = 259 })

abbrev dev_infiniband : FilePath
dev_infiniband = codes "/dev/infiniband"

snapshot_infiniband-empty :
    snapshot_infiniband (no_files (λ path text s. s)) default linux null dev_infiniband tt
    ≡ codes "ib_devices=[] uverbs=[] chardevs=[]"
unfolding snapshot_infiniband
snapshot_infiniband-empty = refl

-- A node with one device, whose only readable attribute is its type.
abbrev listing : FilePath → Result IoError (List (Result IoError Bytes))
unfolding equal
listing path =
    if equal path (codes "/sys/class/infiniband")
    then ok (ok (codes "mlx5_0") ∷ [])
    else if equal path (codes "/sys/class/infiniband_verbs")
    then ok (ok (codes "abi_version") ∷ err not_found ∷ ok (codes "uverbs0") ∷ [])
    else if equal path dev_infiniband
    then ok (ok (codes "null") ∷ [])
    else err not_found

abbrev one_device : Files (Unit {0})
one_device = record (no_files (λ path text s. s)) {
  read_link = λ path s. ok (codes "../../devices/0000:03:00.0");
  read_to_string = λ path s.
      ok_or (text_at path ((codes "/sys/class/infiniband/mlx5_0/node_type", codes "1: CA\n") ∷ []))
        not_found;
  read_dir = λ path s. listing path;
}

snapshot_infiniband-one :
    snapshot_infiniband one_device default linux null dev_infiniband tt
    ≡ codes "ib_devices=[mlx5_0=[bdf=0000:03:00.0,node_type=\"1: CA\",fw=]] "
      ++ codes "uverbs=[uverbs0=[ibdev=,dev=]] chardevs=[null=[char,1:3]]"
unfolding snapshot_infiniband ib_text verbs_part chardev_part device_kind link_name flatten parts_of
    join_parts file_name last_name text_at equal strip_prefix trim escape_debug escaped
    needs_separator join class_path infiniband infiniband_verbs components split piece pieces
    Decimal.printed
snapshot_infiniband-one = refl
