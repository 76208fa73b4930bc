-- ===== src/Iommufd.antt =====
-- src/iommufd.rs: the IOMMUFD character devices under /dev/vfio, with their PCI identity.
pub mod Listing
mod Tests
use pcilibs_rs.Prelude.{
  ℕ, ◌/◌, ◌%◌, Bool, not, ◌==◌, any, Option, none, some, List, [], ◌∷◌, ◌++◌, if◌then◌else◌, Result,
  ok, err,
}
use pcilibs_rs.Text.{Bytes, codes, strip_prefix}
use pcilibs_rs.Text.Decimal.{parse_unsigned, printed}
use pcilibs_rs.Sort.{sort_by, by_key}
use pcilibs_rs.Sysfs.{Sysfs, FilePath, join, vfio_dev}
use pcilibs_rs.Files.{Files, IoError}
use pcilibs_rs.PciDev.Attributes.{parse_attr, u16_max, u32_max}
use pcilibs_rs.PciIds.{Database, Device, from_vid_pid, ◌>>=◌}

pub record IommufdDev : Type 0 where
  pub num : ℕ
  pub path : FilePath
  pub vendor : ℕ
  pub device : ℕ
  pub class : ℕ

abbrev pub class_prefix : IommufdDev → ℕ
class_prefix d = d.class / 256 % u16_max

unfoldable pub device_name : Database → IommufdDev → Option Bytes
device_name database d =
    from_vid_pid database d.vendor d.device >>= λ (found : Device). some found.name

abbrev pub non_passthrough_classes : List ℕ
non_passthrough_classes = 0x0600 ∷ 0x0604 ∷ 0x0403 ∷ []

unfoldable pub is_passthrough_capable_class : ℕ → Bool
is_passthrough_capable_class class =
    not (any (λ c. c == class / 256 % u16_max) non_passthrough_classes)

-- `name.strip_prefix("vfio")?.parse::<u32>().ok()?`
unfoldable pub numbered : Bytes → Option ℕ
unfolding strip_prefix parse_unsigned
numbered name = strip_prefix (codes "vfio") name >>= parse_unsigned u32_max

-- `format!("vfio{num}")`
abbrev pub vfio_name : ℕ → Bytes
vfio_name num = codes "vfio" ++ printed 10 num

-- The vendor, the device and the class.
pub record Identity : Type 0 where
  pub vendor : ℕ
  pub device : ℕ
  pub class : ℕ

abbrev or_default : Result IoError Bytes → Bytes
or_default (ok text) = text
or_default (err e) = []

module _ {S : Type 0} (files : Files S) (sysfs : Sysfs) where
  unfoldable pub identity : FilePath → S → Option Identity
  unfolding parse_attr
  identity device s = do
    vendor ← parse_attr u16_max (or_default (files.read_to_string (join device (codes "vendor")) s))
    dev_id ← parse_attr u16_max (or_default (files.read_to_string (join device (codes "device")) s))
    class ← parse_attr u32_max (or_default (files.read_to_string (join device (codes "class")) s))
    some (record { vendor = vendor; device = dev_id; class = class })

  -- The device under a name in sysfs, with its number and the path of its file.
  abbrev pub described : Bytes → ℕ → FilePath → S → Option IommufdDev
  described name num path s = do
    i ← identity (join (vfio_dev sysfs name) (codes "device")) s
    some (record { num = num; path = path; vendor = i.vendor; device = i.device; class = i.class })

  unfoldable pub lookup_iommufd_dev : Bytes → FilePath → S → Option IommufdDev
  unfolding numbered identity
  lookup_iommufd_dev name vfio_dir s = do
    num ← numbered name
    (if files.exists (join (join vfio_dir (codes "devices")) name) s
        then described name num (join (join vfio_dir (codes "devices")) name) s
        else none)

  -- An entry of the directory; its number is printed again, canonically.
  abbrev pub from_entry : FilePath → Result IoError Bytes → S → Option IommufdDev
  from_entry devices_dir (err e) s = none
  from_entry devices_dir (ok name) s = do
    num ← numbered name
    described (vfio_name num) num (join devices_dir (vfio_name num)) s

  abbrev pub keep_found : Option IommufdDev → List IommufdDev → List IommufdDev
  keep_found none rest = rest
  keep_found (some d) rest = d ∷ rest

  unfoldable pub found_devices : FilePath → List (Result IoError Bytes) → S → List IommufdDev
  unfolding numbered identity
  found_devices devices_dir [] s = []
  found_devices devices_dir (e ∷ entries) s =
      keep_found (from_entry devices_dir e s) (found_devices devices_dir entries s)

  abbrev pub sorted_devices :
      FilePath → Result IoError (List (Result IoError Bytes)) → S → List IommufdDev
  sorted_devices devices_dir (err e) s = []
  sorted_devices devices_dir (ok entries) s =
      sort_by (by_key (λ (d : IommufdDev). d.num)) (found_devices devices_dir entries s)

  unfoldable pub enumerate_iommufd : FilePath → S → List IommufdDev
  unfolding found_devices sort_by
  enumerate_iommufd vfio_dir s =
      sorted_devices (join vfio_dir (codes "devices"))
        (files.read_dir (join vfio_dir (codes "devices")) s) s
