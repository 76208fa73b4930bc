-- ===== src/PciManager.antt =====
-- src/pci_manager.rs: the devices of the node, with a cache by address. The file system and the PCI
-- ID database are parameters; a failed `unwrap` is `panicked`.
pub mod Cached
pub mod Order
pub mod Addresses
pub mod Sorted
mod Tests
use pcilibs_rs.Prelude.{
  ℕ, ◌/◌, ◌%◌, ◌^◌, Bool, true, false, not, ◌==◌, ltb, Option, none, some, List, [], ◌∷◌, filter,
  if◌then◌else◌, Result, ok, err, ◌>>=◌, ok_or,
}
use pcilibs_rs.Text.{Bytes, codes, equal, trim}
use pcilibs_rs.Text.Hex.{from_str_radix}
use pcilibs_rs.Text.Decimal.{ℤ, negsuc, parse_i64}
use pcilibs_rs.Sort.{sort_by, by_key}
use pcilibs_rs.Bdf.{normalize_bdf}
use pcilibs_rs.Sysfs.{Sysfs, FilePath, join, device, devices}
use pcilibs_rs.Files.{Files, IoError, invalid_input, invalid_data, panicked, file_name}
use pcilibs_rs.Device.{Machine}
use pcilibs_rs.PciDev.Attributes.{parse_attr, u16_max, u32_max}
use pcilibs_rs.PciDev.Handle.{PciDev, Process, open_in}
use pcilibs_rs.PciIds as Ids

abbrev pub pci_config_space_sz : ℕ
pci_config_space_sz = 256

abbrev pub unknown_device : Bytes
unknown_device = codes "UNKNOWN_DEVICE"

abbrev pub unknown_class : Bytes
unknown_class = codes "UNKNOWN_CLASS"

-- `replace(":", "")` and `replace(".", "")`
abbrev pub without : ℕ → Bytes → Bytes
without c s = filter (λ b. not (b == c)) s

abbrev pub or_zero : Option ℕ → ℕ
or_zero none = 0
or_zero (some n) = n

unfoldable pub address_to_id : Bytes → ℕ
unfolding from_str_radix
address_to_id address = or_zero (from_str_radix (2 ^ 64) (without b'.' (without b':' address)))

pub record PciDevice : Type 0 where
  pub device_path : FilePath
  pub address : Bytes
  pub vendor : ℕ
  pub class : ℕ
  pub class_name : Bytes
  pub device : ℕ
  pub device_name : Bytes
  pub driver : Bytes
  pub iommu_group : ℤ
  pub numa_node : ℤ
  pub sysfs : Sysfs

-- The `HashMap`: the entry that was inserted last comes first.
abbrev pub Cache : Type 0
Cache = List (Bytes × PciDevice)

unfoldable pub cache_get : Bytes → Cache → Option PciDevice
cache_get address [] = none
cache_get address ((a, dev) ∷ cache) =
    let rest = cache_get address cache in if equal address a then some dev else rest

abbrev minus_one : ℤ
minus_one = negsuc 0

abbrev or_minus_one : Option ℤ → ℤ
or_minus_one none = minus_one
or_minus_one (some n) = n

abbrev class_name_of : Option Ids.Class → Bytes
class_name_of none = unknown_class
class_name_of (some c) = c.name

abbrev device_name_of : Option Ids.Device → Bytes
device_name_of none = unknown_device
device_name_of (some d) = d.name

-- The filter of `get_device_by_pci_bus_id`
abbrev pub is_asked : Option ℕ → ℕ → Bool
is_asked none own = true
is_asked (some vendor) own = own == vendor

module _ {S : Type 0} (files : Files S) where
  -- The name that a link leads to; one that leads to no name is a panic.
  abbrev pub linked : Result IoError FilePath → Result IoError (Option Bytes)
  linked (err e) = ok none
  linked (ok path) = do name ← ok_or (file_name path) panicked; ok (some name)

  abbrev driver_name : Option Bytes → Bytes
  driver_name none = []
  driver_name (some name) = name

  abbrev group_number : Option Bytes → ℤ
  group_number none = minus_one
  group_number (some name) = or_minus_one (parse_i64 name)

  abbrev node_number : Result IoError Bytes → ℤ
  node_number (err e) = minus_one
  node_number (ok text) = or_minus_one (parse_i64 (trim text))

  -- `fs::metadata(..).len() > PCI_CONFIG_SPACE_SZ`
  abbrev is_larger : Result IoError ℕ → Bool
  is_larger (ok n) = ltb pci_config_space_sz n
  is_larger (err e) = false

  unfoldable pub is_pcie_device : Bytes → Sysfs → S → Bool
  is_pcie_device bdf sysfs s = elim (device sysfs bdf) [
    | none ↦ false
    | some path ↦ is_larger (files.file_len (join path (codes "config")) s)
  ]

  unfoldable pub open_device :
      Machine S
      → (FilePath → S → Result IoError ℕ)
      → PciDevice
      → Process S
      → Result IoError PciDev × Process S
  unfolding open_in
  open_device machine map_bar0 dev p = open_in files machine map_bar0 dev.sysfs dev.address p

  module _ (database : Ids.Database) (sysfs : Sysfs) where
    -- What is read of a device of the vendor that is asked for.
    unfoldable pub read_identified : Bytes → ℕ → S → Result IoError PciDevice
    unfolding parse_attr parse_i64 file_name
    read_identified address vendor s =
        let path = join (devices sysfs) address in
        do
          class_str ← files.read_to_string (join path (codes "class")) s
          class_id ← ok_or (parse_attr u32_max class_str) panicked
          device_str ← files.read_to_string (join path (codes "device")) s
          device_id ← ok_or (parse_attr u16_max device_str) panicked
          driver ← linked (files.read_link (join path (codes "driver")) s)
          group ← linked (files.read_link (join path (codes "iommu_group")) s)
          ok (record {
            device_path = path;
            address = address;
            vendor = vendor;
            class = class_id;
            class_name = class_name_of (Ids.class_from_id database (class_id / 2 ^ 16 % 2 ^ 8));
            device = device_id;
            device_name = device_name_of (Ids.from_vid_pid database vendor device_id);
            driver = driver_name driver;
            iommu_group = group_number group;
            numa_node = node_number (files.read_to_string (join path (codes "numa_node")) s);
            sysfs = sysfs;
          })

    abbrev pub read_asked : Bytes → Option ℕ → ℕ → S → Result IoError (Option PciDevice)
    read_asked address vendor vendor_id s =
        if is_asked vendor vendor_id
        then (read_identified address vendor_id s >>= λ dev. ok (some dev))
        else ok none

    -- What `get_device_by_pci_bus_id` does on a miss, less the insertion.
    unfoldable pub read_device : Bytes → Option ℕ → S → Result IoError (Option PciDevice)
    unfolding read_identified
    read_device address vendor s = do
      vendor_str ← files.read_to_string (join (join (devices sysfs) address) (codes "vendor")) s
      vendor_id ← ok_or (parse_attr u16_max vendor_str) invalid_data
      read_asked address vendor vendor_id s

    abbrev pub insert_read :
        Bytes
        → Cache
        → Result IoError (Option PciDevice)
        → Result IoError (Option PciDevice) × Cache
    insert_read address cache (ok (some dev)) = (ok (some dev), (address, dev) ∷ cache)
    insert_read address cache (ok none) = (ok none, cache)
    insert_read address cache (err e) = (err e, cache)

    abbrev pub get_cached :
        Bytes → Option ℕ → Cache → S → Option PciDevice → Result IoError (Option PciDevice) × Cache
    get_cached address vendor cache s (some dev) = (ok (some dev), cache)
    get_cached address vendor cache s none =
        insert_read address cache (read_device address vendor s)

    abbrev pub get_named :
        Option ℕ → Cache → S → Option Bytes → Result IoError (Option PciDevice) × Cache
    get_named vendor cache s none = (err invalid_input, cache)
    get_named vendor cache s (some address) =
        get_cached address vendor cache s (cache_get address cache)

    unfoldable pub get_device_by_pci_bus_id :
        Bytes → Option ℕ → Cache → S → Result IoError (Option PciDevice) × Cache
    unfolding read_device cache_get
    get_device_by_pci_bus_id address vendor cache s =
        get_named vendor cache s (normalize_bdf address)

    -- `if let Ok(Some(dev))`: an error is passed over, but not a panic.
    abbrev pub push_found :
        Result IoError (Option PciDevice)
        → Result IoError (List PciDevice)
        → Result IoError (List PciDevice)
    push_found (ok (some dev)) rest = do devs ← rest; ok (dev ∷ devs)
    push_found (ok none) rest = rest
    push_found (err panicked) rest = err panicked
    push_found (err _) rest = rest

    -- The loop of `get_all_devices`.
    unfoldable pub collect_devices :
        List (Result IoError Bytes) → Option ℕ → Cache → S → Result IoError (List PciDevice)
    unfolding get_device_by_pci_bus_id
    collect_devices [] vendor cache s = ok []
    collect_devices (err e ∷ entries) vendor cache s = err e
    collect_devices (ok name ∷ entries) vendor cache s =
        let found = get_device_by_pci_bus_id name vendor cache s in
        push_found found.0 (collect_devices entries vendor found.1 s)

    unfoldable pub get_all_devices : Option ℕ → S → Result IoError (List PciDevice)
    unfolding collect_devices sort_by address_to_id
    get_all_devices vendor s = do
      entries ← files.read_dir (devices sysfs) s
      found ← collect_devices entries vendor [] s
      ok (sort_by (by_key (λ (dev : PciDevice). address_to_id dev.address)) found)
