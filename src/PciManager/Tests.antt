-- ===== src/PciManager/Tests.antt =====
-- A node with two devices, one of them cached before, and the theorems at them.
use pcilibs_rs.Prelude.{none, some, List, [], ◌∷◌, ◌≡◌, refl, ok, ◌>>=◌}
use pcilibs_rs.Text.{codes, equal, trim, split, split_once, strip_prefix}
use pcilibs_rs.Text.Hex.{digit, digits, unsigned, is_hexdigit, padded, hex_char, from_str_radix}
use pcilibs_rs.Text.Decimal
use pcilibs_rs.Text.Decimal.{pos, negsuc}
use pcilibs_rs.Sort.{sort_by, insert, by_key}
use pcilibs_rs.Bdf.{normalize_bdf, parse_address, from_fields, render, function_hex}
use pcilibs_rs.Bdf.Canonical.{Address}
use pcilibs_rs.Sysfs.{default, needs_separator, join, bus_pci, devices}
use pcilibs_rs.Files.{Files}
use pcilibs_rs.Files.Fixed.{fixed, text_at}
use pcilibs_rs.PciDev.Attributes.{parse_attr, without_0x}
use pcilibs_rs.PciIds as Ids
use pcilibs_rs.PciIds.Tests.{small}
use pcilibs_rs.PciManager.{
  PciDevice, Cache, cache_get, address_to_id, collect_devices, read_identified, read_device,
  get_device_by_pci_bus_id, get_all_devices,
}
use pcilibs_rs.PciManager.Cached.{
  IsCoherent, Agrees, each_device, get_device_by_pci_bus_id-IsCoherent, get_all_devices-each_device,
}
use pcilibs_rs.PciManager.Addresses.{IsListed}
use pcilibs_rs.PciManager.Sorted.{get_all_devices-IsListed}

abbrev node : Files (Unit {0})
node = fixed (codes "0000:65:00.0" ∷ codes "0000:03:00.0" ∷ []) (
    (codes "/sys/bus/pci/devices/0000:65:00.0/vendor", codes "0x10de\n")
    ∷ (codes "/sys/bus/pci/devices/0000:65:00.0/class", codes "0x030200\n")
    ∷ (codes "/sys/bus/pci/devices/0000:65:00.0/device", codes "0x2330\n")
    ∷ (codes "/sys/bus/pci/devices/0000:65:00.0/numa_node", codes "1\n")
    ∷ [])

abbrev h100 : PciDevice
h100 = record {
  device_path = codes "/sys/bus/pci/devices/0000:65:00.0";
  address = codes "0000:65:00.0";
  vendor = 0x10de;
  class = 0x030200;
  class_name = codes "UNKNOWN_CLASS";
  device = 0x2330;
  device_name = codes "GH100 [H100 SXM5 80GB]";
  driver = [];
  iommu_group = negsuc 0;
  numa_node = pos 1;
  sysfs = default;
}

abbrev cached : Cache
cached = (codes "0000:65:00.0", h100) ∷ []

read_device-h100 :
    read_device node small default (codes "0000:65:00.0") (some 0x10de) tt ≡ ok (some h100)
unfolding read_device read_identified parse_attr without_0x trim text_at equal from_str_radix
    unsigned digits digit devices bus_pci join needs_separator Decimal.parse_i64
    Decimal.parse_unsigned Decimal.magnitude Decimal.digits Decimal.digit Ids.class_from_id
    Ids.from_vid_pid Ids.get Ids.find Ids.vendor_from_id
read_device-h100 = refl

cached-IsCoherent : IsCoherent node small default (some 0x10de) tt cached
cached-IsCoherent = (read_device-h100, tt)

get_device_by_pci_bus_id-IsCoherent_example :
    Agrees node small default
      (some 0x10de)
      tt
      (get_device_by_pci_bus_id node small default (codes "65:00.0") (some 0x10de) cached tt)
      (get_device_by_pci_bus_id node small default (codes "65:00.0") (some 0x10de) [] tt).0
get_device_by_pci_bus_id-IsCoherent_example =
    get_device_by_pci_bus_id-IsCoherent node small default (some 0x10de) tt (codes "65:00.0") cached
      cached-IsCoherent

get_all_devices-each_device_example : get_all_devices node small default none tt ≡ (
    each_device node small default none tt
      (ok (codes "0000:65:00.0") ∷ ok (codes "0000:03:00.0") ∷ [])
    >>= λ found. ok (sort_by (by_key (λ (dev : PciDevice). address_to_id dev.address)) found))
get_all_devices-each_device_example = get_all_devices-each_device node small default none tt

-- Two devices, the second one first in the directory.
abbrev pair : Files (Unit {0})
pair = fixed (codes "0000:65:00.0" ∷ codes "0000:03:00.0" ∷ []) (
    (codes "/sys/bus/pci/devices/0000:65:00.0/vendor", codes "0x10de\n")
    ∷ (codes "/sys/bus/pci/devices/0000:65:00.0/class", codes "0x030200\n")
    ∷ (codes "/sys/bus/pci/devices/0000:65:00.0/device", codes "0x2330\n")
    ∷ (codes "/sys/bus/pci/devices/0000:65:00.0/numa_node", codes "1\n")
    ∷ (codes "/sys/bus/pci/devices/0000:03:00.0/vendor", codes "0x10de\n")
    ∷ (codes "/sys/bus/pci/devices/0000:03:00.0/class", codes "0x030200\n")
    ∷ (codes "/sys/bus/pci/devices/0000:03:00.0/device", codes "0x2330\n")
    ∷ (codes "/sys/bus/pci/devices/0000:03:00.0/numa_node", codes "1\n")
    ∷ [])

abbrev first : PciDevice
first = record h100 {
  device_path = codes "/sys/bus/pci/devices/0000:03:00.0";
  address = codes "0000:03:00.0";
}

get_all_devices-pair : get_all_devices pair small default none tt ≡ ok (first ∷ h100 ∷ [])
unfolding get_all_devices collect_devices get_device_by_pci_bus_id cache_get normalize_bdf
    parse_address from_fields render function_hex padded hex_char is_hexdigit split split_once
    strip_prefix sort_by insert address_to_id read_device read_identified parse_attr without_0x trim
    text_at equal from_str_radix unsigned digits digit devices bus_pci join needs_separator
    Decimal.parse_i64 Decimal.parse_unsigned Decimal.magnitude Decimal.digits Decimal.digit
    Ids.class_from_id Ids.from_vid_pid Ids.get Ids.find Ids.vendor_from_id
get_all_devices-pair = refl

get_all_devices-IsListed_example :
    (addresses : List Address) × IsListed (first ∷ h100 ∷ []) addresses
get_all_devices-IsListed_example =
    get_all_devices-IsListed pair small default none tt (first ∷ h100 ∷ []) get_all_devices-pair
      (refl, (refl, tt))
