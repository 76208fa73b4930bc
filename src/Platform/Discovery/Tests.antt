-- ===== src/Platform/Discovery/Tests.antt =====
-- Two display functions, of two vendors, and the theorems at them.
use mathlib.Core.List.{Permᴰ}
use pcilibs_rs.Prelude.{some, [], ◌∷◌, map, length, All, ◌≡◌, refl, ok}
use pcilibs_rs.Text.{codes, equal, trim, split, split_once}
use pcilibs_rs.Text.Hex.{digit, digits, unsigned, from_str_radix, hex_char, padded}
use pcilibs_rs.Sort.{insert, sort_by, text_le}
use pcilibs_rs.Sort.Laws.{Ascending}
use pcilibs_rs.Bdf.{function_hex, render, parse_address, from_fields, normalize_bdf}
use pcilibs_rs.Sysfs.{default, needs_separator, join, bus_pci, devices}
use pcilibs_rs.Files.{Files}
use pcilibs_rs.Files.Fixed.{fixed, text_at}
use pcilibs_rs.PciDev.Attributes.{attr_hex, parse_attr, without_0x}
use pcilibs_rs.Nvlink.Fabric.{
  PciFunction, is_switch, add_function, add_functions, in_slots, discover_fabric,
}
use pcilibs_rs.Catalog.Tests.{bundled, added, extended, validate-bundled, parse-added}
use pcilibs_rs.Platform.{Kind, absent, from_presence, classify_with_catalog}
use pcilibs_rs.Catalog.Records.{matches}
use pcilibs_rs.Catalog.Parser.{parse_entry, record_lines}
use pcilibs_rs.Catalog.Snapshot.{lookup, lookup_lines, builtin}
use pcilibs_rs.Gpu
use pcilibs_rs.Gpu.Chips.{chip_for_range}
use pcilibs_rs.Platform.Discovery.{
  Topology, DetectedPlatform, fabric_interface, by_bdf, read_functions, pci_functions,
  discover_gpus, discover_topology, read_id, gpu_identity, gpu_identities, discover_with_catalog,
}
use pcilibs_rs.Platform.Discovery.Listing.{
  bdf_of, addresses, IsRead, discover_gpus-gpus_by_vendor, pci_functions-addresses,
}
use pcilibs_rs.Platform.Discovery.Counted.{discover_with_catalog-topology}

abbrev node : Files (Unit {0})
node = fixed (codes "0000:65:00.0" ∷ codes "0000:03:00.0" ∷ codes "power" ∷ []) (
    (codes "/sys/bus/pci/devices/0000:65:00.0/vendor", codes "0x10de\n")
    ∷ (codes "/sys/bus/pci/devices/0000:65:00.0/class", codes "0x030200\n")
    ∷ (codes "/sys/bus/pci/devices/0000:03:00.0/vendor", codes "0x1002\n")
    ∷ (codes "/sys/bus/pci/devices/0000:65:00.0/device", codes "0x2330\n")
    ∷ (codes "/sys/bus/pci/devices/0000:65:00.0/subsystem_vendor", codes "0x10de\n")
    ∷ (codes "/sys/bus/pci/devices/0000:65:00.0/subsystem_device", codes "0x16c0\n")
    ∷ (codes "/sys/bus/pci/devices/0000:03:00.0/class", codes "0x030000\n")
    ∷ (codes "/sys/bus/pci/devices/0000:03:00.0/device", codes "0x2330\n")
    ∷ (codes "/sys/bus/pci/devices/0000:03:00.0/subsystem_vendor", codes "0x1002\n")
    ∷ (codes "/sys/bus/pci/devices/0000:03:00.0/subsystem_device", codes "0x16c0\n")
    ∷ [])

abbrev radeon : PciFunction
radeon = record { bdf = codes "0000:03:00.0"; vendor = 0x1002; class = 0x030000 }

abbrev h100 : PciFunction
h100 = record { bdf = codes "0000:65:00.0"; vendor = 0x10de; class = 0x030200 }

abbrev shown : Topology
shown = record {
  gpus =
      record { bdf = codes "0000:03:00.0"; vendor = 0x1002 }
      ∷ record { bdf = codes "0000:65:00.0"; vendor = 0x10de }
      ∷ [];
  switches = [];
  management_functions = [];
}

pci_functions-node : pci_functions node default tt ≡ ok (radeon ∷ h100 ∷ [])
unfolding pci_functions read_functions sort_by insert text_le attr_hex parse_attr without_0x text_at
    equal trim split split_once normalize_bdf from_fields parse_address render function_hex padded
    hex_char from_str_radix unsigned digits digit devices bus_pci join needs_separator
pci_functions-node = refl

discover_topology-node : discover_topology node default tt ≡ ok shown
unfolding discover_topology pci_functions read_functions sort_by insert text_le attr_hex parse_attr
    without_0x text_at equal trim split split_once normalize_bdf from_fields parse_address render
    function_hex padded hex_char from_str_radix unsigned digits digit devices bus_pci join
    needs_separator discover_fabric add_functions add_function is_switch in_slots
discover_topology-node = refl

discover_gpus-gpus_by_vendor_example :
    discover_gpus node default (some 0x10de) tt ≡ ok (codes "0000:65:00.0" ∷ [])
discover_gpus-gpus_by_vendor_example =
    discover_gpus-gpus_by_vendor node default (some 0x10de) tt discover_topology-node

pci_functions-addresses_example :
    Ascending by_bdf (radeon ∷ h100 ∷ [])
    × Permᴰ (map bdf_of (radeon ∷ h100 ∷ [])) (
        addresses (ok (codes "0000:65:00.0") ∷ ok (codes "0000:03:00.0") ∷ ok (codes "power") ∷ []))
    × All (IsRead node default tt) (radeon ∷ h100 ∷ [])
pci_functions-addresses_example = pci_functions-addresses node default tt refl pci_functions-node

abbrev detected : DetectedPlatform
detected = record {
  topology = shown;
  platform = record { kind = Kind.unknown; fabric = absent; gpu_count = 2 };
}

discover_with_catalog-node : discover_with_catalog node default bundled extended tt ≡ ok detected
unfolding discover_with_catalog gpu_identities gpu_identity read_id discover_topology pci_functions
    read_functions sort_by insert text_le attr_hex parse_attr without_0x text_at equal trim split
    split_once normalize_bdf from_fields parse_address render function_hex padded hex_char
    from_str_radix unsigned digits digit devices bus_pci join needs_separator discover_fabric
    add_functions add_function is_switch in_slots fabric_interface from_presence
    classify_with_catalog lookup builtin lookup_lines parse_entry record_lines matches
    Gpu.properties chip_for_range
discover_with_catalog-node = refl

discover_with_catalog-topology_example :
    (detected.platform.gpu_count ≡ length detected.topology.gpus)
    × (detected.platform.fabric ≡ fabric_interface detected.topology)
discover_with_catalog-topology_example =
    discover_with_catalog-topology node default bundled added tt validate-bundled parse-added
      discover_with_catalog-node
