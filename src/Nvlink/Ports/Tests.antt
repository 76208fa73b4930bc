-- ===== src/Nvlink/Ports/Tests.antt =====
-- A management function with an InfiniBand device, and the theorems at it.
use pcilibs_rs.Prelude.{
  Bool, true, none, some, List, [], ◌∷◌, All, Result, ok, err, if◌then◌else◌, ◌≡◌, refl,
}
use pcilibs_rs.Text.{Bytes, codes, equal, trim, split, split_once}
use pcilibs_rs.Text.Hex.{digit, from_str_radix, padded, hex_char}
use pcilibs_rs.Text.Decimal
use pcilibs_rs.Text.Decimal.{parse_unsigned}
use pcilibs_rs.Text.Ipv6.{parse_ipv6}
use pcilibs_rs.Sort.{insert, sort_by, text_le}
use pcilibs_rs.Bdf.{normalize_bdf}
use pcilibs_rs.Sysfs.{
  FilePath, default, join, devices, infiniband, needs_separator, components, pieces,
}
use pcilibs_rs.Files.{Files, IoError, no_files, not_found, file_name, last_name}
use pcilibs_rs.PciDev.Attributes.{attr_hex, parse_attr, without_0x}
use pcilibs_rs.Nvlink.Vpd.{vpd_sw_mng}
use pcilibs_rs.Nvlink.Fabric.{
  is_switch, slot, read_sw_mng, add_function, add_functions, in_slots, discover_fabric,
}
use pcilibs_rs.Nvlink.Tests.{marker}
use pcilibs_rs.Platform.Discovery.{Topology, read_functions, pci_functions, discover_topology}
use pcilibs_rs.Nvlink.Ports.{
  ManagementPort, port_le, port_number, link_address, management_guid, read_ports, read_devices,
  discover_management_ports,
}
use pcilibs_rs.Nvlink.Ports.Eligible.{IsEligible, discover_management_ports-IsEligible}

parse_ipv6-full :
    parse_ipv6 (codes "fe80:0000:0000:0000:0002:c903:00a1:b2c3")
    ≡ some 0xfe800000000000000002c90300a1b2c3
unfolding parse_ipv6 digit
parse_ipv6-full = refl

parse_ipv6-compressed :
    parse_ipv6 (codes "fe80::2:c903:a1:b2c3") ≡ some 0xfe800000000000000002c90300a1b2c3
unfolding parse_ipv6 digit
parse_ipv6-compressed = refl

parse_ipv6-embedded : parse_ipv6 (codes "::ffff:10.0.1.255") ≡ some 0xffff0a0001ff
unfolding parse_ipv6 digit
parse_ipv6-embedded = refl

parse_ipv6-short : parse_ipv6 (codes "fe80:0:0") ≡ none
unfolding parse_ipv6 digit
parse_ipv6-short = refl

abbrev text_of : FilePath → Result IoError Bytes
text_of path =
    if equal path (codes "/sys/bus/pci/devices/0000:06:00.0/vendor")
    then ok (codes "0x15b3\n")
    else if equal path (codes "/sys/bus/pci/devices/0000:06:00.0/class")
    then ok (codes "0x020700\n")
    else if equal path (codes "/sys/class/infiniband/mlx5_0/ports/1/link_layer")
    then ok (codes "InfiniBand\n")
    else if equal path (codes "/sys/class/infiniband/mlx5_0/ports/1/cap_mask")
    then ok (codes "0x2651e84a\n")
    else if equal path (codes "/sys/class/infiniband/mlx5_0/ports/1/gids/0")
    then ok (codes "fe80:0000:0000:0000:0002:c903:00a1:b2c3\n")
    else err not_found

abbrev names_in : FilePath → List (Result IoError Bytes)
names_in path =
    if equal path (codes "/sys/bus/pci/devices")
    then ok (codes "0000:06:00.0") ∷ []
    else if equal path (codes "/sys/class/infiniband")
    then ok (codes "mlx5_0") ∷ []
    else ok (codes "1") ∷ []

abbrev one_port : Files Bool
one_port = record (no_files (λ path text s. s)) {
  open_file = λ path s. ok tt;
  read_bytes = λ path s. ok marker;
  read_to_string = λ path s. text_of path;
  read_dir = λ path s. ok (names_in path);
  read_link = λ path s. ok (codes "../../../0000:06:00.0");
}

abbrev topology : Topology
topology = record {
  gpus = [];
  switches = [];
  management_functions = record { bdf = codes "0000:06:00.0"; sw_mng = true } ∷ [];
}

abbrev port : ManagementPort
port = record {
  pci_bdf = codes "0000:06:00.0";
  ib_device = codes "mlx5_0";
  port = 1;
  guid = 0x0002c90300a1b2c3;
}

discover-topology : discover_topology one_port default true ≡ ok topology
unfolding discover_topology pci_functions read_functions devices join needs_separator attr_hex
    parse_attr trim without_0x from_str_radix digit normalize_bdf split split_once hex_char padded
    discover_fabric add_functions add_function read_sw_mng in_slots slot is_switch vpd_sw_mng equal
    sort_by insert text_le
discover-topology = refl

discover-ports : discover_management_ports one_port default true ≡ ok (port ∷ [])
unfolding discover_management_ports discover_topology pci_functions read_functions devices join
    needs_separator attr_hex parse_attr trim without_0x from_str_radix digit normalize_bdf split
    split_once hex_char padded discover_fabric add_functions add_function read_sw_mng in_slots slot
    is_switch vpd_sw_mng equal sort_by insert text_le infiniband read_devices link_address file_name
    last_name components pieces read_ports port_number parse_unsigned management_guid parse_ipv6
    port_le Decimal.digit
discover-ports = refl

discover_management_ports-IsEligible_example :
    All (IsEligible one_port default topology true) (port ∷ [])
discover_management_ports-IsEligible_example =
    discover_management_ports-IsEligible one_port default true discover-topology discover-ports
