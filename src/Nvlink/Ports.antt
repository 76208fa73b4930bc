-- ===== src/Nvlink/Ports.antt =====
-- src/nvlink.rs: the management ports among the InfiniBand devices. The file system is a
-- parameter.
pub mod Eligible
mod Tests
pub mod Order
use pcilibs_rs.Prelude.{
  ℕ, ◌+◌, ◌*◌, ◌%◌, ◌^◌, bit_and, Bool, true, false, not, ◌&&◌, ◌||◌, ◌==◌, ltb, any, if◌then◌else◌,
  Option, none, some, List, [], ◌∷◌, ◌++◌, Result, ok, err, ◌>>=◌, ok_or,
}
use pcilibs_rs.Text.{Bytes, codes, equal, trim}
use pcilibs_rs.Text.Decimal.{parse_unsigned}
use pcilibs_rs.Text.Ipv6.{parse_ipv6}
use pcilibs_rs.Sort.{sort_by, text_le}
use pcilibs_rs.Bdf.{normalize_bdf}
use pcilibs_rs.Sysfs.{Sysfs, FilePath, join, infiniband}
use pcilibs_rs.Files.{Files, IoError, not_found, invalid_data, file_name}
use pcilibs_rs.PciDev.Attributes.{attr_hex, u32_max}
use pcilibs_rs.Nvlink.Fabric.{ManagementFunction}
use pcilibs_rs.Platform.Discovery.{Topology, discover_topology}

abbrev pub is_sm_disabled : ℕ
is_sm_disabled = 2 ^ 10

pub record ManagementPort : Type 0 where
  pub pci_bdf : Bytes
  pub ib_device : Bytes
  pub port : ℕ
  pub guid : ℕ

-- By address, then by number, then by name.
unfoldable pub port_le : ManagementPort → ManagementPort → Bool
unfolding equal text_le
port_le a b =
    not (text_le b.pci_bdf a.pci_bdf)
    || equal a.pci_bdf b.pci_bdf
      && (ltb a.port b.port || a.port == b.port && text_le a.ib_device b.ib_device)

-- `n.parse::<u32>().ok().filter(|n| *n > 0)`
abbrev above_zero : Option ℕ → Option ℕ
above_zero none = none
above_zero (some n) = if n == 0 then none else some n

unfoldable pub port_number : Bytes → Option ℕ
unfolding parse_unsigned
port_number name = above_zero (parse_unsigned u32_max name)

-- `device.file_name().and_then(..).and_then(normalize_bdf)`
abbrev normalized : Option Bytes → Option Bytes
normalized none = none
normalized (some name) = normalize_bdf name

unfoldable pub link_address : FilePath → Option Bytes
unfolding file_name normalize_bdf
link_address device = normalized (file_name device)

abbrev pub is_managed : Topology → Bytes → Bool
is_managed topology bdf =
    any (λ (f : ManagementFunction). equal f.bdf bdf) topology.management_functions

module _ {S : Type 0} (files : Files S) (sysfs : Sysfs) where
  abbrev pub guid_of : ℕ → Result IoError (Option ℕ)
  guid_of gid = if gid % 2 ^ 64 == 0 then err invalid_data else ok (some (gid % 2 ^ 64))

  abbrev pub read_guid : FilePath → S → Result IoError (Option ℕ)
  read_guid path s = do
    text ← files.read_to_string (join path (codes "gids/0")) s
    gid ← ok_or (parse_ipv6 (trim text)) invalid_data
    guid_of gid

  unfoldable pub management_guid : FilePath → S → Result IoError (Option ℕ)
  unfolding trim equal attr_hex parse_ipv6
  management_guid path s = do
    layer ← files.read_to_string (join path (codes "link_layer")) s
    if not (equal (trim layer) (codes "InfiniBand")) then ok none else do
      mask ← attr_hex files path (codes "cap_mask") s
      if not (bit_and mask is_sm_disabled == 0) then ok none else read_guid path s

  abbrev pub device_path : Bytes → FilePath
  device_path name = join (infiniband sysfs) name

  abbrev pub port_path : Bytes → Bytes → FilePath
  port_path name port = join (join (device_path name) (codes "ports")) port

  abbrev pub push_port : Bytes → Bytes → ℕ → List ManagementPort → Option ℕ → List ManagementPort
  push_port name bdf number ports none = ports
  push_port name bdf number ports (some guid) =
      ports ++ record { pci_bdf = bdf; ib_device = name; port = number; guid = guid } ∷ []

  abbrev pub add_port :
      Bytes
      → Bytes
      → Bytes
      → Option ℕ
      → List ManagementPort
      → S
      → Result IoError (List ManagementPort)
  add_port name bdf port none ports s = ok ports
  add_port name bdf port (some number) ports s =
      management_guid (port_path name port) s >>= λ guid. ok (push_port name bdf number ports guid)

  -- The ports of one device.
  unfoldable pub read_ports :
      Bytes
      → Bytes
      → List (Result IoError Bytes)
      → List ManagementPort
      → S
      → Result IoError (List ManagementPort)
  unfolding port_number management_guid
  read_ports name bdf [] ports s = ok ports
  read_ports name bdf (err e ∷ entries) ports s = err e
  read_ports name bdf (ok port ∷ entries) ports s =
      add_port name bdf port (port_number port) ports s >>= λ more.
      read_ports name bdf entries more s

  abbrev pub with_address :
      Topology
      → Bytes
      → Option Bytes
      → List ManagementPort
      → S
      → Result IoError (List ManagementPort)
  with_address topology name none ports s = ok ports
  with_address topology name (some bdf) ports s =
      if is_managed topology bdf
      then (files.read_dir (join (device_path name) (codes "ports")) s >>= λ entries.
          read_ports name bdf entries ports s)
      else ok ports

  abbrev pub with_link :
      Topology
      → Bytes
      → Result IoError FilePath
      → List ManagementPort
      → S
      → Result IoError (List ManagementPort)
  with_link topology name (ok device) ports s =
      with_address topology name (link_address device) ports s
  with_link topology name (err not_found) ports s = ok ports
  with_link topology name (err e) ports s = err e

  -- The loop over the InfiniBand devices.
  unfoldable pub read_devices :
      Topology
      → List (Result IoError Bytes)
      → List ManagementPort
      → S
      → Result IoError (List ManagementPort)
  unfolding link_address read_ports
  read_devices topology [] ports s = ok ports
  read_devices topology (err e ∷ entries) ports s = err e
  read_devices topology (ok name ∷ entries) ports s =
      with_link topology name (files.read_link (join (device_path name) (codes "device")) s) ports s
      >>= λ more. read_devices topology entries more s

  unfoldable pub discover_management_ports : S → Result IoError (List ManagementPort)
  unfolding discover_topology read_devices sort_by port_le
  discover_management_ports s = do
    topology ← discover_topology files sysfs s
    entries ← files.read_dir (infiniband sysfs) s
    ports ← read_devices topology entries [] s
    ok (sort_by port_le ports)
