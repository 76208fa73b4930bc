-- ===== src/Platform/Discovery.antt =====
-- src/platform/linux.rs: the PCI functions of the node, its GPUs and its fabric, and the platform
-- that they establish. The file system is a parameter; so is the catalog that the build bundles.
pub mod Listing
pub mod Counted
mod Tests
use pcilibs_rs.Prelude.{
  ℕ, ◌/◌, Bool, true, false, ◌&&◌, ◌||◌, not, ◌==◌, ltb, Option, none, some, List, [], ◌∷◌, map,
  filter, is_empty, if◌then◌else◌, Result, ok, err, ◌>>=◌, map_err,
}
use pcilibs_rs.Text.{Bytes, codes}
use pcilibs_rs.Sort.{sort_by, text_le}
use pcilibs_rs.Bdf.{normalize_bdf}
use pcilibs_rs.Sysfs.{Sysfs, FilePath, join, devices}
use pcilibs_rs.Files.{Files, IoError, invalid_data, panicked}
use pcilibs_rs.PciDev.Attributes.{attr_hex, u16_max}
use pcilibs_rs.Nvlink.Fabric.{PciFunction, ManagementFunction, discover_fabric}
use pcilibs_rs.Catalog.Records.{PciIdentity}
use pcilibs_rs.Catalog.Snapshot.{Catalog, builtin}
use pcilibs_rs.Platform.{FabricInterface, Platform, from_presence, classify_with_catalog}

pub record GpuFunction : Type 0 where
  pub bdf : Bytes
  pub vendor : ℕ

pub record Topology : Type 0 where
  pub gpus : List GpuFunction
  pub switches : List Bytes
  pub management_functions : List ManagementFunction

pub record DetectedPlatform : Type 0 where
  pub topology : Topology
  pub platform : Platform

-- `vendor.is_none() || vendor == Some(own)`
abbrev pub is_of : Option ℕ → ℕ → Bool
is_of none own = true
is_of (some vendor) own = vendor == own

abbrev pub gpus_by_vendor : Topology → Option ℕ → List GpuFunction
gpus_by_vendor t vendor = filter (λ (gpu : GpuFunction). is_of vendor gpu.vendor) t.gpus

unfoldable pub fabric_interface : Topology → FabricInterface
fabric_interface t =
    from_presence (not (is_empty t.switches)) (not (is_empty t.management_functions))

abbrev pub by_bdf : PciFunction → PciFunction → Bool
by_bdf a b = text_le a.bdf b.bdf

abbrev pub is_gpu : Option ℕ → PciFunction → Bool
is_gpu vendor f = is_of vendor f.vendor && (f.class / 256 == 0x0300 || f.class / 256 == 0x0302)

abbrev pub gpu_function : PciFunction → GpuFunction
gpu_function f = record { bdf = f.bdf; vendor = f.vendor }

module _ {S : Type 0} (files : Files S) (sysfs : Sysfs) where
  abbrev pub pci_function : Bytes → S → Result IoError PciFunction
  pci_function bdf s = do
    vendor ← attr_hex files (join (devices sysfs) bdf) (codes "vendor") s
    class ← attr_hex files (join (devices sysfs) bdf) (codes "class") s
    ok (record { bdf = bdf; vendor = vendor; class = class })

  abbrev pub next_function :
      Option Bytes → Result IoError (List PciFunction) → S → Result IoError (List PciFunction)
  next_function none rest s = rest
  next_function (some bdf) rest s = do f ← pci_function bdf s; fs ← rest; ok (f ∷ fs)

  -- The loop of `pci_functions`; a name that is no address is skipped.
  unfoldable pub read_functions :
      List (Result IoError Bytes) → S → Result IoError (List PciFunction)
  unfolding attr_hex
  read_functions [] s = ok []
  read_functions (err e ∷ entries) s = err e
  read_functions (ok name ∷ entries) s =
      next_function (normalize_bdf name) (read_functions entries s) s

  unfoldable pub pci_functions : S → Result IoError (List PciFunction)
  unfolding read_functions sort_by text_le
  pci_functions s = do
    entries ← files.read_dir (devices sysfs) s
    functions ← read_functions entries s
    ok (sort_by by_bdf functions)

  unfoldable pub discover_gpus : Option ℕ → S → Result IoError (List Bytes)
  unfolding pci_functions
  discover_gpus vendor s = do
    functions ← pci_functions s
    ok (map (λ (f : PciFunction). f.bdf) (filter (is_gpu vendor) functions))

  unfoldable pub discover_topology : S → Result IoError Topology
  unfolding pci_functions discover_fabric
  discover_topology s = do
    functions ← pci_functions s
    fabric ← discover_fabric files sysfs functions s
    ok (record {
      gpus = map gpu_function (filter (is_gpu none) functions);
      switches = fabric.0;
      management_functions = fabric.1;
    })

  -- `u16::try_from(attr_hex(..)?)`
  abbrev pub narrow : ℕ → Result IoError ℕ
  narrow n = if ltb n u16_max then ok n else err invalid_data

  unfoldable pub read_id : FilePath → Bytes → S → Result IoError ℕ
  unfolding attr_hex
  read_id path name s = attr_hex files path name s >>= narrow

  unfoldable pub gpu_identity : GpuFunction → S → Result IoError PciIdentity
  unfolding read_id
  gpu_identity gpu s = do
    vendor ← read_id (join (devices sysfs) gpu.bdf) (codes "vendor") s
    device ← read_id (join (devices sysfs) gpu.bdf) (codes "device") s
    subsystem_vendor ← read_id (join (devices sysfs) gpu.bdf) (codes "subsystem_vendor") s
    subsystem_device ← read_id (join (devices sysfs) gpu.bdf) (codes "subsystem_device") s
    ok (record {
      vendor = vendor;
      device = device;
      subsystem_vendor = subsystem_vendor;
      subsystem_device = subsystem_device;
    })

  unfoldable pub gpu_identities : List GpuFunction → S → Result IoError (List PciIdentity)
  unfolding gpu_identity
  gpu_identities [] s = ok []
  gpu_identities (gpu ∷ gpus) s = do
    identity ← gpu_identity gpu s
    identities ← gpu_identities gpus s
    ok (identity ∷ identities)

  module _ (builtin_text : Bytes) where
    unfoldable pub discover_with_catalog : Catalog → S → Result IoError DetectedPlatform
    unfolding discover_topology gpu_identities classify_with_catalog fabric_interface
    discover_with_catalog catalog s = do
      topology ← discover_topology s
      gpus ← gpu_identities topology.gpus s
      platform ←
          map_err (λ _. panicked)
            (classify_with_catalog builtin_text gpus (fabric_interface topology) catalog)
      ok (record { topology = topology; platform = platform })

    unfoldable pub discover : S → Result IoError DetectedPlatform
    unfolding discover_with_catalog
    discover s = discover_with_catalog (builtin builtin_text) s
