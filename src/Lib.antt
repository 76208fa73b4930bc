-- ===== src/Lib.antt =====
-- Verification of pcilibs-rs: PCI device catalogs, GPU platform classification, sysfs paths,
-- confidential computing control, live devices, discovery and VFIO binding.
--
-- The parts of the program and where they are modelled (paths from the repository's root):
--
-- * Catalogs. `Catalog.Records` has the data of src/catalog/records.rs (`Entry`, `PciIdentity`,
--   `matches`, `overlaps`, `key`); `Catalog.Parser` is `parse_entry` with `lines`, `hex_id` and
--   `subsystem_id`; `Catalog.Validate` is `validate`; `Catalog.Snapshot` is src/catalog.rs
--   (`Catalog::parse`, `lookup`, `may_be_coherent`); `Catalog.Input` is src/catalog/input.rs and
--   src/catalog/file.rs, which load catalogs over `Files`, and `Catalog.Discovery` is
--   src/catalog/linux.rs. A failed `expect` is an outcome, `panicked`.
--   The catalog that the build bundles is not in the repository: it is a parameter, and theorems
--   that need it assume that `validate` accepts it, which the build enforces.
-- * GPU profiles. `Gpu.Chips` is the table of src/gpu/chips.rs, `Gpu` is src/gpu.rs
--   (`properties`, `chip_for`, `attachment`), over a catalog.
-- * Platforms. `Platform` is the classifier of src/platform.rs, over GPU profiles.
-- * Addresses and paths. `Bdf` is `normalize_bdf` of src/linux.rs, `Sysfs` is src/sysfs.rs with
--   the joining and the components of paths as in Rust's standard library on Unix. Texts are
--   lists of bytes (`Text`, which also has the string operations of the standard library).
-- * InfiniBand. `Infiniband` is `snapshot_infiniband` of src/linux.rs, over `Files` and what the
--   package nix says of the metadata of a file.
-- * Registers. `Device` is what src/pci_dev.rs offers its clients: register reads and writes and
--   `poll`. A `Machine` is the device, its firmware and the clock, so it is a parameter: reading
--   a register may change its state. `Action` is code over it, which may fail and keeps the
--   state that it reached. Time is in nanoseconds.
-- * FSP messages. `Fsp.Packet` is the framing of src/cc/fsp.rs, `Fsp.Emem` and `Fsp.Mnoc` the two
--   mailboxes, `Fsp.Rpc` the commands (`prc_cmd`, `knob_read`, `knob_write`), `Fsp.Knobs` what
--   its clients see (`Channel`) and `knob_check_and_write`. `Fsp.Firmware` is the firmware that
--   the tests of src/cc/fsp.rs talk to (`fake`), as a `Machine`: `Served` and `Healthy` are about
--   firmware that works, `Faults` and `Refused` about firmware that is made to fail.
-- * Confidential computing. `Cc.Modes` has the modes of src/cc/mod.rs and their text, `Cc.Plan`
--   the knob writes of `set_cc_mode` and `apply_ppcie_plan` over a `Channel`, `Cc.Operations` the
--   operations of GPUs and switches over a `Machine`, `Cc.Opening` opening and resetting them over
--   `PciDev` (a device that fails is dropped), and its child `Discovery` finding them. `Cc.Store`
--   states what is relied on of the firmware's knobs (`IsStore`: a write is done or not, also when
--   it reports a failure, and a read tells the value written last) and a program logic over the
--   history of writes; `Cc.Order` and `Cc.Settled` prove the order of writes and their outcome.
--   `Fsp.Serving` is the RPC to firmware that works, as an interface; `Cc.Succeeds` runs the
--   operations over it, `Cc.Again` where the knobs say the mode already, and `Cc.Served` runs them
--   over `Fsp.Firmware`, which fills it.
-- * NVLink. `Nvlink.Ports` is `discover_management_ports` of src/nvlink.rs, with the parser of IPv6
--   addresses of the standard library in `Text.Ipv6`. `Nvlink.Vpd` is `vpd_sw_mng`, and its child
--   `Grammar` has the independent description of an image. `Nvlink.Fabric` is
--   `discover_fabric`, over `Files`.
-- * Live devices. `PciDev` is src/pci_dev.rs: `Switches` has the power policy and memory decoding
--   of a device, `Handle` the opening (`open_in`, `claimed`) and the drop (`close`) of a handle,
--   over the set of paths that the process holds open. `Decoded`, `Restore` and `Opened` follow
--   what is written, with `Effects.Hoare`; `Claims`, `Handles` and `Locks` follow the set, over
--   steps of the process. `Bar0` is the mapping of the registers and its checked accesses.
-- * Discovery. `Platform.Discovery` is src/platform/linux.rs, `Iommufd` is src/iommufd.rs, and
--   `PciManager` is src/pci_manager.rs with its cache; `PciIds` is src/pci_ids.rs over its two
--   tables, and `PciIds.Build` is build_support.rs, which generates them from the lines of a file
--   (`Parser` its parser, `Packages` what is relied on of nom and phf_codegen). `Sort` is the
--   standard library's stable sort and `Text.Decimal` its decimal numbers.
-- * VFIO. `Files` is what is asked of a file system, a parameter; `Vfio` is src/vfio.rs over it
--   (`Vfio.Modules` has `module_for`), and `Vfio.Outcome` the writes of each operation. `IsLogged`
--   states what is relied on: a write that fails is not done. Names in sysfs are taken to be ASCII.
--
-- Loops that are not structural run on fuel. `poll` gets two rounds more than the timeout has
-- milliseconds: each round sleeps for one. The loops of `vpd_sw_mng` get one round more than
-- there are bytes: each round takes one at least. That this is enough is proved. Where 32-bit
-- arithmetic wraps in the source, the remainder is written out.
--
-- Not modelled: what `mmap` does (a parameter) and unmapping, the text of the Rust code that the
-- build writes, the text of error messages, and the example, which only prints.
pub mod Prelude
pub mod Text
pub mod Bdf
pub mod Sysfs
pub mod Vfio
pub mod Catalog
pub mod Cc
pub mod Device
pub mod Effects
pub mod Fsp
pub mod Files
pub mod Gpu
pub mod Infiniband
pub mod Iommufd
pub mod Nvlink
pub mod PciDev
pub mod PciIds
pub mod PciManager
pub mod Platform
pub mod Sort
