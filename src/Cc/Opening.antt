-- ===== src/Cc/Opening.antt =====
-- src/cc/mod.rs: finding GPUs, opening GPUs and switches under a sysfs, and resetting them. A device
-- that does not pass its checks is dropped, also where a panic unwinds.
pub mod Claims
pub mod Discovery
mod Tests
use pcilibs_rs.Prelude.{
  ℕ, ◌/◌, ◌%◌, Bool, ◌&&◌, ◌||◌, ◌==◌, ltb, Option, none, some, List, [], ◌∷◌, if◌then◌else◌,
  Result, ok, err, ◌>>=◌, ◌>>◌, ok_or, map_err, ensure,
}
use pcilibs_rs.Text.{Bytes, codes}
use pcilibs_rs.Sort.{sort_by, text_le}
use pcilibs_rs.Bdf.{normalize_bdf}
use pcilibs_rs.Sysfs.{Sysfs, FilePath, join, device, devices}
use pcilibs_rs.Files.{Files, IoError}
use pcilibs_rs.Device.{Failure, Machine}
use pcilibs_rs.PciDev.Attributes.{attr_hex, u16_max}
use pcilibs_rs.PciDev.Handle.{PciDev, Process, open_in, close, sysfs_reset}
use pcilibs_rs.Catalog.Records.{attachment_eq, coherent}
use pcilibs_rs.Catalog.Validate.{Fault}
use pcilibs_rs.Catalog.Snapshot.{Catalog, lookup}
use pcilibs_rs.Gpu as Profiles
use pcilibs_rs.Gpu.{chip_for, is_c2c, properties}
use pcilibs_rs.Gpu.Chips.{Chip}
use pcilibs_rs.Cc.Operations.{
  Gpu, Switch, finish_open, open_switch, wait_for_boot, wait_for_scratch,
}

pub data CcError : Type 0 where
  io : IoError → CcError
  stopped : Failure → CcError
  panicked invalid_address not_nvidia not_capable not_gpu wide_id not_listed unsupported_profile
        changed :
      CcError

pub record OpenGpu : Type 0 where
  pub pci : PciDev
  pub gpu : Gpu

pub record OpenSwitch : Type 0 where
  pub pci : PciDev
  pub switch : Switch

abbrev pub nvidia : ℕ
nvidia = 0x10de

module _ {S : Type 0} (files : Files S) (machine : Machine S)
    (map_bar0 : FilePath → S → Result IoError ℕ) where
  -- The handle is dropped behind a failure.
  abbrev pub dropped : {A : Type 0} → PciDev → CcError → Process S → Result CcError A × Process S
  dropped pci e p = (err e, close files machine map_bar0 pci p)

  -- A device that is open acts on the kernel's state, and is kept or dropped.
  abbrev pub kept :
      {A B : Type 0}
      → PciDev
      → (A → B)
      → List FilePath
      → Result Failure A × S
      → Result CcError B × Process S
  kept pci f held (ok a, s) = (ok (f a), record { held = held; kernel = s })
  kept pci f held (err e, s) = dropped pci (stopped e) (record { held = held; kernel = s })

  abbrev pub finish : PciDev → Chip → Bool → Process S → Result CcError OpenGpu × Process S
  finish pci chip c2c p =
      kept pci (λ g. record { pci = pci; gpu = g }) p.held
        (finish_open machine (record { chip = chip; c2c = c2c }) p.kernel)

  abbrev pub check_opened :
      {A : Type 0}
      → (PciDev → Process S → Result CcError A × Process S)
      → Result IoError PciDev × Process S
      → Result CcError A × Process S
  check_opened check (ok pci, p) = check pci p
  check_opened check (err e, p) = (err (io e), p)

  module _ (builtin_text : Bytes) where
    abbrev pub with_c2c :
        PciDev → Chip → Result Fault Bool → Process S → Result CcError OpenGpu × Process S
    with_c2c pci chip (ok c2c) p = finish pci chip c2c p
    with_c2c pci chip (err _) p = dropped pci panicked p

    abbrev pub with_chip :
        PciDev → Result Fault (Option Chip) → Process S → Result CcError OpenGpu × Process S
    with_chip pci (ok (some chip)) p = with_c2c pci chip (is_c2c builtin_text pci.device) p
    with_chip pci (ok none) p = dropped pci not_capable p
    with_chip pci (err _) p = dropped pci panicked p

    abbrev pub check_gpu : PciDev → Process S → Result CcError OpenGpu × Process S
    check_gpu pci p =
        if pci.vendor == nvidia
        then with_chip pci (chip_for builtin_text pci.device) p
        else dropped pci not_nvidia p

    -- `Gpu::open_in`
    unfoldable pub open_gpu : Sysfs → Bytes → Process S → Result CcError OpenGpu × Process S
    unfolding open_in close finish_open chip_for is_c2c
    open_gpu sysfs bdf p = check_opened check_gpu (open_in files machine map_bar0 sysfs bdf p)

    -- What a catalog says of the device, before it is touched: its ID and its profile.
    abbrev pub read_id : FilePath → Bytes → S → Result CcError ℕ
    read_id path name s = do
      n ← map_err io (attr_hex files path name s)
      (if ltb n u16_max then ok n else err wide_id)

    unfoldable pub listed : Sysfs → Bytes → Catalog → S → Result CcError (ℕ × Profiles.Properties)
    unfolding attr_hex lookup properties
    listed sysfs bdf catalog s = do
      path ← ok_or (device sysfs bdf) invalid_address
      vendor ← map_err io (attr_hex files path (codes "vendor") s)
      ensure (vendor == nvidia) not_nvidia
      class ← map_err io (attr_hex files path (codes "class") s)
      ensure (class / 256 == 0x0300 || class / 256 == 0x0302) not_gpu
      id ← read_id path (codes "device") s
      subsystem ← read_id path (codes "subsystem_device") s
      subvendor ← read_id path (codes "subsystem_vendor") s
      found ←
          map_err (λ _. panicked)
            (lookup builtin_text catalog (record {
              vendor = nvidia;
              device = id;
              subsystem_vendor = subvendor;
              subsystem_device = subsystem;
            }))
      entry ← ok_or found not_listed
      profile ← ok_or (properties nvidia id entry) unsupported_profile
      ok (id, profile)

    -- The identity is checked again: the device may have changed.
    abbrev pub check_listed :
        ℕ × Profiles.Properties → PciDev → Process S → Result CcError OpenGpu × Process S
    check_listed (id, profile) pci p =
        if pci.vendor == nvidia && pci.device == id
        then finish pci profile.chip (attachment_eq profile.attachment coherent) p
        else dropped pci changed p

    abbrev pub open_listed :
        Sysfs
        → Bytes
        → Result CcError (ℕ × Profiles.Properties)
        → Process S
        → Result CcError OpenGpu × Process S
    open_listed sysfs bdf (err e) p = (err e, p)
    open_listed sysfs bdf (ok known) p =
        check_opened (check_listed known) (open_in files machine map_bar0 sysfs bdf p)

    -- `Gpu::open_in_with_catalog`
    unfoldable pub open_gpu_with_catalog :
        Sysfs → Bytes → Catalog → Process S → Result CcError OpenGpu × Process S
    unfolding open_in close finish_open listed
    open_gpu_with_catalog sysfs bdf catalog p =
        open_listed sysfs bdf (listed sysfs bdf catalog p.kernel) p

  abbrev pub check_switch : PciDev → Process S → Result CcError OpenSwitch × Process S
  check_switch pci p =
      if pci.vendor == nvidia
      then kept pci (λ w. record { pci = pci; switch = w }) p.held (open_switch machine p.kernel)
      else dropped pci not_nvidia p

  -- `NvSwitch::open_in`
  unfoldable pub open_nv_switch : Sysfs → Bytes → Process S → Result CcError OpenSwitch × Process S
  unfolding open_in close open_switch
  open_nv_switch sysfs bdf p =
      check_opened check_switch (open_in files machine map_bar0 sysfs bdf p)

  abbrev pub after_reset :
      (S → Result Failure (Unit {0}) × S)
      → Result IoError (Unit {0}) × Process S
      → Result CcError (Unit {0}) × Process S
  after_reset wait (err e, p) = (err (io e), p)
  after_reset wait (ok _, p) =
      let r = wait p.kernel in (map_err stopped r.0, record { held = p.held; kernel = r.1 })

  unfoldable pub reset_gpu : OpenGpu → Process S → Result CcError (Unit {0}) × Process S
  unfolding sysfs_reset wait_for_boot
  reset_gpu g p =
      after_reset (wait_for_boot machine g.gpu) (sysfs_reset files machine map_bar0 g.pci p)

  unfoldable pub reset_switch : OpenSwitch → Process S → Result CcError (Unit {0}) × Process S
  unfolding sysfs_reset wait_for_scratch
  reset_switch w p =
      after_reset (wait_for_scratch machine w.switch.boot_complete)
        (sysfs_reset files machine map_bar0 w.pci p)
