-- ===== src/Cc/Opening/Discovery.antt =====
-- src/cc/mod.rs: the GPUs of the node that are capable of confidential computing, and opening all of
-- them, or all switches.
use pcilibs_rs.Prelude.{
  ℕ, ◌%◌, ◌==◌, Option, none, some, List, [], ◌∷◌, ◌++◌, if◌then◌else◌, Result, ok, err, ◌>>=◌,
  map_err,
}
use pcilibs_rs.Text.{Bytes, codes}
use pcilibs_rs.Sort.{sort_by, text_le}
use pcilibs_rs.Bdf.{normalize_bdf}
use pcilibs_rs.Sysfs.{Sysfs, FilePath, join, devices}
use pcilibs_rs.Files.{Files, IoError}
use pcilibs_rs.Device.{Machine}
use pcilibs_rs.PciDev.Attributes.{attr_hex, u16_max}
use pcilibs_rs.PciDev.Handle.{PciDev, Process, close}
use pcilibs_rs.Nvlink.Fabric.{switch_names}
use pcilibs_rs.Platform.Discovery.{pci_functions}
use pcilibs_rs.Catalog.Validate.{Fault}
use pcilibs_rs.Gpu.{chip_for}
use pcilibs_rs.Gpu.Chips.{Chip}
use pcilibs_rs.Cc.Opening.{
  CcError, panicked, io, OpenGpu, OpenSwitch, nvidia, open_gpu, open_nv_switch,
}

abbrev or_zero : Result IoError ℕ → ℕ
or_zero (ok n) = n
or_zero (err e) = 0

module _ {S : Type 0} (files : Files S) (sysfs : Sysfs) (builtin_text : Bytes) where
  abbrev push_capable :
      Bytes → Result Fault (Option Chip) → Result CcError (List Bytes) → Result CcError (List Bytes)
  push_capable bdf (ok (some chip)) rest = do bdfs ← rest; ok (bdf ∷ bdfs)
  push_capable bdf (ok none) rest = rest
  push_capable bdf (err _) rest = err panicked

  -- An unreadable attribute counts as 0; the device ID is cut to 16 bits.
  abbrev pub push_address :
      Option Bytes → Result CcError (List Bytes) → S → Result CcError (List Bytes)
  push_address none rest s = rest
  push_address (some bdf) rest s =
      let dir = join (devices sysfs) bdf in
      if or_zero (attr_hex files dir (codes "vendor") s) == nvidia
      then push_capable bdf
          (chip_for builtin_text (or_zero (attr_hex files dir (codes "device") s) % u16_max)) rest
      else rest

  -- The loop of `discover`.
  unfoldable pub capable : List (Result IoError Bytes) → S → Result CcError (List Bytes)
  unfolding chip_for attr_hex
  capable [] s = ok []
  capable (err e ∷ entries) s = err (io e)
  capable (ok name ∷ entries) s = push_address (normalize_bdf name) (capable entries s) s

  unfoldable pub discover_capable : S → Result CcError (List Bytes)
  unfolding capable sort_by text_le
  discover_capable s = do
    entries ← map_err io (files.read_dir (devices sysfs) s)
    bdfs ← capable entries s
    ok (sort_by text_le bdfs)

  -- `discover_switches` of src/nvlink.rs
  unfoldable pub discover_switches : S → Result IoError (List Bytes)
  unfolding pci_functions switch_names
  discover_switches s = do functions ← pci_functions files sysfs s; ok (switch_names functions)

  module _ (machine : Machine S) (map_bar0 : FilePath → S → Result IoError ℕ) where
    abbrev close_all : List PciDev → Process S → Process S
    close_all [] p = p
    close_all (pci ∷ more) p = close_all more (close files machine map_bar0 pci p)

    -- Collecting into a `Result`: the first failure drops what was opened before it.
    module _ {A : Type 0} (pci_of : A → PciDev)
        (open_one : Bytes → Process S → Result CcError A × Process S) where
      abbrev held_by : List A → List PciDev
      held_by [] = []
      held_by (a ∷ more) = pci_of a ∷ held_by more

      abbrev pub open_next :
          List A
          → (List A → Process S → Result CcError (List A) × Process S)
          → Result CcError A × Process S
          → Result CcError (List A) × Process S
      open_next opened next (ok a, p) = next (opened ++ a ∷ []) p
      open_next opened next (err e, p) = (err e, close_all (held_by opened) p)

      unfoldable pub open_each :
          List Bytes → List A → Process S → Result CcError (List A) × Process S
      unfolding close
      open_each [] opened p = (ok opened, p)
      open_each (bdf ∷ bdfs) opened p =
          open_next opened (λ o q. open_each bdfs o q) (open_one bdf p)

      abbrev pub open_found :
          Result CcError (List Bytes) → Process S → Result CcError (List A) × Process S
      open_found (err e) p = (err e, p)
      open_found (ok bdfs) p = open_each bdfs [] p

    -- `Gpu::enumerate`
    unfoldable pub enumerate_gpus : Process S → Result CcError (List OpenGpu) × Process S
    unfolding open_each open_gpu discover_capable
    enumerate_gpus p =
        open_found (λ (g : OpenGpu). g.pci) (open_gpu files machine map_bar0 builtin_text sysfs)
          (discover_capable p.kernel) p

    -- `NvSwitch::enumerate`
    unfoldable pub enumerate_switches : Process S → Result CcError (List OpenSwitch) × Process S
    unfolding open_each open_nv_switch discover_switches
    enumerate_switches p =
        open_found (λ (w : OpenSwitch). w.pci) (open_nv_switch files machine map_bar0 sysfs)
          (map_err io (discover_switches p.kernel)) p
