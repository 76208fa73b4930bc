-- ===== src/PciDev/Handle.antt =====
-- src/pci_dev.rs: opening a device, and dropping the handle. The set OPEN of the process is a
-- list of paths beside the kernel's state. `map` is the mapping of BAR0, with its length.
use pcilibs_rs.Prelude.{
  ℕ, ◌%◌, Bool, false, if◌then◌else◌, Option, none, some, List, [], ◌∷◌, any, Result, ok, err,
}
use pcilibs_rs.Text.{Bytes, codes}
use pcilibs_rs.Bdf.{normalize_bdf}
use pcilibs_rs.Sysfs.{Sysfs, FilePath, join, devices}
use pcilibs_rs.Sysfs.Paths.{same_path}
use pcilibs_rs.Files.{Files, IoError, not_found, resource_busy, invalid_input}
use pcilibs_rs.Effects.{Effect, pure, ◌>>=◌}
use pcilibs_rs.Device.{Machine}
use pcilibs_rs.PciDev.Attributes.{attr_hex, u16_max}
use pcilibs_rs.PciDev.Switches.{
  reading, wake, enable_memory_decoding, set_memory_decoding, restore_power, inspect_err,
}

-- The handle; `bar0` is the length of its mapping.
pub record PciDev : Type 0 where
  pub bdf : Bytes
  pub vendor : ℕ
  pub device : ℕ
  pub path : FilePath
  pub bar0 : ℕ
  pub power_control : Option Bytes
  pub decoding_enabled : Bool

-- The process: the paths that it holds open, and the kernel that it runs on.
pub record Process (S : Type 0) : Type 0 where
  pub held : List FilePath
  pub kernel : S

-- `insert` and `remove` of the set.
abbrev pub holds : FilePath → List FilePath → Bool
holds path held = any (same_path path) held

unfoldable pub release : FilePath → List FilePath → List FilePath
release path [] = []
release path (p ∷ held) =
    let rest = release path held in if same_path path p then rest else p ∷ rest

module _ {S : Type 0} (files : Files S) (machine : Machine S)
    (map : FilePath → S → Result IoError ℕ) where
  abbrev pub handle : Bytes → FilePath → ℕ → ℕ → ℕ → Option Bytes → Bool → PciDev
  handle bdf path vendor device bar0 power_control decoding_enabled = record {
    bdf = bdf;
    vendor = vendor % u16_max;
    device = device % u16_max;
    path = path;
    bar0 = bar0;
    power_control = power_control;
    decoding_enabled = decoding_enabled;
  }

  -- Decoding is enabled; where that fails, the power policy is put back.
  abbrev pub decode : FilePath → Option Bytes → Effect IoError S Bool
  decode path power_control s =
      inspect_err files (restore_power files path power_control)
        (enable_memory_decoding files path s)

  abbrev pub with_power : Bytes → FilePath → ℕ → ℕ → ℕ → Option Bytes → Effect IoError S PciDev
  with_power bdf path vendor device bar0 power_control = decode path power_control >>= λ enabled.
      pure (handle bdf path vendor device bar0 power_control enabled)

  unfoldable pub switch_on : Bytes → FilePath → ℕ → ℕ → ℕ → Effect IoError S PciDev
  unfolding wake enable_memory_decoding restore_power
  switch_on bdf path vendor device bar0 =
      wake files machine path >>= with_power bdf path vendor device bar0

  abbrev pub mapped : Bytes → FilePath → ℕ → ℕ → Effect IoError S PciDev
  mapped bdf path vendor device =
      reading files (map (join path (codes "resource0"))) >>= switch_on bdf path vendor device

  abbrev pub identified : Bytes → FilePath → ℕ → Effect IoError S PciDev
  identified bdf path vendor =
      reading files (attr_hex files path (codes "device")) >>= mapped bdf path vendor

  -- What can fail comes first; the two switches come last.
  unfoldable pub claimed : Bytes → FilePath → Effect IoError S PciDev
  unfolding switch_on attr_hex
  claimed bdf path = reading files (attr_hex files path (codes "vendor")) >>= identified bdf path

  -- The claim is given back where `claimed` fails.
  abbrev pub settle :
      FilePath → List FilePath → Result IoError PciDev × S → Result IoError PciDev × Process S
  settle path held (ok dev, s) = (ok dev, record { held = path ∷ held; kernel = s })
  settle path held (err e, s) = (err e, record { held = release path (path ∷ held); kernel = s })

  abbrev pub open_at : Bytes → FilePath → Process S → Result IoError PciDev × Process S
  open_at bdf path p =
      if files.exists path p.kernel
      then (if holds path p.held
          then (err resource_busy, p)
          else settle path p.held (claimed bdf path p.kernel))
      else (err not_found, p)

  abbrev pub open_named : Sysfs → Option Bytes → Process S → Result IoError PciDev × Process S
  open_named sysfs none p = (err invalid_input, p)
  open_named sysfs (some name) p = open_at name (join (devices sysfs) name) p

  unfoldable pub open_in : Sysfs → Bytes → Process S → Result IoError PciDev × Process S
  unfolding claimed release
  open_in sysfs bdf p = open_named sysfs (normalize_bdf bdf) p

  -- The kernel's part of `Drop`.
  unfoldable pub put_back : PciDev → S → S
  unfolding set_memory_decoding restore_power
  put_back dev s =
      restore_power files dev.path dev.power_control
        (if dev.decoding_enabled then (set_memory_decoding files dev.path false s).1 else s)

  unfoldable pub close : PciDev → Process S → Process S
  unfolding put_back release
  close dev p = record { held = release dev.path p.held; kernel = put_back dev p.kernel }

  unfoldable pub sysfs_reset : PciDev → Process S → Result IoError (Unit {0}) × Process S
  sysfs_reset dev p =
      let r = files.write (join dev.path (codes "reset")) (codes "1") p.kernel in
      (r.0, record { held = p.held; kernel = r.1 })
