-- ===== src/Vfio.antt =====
-- src/vfio.rs: binding a PCI function to a vfio driver through `driver_override`, and back.
pub mod Outcome
pub mod Modules
mod Tests
use pcilibs_rs.Prelude.{
  ℕ, Bool, true, false, Option, none, some, List, [], ◌∷◌, if◌then◌else◌, Result, ok, err, ◌>>=◌,
  ok_or,
}
use pcilibs_rs.Text.{Bytes, codes, equal, strip_prefix}
use pcilibs_rs.Sysfs.{Sysfs, FilePath, join, device, drivers_probe, module_path}
use pcilibs_rs.Files.{
  Files, IoError, not_found, resource_busy, invalid_input, other, panicked, file_name,
}

pub data Bound : Type 0 where
  already now : Bound

-- The device's directory, and the canonical address.
unfoldable pub resolve : Sysfs → Bytes → Result IoError (FilePath × Bytes)
resolve sysfs address = do
  path ← ok_or (device sysfs address) invalid_input
  name ← ok_or (file_name path) panicked
  ok (path, name)

abbrev pub driver_override : FilePath → FilePath
driver_override path = join path (codes "driver_override")

module _ {S : Type 0} (files : Files S) (sysfs : Sysfs) where
  abbrev link_name : Result IoError FilePath → Option Bytes
  link_name (ok target) = file_name target
  link_name (err _) = none

  unfoldable pub current_driver : Bytes → S → Option Bytes
  current_driver address s = elim (device sysfs address) [
    | none ↦ none
    | some path ↦ link_name (files.read_link (join path (codes "driver")) s)
  ]

  unfoldable pub clear_override : FilePath → S → Result IoError (Unit {0}) × S
  clear_override path s = files.write (driver_override path) (10 ∷ []) s

  -- The probe has failed or not, behind the override.
  abbrev pub after_probe : FilePath → Result IoError (Unit {0}) × S → Result IoError Bound × S
  after_probe path (ok _, s) = (ok now, s)
  after_probe path (err e, s) = (err e, (clear_override path s).1)

  abbrev pub after_override :
      FilePath → Bytes → Result IoError (Unit {0}) × S → Result IoError Bound × S
  after_override path name (err e, s) = (err e, s)
  after_override path name (ok _, s) = after_probe path (files.write (drivers_probe sysfs) name s)

  -- `bind` of a device that no driver holds.
  unfoldable pub bind_free : FilePath → Bytes → Bytes → S → Result IoError Bound × S
  unfolding clear_override
  bind_free path name driver s =
      after_override path name (files.write (driver_override path) driver s)

  abbrev pub bind_held : FilePath → Bytes → Bytes → Option Bytes → S → Result IoError Bound × S
  bind_held path name driver none s = bind_free path name driver s
  bind_held path name driver (some current) s =
      if equal current driver then (ok already, s) else (err resource_busy, s)

  abbrev pub bind_resolved :
      Bytes → Result IoError (FilePath × Bytes) → S → Result IoError Bound × S
  bind_resolved driver (err e) s = (err e, s)
  bind_resolved driver (ok (path, name)) s =
      if files.is_dir path s
      then bind_held path name driver (current_driver name s) s
      else (err not_found, s)

  unfoldable pub bind : Bytes → Bytes → S → Result IoError Bound × S
  unfolding bind_free resolve
  bind address driver s = bind_resolved driver (resolve sysfs address) s

  unfoldable pub verify_bound : Bytes → Bytes → S → Result IoError (Unit {0})
  unfolding current_driver
  verify_bound address driver s = elim (current_driver address s) [
    | none ↦ err other
    | some current ↦ if equal current driver then ok tt else err other
  ]

  abbrev pub after_unbind : FilePath → Result IoError (Unit {0}) × S → Result IoError (Unit {0}) × S
  after_unbind path (err e, s) = (err e, s)
  after_unbind path (ok _, s) = clear_override path s

  abbrev pub unbind_held : FilePath → Bytes → Option Bytes → S → Result IoError (Unit {0}) × S
  unbind_held path name none s = clear_override path s
  unbind_held path name (some _) s =
      after_unbind path (files.write (join (join path (codes "driver")) (codes "unbind")) name s)

  abbrev pub unbind_resolved : Result IoError (FilePath × Bytes) → S → Result IoError (Unit {0}) × S
  unbind_resolved (err e) s = (err e, s)
  unbind_resolved (ok (path, name)) s = unbind_held path name (current_driver name s) s

  unfoldable pub unbind : Bytes → S → Result IoError (Unit {0}) × S
  unfolding resolve clear_override
  unbind address s = unbind_resolved (resolve sysfs address) s

  -- The first entry that names a PCI driver.
  unfoldable pub first_pci : List (Result IoError Bytes) → Result IoError Bytes
  unfolding strip_prefix
  first_pci [] = err not_found
  first_pci (err e ∷ entries) = err e
  first_pci (ok name ∷ entries) =
      let rest = first_pci entries in
      elim (strip_prefix (codes "pci:") name) [ none ↦ rest | some driver ↦ ok driver ]

  unfoldable pub driver_for : Bytes → S → Result IoError Bytes
  unfolding first_pci
  driver_for name s = do
    path ← ok_or (module_path sysfs name) invalid_input
    entries ← files.read_dir (join path (codes "drivers")) s
    first_pci entries
