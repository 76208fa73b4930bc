-- ===== src/Catalog/Discovery.antt =====
-- src/catalog/linux.rs: every PCI function of the node, with what a catalog says of it.
use pcilibs_rs.Prelude.{
  ℕ, Option, none, some, List, [], ◌∷◌, ltb, if◌then◌else◌, Result, ok, err, ◌>>=◌, map_err,
}
use pcilibs_rs.Text.{Bytes, codes}
use pcilibs_rs.Sort.{sort_by, text_le}
use pcilibs_rs.Bdf.{normalize_bdf}
use pcilibs_rs.Sysfs.{Sysfs, FilePath, join, devices}
use pcilibs_rs.Files.{Files, IoError, invalid_data, panicked}
use pcilibs_rs.PciDev.Attributes.{attr_hex, u16_max}
use pcilibs_rs.Catalog.Records.{PciIdentity, Properties}
use pcilibs_rs.Catalog.Snapshot.{Catalog, lookup}

pub record Device : Type 0 where
  pub bdf : Bytes
  pub identity : PciIdentity
  pub class : ℕ
  pub properties : Option Properties

module _ {S : Type 0} (files : Files S) (sysfs : Sysfs) (builtin_text : Bytes)
    (catalog : Catalog) where
  abbrev pub read_id : FilePath → Bytes → S → Result IoError ℕ
  read_id path name s = do
    n ← attr_hex files path name s
    (if ltb n u16_max then ok n else err invalid_data)

  -- A failed `expect` of the catalog is `panicked`.
  abbrev pub catalog_device : Bytes → S → Result IoError Device
  catalog_device bdf s =
      let path = join (devices sysfs) bdf in
      do
        vendor ← read_id path (codes "vendor") s
        device ← read_id path (codes "device") s
        subsystem_vendor ← read_id path (codes "subsystem_vendor") s
        subsystem_device ← read_id path (codes "subsystem_device") s
        class ← attr_hex files path (codes "class") s
        let identity : PciIdentity = record {
          vendor = vendor;
          device = device;
          subsystem_vendor = subsystem_vendor;
          subsystem_device = subsystem_device;
        }
        properties ← map_err (λ _. panicked) (lookup builtin_text catalog identity)
        ok (record { bdf = bdf; identity = identity; class = class; properties = properties })

  abbrev pub next_device :
      Option Bytes → Result IoError (List Device) → S → Result IoError (List Device)
  next_device none rest s = rest
  next_device (some bdf) rest s = do d ← catalog_device bdf s; ds ← rest; ok (d ∷ ds)

  -- The loop of `discover`; a name that is no address is skipped.
  unfoldable pub read_devices : List (Result IoError Bytes) → S → Result IoError (List Device)
  unfolding attr_hex lookup
  read_devices [] s = ok []
  read_devices (err e ∷ entries) s = err e
  read_devices (ok name ∷ entries) s = next_device (normalize_bdf name) (read_devices entries s) s

  unfoldable pub discover_devices : S → Result IoError (List Device)
  unfolding read_devices sort_by text_le
  discover_devices s = do
    entries ← files.read_dir (devices sysfs) s
    found ← read_devices entries s
    ok (sort_by (λ (a b : Device). text_le a.bdf b.bdf) found)
