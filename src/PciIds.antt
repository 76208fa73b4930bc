-- ===== src/PciIds.antt =====
-- src/pci_ids.rs: lookups in the PCI ID database. Its two tables are generated by the build from a
-- submodule, so they are a parameter: maps from an ID to an entry. The accessors of the source
-- are the fields. A failed `unwrap` is `none`.
pub mod Lookups
pub mod Identified
pub mod Build
pub mod Tests
use pcilibs_rs.Prelude.{ℕ, Bool, Option, none, some, List, [], ◌∷◌, map, ◌==◌, if◌then◌else◌}
use pcilibs_rs.Text.{Bytes}

pub record SubSystem : Type 0 where
  pub subvendor : ℕ
  pub subdevice : ℕ
  pub name : Bytes

pub record Device : Type 0 where
  pub vendor_id : ℕ
  pub id : ℕ
  pub name : Bytes
  pub subsystems : List SubSystem

pub record Vendor : Type 0 where
  pub id : ℕ
  pub name : Bytes
  pub devices : List Device

pub record ProgIf : Type 0 where
  pub id : ℕ
  pub name : Bytes

pub record Subclass : Type 0 where
  pub class_id : ℕ
  pub id : ℕ
  pub name : Bytes
  pub prog_ifs : List ProgIf

pub record Class : Type 0 where
  pub id : ℕ
  pub name : Bytes
  pub subclasses : List Subclass

-- `VENDORS` and `CLASSES`.
pub record Database : Type 0 where
  pub vendors : List (ℕ × Vendor)
  pub classes : List (ℕ × Class)

-- `Iterator::find`
unfoldable pub find : {A : Type 0} → (A → Bool) → List A → Option A
find p [] = none
find p (x ∷ xs) = let rest = find p xs in if p x then some x else rest

-- `get` and `values` of a map.
unfoldable pub get : {A : Type 0} → ℕ → List (ℕ × A) → Option A
get key [] = none
get key ((k, a) ∷ entries) = let rest = get key entries in if k == key then some a else rest

abbrev pub values : {A : Type 0} → List (ℕ × A) → List A
values entries = map (λ e. e.1) entries

infixl 5 ◌>>=◌
abbrev pub ◌>>=◌ : {A B : Type 0} → Option A → (A → Option B) → Option B
none >>= f = none
some a >>= f = f a

abbrev pub as_vid_pid : Device → ℕ × ℕ
as_vid_pid d = (d.vendor_id, d.id)

abbrev pub as_cid_sid : Subclass → ℕ × ℕ
as_cid_sid s = (s.class_id, s.id)

module _ (database : Database) where
  abbrev pub vendors_iter : List Vendor
  vendors_iter = values database.vendors

  abbrev pub classes_iter : List Class
  classes_iter = values database.classes

  unfoldable pub vendor_from_id : ℕ → Option Vendor
  unfolding get
  vendor_from_id id = get id database.vendors

  unfoldable pub class_from_id : ℕ → Option Class
  unfolding get
  class_from_id id = get id database.classes

  unfoldable pub from_vid_pid : ℕ → ℕ → Option Device
  unfolding vendor_from_id find
  from_vid_pid vid pid = do v ← vendor_from_id vid; find (λ (d : Device). d.id == pid) v.devices

  -- `Device::vendor`
  unfoldable pub vendor_of : Device → Option Vendor
  unfolding get
  vendor_of d = get d.vendor_id database.vendors

  unfoldable pub from_cid_sid : ℕ → ℕ → Option Subclass
  unfolding class_from_id find
  from_cid_sid cid sid = do c ← class_from_id cid; find (λ (s : Subclass). s.id == sid) c.subclasses

  -- `Subclass::class`
  unfoldable pub class_of : Subclass → Option Class
  unfolding get
  class_of s = get s.class_id database.classes
