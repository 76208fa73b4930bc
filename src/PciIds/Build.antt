-- ===== src/PciIds/Build.antt =====
-- build_support.rs: the tables of the PCI ID database, generated from the lines of `pci.ids`. The
-- packages nom and phf_codegen are parameters. A failed `unwrap` is `none`; the tokens of an entry
-- are the entry that the compiler reads them as.
pub mod Packages
pub mod Parser
mod Grammar
mod Kinds
mod Spelling
mod Shapes
mod Listing
pub mod Tables
pub mod Orderly
pub mod Marked
mod Tests
use pcilibs_rs.Prelude.{
  true, ℕ, Bool, ◌||◌, ◌==◌, Option, none, some, List, [], ◌∷◌, ◌++◌, map, if◌then◌else◌, is_empty,
}
use pcilibs_rs.Text.{Bytes}
use pcilibs_rs.PciIds.{SubSystem, Device, Vendor, ProgIf, Subclass, Class, Database, ◌>>=◌}
use pcilibs_rs.PciIds.Build.Packages.{Nom, Phf}

pub record CgSubSystem : Type 0 where
  pub subvendor : ℕ
  pub subdevice : ℕ
  pub name : Bytes

pub record CgDevice : Type 0 where
  pub id : ℕ
  pub name : Bytes
  pub subsystems : List CgSubSystem

pub record CgVendor : Type 0 where
  pub id : ℕ
  pub name : Bytes
  pub devices : List CgDevice

pub record CgProgIf : Type 0 where
  pub id : ℕ
  pub name : Bytes

pub record CgSubclass : Type 0 where
  pub id : ℕ
  pub name : Bytes
  pub prog_ifs : List CgProgIf

pub record CgClass : Type 0 where
  pub id : ℕ
  pub name : Bytes
  pub subclasses : List CgSubclass

-- `to_tokens`
abbrev pub subsystem_tokens : CgSubSystem → SubSystem
subsystem_tokens s = record { subvendor = s.subvendor; subdevice = s.subdevice; name = s.name }

abbrev pub device_tokens : ℕ → CgDevice → Device
device_tokens vendor_id d = record {
  vendor_id = vendor_id;
  id = d.id;
  name = d.name;
  subsystems = map subsystem_tokens d.subsystems;
}

abbrev pub vendor_tokens : CgVendor → Vendor
vendor_tokens v = record { id = v.id; name = v.name; devices = map (device_tokens v.id) v.devices }

abbrev pub prog_if_tokens : CgProgIf → ProgIf
prog_if_tokens p = record { id = p.id; name = p.name }

abbrev pub subclass_tokens : ℕ → CgSubclass → Subclass
subclass_tokens class_id s = record {
  class_id = class_id;
  id = s.id;
  name = s.name;
  prog_ifs = map prog_if_tokens s.prog_ifs;
}

abbrev pub class_tokens : CgClass → Class
class_tokens c = record {
  id = c.id;
  name = c.name;
  subclasses = map (subclass_tokens c.id) c.subclasses;
}

-- The variables of `generate`.
pub record Generated : Type 0 where
  pub curr_vendor : Option CgVendor
  pub curr_device_id : ℕ
  pub curr_class : Option CgClass
  pub curr_subclass_id : ℕ
  pub vendors : List (ℕ × Vendor)
  pub classes : List (ℕ × Class)

abbrev pub nothing : Generated
nothing = record {
  curr_vendor = none;
  curr_device_id = 0;
  curr_class = none;
  curr_subclass_id = 0;
  vendors = [];
  classes = [];
}

-- `if let Some(vendor) = curr_vendor.take() { vendors.entry(..) }`
abbrev pub entry_vendor : Option CgVendor → List (ℕ × Vendor) → List (ℕ × Vendor)
entry_vendor none vendors = vendors
entry_vendor (some v) vendors = vendors ++ (v.id, vendor_tokens v) ∷ []

abbrev pub entry_class : Option CgClass → List (ℕ × Class) → List (ℕ × Class)
entry_class none classes = classes
entry_class (some c) classes = classes ++ (c.id, class_tokens c) ∷ []

-- `iter_mut().find(..).unwrap()`: the first that passes is changed.
unfoldable pub change_first : {A : Type 0} → (A → Bool) → (A → A) → List A → Option (List A)
change_first p f [] = none
change_first p f (x ∷ xs) =
    let later = change_first p f xs >>= λ ys. some (x ∷ ys) in
    if p x then some (f x ∷ xs) else later

abbrev pub push_device : ℕ → Bytes → CgVendor → CgVendor
push_device id name v = record v {
  devices = v.devices ++ record { id = id; name = name; subsystems = [] } ∷ [];
}

abbrev pub push_subsystem : ℕ → ℕ → Bytes → CgDevice → CgDevice
push_subsystem subvendor subdevice name d = record d {
  subsystems =
      d.subsystems ++ record { subvendor = subvendor; subdevice = subdevice; name = name } ∷ [];
}

abbrev pub push_subclass : ℕ → Bytes → CgClass → CgClass
push_subclass id name c = record c {
  subclasses = c.subclasses ++ record { id = id; name = name; prog_ifs = [] } ∷ [];
}

abbrev pub push_prog_if : ℕ → Bytes → CgSubclass → CgSubclass
push_prog_if id name s = record s { prog_ifs = s.prog_ifs ++ record { id = id; name = name } ∷ [] }

-- What a line is taken for, by the first parser that accepts it.
pub data Line : Type 0 where
  vendor_line device_line class_line subclass_line prog_if_line : Bytes → ℕ → Line
  subsystems_line : Bytes → ℕ → ℕ → Line

-- The body of each branch of the loop.
unfoldable pub add_line : Line → Generated → Option Generated
unfolding change_first
add_line (vendor_line name id) g = some (record g {
  vendors = entry_vendor g.curr_vendor g.vendors;
  curr_vendor = some (record { id = id; name = name; devices = [] });
})
add_line (device_line name id) g = do
  v ← g.curr_vendor
  some (record g { curr_vendor = some (push_device id name v); curr_device_id = id })
add_line (subsystems_line name subvendor subdevice) g = do
  v ← g.curr_vendor
  devices ←
      change_first (λ (d : CgDevice). d.id == g.curr_device_id)
        (push_subsystem subvendor subdevice name) v.devices
  some (record g { curr_vendor = some (record v { devices = devices }) })
add_line (class_line name id) g = some (record g {
  classes = entry_class g.curr_class g.classes;
  curr_class = some (record { id = id; name = name; subclasses = [] });
})
add_line (subclass_line name id) g = do
  c ← g.curr_class
  some (record g { curr_class = some (push_subclass id name c); curr_subclass_id = id })
add_line (prog_if_line name id) g = do
  c ← g.curr_class
  subclasses ←
      change_first (λ (s : CgSubclass). s.id == g.curr_subclass_id) (push_prog_if id name)
        c.subclasses
  some (record g { curr_class = some (record c { subclasses = subclasses }) })

-- `line.is_empty() || line.starts_with('#')`
abbrev pub is_skipped : Bytes → Bool
is_skipped [] = true
is_skipped (c ∷ s) = c == b'#'

abbrev pub first_of : {A : Type 0} → (A → Line) → Option A → Option Line → Option Line
first_of f none later = later
first_of f (some a) later = some (f a)

module _ (nom : Nom) where
  -- The ladder of `if let Ok(..)`.
  unfoldable pub parse_line : Bytes → Option Line
  unfolding Parser.vendor Parser.device Parser.subsystems Parser.class Parser.subclass
      Parser.prog_if
  parse_line line =
      first_of (λ (name, id). vendor_line name id) (Parser.vendor nom line)
        (first_of (λ (name, id). device_line name id) (Parser.device nom line)
          (first_of (λ (name, (subvendor, subdevice)). subsystems_line name subvendor subdevice)
            (Parser.subsystems nom line)
            (first_of (λ (name, id). class_line name id) (Parser.class nom line)
              (first_of (λ (name, id). subclass_line name id) (Parser.subclass nom line)
                (first_of (λ (name, id). prog_if_line name id) (Parser.prog_if nom line) none)))))

  -- A line that no parser accepts ends the loop; one that cannot be read is a panic.
  unfoldable pub read_lines : List (Option Bytes) → Generated → Option Generated
  unfolding parse_line add_line
  read_lines [] g = some g
  read_lines (none ∷ lines) g = none
  read_lines (some line ∷ lines) g =
      let skip = read_lines lines g in
      let next : Option Generated = elim (parse_line line) [
        | none ↦ some g
        | some l ↦ add_line l g >>= λ h. read_lines lines h
      ] in
      if is_skipped line then skip else next

  module _ (phf : Phf) where
    unfoldable pub generate : List (Option Bytes) → Option Database
    unfolding read_lines
    generate lines = do
      g ← read_lines lines nothing
      vendors ← phf.build Vendor (entry_vendor g.curr_vendor g.vendors)
      classes ← phf.build Class (entry_class g.curr_class g.classes)
      some (record { vendors = vendors; classes = classes })
