-- ===== src/PciIds/Build/Listing.antt =====
-- The tables that a listing of vendors and classes gives: nothing is lost, and nothing is added.
use mathlib.Core.List.{append_assoc, append-nil}
use pcilibs_rs.Prelude.{ℕ, ◌==◌, some, List, [], ◌∷◌, ◌++◌, All, map, ◌≡◌, refl, sym, ◌∙◌, ==_iff}
use pcilibs_rs.PciIds.{Vendor, Class}
use pcilibs_rs.PciIds.Build.{
  CgSubSystem, CgDevice, CgVendor, CgProgIf, CgSubclass, CgClass, Line, vendor_line, device_line,
  subsystems_line, class_line, subclass_line, prog_if_line, Generated, add_line, entry_vendor,
  entry_class, vendor_tokens, class_tokens, push_subsystem, push_prog_if,
}
use pcilibs_rs.PciIds.Build.Spelling.{add_all}
use pcilibs_rs.PciIds.Build.Shapes.{
  Shape, all_lines, pushed, IsFresh, last_key, IsTaken, add_items, add_all-append,
  change_first-last,
}

abbrev pub devices : Shape CgDevice CgSubSystem
devices = record {
  key = λ d. d.id;
  bare = λ d. record d { subsystems = [] };
  parts = λ d. d.subsystems;
  push = λ s d. push_subsystem s.subvendor s.subdevice s.name d;
  item_line = λ d. device_line d.name d.id;
  part_line = λ s. subsystems_line s.name s.subvendor s.subdevice;
}

abbrev pub subclasses : Shape CgSubclass CgProgIf
subclasses = record {
  key = λ s. s.id;
  bare = λ s. record s { prog_ifs = [] };
  parts = λ s. s.prog_ifs;
  push = λ p s. push_prog_if p.id p.name s;
  item_line = λ s. subclass_line s.name s.id;
  part_line = λ p. prog_if_line p.name p.id;
}

-- The state with a vendor that is being read, and with a class.
abbrev at_vendor : CgVendor → Generated → List CgDevice → ℕ → Generated
at_vendor v g ds n = record g { curr_vendor = some (record v { devices = ds }); curr_device_id = n }

abbrev at_class : CgClass → Generated → List CgSubclass → ℕ → Generated
at_class c g ss n = record g {
  curr_class = some (record c { subclasses = ss });
  curr_subclass_id = n;
}

pushed-devices :
    (js : List CgSubSystem) (d : CgDevice)
    → pushed devices js d ≡ record d { subsystems = d.subsystems ++ js }
pushed-devices [] d = rw append-nil
pushed-devices (j ∷ js) d = pushed-devices js (devices.push j d) ∙ rw append_assoc

pushed-subclasses :
    (js : List CgProgIf) (s : CgSubclass)
    → pushed subclasses js s ≡ record s { prog_ifs = s.prog_ifs ++ js }
pushed-subclasses [] s = rw append-nil
pushed-subclasses (j ∷ js) s = pushed-subclasses js (subclasses.push j s) ∙ rw append_assoc

devices-IsTaken : (v : CgVendor) (g : Generated) → IsTaken devices (at_vendor v g)
unfolding add_line
devices-IsTaken v g = record {
  keeps = λ j i. refl;
  bare_key = λ i. refl;
  whole = λ d. pushed-devices d.subsystems (devices.bare d);
  add_item = λ is n i. refl;
  add_part = λ is i j h.
      rw
        (change_first-last (λ d. d.id == i.id) (devices.push j) is i h ((==_iff i.id i.id).1 refl));
}

subclasses-IsTaken : (c : CgClass) (g : Generated) → IsTaken subclasses (at_class c g)
unfolding add_line
subclasses-IsTaken c g = record {
  keeps = λ j i. refl;
  bare_key = λ i. refl;
  whole = λ s. pushed-subclasses s.prog_ifs (subclasses.bare s);
  add_item = λ is n i. refl;
  add_part = λ is i j h. rw (
      change_first-last (λ s. s.id == i.id) (subclasses.push j) is i h ((==_iff i.id i.id).1 refl));
}

abbrev pub vendor_lines : List CgVendor → List Line
vendor_lines [] = []
vendor_lines (v ∷ vs) = vendor_line v.name v.id ∷ (all_lines devices v.devices ++ vendor_lines vs)

abbrev pub class_lines : List CgClass → List Line
class_lines [] = []
class_lines (c ∷ cs) =
    class_line c.name c.id ∷ (all_lines subclasses c.subclasses ++ class_lines cs)

abbrev pub vendor_entry : CgVendor → ℕ × Vendor
vendor_entry v = (v.id, vendor_tokens v)

abbrev pub class_entry : CgClass → ℕ × Class
class_entry c = (c.id, class_tokens c)

-- The entries of a state, when the one that is being read is entered too.
abbrev pub vendors_of : Generated → List (ℕ × Vendor)
vendors_of g = entry_vendor g.curr_vendor g.vendors

abbrev pub classes_of : Generated → List (ℕ × Class)
classes_of g = entry_class g.curr_class g.classes

pub add_vendors :
    (vs : List CgVendor) (g : Generated)
    → All (λ v. IsFresh devices [] v.devices) vs
    → (g' : Generated) × (add_all (vendor_lines vs) g ≡ some g')
      × (vendors_of g' ≡ vendors_of g ++ map vendor_entry vs)
      × (classes_of g' ≡ classes_of g)
unfolding add_line
add_vendors [] g h = (g, refl, sym (append-nil _), refl)
add_vendors (v ∷ vs) g h =
    let h0 = record g { vendors = vendors_of g } in
    let items = add_items devices (devices-IsTaken v h0) v.devices [] g.curr_device_id h.0 in
    let (g', e, added, kept) =
      add_vendors vs (at_vendor v h0 v.devices (last_key devices g.curr_device_id v.devices)) h.1 in
    (
      g',
      add_all-append (all_lines devices v.devices) (vendor_lines vs)
            (at_vendor v h0 [] g.curr_device_id)
          ∙ rw items e,
      added ∙ append_assoc (vendors_of g) (vendor_entry v ∷ []) (map vendor_entry vs),
      kept,
    )

pub add_classes :
    (cs : List CgClass) (g : Generated)
    → All (λ c. IsFresh subclasses [] c.subclasses) cs
    → (g' : Generated) × (add_all (class_lines cs) g ≡ some g')
      × (classes_of g' ≡ classes_of g ++ map class_entry cs)
      × (vendors_of g' ≡ vendors_of g)
unfolding add_line
add_classes [] g h = (g, refl, sym (append-nil _), refl)
add_classes (c ∷ cs) g h =
    let h0 = record g { classes = classes_of g } in
    let items =
      add_items subclasses (subclasses-IsTaken c h0) c.subclasses [] g.curr_subclass_id h.0 in
    let (g', e, added, kept) =
      add_classes cs
        (at_class c h0 c.subclasses (last_key subclasses g.curr_subclass_id c.subclasses)) h.1 in
    (
      g',
      add_all-append (all_lines subclasses c.subclasses) (class_lines cs)
            (at_class c h0 [] g.curr_subclass_id)
          ∙ rw items e,
      added ∙ append_assoc (classes_of g) (class_entry c ∷ []) (map class_entry cs),
      kept,
    )
