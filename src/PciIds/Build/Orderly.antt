-- ===== src/PciIds/Build/Orderly.antt =====
-- The lookups in the tables of a file that lists each ID once.
use pcilibs_rs.Prelude.{ℕ, Option, some, List, [], All-In, map, In, ◌≡◌, ◌↔◌, sym, ap, ◌∙◌}
use pcilibs_rs.Text.{Bytes}
use pcilibs_rs.PciIds.{Device, Vendor, Class, Database, from_vid_pid}
use pcilibs_rs.PciIds.Lookups.{IsIndexed}
use pcilibs_rs.PciIds.Identified.{
  IsOrderly, devices_of, device_vendor, device_id, subclasses_of, subclass_class, subclass_id,
  from_vid_pid_iff,
}
use pcilibs_rs.PciIds.Build.{
  CgDevice, CgVendor, CgClass, device_tokens, vendor_tokens, class_tokens, subclass_tokens,
  generate,
}
use pcilibs_rs.PciIds.Build.Packages.{Nom, IsNom, Phf, IsPhf}
use pcilibs_rs.PciIds.Build.Listing.{devices, subclasses, vendor_entry, class_entry}
use pcilibs_rs.PciIds.Build.Shapes.{IsFresh}
use pcilibs_rs.PciIds.Build.Tables.{
  In-map, map-In, Distinct-alone, fresh-one, IsListing, generate-build, tables_of,
}

module _ (nom : Nom) (phf : Phf) (is_nom : IsNom nom) (is_phf : IsPhf phf) where
  module _ {text : List (Option Bytes)} {vs : List CgVendor} {cs : List CgClass}
      (l : IsListing text vs cs) {database : Database}
      (built : generate nom phf text ≡ some database) where
    tables :
        (phf.build Vendor (map vendor_entry vs) ≡ some database.vendors)
        × (phf.build Class (map class_entry cs) ≡ some database.classes)
    tables =
        tables_of (phf.build Vendor (map vendor_entry vs)) (phf.build Class (map class_entry cs))
          (sym (generate-build nom phf is_nom is_phf text vs cs l) ∙ built)

    same_vendor : (e : ℕ × Vendor) → In e database.vendors ↔ In e (map vendor_entry vs)
    same_vendor e = is_phf.same Vendor (map vendor_entry vs) database.vendors tables.0 e

    same_class : (e : ℕ × Class) → In e database.classes ↔ In e (map class_entry cs)
    same_class e = is_phf.same Class (map class_entry cs) database.classes tables.1 e

    vendor_at :
        (k : ℕ) (a : Vendor)
        → In (k, a) database.vendors
        → (v : CgVendor) × In v vs × (k ≡ v.id) × (a ≡ vendor_tokens v)
    vendor_at k a m =
        let (v, i, e) = In-map vendor_entry vs ((same_vendor (k, a)).0 m) in
        (v, i, ap (λ x. x.0) e, ap (λ x. x.1) e)

    class_at :
        (k : ℕ) (a : Class)
        → In (k, a) database.classes
        → (c : CgClass) × In c cs × (k ≡ c.id) × (a ≡ class_tokens c)
    class_at k a m =
        let (c, i, e) = In-map class_entry cs ((same_class (k, a)).0 m) in
        (c, i, ap (λ x. x.0) e, ap (λ x. x.1) e)

    vendors-IsIndexed : IsIndexed devices_of device_vendor device_id database.vendors
    vendors-IsIndexed = record {
      alone = λ k a b m n.
          Distinct-alone (map vendor_entry vs) k a b l.vendor_ids ((same_vendor (k, a)).0 m)
            ((same_vendor (k, b)).0 n);
      owned = λ k a i m n.
          let (v, _, key, e) = vendor_at k a m in
          let (c, _, marked) = In-map (device_tokens v.id) v.devices (rw (ap devices_of e) at n) in
          ap device_vendor marked ∙ sym key;
      one_item = λ k a i j m n o same.
          let (v, listed, key, e) = vendor_at k a m in
          let (c, at_c, is_c) = In-map (device_tokens v.id) v.devices (rw (ap devices_of e) at n) in
          let (d, at_d, is_d) = In-map (device_tokens v.id) v.devices (rw (ap devices_of e) at o) in
          let ids : d.id ≡ c.id = ap device_id (sym is_d) ∙ same ∙ ap device_id is_c in
          let one =
            fresh-one devices [] v.devices c d
              (All-In (λ w. IsFresh devices [] w.devices) l.device_ids listed) at_c at_d ids in
          is_d ∙ ap (device_tokens v.id) one ∙ sym is_c;
    }

    classes-IsIndexed : IsIndexed subclasses_of subclass_class subclass_id database.classes
    classes-IsIndexed = record {
      alone = λ k a b m n.
          Distinct-alone (map class_entry cs) k a b l.class_ids ((same_class (k, a)).0 m)
            ((same_class (k, b)).0 n);
      owned = λ k a i m n.
          let (v, _, key, e) = class_at k a m in
          let (c, _, marked) =
            In-map (subclass_tokens v.id) v.subclasses (rw (ap subclasses_of e) at n) in
          ap subclass_class marked ∙ sym key;
      one_item = λ k a i j m n o same.
          let (v, listed, key, e) = class_at k a m in
          let (c, at_c, is_c) =
            In-map (subclass_tokens v.id) v.subclasses (rw (ap subclasses_of e) at n) in
          let (d, at_d, is_d) =
            In-map (subclass_tokens v.id) v.subclasses (rw (ap subclasses_of e) at o) in
          let ids : d.id ≡ c.id = ap subclass_id (sym is_d) ∙ same ∙ ap subclass_id is_c in
          let one =
            fresh-one subclasses [] v.subclasses c d
              (All-In (λ w. IsFresh subclasses [] w.subclasses) l.subclass_ids listed) at_c at_d
              ids in
          is_d ∙ ap (subclass_tokens v.id) one ∙ sym is_c;
    }

    -- The tables of a file that lists each ID once are in order.
    pub generate-IsOrderly : IsOrderly database
    generate-IsOrderly = record { vendors = vendors-IsIndexed; classes = classes-IsIndexed }

    -- In the tables of a file that lists vendors and classes, each ID once: a lookup by vendor
    -- and device ID gives exactly the device that the file lists under these IDs, with its name
    -- and its subsystems.
    pub from_vid_pid-IsListing :
        (vid pid : ℕ) (d : Device)
        → (from_vid_pid database vid pid ≡ some d) ↔ (
            (v : CgVendor) × (c : CgDevice) × In v vs
            × In c v.devices
            × (v.id ≡ vid)
            × (c.id ≡ pid)
            × (d ≡ device_tokens v.id c))
    from_vid_pid-IsListing vid pid d = (
      λ h.
          (let ((k, a, m, n), ids) = (from_vid_pid_iff database generate-IsOrderly vid pid d).0 h in
            let (v, listed, key, e) = vendor_at k a m in
            let (c, at_c, is_c) =
              In-map (device_tokens v.id) v.devices (rw (ap devices_of e) at n) in
            let v_id : v.id ≡ vid = ap device_vendor (sym is_c) ∙ ap (λ x. x.0) ids in
            let c_id : c.id ≡ pid = ap device_id (sym is_c) ∙ ap (λ x. x.1) ids in
            (v, c, listed, at_c, v_id, c_id, is_c)),
      λ (v, c, listed, at_c, v_id, c_id, is_c).
          (from_vid_pid_iff database generate-IsOrderly vid pid d).1 (
            (
              v.id,
              vendor_tokens v,
              (same_vendor (vendor_entry v)).1 (map-In vendor_entry listed),
              rw is_c (map-In (device_tokens v.id) at_c),
            ),
            rw (is_c, v_id, c_id),
          ),
    )
