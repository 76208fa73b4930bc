-- ===== src/PciIds/Build/Marked.antt =====
-- What holds of the tables of every build that succeeds.
use pcilibs_rs.Prelude.{
  ℕ, ◌==◌, Option, none, some, List, [], ◌∷◌, All, All-append, All-In, In, ◌≡◌, refl, sym, ap, ◌∙◌,
  Bool-cases, Option-cases, inl, inr,
}
use pcilibs_rs.Text.{Bytes}
use pcilibs_rs.PciIds.{
  Device, Vendor, Class, Database, get, ◌>>=◌, from_vid_pid, vendor_from_id, vendor_of,
}
use pcilibs_rs.PciIds.Lookups.{find-In, get-In}
use pcilibs_rs.PciIds.Build.{
  CgVendor, Line, vendor_line, device_line, subsystems_line, class_line, subclass_line,
  prog_if_line, Generated, nothing, entry_vendor, device_tokens, is_skipped, parse_line, add_line,
  change_first, read_lines, generate, push_subsystem, push_prog_if,
}
use pcilibs_rs.PciIds.Build.Packages.{Nom, Phf, IsPhf}
use pcilibs_rs.PciIds.Build.Listing.{vendor_entry, vendors_of, classes_of}
use pcilibs_rs.PciIds.Build.Tables.{In-map, tables_of}

abbrev IsEntry : ℕ × Vendor → Type 0
IsEntry e = (v : CgVendor) × (e ≡ vendor_entry v)

entry_vendor-IsEntry :
    (o : Option CgVendor) (vendors : List (ℕ × Vendor))
    → All IsEntry vendors
    → All IsEntry (entry_vendor o vendors)
entry_vendor-IsEntry none vendors h = h
entry_vendor-IsEntry (some v) vendors h = All-append IsEntry vendors _ h ((v, refl), tt)

-- The vendors of what comes out, if it does.
abbrev After : Option Generated → Type 0
After none = Unit
After (some g) = All IsEntry g.vendors

After-bind :
    {A : Type 0} (o : Option A) (f : A → Option Generated)
    → ((a : A) → After (f a))
    → After (o >>= f)
After-bind none f h = tt
After-bind (some a) f h = h a

After-step :
    (o : Option Generated) (f : Generated → Option Generated)
    → After o
    → ((g : Generated) → All IsEntry g.vendors → After (f g))
    → After (o >>= f)
After-step none f h k = tt
After-step (some g) f h k = k g h

add_line-After : (l : Line) (g : Generated) → All IsEntry g.vendors → After (add_line l g)
unfolding add_line
add_line-After (vendor_line name id) g k = entry_vendor-IsEntry g.curr_vendor g.vendors k
add_line-After (device_line name id) g k = After-bind g.curr_vendor _ (λ v. k)
add_line-After (subsystems_line name subvendor subdevice) g k = After-bind g.curr_vendor _ (λ v.
    After-bind
      (change_first (λ d. d.id == g.curr_device_id) (push_subsystem subvendor subdevice name)
        v.devices)
      _ (λ ds. k))
add_line-After (class_line name id) g k = k
add_line-After (subclass_line name id) g k = After-bind g.curr_class _ (λ c. k)
add_line-After (prog_if_line name id) g k = After-bind g.curr_class _ (λ c.
    After-bind (change_first (λ s. s.id == g.curr_subclass_id) (push_prog_if id name) c.subclasses)
      _ (λ ss. k))

module _ (nom : Nom) where
  read_lines-After :
      (text : List (Option Bytes)) (g : Generated)
      → All IsEntry g.vendors
      → After (read_lines nom text g)
  unfolding read_lines
  read_lines-After [] g h = h
  read_lines-After (none ∷ text) g h = tt
  read_lines-After (some line ∷ text) g h = elim (Bool-cases (is_skipped line)) [
    | inl e ↦ rw e (read_lines-After text g h)
    | inr e ↦ elim (Option-cases (parse_line nom line)) [
      | inl p ↦ rw (e, p) h
      | inr (l, p) ↦
          rw (e, p)
            (After-step (add_line l g) (λ g'. read_lines nom text g') (add_line-After l g h)
              (λ g' k. read_lines-After text g' k))
    ]
  ]

  After-some :
      (o : Option Generated) {g : Generated} → After o → o ≡ some g → All IsEntry (vendors_of g)
  After-some none h e = cc e
  After-some (some g') {g} h e =
      rw (ap (λ x. vendors_of (unwrap x)) e) at (entry_vendor-IsEntry g'.curr_vendor g'.vendors h)
    where
      unwrap : Option Generated → Generated
      unwrap none = g
      unwrap (some x) = x

  module _ (phf : Phf) (is_phf : IsPhf phf) where
    -- The table has entries of the program that was read, each under its ID.
    vendors-IsEntry :
        (text : List (Option Bytes)) {database : Database}
        → generate nom phf text ≡ some database
        → (e : ℕ × Vendor) → In e database.vendors
        → IsEntry e
    unfolding generate
    vendors-IsEntry text h e m = elim (Option-cases (read_lines nom text nothing)) [
      | inl q ↦ cc (rw q at h)
      | inr (g, q) ↦
          let (a, _) =
            tables_of (phf.build Vendor (vendors_of g)) (phf.build Class (classes_of g))
              (rw q at h) in
          All-In IsEntry
            (After-some (read_lines nom text nothing) (read_lines-After text nothing tt) q)
            ((is_phf.same Vendor (vendors_of g) _ a e).0 m)
    ]

    -- In the tables of every build that succeeds, whatever the file says: the vendor of a device
    -- that a lookup gives can be looked up itself, so that `Device::vendor` does not panic, and
    -- is the one under the ID asked for.
    pub vendor_of-generate :
        (text : List (Option Bytes)) (vid pid : ℕ) {database : Database} {d : Device}
        → generate nom phf text ≡ some database
        → from_vid_pid database vid pid ≡ some d
        → (v : Vendor) × (vendor_of database d ≡ some v) × (vendor_from_id database vid ≡ some v)
    unfolding from_vid_pid vendor_of vendor_from_id
    vendor_of-generate text vid pid {database} {d} built h =
        elim (Option-cases (get vid database.vendors)) [
          | inl e ↦ cc (rw e at h)
          | inr (v, e) ↦
              let (cg, same) =
                vendors-IsEntry text built (vid, v) (get-In vid database.vendors v e) in
              let (m, _) = find-In (λ x. x.id == pid) v.devices d (rw e at h) in
              let (c, _, marked) =
                In-map (device_tokens cg.id) cg.devices (rw (ap (λ x. x.1.devices) same) at m) in
              let key : d.vendor_id ≡ vid =
                ap (λ x. x.vendor_id) marked ∙ sym (ap (λ x. x.0) same) in
              (v, rw key e, e)
        ]
