-- ===== src/PciIds/Build/Tables.antt =====
-- The tables of the build, and the lookups in them.
use pcilibs_rs.Prelude.{
  ℕ, false, ◌==◌, Option, none, some, List, [], ◌∷◌, ◌++◌, All, All-In, map, In, here, there, ◌≡◌,
  ◌↔◌, refl, sym, ap, ◌∙◌, arith,
}
use pcilibs_rs.Text.{Bytes}
use pcilibs_rs.PciIds.{Vendor, Class, Database, ◌>>=◌}
use pcilibs_rs.PciIds.Build.{CgVendor, CgClass, nothing, generate}
use pcilibs_rs.PciIds.Build.Packages.{Nom, IsNom, Phf, IsPhf, Distinct, keys}
use pcilibs_rs.PciIds.Build.Spelling.{Spells, read_lines-Spells}
use pcilibs_rs.PciIds.Build.Listing.{
  devices, subclasses, vendor_lines, class_lines, vendor_entry, class_entry, add_vendors,
  add_classes,
}
use pcilibs_rs.PciIds.Build.Shapes.{Shape, IsFresh, add_all-append}

pub In-map :
    {A B : Type 0} (f : A → B) (xs : List A) {y : B}
    → In y (map f xs)
    → (x : A) × In x xs × (y ≡ f x)
In-map f [] m = elim m [ ]
In-map f (x ∷ xs) (here e) = (x, here refl, e)
In-map f (x ∷ xs) (there m) = let (z, i, e) = In-map f xs m in (z, there i, e)

pub map-In : {A B : Type 0} (f : A → B) {x : A} {xs : List A} → In x xs → In (f x) (map f xs)
map-In f (here e) = here (ap f e)
map-In f (there m) = there (map-In f m)

pub Distinct-alone :
    {A : Type 0} (entries : List (ℕ × A)) (k : ℕ) (a b : A)
    → Distinct (keys entries)
    → In (k, a) entries
    → In (k, b) entries
    → b ≡ a
Distinct-alone [] k a b d m n = elim m [ ]
Distinct-alone (e ∷ entries) k a b d (here p) (here q) = ap (λ x. x.1) (q ∙ sym p)
Distinct-alone (e ∷ entries) k a b d (here p) (there n) =
    absurd (d.0 (rw (ap (λ x. x.0) (sym p)) (map-In (λ x. x.0) n)))
Distinct-alone (e ∷ entries) k a b d (there m) (here q) =
    absurd (d.0 (rw (ap (λ x. x.0) (sym q)) (map-In (λ x. x.0) m)))
Distinct-alone (e ∷ entries) k a b d (there m) (there n) = Distinct-alone entries k a b d.1 m n

module _ {I J : Type 0} (shape : Shape I J) where
  open shape use {key}

  fresh-before :
      (before is : List I) (x i : I)
      → IsFresh shape before is
      → In x before
      → In i is
      → (key x == key i) ≡ false
  fresh-before before [] x i h m n = elim n [ ]
  fresh-before before (j ∷ is) x i h m (here e) =
      rw e (All-In (λ y. (key y == key j) ≡ false) h.0 m)
  fresh-before before (j ∷ is) x i h m (there n) =
      fresh-before (before ++ j ∷ []) is x i h.1 (In-front before j m) n
    where
      In-front : (xs : List I) (y : I) → In x xs → In x (xs ++ y ∷ [])
      In-front [] y m = elim m [ ]
      In-front (z ∷ xs) y (here e) = here e
      In-front (z ∷ xs) y (there q) = there (In-front xs y q)

  In-last : (xs : List I) (y : I) → In y (xs ++ y ∷ [])
  In-last [] y = here refl
  In-last (x ∷ xs) y = there (In-last xs y)

  pub fresh-one :
      (before is : List I) (i j : I)
      → IsFresh shape before is
      → In i is
      → In j is
      → key j ≡ key i
      → j ≡ i
  fresh-one before [] i j h m n e = elim m [ ]
  fresh-one before (x ∷ is) i j h (here p) (here q) e = q ∙ sym p
  fresh-one before (x ∷ is) i j h (here p) (there n) e =
      let f = fresh-before (before ++ x ∷ []) is x j h.1 (In-last before x) n in
      let same : key x ≡ key j = ap key (sym p) ∙ sym e in absurd (ground arith)
  fresh-one before (x ∷ is) i j h (there m) (here q) e =
      let f = fresh-before (before ++ x ∷ []) is x i h.1 (In-last before x) m in
      let same : key x ≡ key i = ap key (sym q) ∙ e in absurd (ground arith)
  fresh-one before (x ∷ is) i j h (there m) (there n) e =
      fresh-one (before ++ x ∷ []) is i j h.1 m n e

-- A file that lists these vendors and classes, each ID once.
pub record IsListing (text : List (Option Bytes)) (vs : List CgVendor) (cs : List CgClass)
    : Type 0 where
  pub spells : Spells text (vendor_lines vs ++ class_lines cs)
  pub device_ids : All (λ v. IsFresh devices [] v.devices) vs
  pub subclass_ids : All (λ c. IsFresh subclasses [] c.subclasses) cs
  pub vendor_ids : Distinct (keys (map vendor_entry vs))
  pub class_ids : Distinct (keys (map class_entry cs))

pub tables_of :
    (a : Option (List (ℕ × Vendor))) (b : Option (List (ℕ × Class))) {database : Database}
    → (a >>= λ x. b >>= λ y. some (record { vendors = x; classes = y })) ≡ some database
    → (a ≡ some database.vendors) × (b ≡ some database.classes)
tables_of (some a) (some b) h = ground arith
tables_of (some a) none h = cc h
tables_of none b h = cc h

module _ (nom : Nom) (phf : Phf) (is_nom : IsNom nom) (is_phf : IsPhf phf) where
  pub generate-build :
      (text : List (Option Bytes)) (vs : List CgVendor) (cs : List CgClass)
      → IsListing text vs cs
      → generate nom phf text ≡ (
          phf.build Vendor (map vendor_entry vs) >>= λ a.
          phf.build Class (map class_entry cs) >>= λ b. some (record { vendors = a; classes = b }))
  unfolding generate
  generate-build text vs cs l =
      let (g, e, vendors, classes) = add_vendors vs nothing l.device_ids in
      let (g', e', classes', vendors') = add_classes cs g l.subclass_ids in
      rw (
        read_lines-Spells nom is_nom nothing l.spells,
        add_all-append (vendor_lines vs) (class_lines cs) nothing,
        e,
        e',
        vendors',
        vendors,
        classes',
        classes,
      )

  -- The build of a file that lists vendors and classes, each ID once, succeeds, and the tables
  -- have an entry for each vendor and each class of the file and no more.
  pub generate-IsListing :
      (text : List (Option Bytes)) (vs : List CgVendor) (cs : List CgClass)
      → IsListing text vs cs
      → (database : Database) × (generate nom phf text ≡ some database)
        × ((e : ℕ × Vendor) → In e database.vendors ↔ In e (map vendor_entry vs))
        × ((e : ℕ × Class) → In e database.classes ↔ In e (map class_entry cs))
  generate-IsListing text vs cs l =
      let (a, built_a) = is_phf.built Vendor (map vendor_entry vs) l.vendor_ids in
      let (b, built_b) = is_phf.built Class (map class_entry cs) l.class_ids in
      (
        record { vendors = a; classes = b },
        generate-build text vs cs l ∙ rw (built_a, built_b),
        is_phf.same Vendor (map vendor_entry vs) a built_a,
        is_phf.same Class (map class_entry cs) b built_b,
      )
