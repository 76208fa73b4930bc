-- ===== src/PciIds/Build/Tests.antt =====
-- Parsers and a map as the documentation of the packages says, and the build of a small file.
use pcilibs_rs.Prelude.{
  ℕ, Bool, true, ◌&&◌, not, ◌==◌, leb, length, take, drop, Option, none, some, List, [], ◌∷◌, any,
  if◌then◌else◌, In, here, there, ◌≡◌, ◌↔◌, refl, arith, Bool-cases, inl, inr,
}
use pcilibs_rs.Text.{Bytes, codes, strip_prefix}
use pcilibs_rs.Text.Hex.{digit, is_hexdigit, from_str_radix, padded}
use pcilibs_rs.PciIds.{Vendor, Class, Database, find, get, from_vid_pid, vendor_from_id, vendor_of}
use pcilibs_rs.PciIds.Build.{
  CgDevice, CgVendor, CgSubclass, CgClass, device_tokens, vendor_tokens, class_tokens, generate,
  read_lines, parse_line, add_line, change_first,
}
use pcilibs_rs.PciIds.Build.Packages.{
  Nom, IsNom, Phf, IsPhf, Distinct, keys, ◌>>=◌, longest_run, not_empty, at_end,
}
use pcilibs_rs.PciIds.Build.Listing.{vendor_entry, class_entry}
use pcilibs_rs.PciIds.Build.Spelling.{done, comment, spelled}
use pcilibs_rs.PciIds.Build.Tables.{IsListing, generate-IsListing}
use pcilibs_rs.PciIds.Build.Orderly.{from_vid_pid-IsListing}
use pcilibs_rs.PciIds.Build.Marked.{vendor_of-generate}

abbrev nom : Nom
nom = record {
  tag = λ t s. strip_prefix t s >>= λ rest. some (rest, t);
  take = λ n s. if leb n (length s) then some (drop n s, take n s) else none;
  tab = λ s. strip_prefix (9 ∷ []) s >>= λ rest. some (rest, 9);
  hex_digit1 = λ s. not_empty (longest_run is_hexdigit s);
  all_consuming = λ A p s. p s >>= at_end;
  map_parser = λ A p q s. p s >>= λ (rest, t). q t >>= λ (_, a). some (rest, a);
  map_res = λ A B p f s. p s >>= λ (rest, a). f a >>= λ b. some (rest, b);
  terminated = λ A B p q s. p s >>= λ (s1, a). q s1 >>= λ (s2, _). some (s2, a);
  delimited =
      λ A B C p q r s. p s >>= λ (s1, _). q s1 >>= λ (s2, b). r s2 >>= λ (s3, _). some (s3, b);
  separated_pair =
      λ A B C p q r s. p s >>= λ (s1, a). q s1 >>= λ (s2, _). r s2 >>= λ (s3, c). some (s3, (a, c));
}

nom-IsNom : IsNom nom
nom-IsNom = record {
  tag_eq = λ t s. refl;
  take_eq = λ n s. refl;
  tab_eq = λ s. refl;
  hex_digit1_eq = λ s. refl;
  all_consuming_eq = λ A p s. refl;
  map_parser_eq = λ A p q s. refl;
  map_res_eq = λ A B p f s. refl;
  terminated_eq = λ A B p q s. refl;
  delimited_eq = λ A B C p q r s. refl;
  separated_pair_eq = λ A B C p q r s. refl;
}

abbrev distinct : List ℕ → Bool
distinct [] = true
distinct (k ∷ ks) = not (any (λ j. j == k) ks) && distinct ks

abbrev phf : Phf
phf = record { build = λ A entries. if distinct (keys entries) then some entries else none }

any-In : (k : ℕ) (ks : List ℕ) → In k ks → any (λ j. j == k) ks ≡ true
any-In k [] m = elim m [ ]
any-In k (j ∷ ks) (here e) = ground arith
any-In k (j ∷ ks) (there m) = ground (arith, any-In k ks m)

In-any : (k : ℕ) (ks : List ℕ) → any (λ j. j == k) ks ≡ true → In k ks
In-any k [] h = cc h
In-any k (j ∷ ks) h = elim (Bool-cases (j == k)) [
  | inl e ↦ here (ground arith)
  | inr e ↦ there (In-any k ks (rw e at h))
]

distinct_sound : (ks : List ℕ) → distinct ks ≡ true → Distinct ks
distinct_sound [] h = tt
distinct_sound (k ∷ ks) h = elim (Bool-cases (any (λ j. j == k) ks)) [
  | inl e ↦ cc (rw e at h)
  | inr e ↦ (λ m. cc (e, any-In k ks m), distinct_sound ks (rw e at h))
]

distinct_complete : (ks : List ℕ) → Distinct ks → distinct ks ≡ true
distinct_complete [] d = refl
distinct_complete (k ∷ ks) d = elim (Bool-cases (any (λ j. j == k) ks)) [
  | inl e ↦ absurd (d.0 (In-any k ks e))
  | inr e ↦ rw e (distinct_complete ks d.1)
]

build-eq-some :
    {A : Type 0} (entries table : List (ℕ × A))
    → phf.build A entries ≡ some table
    → (distinct (keys entries) ≡ true) × (entries ≡ table)
build-eq-some entries table h = elim (Bool-cases (distinct (keys entries))) [
  | inl e ↦ (e, cc (rw e at h))
  | inr e ↦ cc (rw e at h)
]

phf-IsPhf : IsPhf phf
phf-IsPhf = record {
  distinct = λ A entries table h. distinct_sound (keys entries) (build-eq-some entries table h).0;
  same = λ A entries table h e.
      let t = (build-eq-some entries table h).1 in (λ m. rw t m, λ m. rw (← t) m);
  built = λ A entries d. (entries, rw (distinct_complete (keys entries) d));
}

abbrev h100 : CgDevice
h100 = record {
  id = 0x2330;
  name = codes "GH100 [H100 SXM5 80GB]";
  subsystems = record { subvendor = 0x10de; subdevice = 0x16c1; name = codes "H100" } ∷ [];
}

abbrev e1000 : CgDevice
e1000 = record { id = 0x100e; name = codes "82540EM"; subsystems = [] }

abbrev nvidia : CgVendor
nvidia = record { id = 0x10de; name = codes "NVIDIA Corporation"; devices = h100 ∷ [] }

abbrev intel : CgVendor
intel = record { id = 0x8086; name = codes "Intel Corporation"; devices = e1000 ∷ [] }

abbrev serial : CgSubclass
serial = record {
  id = 0;
  name = codes "Serial controller";
  prog_ifs = record { id = 2; name = codes "16550" } ∷ [];
}

abbrev communication : CgClass
communication = record { id = 7; name = codes "Communication controller"; subclasses = serial ∷ [] }

abbrev file : List (Option Bytes)
file =
    some (codes "# PCI IDs")
    ∷ some []
    ∷ some (codes "10de  NVIDIA Corporation")
    ∷ some (9 ∷ codes "2330  GH100 [H100 SXM5 80GB]")
    ∷ some (9 ∷ 9 ∷ codes "10de 16c1  H100")
    ∷ some (codes "8086  Intel Corporation")
    ∷ some (9 ∷ codes "100e  82540EM")
    ∷ some (codes "# classes")
    ∷ some (codes "C 07  Communication controller")
    ∷ some (9 ∷ codes "00  Serial controller")
    ∷ some (9 ∷ 9 ∷ codes "02  16550")
    ∷ []

abbrev small : Database
small = record {
  vendors = (0x10de, vendor_tokens nvidia) ∷ (0x8086, vendor_tokens intel) ∷ [];
  classes = (7, class_tokens communication) ∷ [];
}

generate-file : generate nom phf file ≡ some small
unfolding generate read_lines parse_line add_line change_first strip_prefix is_hexdigit digit
    from_str_radix
generate-file = refl

file-IsListing : IsListing file (nvidia ∷ intel ∷ []) (communication ∷ [])
unfolding padded
file-IsListing = record {
  spells = comment refl (
      comment refl (
        spelled (omega arith) (
          spelled (omega arith) (
            spelled (omega arith, omega arith)
              (spelled (omega arith) (
                spelled (omega arith) (
                  comment refl (
                    spelled (omega arith)
                      (spelled (omega arith) (spelled (omega arith) done))))))))));
  device_ids = ((tt, tt), ((tt, tt), tt));
  subclass_ids = ((tt, tt), tt);
  vendor_ids = distinct_sound (0x10de ∷ 0x8086 ∷ []) refl;
  class_ids = distinct_sound (7 ∷ []) refl;
}

generate-IsListing_example :
    (database : Database) × (generate nom phf file ≡ some database)
    × ((e : ℕ × Vendor)
        → In e database.vendors ↔ In e (vendor_entry nvidia ∷ vendor_entry intel ∷ []))
    × ((e : ℕ × Class) → In e database.classes ↔ In e (class_entry communication ∷ []))
generate-IsListing_example =
    generate-IsListing nom phf nom-IsNom phf-IsPhf file (nvidia ∷ intel ∷ []) (communication ∷ [])
      file-IsListing

from_vid_pid-IsListing_example :
    (from_vid_pid small 0x10de 0x2330 ≡ some (device_tokens 0x10de h100)) ↔ (
      (v : CgVendor) × (c : CgDevice) × In v (nvidia ∷ intel ∷ [])
      × In c v.devices
      × (v.id ≡ 0x10de)
      × (c.id ≡ 0x2330)
      × (device_tokens 0x10de h100 ≡ device_tokens v.id c))
from_vid_pid-IsListing_example =
    from_vid_pid-IsListing nom phf nom-IsNom phf-IsPhf file-IsListing generate-file 0x10de 0x2330
      (device_tokens 0x10de h100)

from_vid_pid-h100 : from_vid_pid small 0x10de 0x2330 ≡ some (device_tokens 0x10de h100)
unfolding from_vid_pid vendor_from_id find get
from_vid_pid-h100 = refl

vendor_of-generate_example :
    (v : Vendor) × (vendor_of small (device_tokens 0x10de h100) ≡ some v)
    × (vendor_from_id small 0x10de ≡ some v)
vendor_of-generate_example =
    vendor_of-generate nom phf phf-IsPhf file 0x10de 0x2330 generate-file from_vid_pid-h100
