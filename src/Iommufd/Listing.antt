-- ===== src/Iommufd/Listing.antt =====
-- What is enumerated is what a lookup by the canonical name finds.
use pcilibs_rs.Prelude.{
  ℕ, ◌<◌, ◌^◌, true, Option, none, some, List, [], ◌∷◌, All, All-In, In, ◌≡◌, refl, sym, arith,
  Option-cases, inl, inr, Result, ok, err,
}
use pcilibs_rs.Text.{Bytes, codes, strip_prefix}
use pcilibs_rs.Text.Decimal.{parse_unsigned}
use pcilibs_rs.Text.Decimal.RoundTrip.{parse_unsigned-printed, parse_unsigned-lt}
use pcilibs_rs.Sort.{by_key}
use pcilibs_rs.Sort.Laws.{sort_by-All}
use pcilibs_rs.Sysfs.{Sysfs, FilePath, join, vfio_dev}
use pcilibs_rs.Files.{Files, IoError}
use pcilibs_rs.PciDev.Attributes.{u32_max}
use pcilibs_rs.PciIds.{◌>>=◌}
use pcilibs_rs.Iommufd.{
  IommufdDev, numbered, vfio_name, identity, described, lookup_iommufd_dev, from_entry,
  found_devices, sorted_devices, enumerate_iommufd,
}

bind-eq-some :
    {A B : Type 0} (o : Option A) (f : A → Option B) {b : B}
    → (o >>= f) ≡ some b
    → (a : A) × (o ≡ some a) × (f a ≡ some b)
bind-eq-some none f h = cc h
bind-eq-some (some a) f h = (a, refl, h)

numbered-lt : (name : Bytes) (n : ℕ) → numbered name ≡ some n → n < 2 ^ 32
unfolding numbered
numbered-lt name n h =
    let (digits, _, parsed) =
      bind-eq-some (strip_prefix (codes "vfio") name) (parse_unsigned u32_max) h in
    parse_unsigned-lt u32_max n digits (omega arith) parsed

numbered-vfio_name : (n : ℕ) → n < 2 ^ 32 → numbered (vfio_name n) ≡ some n
unfolding numbered strip_prefix
numbered-vfio_name n h = parse_unsigned-printed 9 u32_max n (omega arith) h

module _ {S : Type 0} (files : Files S) (sysfs : Sysfs) (vfio_dir : FilePath) (s : S) where
  abbrev devices_dir : FilePath
  devices_dir = join vfio_dir (codes "devices")

  -- The device is described by its canonical name.
  abbrev IsDescribed : IommufdDev → Type 0
  IsDescribed d =
      (d.num < 2 ^ 32)
      × (d.path ≡ join devices_dir (vfio_name d.num))
      × (described files sysfs (vfio_name d.num) d.num (join devices_dir (vfio_name d.num)) s
          ≡ some d)

  described-IsDescribed :
      (n : ℕ) (d : IommufdDev)
      → n < 2 ^ 32
      → described files sysfs (vfio_name n) n (join devices_dir (vfio_name n)) s ≡ some d
      → IsDescribed d
  described-IsDescribed n d h e =
      let (i, _, made) =
        bind-eq-some (identity files sysfs (join (vfio_dev sysfs (vfio_name n)) (codes "device")) s)
          _ e in
      let num : n ≡ d.num = cc made in
      let path : join devices_dir (vfio_name n) ≡ d.path = cc made in
      (rw num at h, sym (rw num at path), rw num at e)

  from_entry-IsDescribed :
      (e : Result IoError Bytes) (d : IommufdDev)
      → from_entry files sysfs devices_dir e s ≡ some d
      → IsDescribed d
  from_entry-IsDescribed (err e) d h = cc h
  from_entry-IsDescribed (ok name) d h =
      let (n, p, rest) = bind-eq-some (numbered name) _ h in
      described-IsDescribed n d (numbered-lt name n p) rest

  found_devices-IsDescribed :
      (entries : List (Result IoError Bytes))
      → All IsDescribed (found_devices files sysfs devices_dir entries s)
  unfolding found_devices
  found_devices-IsDescribed [] = tt
  found_devices-IsDescribed (e ∷ entries) =
      elim (Option-cases (from_entry files sysfs devices_dir e s)) [
        | inl h ↦ rw h (found_devices-IsDescribed entries)
        | inr (d, h) ↦ rw h (from_entry-IsDescribed e d h, found_devices-IsDescribed entries)
      ]

  enumerate-IsDescribed : All IsDescribed (enumerate_iommufd files sysfs vfio_dir s)
  unfolding enumerate_iommufd
  enumerate-IsDescribed = sorted (files.read_dir devices_dir s)
    where
      sorted :
          (r : Result IoError (List (Result IoError Bytes)))
          → All IsDescribed (sorted_devices files sysfs devices_dir r s)
      sorted (err e) = tt
      sorted (ok entries) =
          sort_by-All (by_key (λ (d : IommufdDev). d.num)) IsDescribed
            (found_devices files sysfs devices_dir entries s) (found_devices-IsDescribed entries)

  -- A device that is enumerated, and whose file is there, is what a lookup by `vfio` and its
  -- number finds, however its entry in the directory is spelled.
  pub enumerate_iommufd-lookup_iommufd_dev :
      (d : IommufdDev)
      → In d (enumerate_iommufd files sysfs vfio_dir s)
      → files.exists d.path s ≡ true
      → lookup_iommufd_dev files sysfs (vfio_name d.num) vfio_dir s ≡ some d
  unfolding lookup_iommufd_dev
  enumerate_iommufd-lookup_iommufd_dev d m there_is =
      let (small, path, same) = All-In IsDescribed enumerate-IsDescribed m in
      let there : files.exists (join devices_dir (vfio_name d.num)) s ≡ true =
        rw path at there_is in
      rw (numbered-vfio_name d.num small, there) same
