-- ===== src/PciManager/Sorted.antt =====
-- The devices of `get_all_devices` are listed by domain, bus, device and function.
use pcilibs_rs.Prelude.{
  ℕ, Option, none, some, List, [], ◌∷◌, All, Bool-cases, Option-cases, ◌≡◌, refl, sym, ◌∙◌, inl,
  inr, Result, ok, err, ok_or, bind-eq-ok,
}
use pcilibs_rs.Text.{Bytes, codes}
use pcilibs_rs.Sort.{sort_by, by_key}
use pcilibs_rs.Sort.Laws.{sort_by-All, sort_by-Ascending, by_key-IsOrder}
use pcilibs_rs.Bdf.{normalize_bdf}
use pcilibs_rs.Bdf.Canonical.{Address, Normalized, normalize_bdf-Normalized}
use pcilibs_rs.Sysfs.{Sysfs, join, devices}
use pcilibs_rs.Files.{
  Files, IoError, not_found, resource_busy, timed_out, invalid_input, invalid_data, other, panicked,
  os_error,
}
use pcilibs_rs.PciDev.Attributes.{parse_attr, u16_max, u32_max}
use pcilibs_rs.PciIds.{Database}
use pcilibs_rs.PciManager.{
  PciDevice, linked, read_identified, read_device, is_asked, cache_get, get_device_by_pci_bus_id,
  push_found, get_all_devices,
}
use pcilibs_rs.PciManager.Cached.{insert_read-first, each_device, get_all_devices-each_device}
use pcilibs_rs.PciManager.Addresses.{key, HasOneDigit, IsListed, Ascending-IsListed}

module _ {S : Type 0} (files : Files S) (database : Database) (sysfs : Sysfs) where
  read_identified-address :
      (address : Bytes) (vendor : ℕ) (s : S) {dev : PciDevice}
      → read_identified files database sysfs address vendor s ≡ ok dev
      → dev.address ≡ address
  unfolding read_identified
  read_identified-address address vendor s h =
      let path = join (devices sysfs) address in
      let (text, _, h1) = bind-eq-ok (files.read_to_string (join path (codes "class")) s) _ h in
      let (_, _, h2) = bind-eq-ok (ok_or (parse_attr u32_max text) panicked) _ h1 in
      let (id, _, h3) = bind-eq-ok (files.read_to_string (join path (codes "device")) s) _ h2 in
      let (_, _, h4) = bind-eq-ok (ok_or (parse_attr u16_max id) panicked) _ h3 in
      let (_, _, h5) =
        bind-eq-ok (linked files (files.read_link (join path (codes "driver")) s)) _ h4 in
      let (_, _, h6) =
        bind-eq-ok (linked files (files.read_link (join path (codes "iommu_group")) s)) _ h5 in
      cc h6

  read_device-address :
      (address : Bytes) (vendor : Option ℕ) (s : S) {dev : PciDevice}
      → read_device files database sysfs address vendor s ≡ ok (some dev)
      → dev.address ≡ address
  unfolding read_device
  read_device-address address vendor s {dev} h =
      let path = join (devices sysfs) address in
      let (text, _, h1) = bind-eq-ok (files.read_to_string (join path (codes "vendor")) s) _ h in
      let (id, _, h2) = bind-eq-ok (ok_or (parse_attr u16_max text) invalid_data) _ h1 in
      elim (Bool-cases (is_asked vendor id)) [
        | inl t ↦
            let (d, e, h3) =
              bind-eq-ok (read_identified files database sysfs address id s) _ (rw t at h2) in
            let same : d ≡ dev = cc h3 in rw (← same) (read_identified-address address id s e)
        | inr t ↦ absurd (cc (rw t at h2))
      ]

  get_device_by_pci_bus_id-Normalized :
      (name : Bytes) (vendor : Option ℕ) (s : S) (dev : PciDevice)
      → (get_device_by_pci_bus_id files database sysfs name vendor [] s).0 ≡ ok (some dev)
      → Normalized dev.address
  unfolding get_device_by_pci_bus_id cache_get
  get_device_by_pci_bus_id-Normalized name vendor s dev h =
      elim (Option-cases (normalize_bdf name)) [
        | inl e ↦ absurd (cc (rw e at h))
        | inr (address, e) ↦
            let read = read_device files database sysfs address vendor s in
            let found =
              sym (insert_read-first files database sysfs vendor s address read) ∙ (rw e at h) in
            rw (read_device-address address vendor s found) (normalize_bdf-Normalized name e)
      ]

  push_found-All :
      (P : PciDevice → Type 0) (r : Result IoError (Option PciDevice))
      (rest : Result IoError (List PciDevice)) {devs : List PciDevice}
      → ((dev : PciDevice) → r ≡ ok (some dev) → P dev)
      → ((ds : List PciDevice) → rest ≡ ok ds → All P ds)
      → push_found files database sysfs r rest ≡ ok devs
      → All P devs
  push_found-All P (ok (some dev)) rest {devs} one more h =
      let (ds, e, h1) = bind-eq-ok rest _ h in
      let same : dev ∷ ds ≡ devs = cc h1 in rw (← same) (one dev refl, more ds e)
  push_found-All P (ok none) rest one more h = more _ h
  push_found-All P (err panicked) rest one more h = absurd (cc h)
  push_found-All P (err not_found) rest one more h = more _ h
  push_found-All P (err resource_busy) rest one more h = more _ h
  push_found-All P (err timed_out) rest one more h = more _ h
  push_found-All P (err invalid_input) rest one more h = more _ h
  push_found-All P (err invalid_data) rest one more h = more _ h
  push_found-All P (err other) rest one more h = more _ h
  push_found-All P (err (os_error n)) rest one more h = more _ h

  each_device-Normalized :
      (vendor : Option ℕ) (s : S) (entries : List (Result IoError Bytes)) (devs : List PciDevice)
      → each_device files database sysfs vendor s entries ≡ ok devs
      → All (λ dev. Normalized dev.address) devs
  each_device-Normalized vendor s [] devs h = let same : [] ≡ devs = cc h in rw (← same) tt
  each_device-Normalized vendor s (err e ∷ entries) devs h = absurd (cc h)
  each_device-Normalized vendor s (ok name ∷ entries) devs h =
      push_found-All (λ dev. Normalized dev.address)
        (get_device_by_pci_bus_id files database sysfs name vendor [] s).0
        (each_device files database sysfs vendor s entries)
        (get_device_by_pci_bus_id-Normalized name vendor s)
        (each_device-Normalized vendor s entries) h

  -- Where the devices are listed, and the function of each is one digit of its address: their
  -- addresses spell fields that are in range, and they are listed by domain, then bus, then
  -- device, then function.
  pub get_all_devices-IsListed :
      (vendor : Option ℕ) (s : S) (devs : List PciDevice)
      → get_all_devices files database sysfs vendor s ≡ ok devs
      → All HasOneDigit devs
      → (addresses : List Address) × IsListed devs addresses
  get_all_devices-IsListed vendor s devs h digit =
      let listing = sym (get_all_devices-each_device files database sysfs vendor s) ∙ h in
      let (entries, _, h1) = bind-eq-ok (files.read_dir (devices sysfs) s) _ listing in
      let (found, e, h2) = bind-eq-ok (each_device files database sysfs vendor s entries) _ h1 in
      let same : sort_by (by_key key) found ≡ devs = cc h2 in
      Ascending-IsListed devs
        (rw (← same) (
          sort_by-All (by_key key) (λ dev. Normalized dev.address) found
            (each_device-Normalized vendor s entries found e)))
        digit (rw (← same) (sort_by-Ascending (by_key key) (by_key-IsOrder key) found))
