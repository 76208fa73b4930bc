-- ===== src/PciManager/Cached.antt =====
-- The cache changes what is read, not what is found.
use pcilibs_rs.Prelude.{
  ℕ, Option, none, some, List, [], ◌∷◌, All, ◌≡◌, refl, sym, ◌∙◌, Bool-cases, Option-cases,
  Result-cases, inl, inr, Result, ok, err, ◌>>=◌,
}
use pcilibs_rs.Text.{Bytes, equal}
use pcilibs_rs.Text.Equality.{equal_iff}
use pcilibs_rs.Sort.{sort_by, by_key}
use pcilibs_rs.Bdf.{normalize_bdf}
use pcilibs_rs.Sysfs.{Sysfs, devices}
use pcilibs_rs.Files.{Files, IoError}
use pcilibs_rs.PciIds.{Database}
use pcilibs_rs.PciManager.{
  PciDevice, Cache, cache_get, address_to_id, read_device, insert_read, get_named,
  get_device_by_pci_bus_id, push_found, collect_devices, get_all_devices,
}

module _ {S : Type 0} (files : Files S) (database : Database) (sysfs : Sysfs) (vendor : Option ℕ)
    (s : S) where
  -- What is cached is what reading the device again, for the same vendor, would give.
  abbrev pub IsCoherent : Cache → Type 0
  IsCoherent cache =
      All (λ (e : Bytes × PciDevice). read_device files database sysfs e.0 vendor s ≡ ok (some e.1))
        cache

  cache_get-IsCoherent :
      (address : Bytes) (cache : Cache) (dev : PciDevice)
      → IsCoherent cache
      → cache_get address cache ≡ some dev
      → read_device files database sysfs address vendor s ≡ ok (some dev)
  unfolding cache_get
  cache_get-IsCoherent address [] dev c h = cc h
  cache_get-IsCoherent address ((a, d) ∷ cache) dev c h = elim (Bool-cases (equal address a)) [
    | inl e ↦
        let same : d ≡ dev = cc (rw e at h) in
        let named = (equal_iff address a).0 e in rw (named, ← same) c.0
    | inr e ↦ cache_get-IsCoherent address cache dev c.1 (rw e at h)
  ]

  -- An answer that is the one without a cache, and a cache that is coherent again.
  abbrev pub Agrees :
      Result IoError (Option PciDevice) × Cache → Result IoError (Option PciDevice) → Type 0
  Agrees out expected = (out.0 ≡ expected) × IsCoherent out.1

  insert_read-Agrees :
      (address : Bytes) (cache : Cache) (r : Result IoError (Option PciDevice))
      → IsCoherent cache
      → read_device files database sysfs address vendor s ≡ r
      → Agrees (insert_read files database sysfs address cache r) r
  insert_read-Agrees address cache (ok (some dev)) c e = (refl, (e, c))
  insert_read-Agrees address cache (ok none) c e = (refl, c)
  insert_read-Agrees address cache (err x) c e = (refl, c)

  pub insert_read-first :
      (address : Bytes) (r : Result IoError (Option PciDevice))
      → (insert_read files database sysfs address [] r).0 ≡ r
  insert_read-first address (ok (some dev)) = refl
  insert_read-first address (ok none) = refl
  insert_read-first address (err x) = refl

  get_named-Agrees :
      (address : Option Bytes) (cache : Cache)
      → IsCoherent cache
      → Agrees
          (get_named files database sysfs vendor cache s address)
          (get_named files database sysfs vendor [] s address).0
  unfolding cache_get
  get_named-Agrees none cache c = (refl, c)
  get_named-Agrees (some address) cache c = elim (Option-cases (cache_get address cache)) [
    | inl e ↦
        let (same, kept) =
          insert_read-Agrees address cache (read_device files database sysfs address vendor s) c
            refl in
        rw e (
          same
              ∙ sym (insert_read-first address (read_device files database sysfs address vendor s)),
          kept,
        )
    | inr (dev, e) ↦ rw e (
      sym (
          insert_read-first address (read_device files database sysfs address vendor s)
          ∙ cache_get-IsCoherent address cache dev c e),
      c,
    )
  ]

  -- With a cache that holds what would be read for the vendor that is asked for, a lookup answers
  -- as it does with an empty cache, and leaves such a cache.
  pub get_device_by_pci_bus_id-IsCoherent :
      (name : Bytes) (cache : Cache)
      → IsCoherent cache
      → Agrees
          (get_device_by_pci_bus_id files database sysfs name vendor cache s)
          (get_device_by_pci_bus_id files database sysfs name vendor [] s).0
  unfolding get_device_by_pci_bus_id
  get_device_by_pci_bus_id-IsCoherent name cache c = get_named-Agrees (normalize_bdf name) cache c

  -- Each name of the directory by itself, without a cache.
  abbrev pub each_device : List (Result IoError Bytes) → Result IoError (List PciDevice)
  each_device [] = ok []
  each_device (err e ∷ entries) = err e
  each_device (ok name ∷ entries) =
      push_found files database sysfs
        (get_device_by_pci_bus_id files database sysfs name vendor [] s).0 (each_device entries)

  collect_devices-each_device :
      (entries : List (Result IoError Bytes)) (cache : Cache)
      → IsCoherent cache
      → collect_devices files database sysfs entries vendor cache s ≡ each_device entries
  unfolding collect_devices
  collect_devices-each_device [] cache c = refl
  collect_devices-each_device (err e ∷ entries) cache c = refl
  collect_devices-each_device (ok name ∷ entries) cache c =
      let (same, kept) = get_device_by_pci_bus_id-IsCoherent name cache c in
      rw (same, collect_devices-each_device entries _ kept) refl

  -- All devices are those that a lookup of each name by itself finds, without a cache, sorted by
  -- their addresses.
  pub get_all_devices-each_device : get_all_devices files database sysfs vendor s ≡ (
      files.read_dir (devices sysfs) s >>= λ entries. each_device entries >>= λ found.
      ok (sort_by (by_key (λ (dev : PciDevice). address_to_id dev.address)) found))
  unfolding get_all_devices
  get_all_devices-each_device = elim (Result-cases (files.read_dir (devices sysfs) s)) [
    | inl (entries, e) ↦ rw (e, collect_devices-each_device entries [] tt) refl
    | inr (x, e) ↦ rw e refl
  ]
