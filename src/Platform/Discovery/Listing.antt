-- ===== src/Platform/Discovery/Listing.antt =====
-- What the discoveries list, and that they agree.
use mathlib.Core.List.{Permᴰ}
use pcilibs_rs.Prelude.{
  ℕ, ◌/◌, ◌||◌, ◌==◌, Option, none, some, List, [], ◌∷◌, map, filter, All, ◌≡◌, refl, ap, ◌∙◌,
  Bool-cases, Option-cases, inl, inr, bind-eq-ok, Result, ok, err,
}
use pcilibs_rs.Text.{Bytes, codes}
use pcilibs_rs.Sort.{sort_by}
use pcilibs_rs.Sort.Laws.{Ascending, Permᴰ-map, sort_by-Ascending, sort_by-Permᴰ, sort_by-All}
use pcilibs_rs.Sort.Texts.{by_text-IsOrder}
use pcilibs_rs.Bdf.{normalize_bdf}
use pcilibs_rs.Sysfs.{Sysfs, join, devices}
use pcilibs_rs.Files.{Files, IoError}
use pcilibs_rs.PciDev.Attributes.{attr_hex}
use pcilibs_rs.Nvlink.Fabric.{PciFunction, discover_fabric}
use pcilibs_rs.Platform.Discovery.{
  GpuFunction, Topology, is_of, gpus_by_vendor, by_bdf, is_gpu, pci_function, read_functions,
  pci_functions, discover_gpus, gpu_function, discover_topology,
}

abbrev pub bdf_of : PciFunction → Bytes
bdf_of f = f.bdf

abbrev pub gpu_bdf : GpuFunction → Bytes
gpu_bdf gpu = gpu.bdf

abbrev pub put_address : Option Bytes → List Bytes → List Bytes
put_address none rest = rest
put_address (some bdf) rest = bdf ∷ rest

-- The names of a directory that are addresses, canonically.
abbrev pub addresses : List (Result IoError Bytes) → List Bytes
addresses [] = []
addresses (err e ∷ entries) = addresses entries
addresses (ok name ∷ entries) = put_address (normalize_bdf name) (addresses entries)

by_vendor-gpus :
    (vendor : Option ℕ) (fs : List PciFunction)
    → map bdf_of (filter (is_gpu vendor) fs)
      ≡ map gpu_bdf (
          filter
            (λ (gpu : GpuFunction). is_of vendor gpu.vendor)
            (map gpu_function (filter (is_gpu none) fs)))
by_vendor-gpus vendor [] = refl
by_vendor-gpus vendor (f ∷ fs) =
    elim (Bool-cases (f.class / 256 == 0x0300 || f.class / 256 == 0x0302)) [
      | inr e ↦ rw e (elim (Bool-cases (is_of vendor f.vendor)) [
        | inl o ↦ rw o (by_vendor-gpus vendor fs)
        | inr o ↦ rw o (by_vendor-gpus vendor fs)
      ])
      | inl e ↦ rw e (elim (Bool-cases (is_of vendor f.vendor)) [
        | inl o ↦ rw o (ap (λ t. f.bdf ∷ t) (by_vendor-gpus vendor fs))
        | inr o ↦ rw o (by_vendor-gpus vendor fs)
      ])
    ]

module _ {S : Type 0} (files : Files S) (sysfs : Sysfs) where
  -- When the whole topology is discovered, `discover_gpus` succeeds too and lists the addresses of
  -- the GPUs of that vendor in it, in the same order.
  pub discover_gpus-gpus_by_vendor :
      (vendor : Option ℕ) (s : S) {t : Topology}
      → discover_topology files sysfs s ≡ ok t
      → discover_gpus files sysfs vendor s ≡ ok (map gpu_bdf (gpus_by_vendor t vendor))
  unfolding discover_topology discover_gpus
  discover_gpus-gpus_by_vendor vendor s {t} h =
      let (functions, e, rest) = bind-eq-ok (pci_functions files sysfs s) _ h in
      let (fabric, _, same) = bind-eq-ok (discover_fabric files sysfs functions s) _ rest in
      let gpus : map gpu_function (filter (is_gpu none) functions) ≡ t.gpus = cc same in
      rw (e, ← gpus) (ap ok (by_vendor-gpus vendor functions))

  -- The attributes that the listing reports are those that the files say.
  abbrev pub IsRead : S → PciFunction → Type 0
  IsRead s f = pci_function files sysfs f.bdf s ≡ ok f

  bdf-pci_function :
      (bdf : Bytes) (s : S) (f : PciFunction) → pci_function files sysfs bdf s ≡ ok f → f.bdf ≡ bdf
  bdf-pci_function bdf s f h =
      let (vendor, _, rest) =
        bind-eq-ok (attr_hex files (join (devices sysfs) bdf) (codes "vendor") s) _ h in
      let (class, _, same) =
        bind-eq-ok (attr_hex files (join (devices sysfs) bdf) (codes "class") s) _ rest in
      cc same

  read_functions-addresses :
      (entries : List (Result IoError Bytes)) (s : S) (fs : List PciFunction)
      → read_functions files sysfs entries s ≡ ok fs
      → (map bdf_of fs ≡ addresses entries) × All (IsRead s) fs
  unfolding read_functions
  read_functions-addresses [] s fs h = let same : [] ≡ fs = cc h in rw (← same) (refl, tt)
  read_functions-addresses (err e ∷ entries) s fs h = cc h
  read_functions-addresses (ok name ∷ entries) s fs h = elim (Option-cases (normalize_bdf name)) [
    | inl e ↦ rw e (read_functions-addresses entries s fs (rw e at h))
    | inr (bdf, e) ↦
        let (f, p, rest) = bind-eq-ok (pci_function files sysfs bdf s) _ (rw e at h) in
        let (gs, q, same) = bind-eq-ok (read_functions files sysfs entries s) _ rest in
        let (listed, read) = read_functions-addresses entries s gs q in
        let named = bdf-pci_function bdf s f p in
        let list : f ∷ gs ≡ fs = cc same in
        rw (e, ← list)
          (ap (λ t. f.bdf ∷ t) listed ∙ ap (λ b. b ∷ addresses entries) named, (rw named p, read))
  ]

  -- The functions that are listed are those whose names in the directory are addresses, each with
  -- the vendor and the class that its files say, ascending by address.
  pub pci_functions-addresses :
      (s : S) {entries : List (Result IoError Bytes)} {fs : List PciFunction}
      → files.read_dir (devices sysfs) s ≡ ok entries
      → pci_functions files sysfs s ≡ ok fs
      → Ascending by_bdf fs × Permᴰ (map bdf_of fs) (addresses entries) × All (IsRead s) fs
  unfolding pci_functions
  pci_functions-addresses s {entries} {fs} d h =
      let (names, d', rest) = bind-eq-ok (files.read_dir (devices sysfs) s) _ h in
      let (gs, q, same) = bind-eq-ok (read_functions files sysfs names s) _ rest in
      let same_names : names ≡ entries = cc (d, d') in
      let (listed, read) = read_functions-addresses entries s gs (rw same_names at q) in
      let list : sort_by by_bdf gs ≡ fs = cc same in
      rw (← list) (
        sort_by-Ascending by_bdf (by_text-IsOrder bdf_of) gs,
        rw listed at (Permᴰ-map bdf_of (sort_by-Permᴰ by_bdf gs)),
        sort_by-All by_bdf (IsRead s) gs read,
      )
