-- ===== src/Sysfs/Confined.antt =====
-- A caller's text reaches a path as one ordinary component at its end, or not at all.
use pcilibs_rs.Prelude.{
  ℕ, Bool, true, false, some, [], ◌∷◌, ◌++◌, ◌≡◌, ◌≢◌, refl, arith, All, suc, length, ◌∙◌, ap,
  Option-cases, inl, inr,
}
use pcilibs_rs.Text.{Bytes, codes, equal}
use pcilibs_rs.Text.Split.{Free}
use pcilibs_rs.Text.Hex.{padded}
use pcilibs_rs.Text.Hex.RoundTrip.{LowerHex, padded-LowerHex, length-padded}
use pcilibs_rs.Bdf.{render, normalize_bdf}
use pcilibs_rs.Bdf.Canonical.{AddressByte, normalize_bdf-AddressByte, normalize_bdf-Normalized}
use pcilibs_rs.Sysfs.{
  FilePath, normal, join, piece, components, is_component, Sysfs, bus_pci, devices, device, driver,
  module_path, underscored,
}
use pcilibs_rs.Sysfs.Joined.{IsOrdinary, components-join, is_component-IsOrdinary}

-- The path of an accepted driver name is the drivers directory and that name.
pub driver-components :
    (s : Sysfs) (name : Bytes) {path : FilePath}
    → driver s name ≡ some path
    → components path ≡ components (join (bus_pci s) (codes "drivers")) ++ normal name ∷ []
unfolding driver
driver-components s name {path} h =
    let accepted : is_component name ≡ true = ground arith in
    let made : join (join (bus_pci s) (codes "drivers")) name ≡ path = ground arith in
    rw (← made) (components-join _ (is_component-IsOrdinary name accepted))

-- The path of an accepted module name is the modules directory and that name, its hyphens
-- replaced by underscores.
pub module_path-components :
    (s : Sysfs) (name : Bytes) {path : FilePath}
    → module_path s name ≡ some path
    → components path ≡ components (join s.root (codes "module")) ++ normal (underscored name) ∷ []
unfolding module_path
module_path-components s name {path} h =
    let n = underscored name in
    let accepted : is_component n ≡ true = ground arith in
    let made : join (join s.root (codes "module")) n ≡ path = ground arith in
    rw (← made) (components-join _ (is_component-IsOrdinary n accepted))

AddressByte-Free : (s : Bytes) → All AddressByte s → Free b'/' s
AddressByte-Free [] h = tt
AddressByte-Free (c ∷ s) h = (ground arith, AddressByte-Free s h.1)

-- A text that starts with a digit is neither `.` nor `..`.
piece_hex :
    (at_start : Bool) (c : ℕ) (s : Bytes)
    → LowerHex c
    → piece at_start (c ∷ s) ≡ normal (c ∷ s) ∷ []
unfolding piece equal
piece_hex at_start c s h = ground arith

starts_hex :
    (x rest : Bytes)
    → All LowerHex x
    → x ≢ []
    → (c : ℕ) × (s : Bytes) × (x ++ rest ≡ c ∷ s) × LowerHex c
starts_hex [] rest h n = absurd (n refl)
starts_hex (c ∷ x) rest h n = (c, x ++ rest, refl, h.0)

padded-ne-nil : (k n : ℕ) → padded (suc k) n ≢ []
padded-ne-nil k n e = omega (arith, length-padded (suc k) n, ap length e)

normalize_bdf-IsOrdinary :
    (address : Bytes) {bdf : Bytes} → normalize_bdf address ≡ some bdf → IsOrdinary bdf
unfolding render
normalize_bdf-IsOrdinary address h =
    let n = normalize_bdf-Normalized address h in
    let d = n.address.domain in
    let (c, s, e, x) = starts_hex (padded 4 d) _ (padded-LowerHex 4 d) (padded-ne-nil 3 d) in
    let spells = n.spells ∙ e in
    record {
      free = AddressByte-Free _ (normalize_bdf-AddressByte address h);
      at_start = rw spells (piece_hex true c s x);
      inside = rw spells (piece_hex false c s x);
    }

-- The path of an accepted address is the devices directory and the canonical address.
pub device-components :
    (s : Sysfs) (address : Bytes) {path : FilePath}
    → device s address ≡ some path
    → (bdf : Bytes) × (normalize_bdf address ≡ some bdf)
      × (components path ≡ components (devices s) ++ normal bdf ∷ [])
unfolding device
device-components s address {path} h = elim (Option-cases (normalize_bdf address)) [
  | inl e ↦ absurd (ground arith)
  | inr (bdf, e) ↦
      let made : join (devices s) bdf ≡ path = ground arith in
      (bdf, e, rw (← made) (components-join (devices s) (normalize_bdf-IsOrdinary address e)))
]
