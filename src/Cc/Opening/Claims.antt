-- ===== src/Cc/Opening/Claims.antt =====
-- A device that fails its checks is not left open.
use pcilibs_rs.Prelude.{
  ℕ, Bool, false, ◌&&◌, ◌||◌, ◌==◌, Option, none, some, List, ◌∷◌, Result, ok, err, ◌≡◌, refl, ap,
  arith, Bool-cases, inl, inr,
}
use pcilibs_rs.Text.{Bytes}
use pcilibs_rs.Sysfs.{Sysfs, FilePath}
use pcilibs_rs.Sysfs.Paths.{same_path, same_path_iff}
use pcilibs_rs.Files.{Files, IoError}
use pcilibs_rs.Device.{Failure, Machine}
use pcilibs_rs.PciDev.Handle.{PciDev, Process, holds, release, open_in, close}
use pcilibs_rs.PciDev.Claims.{IsClaim, open_in-IsClaim, holds-release}
use pcilibs_rs.PciDev.Handles.{holds-same}
use pcilibs_rs.Catalog.Validate.{Fault}
use pcilibs_rs.Catalog.Snapshot.{Catalog}
use pcilibs_rs.Gpu as Profiles
use pcilibs_rs.Gpu.{chip_for, is_c2c}
use pcilibs_rs.Gpu.Chips.{Chip}
use pcilibs_rs.Cc.Operations.{finish_open, open_switch}
use pcilibs_rs.Cc.Opening.{
  CcError, OpenGpu, OpenSwitch, nvidia, dropped, kept, finish, check_opened, with_c2c, with_chip,
  check_gpu, open_gpu, listed, check_listed, open_listed, open_gpu_with_catalog, check_switch,
  open_nv_switch,
}

abbrev pub gpu_path : OpenGpu → FilePath
gpu_path g = g.pci.path

abbrev pub switch_path : OpenSwitch → FilePath
switch_path w = w.pci.path

-- What an attempt to open has done to the claims: on success the path, which was free, is held
-- beside those that were; on failure the same paths are held.
abbrev pub IsTaken :
    {A : Type 0} → (A → FilePath) → List FilePath → Result CcError A → List FilePath → Type 0
IsTaken path before (ok a) after =
    (holds (path a) before ≡ false)
    × ((q : FilePath) → holds q after ≡ (same_path q (path a) || holds q before))
IsTaken path before (err e) after = (q : FilePath) → holds q after ≡ holds q before

-- The claim is taken and given back.
holds-release_own :
    (q path : FilePath) (before : List FilePath)
    → holds path before ≡ false
    → holds q (release path (path ∷ before)) ≡ holds q before
holds-release_own q path before free = elim (Bool-cases (same_path path q)) [
  | inl e ↦
      let same = holds-same path q before ((same_path_iff path q).0 e) in
      ground (arith, holds-release q path (path ∷ before), same)
  | inr e ↦
      ground
        (arith, holds-release q path (path ∷ before), same_path_iff path q, same_path_iff q path)
]

module _ {S : Type 0} (files : Files S) (machine : Machine S)
    (map_bar0 : FilePath → S → Result IoError ℕ) where
  module _ {A : Type 0} (path : A → FilePath) (pci : PciDev) (before : List FilePath)
      (free : holds pci.path before ≡ false) where
    abbrev Out : Result CcError A × Process S → Type 0
    Out out = IsTaken path before out.0 (out.1).held

    dropped-IsTaken :
        (e : CcError) (p : Process S)
        → p.held ≡ pci.path ∷ before
        → Out (dropped files machine map_bar0 pci e p)
    unfolding close
    dropped-IsTaken e p own = λ q. rw own (holds-release_own q pci.path before free)

    kept-IsTaken :
        {B : Type 0} (f : B → A) (r : Result Failure B × S)
        → ((b : B) → path (f b) ≡ pci.path)
        → Out (kept files machine map_bar0 pci f (pci.path ∷ before) r)
    kept-IsTaken f (ok b, s) at_path = (rw (at_path b) free, λ q. rw (at_path b) refl)
    kept-IsTaken f (err e, s) at_path =
        dropped-IsTaken (CcError.stopped e) (record { held = pci.path ∷ before; kernel = s }) refl

  -- A check keeps the device or drops it.
  abbrev Takes :
      {A : Type 0} → (A → FilePath) → (PciDev → Process S → Result CcError A × Process S) → Type 0
  Takes path check =
      (pci : PciDev) (before : List FilePath) (s : S)
      → holds pci.path before ≡ false
      → let out = check pci (record { held = pci.path ∷ before; kernel = s }) in
        IsTaken path before out.0 (out.1).held

  check_opened-IsTaken :
      {A : Type 0} (path : A → FilePath) (check : PciDev → Process S → Result CcError A × Process S)
      (before : List FilePath) (r : Result IoError PciDev × Process S)
      → Takes path check
      → IsClaim files machine map_bar0 before r.0 (r.1).held
      → let out = check_opened files machine map_bar0 check r in
        IsTaken path before out.0 (out.1).held
  check_opened-IsTaken path check before (ok pci, p) takes (free, own) =
      let whole : p ≡ record { held = pci.path ∷ before; kernel = p.kernel } =
        ap (λ h. record { held = h; kernel = p.kernel }) own in
      rw whole (takes pci before p.kernel free)
  check_opened-IsTaken path check before (err e, p) takes same = λ q. ap (holds q) same

  finish-Takes :
      (chip : Chip) (c2c : Bool)
      → Takes gpu_path (λ pci. finish files machine map_bar0 pci chip c2c)
  finish-Takes chip c2c pci before s free =
      kept-IsTaken gpu_path pci before free (λ g. record { pci = pci; gpu = g })
        (finish_open machine (record { chip = chip; c2c = c2c }) s) (λ g. refl)

  module _ (builtin_text : Bytes) where
    with_c2c-Takes :
        (chip : Chip) (r : Result Fault Bool)
        → Takes gpu_path (λ pci. with_c2c files machine map_bar0 builtin_text pci chip r)
    with_c2c-Takes chip (ok c2c) pci before s free = finish-Takes chip c2c pci before s free
    with_c2c-Takes chip (err e) pci before s free =
        dropped-IsTaken gpu_path pci before free CcError.panicked _ refl

    with_chip-Takes :
        (r : Result Fault (Option Chip))
        → Takes gpu_path (λ pci. with_chip files machine map_bar0 builtin_text pci r)
    with_chip-Takes (ok (some chip)) pci before s free =
        with_c2c-Takes chip (is_c2c builtin_text pci.device) pci before s free
    with_chip-Takes (ok none) pci before s free =
        dropped-IsTaken gpu_path pci before free CcError.not_capable _ refl
    with_chip-Takes (err e) pci before s free =
        dropped-IsTaken gpu_path pci before free CcError.panicked _ refl

    check_gpu-Takes : Takes gpu_path (check_gpu files machine map_bar0 builtin_text)
    check_gpu-Takes pci before s free = elim (Bool-cases (pci.vendor == nvidia)) [
      | inl e ↦ rw e (with_chip-Takes (chip_for builtin_text pci.device) pci before s free)
      | inr e ↦ rw e (dropped-IsTaken gpu_path pci before free CcError.not_nvidia _ refl)
    ]

    -- A GPU that is opened was not open before, and is held beside what was held; where opening it
    -- fails at any of its checks, or panics, the same devices are held as before.
    pub open_gpu-IsTaken :
        (sysfs : Sysfs) (bdf : Bytes) (p : Process S)
        → let out = open_gpu files machine map_bar0 builtin_text sysfs bdf p in
          IsTaken gpu_path p.held out.0 (out.1).held
    unfolding open_gpu
    open_gpu-IsTaken sysfs bdf p =
        check_opened-IsTaken gpu_path (check_gpu files machine map_bar0 builtin_text) p.held
          (open_in files machine map_bar0 sysfs bdf p) check_gpu-Takes
          (open_in-IsClaim files machine map_bar0 sysfs bdf p)

    check_listed-Takes :
        (known : ℕ × Profiles.Properties)
        → Takes gpu_path (check_listed files machine map_bar0 builtin_text known)
    check_listed-Takes (id, profile) pci before s free =
        elim (Bool-cases (pci.vendor == nvidia && pci.device == id)) [
          | inl e ↦ rw e (finish-Takes profile.chip _ pci before s free)
          | inr e ↦ rw e (dropped-IsTaken gpu_path pci before free CcError.changed _ refl)
        ]

    open_listed-IsTaken :
        (sysfs : Sysfs) (bdf : Bytes) (known : Result CcError (ℕ × Profiles.Properties))
        (p : Process S)
        → let out = open_listed files machine map_bar0 builtin_text sysfs bdf known p in
          IsTaken gpu_path p.held out.0 (out.1).held
    open_listed-IsTaken sysfs bdf (err e) p = λ q. refl
    open_listed-IsTaken sysfs bdf (ok known) p =
        check_opened-IsTaken gpu_path (check_listed files machine map_bar0 builtin_text known)
          p.held (open_in files machine map_bar0 sysfs bdf p) (check_listed-Takes known)
          (open_in-IsClaim files machine map_bar0 sysfs bdf p)

    -- So too with a catalog, also where the catalog refuses the device before it is opened.
    pub open_gpu_with_catalog-IsTaken :
        (sysfs : Sysfs) (bdf : Bytes) (catalog : Catalog) (p : Process S)
        → let out = open_gpu_with_catalog files machine map_bar0 builtin_text sysfs bdf catalog p in
          IsTaken gpu_path p.held out.0 (out.1).held
    unfolding open_gpu_with_catalog
    open_gpu_with_catalog-IsTaken sysfs bdf catalog p =
        open_listed-IsTaken sysfs bdf
          (listed files machine map_bar0 builtin_text sysfs bdf catalog p.kernel) p

  check_switch-Takes : Takes switch_path (check_switch files machine map_bar0)
  check_switch-Takes pci before s free = elim (Bool-cases (pci.vendor == nvidia)) [
    | inl e ↦ rw e (
        kept-IsTaken switch_path pci before free (λ w. record { pci = pci; switch = w })
          (open_switch machine s) (λ w. refl))
    | inr e ↦ rw e (dropped-IsTaken switch_path pci before free CcError.not_nvidia _ refl)
  ]

  -- So too for a switch.
  pub open_nv_switch-IsTaken :
      (sysfs : Sysfs) (bdf : Bytes) (p : Process S)
      → let out = open_nv_switch files machine map_bar0 sysfs bdf p in
        IsTaken switch_path p.held out.0 (out.1).held
  unfolding open_nv_switch
  open_nv_switch-IsTaken sysfs bdf p =
      check_opened-IsTaken switch_path (check_switch files machine map_bar0) p.held
        (open_in files machine map_bar0 sysfs bdf p) check_switch-Takes
        (open_in-IsClaim files machine map_bar0 sysfs bdf p)
