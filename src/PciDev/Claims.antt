-- ===== src/PciDev/Claims.antt =====
-- The set of held paths: the claims of the handles that are open, each once.
use pcilibs_rs.Prelude.{
  ℕ, true, false, not, ◌&&◌, Option, none, some, List, [], ◌∷◌, Result, ok, err, ◌≡◌, refl, inl,
  inr, ap, arith, Bool-cases,
}
use pcilibs_rs.Text.{Bytes, codes}
use pcilibs_rs.Sysfs.Paths.{same_path, same_path_iff}
use pcilibs_rs.Bdf.{normalize_bdf}
use pcilibs_rs.Sysfs.{Sysfs, FilePath, join, devices}
use pcilibs_rs.Files.{Files, IoError}
use pcilibs_rs.Effects.{pure}
use pcilibs_rs.Effects.Hoare.{Post, Returns, Returns-bind}
use pcilibs_rs.Device.{Machine}
use pcilibs_rs.PciDev.Switches.{reading, wake}
use pcilibs_rs.PciDev.Attributes.{attr_hex}
use pcilibs_rs.PciDev.Handle.{
  PciDev, Process, holds, release, handle, decode, with_power, switch_on, mapped, identified,
  claimed, settle, open_at, open_named, open_in,
}

same_path_self : (s : FilePath) → same_path s s ≡ true
same_path_self s = (same_path_iff s s).1 refl

release-absent :
    (path : FilePath) (held : List FilePath) → holds path held ≡ false → release path held ≡ held
unfolding release
release-absent path [] h = refl
release-absent path (p ∷ held) h = elim (Bool-cases (same_path path p)) [
  | inl e ↦ let c : true ≡ false = ground arith in cc c
  | inr e ↦ rw e (ap (λ t. p ∷ t) (release-absent path held (ground arith)))
]

-- A path is held behind a release if it was held and is another.
pub holds-release :
    (q path : FilePath) (held : List FilePath)
    → holds q (release path held) ≡ (holds q held && not (same_path path q))
unfolding release
holds-release q path [] = refl
holds-release q path (p ∷ held) = ground (
  arith,
  holds-release q path held,
  same_path_iff path p,
  same_path_iff q p,
  same_path_iff path q,
)

module _ {S : Type 0} (files : Files S) (machine : Machine S)
    (map_bar0 : FilePath → S → Result IoError ℕ) where
  module _ (bdf : Bytes) (path : FilePath) where
    abbrev IsAt : PciDev → Type 0
    IsAt dev = dev.path ≡ path

    claimed-IsAt : Returns IsAt (claimed files machine map_bar0 bdf path)
    unfolding claimed switch_on
    claimed-IsAt =
        Returns-bind IsAt (reading files (attr_hex files path (codes "vendor")))
          (identified files machine map_bar0 bdf path)
          (λ v.
            Returns-bind IsAt (reading files (attr_hex files path (codes "device")))
              (mapped files machine map_bar0 bdf path v)
              (λ d.
                Returns-bind IsAt (reading files (map_bar0 (join path (codes "resource0"))))
                  (switch_on files machine map_bar0 bdf path v d)
                  (λ b.
                    Returns-bind IsAt (wake files machine path)
                      (with_power files machine map_bar0 bdf path v d b)
                      (λ power.
                        Returns-bind IsAt (decode files machine map_bar0 path power)
                          (λ e. pure (handle files machine map_bar0 bdf path v d b power e))
                          (λ e s. refl)))))

  -- What an attempt to open has done to the set.
  abbrev pub IsClaim : List FilePath → Result IoError PciDev → List FilePath → Type 0
  IsClaim before (ok dev) after = (holds dev.path before ≡ false) × (after ≡ dev.path ∷ before)
  IsClaim before (err e) after = after ≡ before

  settle-IsClaim :
      (path : FilePath) (held : List FilePath) (r : Result IoError PciDev × S)
      → holds path held ≡ false
      → Post (λ (dev : PciDev) (_ : S). dev.path ≡ path) (λ _. Unit) r.0 r.1
      → let out = settle files machine map_bar0 path held r in IsClaim held out.0 (out.1).held
  settle-IsClaim path held (ok dev, s) free p = (rw p free, rw p refl)
  settle-IsClaim path held (err e, s) free p =
      unfold release in rw (same_path_self path) (release-absent path held free)

  open_at-IsClaim :
      (bdf : Bytes) (path : FilePath) (p : Process S)
      → let out = open_at files machine map_bar0 bdf path p in IsClaim p.held out.0 (out.1).held
  open_at-IsClaim bdf path p = elim (Bool-cases (files.exists path p.kernel)) [
    | inr e ↦ rw e refl
    | inl e ↦ rw e (elim (Bool-cases (holds path p.held)) [
      | inl busy ↦ rw busy refl
      | inr free ↦ rw free (settle-IsClaim path p.held _ free (claimed-IsAt bdf path p.kernel))
    ])
  ]

  open_named-IsClaim :
      (sysfs : Sysfs) (name : Option Bytes) (p : Process S)
      → let out = open_named files machine map_bar0 sysfs name p in
        IsClaim p.held out.0 (out.1).held
  open_named-IsClaim sysfs none p = refl
  open_named-IsClaim sysfs (some name) p = open_at-IsClaim name (join (devices sysfs) name) p

  -- Opening a device claims it exactly if it succeeds, and then it was not claimed before; where
  -- it fails, the claims are as they were.
  pub open_in-IsClaim :
      (sysfs : Sysfs) (bdf : Bytes) (p : Process S)
      → let out = open_in files machine map_bar0 sysfs bdf p in IsClaim p.held out.0 (out.1).held
  unfolding open_in
  open_in-IsClaim sysfs bdf p = open_named-IsClaim sysfs (normalize_bdf bdf) p
