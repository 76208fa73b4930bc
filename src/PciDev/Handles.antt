-- ===== src/PciDev/Handles.antt =====
-- The life of handles as steps, and what every state that is reached has.
use pcilibs_rs.Prelude.{
  ℕ, false, not, ◌&&◌, ◌||◌, List, [], ◌∷◌, ◌++◌, map, Result, ok, err, ◌≡◌, refl, inl, inr, ◌∙◌,
  ap, sym, arith, Bool-cases,
}
use pcilibs_rs.Text.{Bytes}
use pcilibs_rs.Sysfs.Paths.{same_path, same_path_iff}
use pcilibs_rs.Sysfs.{Sysfs, FilePath, components}
use pcilibs_rs.Files.{Files, IoError}
use pcilibs_rs.Device.{Machine}
use pcilibs_rs.PciDev.Handle.{PciDev, Process, holds, release, open_in, close}
use pcilibs_rs.PciDev.Claims.{IsClaim, open_in-IsClaim, holds-release}

-- The process with the handles that are open.
pub record World (S : Type 0) : Type 0 where
  pub process : Process S
  pub handles : List PciDev

abbrev pub claims : List PciDev → List FilePath
claims handles = map (λ (dev : PciDev). dev.path) handles

abbrev pub Distinct : List FilePath → Type 0
Distinct [] = Unit
Distinct (path ∷ paths) = (holds path paths ≡ false) × Distinct paths

-- The claims are those of the open handles, and no two handles are of one device.
pub record IsConsistent {S : Type 0} (w : World S) : Type 0 where
  pub distinct : Distinct (claims w.handles)
  pub exact : (q : FilePath) → holds q w.process.held ≡ holds q (claims w.handles)

pub holds-append :
    (q : FilePath) (xs ys : List FilePath) → holds q (xs ++ ys) ≡ (holds q xs || holds q ys)
holds-append q [] ys = refl
holds-append q (x ∷ xs) ys = ground (arith, holds-append q xs ys)

pub claims-append : (xs ys : List PciDev) → claims (xs ++ ys) ≡ claims xs ++ claims ys
claims-append [] ys = refl
claims-append (x ∷ xs) ys = ap (λ t. x.path ∷ t) (claims-append xs ys)

Distinct-without :
    (xs : List FilePath) (p : FilePath) (ys : List FilePath)
    → Distinct (xs ++ p ∷ ys)
    → Distinct (xs ++ ys) × (holds p (xs ++ ys) ≡ false)
Distinct-without [] p ys d = (d.1, d.0)
Distinct-without (x ∷ xs) p ys d =
    let (rest, absent) = Distinct-without xs p ys d.1 in
    let from = holds-append x xs (p ∷ ys) in
    let to = holds-append x xs ys in
    let first = d.0 in ((ground arith, rest), ground (arith, same_path_iff p x, same_path_iff x p))

pub holds-same :
    (p q : FilePath) (xs : List FilePath) → components p ≡ components q → holds p xs ≡ holds q xs
holds-same p q [] e = refl
holds-same p q (x ∷ xs) e =
    ground (arith, holds-same p q xs e, same_path_iff p x, same_path_iff q x)

-- What is held behind a release is what the other handles claim.
holds-without :
    (q p : FilePath) (xs ys : List FilePath)
    → holds p (xs ++ ys) ≡ false
    → (holds q (xs ++ p ∷ ys) && not (same_path p q)) ≡ holds q (xs ++ ys)
holds-without q p xs ys absent = elim (Bool-cases (same_path p q)) [
  | inl e ↦
      let same = holds-same p q (xs ++ ys) ((same_path_iff p q).0 e) in rw e (ground (arith, same))
  | inr e ↦ rw e (
      ground (
        arith,
        holds-append q xs ys,
        holds-append q xs (p ∷ ys),
        same_path_iff p q,
        same_path_iff q p,
      ))
]

module _ {S : Type 0} (files : Files S) (machine : Machine S)
    (map_bar0 : FilePath → S → Result IoError ℕ) where
  -- A device is opened, or not; a handle is dropped; the kernel's state changes by itself.
  pub data Step (w : World S) : World S → Type 0 where
    opened :
        (sysfs : Sysfs) (bdf : Bytes) {dev : PciDev} {p : Process S}
        → open_in files machine map_bar0 sysfs bdf w.process ≡ (ok dev, p)
        → Step w (record { process = p; handles = dev ∷ w.handles })
    refused :
        (sysfs : Sysfs) (bdf : Bytes) {e : IoError} {p : Process S}
        → open_in files machine map_bar0 sysfs bdf w.process ≡ (err e, p)
        → Step w (record { process = p; handles = w.handles })
    dropped :
        (before : List PciDev) (dev : PciDev) (after : List PciDev)
        → w.handles ≡ before ++ dev ∷ after
        → Step w (record {
          process = close files machine map_bar0 dev w.process;
          handles = before ++ after;
        })
    moved :
        (s : S)
        → Step w
            (record { process = record { held = w.process.held; kernel = s }; handles = w.handles })

  pub data Reach (w : World S) : World S → Type 0 where
    here : Reach w w
    next : {u v : World S} → Reach w u → Step u v → Reach w v

  opened-IsConsistent :
      (u : World S) (dev : PciDev) (after : List FilePath) (s : S)
      → IsClaim files machine map_bar0 u.process.held (ok dev) after
      → IsConsistent u
      → IsConsistent
          (record { process = record { held = after; kernel = s }; handles = dev ∷ u.handles })
  opened-IsConsistent u dev after s (free, now) c = record {
    distinct = (sym (c.exact dev.path) ∙ free, c.distinct);
    exact = λ q. rw now (ap (λ b. same_path q dev.path || b) (c.exact q));
  }

  dropped-IsConsistent :
      (u : World S) (before : List PciDev) (dev : PciDev) (after : List PciDev) (s : S)
      → u.handles ≡ before ++ dev ∷ after
      → IsConsistent u
      → IsConsistent (record {
        process = record { held = release dev.path u.process.held; kernel = s };
        handles = before ++ after;
      })
  dropped-IsConsistent u before dev after s e c =
      let spread : claims u.handles ≡ claims before ++ dev.path ∷ claims after =
        rw e (claims-append before (dev ∷ after)) in
      let (d, absent) =
        Distinct-without (claims before) dev.path (claims after) (rw spread at c.distinct) in
      record {
        distinct = rw (claims-append before after) d;
        exact = λ q.
            holds-release q dev.path u.process.held
            ∙ ap (λ b. b && not (same_path dev.path q)) (c.exact q ∙ ap (holds q) spread)
            ∙ holds-without q dev.path (claims before) (claims after) absent
            ∙ ap (holds q) (sym (claims-append before after));
      }

  Step-IsConsistent : {u v : World S} → Step u v → IsConsistent u → IsConsistent v
  unfolding close
  Step-IsConsistent {u} (opened sysfs bdf {dev} {p} e) c =
      opened-IsConsistent u dev p.held p.kernel
        (rw e at (open_in-IsClaim files machine map_bar0 sysfs bdf u.process)) c
  Step-IsConsistent {u} (refused sysfs bdf {e} {p} h) c =
      let same : p.held ≡ u.process.held =
        rw h at (open_in-IsClaim files machine map_bar0 sysfs bdf u.process) in
      record { distinct = c.distinct; exact = λ q. ap (holds q) same ∙ c.exact q }
  Step-IsConsistent {u} (dropped before dev after e) c =
      dropped-IsConsistent u before dev after _ e c
  Step-IsConsistent (moved s) c = record { distinct = c.distinct; exact = c.exact }

  -- Whatever devices are opened and dropped, in whatever order and with whatever failures: if at
  -- first the set of claims is that of the open handles, each of another device, it stays so.
  pub Reach-IsConsistent : {u v : World S} → Reach u v → IsConsistent u → IsConsistent v
  Reach-IsConsistent here c = c
  Reach-IsConsistent (next r step) c = Step-IsConsistent step (Reach-IsConsistent r c)
