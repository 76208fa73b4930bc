-- ===== src/PciDev/Locks.antt =====
-- The set of claims as a table of locks: what it promises, and that the code keeps it.
use pcilibs_rs.Prelude.{
  ℕ, Bool, true, false, not, ◌&&◌, ◌||◌, List, [], ◌∷◌, ◌++◌, Result, ◌≡◌, refl, ap, ◌∙◌, arith,
}
use pcilibs_rs.Sysfs.{FilePath}
use pcilibs_rs.Sysfs.Paths.{same_path, same_path_iff}
use pcilibs_rs.Files.{Files, IoError}
use pcilibs_rs.Device.{Machine}
use pcilibs_rs.PciDev.Handle.{PciDev, holds, close}
use pcilibs_rs.PciDev.Claims.{open_in-IsClaim, holds-release}
use pcilibs_rs.PciDev.Handles.{
  World, claims, IsConsistent, Step, Reach, opened, refused, dropped, moved, here, next,
  holds-append, claims-append, Reach-IsConsistent,
}

-- Which paths are locked.
abbrev pub Table : Type 0
Table = FilePath → Bool

pub data Event : Type 0 where
  locked unlocked : FilePath → Event
  unchanged : Event

-- A path is locked only while it is free and unlocked only while it is locked, and no other path
-- is touched.
abbrev pub Allowed : Event → Table → Table → Type 0
Allowed (locked path) before after =
    (before path ≡ false) × ((q : FilePath) → after q ≡ (same_path q path || before q))
Allowed (unlocked path) before after =
    (before path ≡ true) × ((q : FilePath) → after q ≡ (before q && not (same_path path q)))
Allowed unchanged before after = (q : FilePath) → after q ≡ before q

-- A run of the table, by its events, the latest first.
pub data Run (before : Table) : List Event → Table → Type 0 where
  start : Run before [] before
  then :
      {events : List Event} {between after : Table} (event : Event)
      → Run before events between
      → Allowed event between after
      → Run before (event ∷ events) after

abbrev pub table : {S : Type 0} → World S → Table
table w q = holds q w.process.held

module _ {S : Type 0} (files : Files S) (machine : Machine S)
    (map_bar0 : FilePath → S → Result IoError ℕ) where
  -- The event of a step of the process.
  abbrev pub event : {u v : World S} → Step files machine map_bar0 u v → Event
  event (opened sysfs bdf {dev} e) = locked dev.path
  event (refused sysfs bdf e) = unchanged
  event (dropped before dev after e) = unlocked dev.path
  event (moved s) = unchanged

  abbrev pub events : {u v : World S} → Reach files machine map_bar0 u v → List Event
  events here = []
  events (next r step) = event step ∷ events r

  dropped-holds :
      (before : List PciDev) (dev : PciDev) (after : List PciDev)
      → holds dev.path (claims (before ++ dev ∷ after)) ≡ true
  dropped-holds before dev after =
      ap (holds dev.path) (claims-append before (dev ∷ after))
      ∙ holds-append dev.path (claims before) (dev.path ∷ claims after)
      ∙ ground (arith, (same_path_iff dev.path dev.path).1 refl)

  Step-Allowed :
      {u v : World S} (step : Step files machine map_bar0 u v)
      → IsConsistent u
      → Allowed (event step) (table u) (table v)
  unfolding close
  Step-Allowed {u} (opened sysfs bdf {dev} {p} e) c =
      let (free, now) = rw e at (open_in-IsClaim files machine map_bar0 sysfs bdf u.process) in
      (free, λ q. ap (holds q) now)
  Step-Allowed {u} (refused sysfs bdf {e} {p} h) c =
      let same : p.held ≡ u.process.held =
        rw h at (open_in-IsClaim files machine map_bar0 sysfs bdf u.process) in
      λ q. ap (holds q) same
  Step-Allowed {u} (dropped before dev after e) c = (
    c.exact dev.path ∙ ap (λ hs. holds dev.path (claims hs)) e ∙ dropped-holds before dev after,
    λ q. holds-release q dev.path u.process.held,
  )
  Step-Allowed (moved s) c = λ q. refl

  -- Whatever devices are opened and dropped: from claims that are those of the open handles, the
  -- set of claims runs as a table of locks does by the events of the steps: a path is locked only
  -- while it is free, unlocked only while it is locked, and no other path is touched.
  pub Reach-Run :
      {u v : World S} (r : Reach files machine map_bar0 u v)
      → IsConsistent u
      → Run (table u) (events r) (table v)
  Reach-Run here c = start
  Reach-Run (next r step) c =
      then (event step) (Reach-Run r c)
        (Step-Allowed step (Reach-IsConsistent files machine map_bar0 r c))
