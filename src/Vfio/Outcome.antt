-- ===== src/Vfio/Outcome.antt =====
-- What `bind` and `unbind` write, in every case.
use pcilibs_rs.Prelude.{
  Option, none, some, List, [], ◌∷◌, ◌++◌, ◌≡◌, ◌≢◌, ◌⊎◌, inl, inr, refl, ◌∙◌, ap, Result, ok, err,
  Bool-cases, Option-cases, Result-cases,
}
use pcilibs_rs.Text.{Bytes, codes, equal}
use pcilibs_rs.Text.Equality.{equal_iff}
use pcilibs_rs.Sysfs.{
  Sysfs, FilePath, Component, normal, components, join, device, devices, drivers_probe,
}
use pcilibs_rs.Sysfs.Confined.{device-components}
use pcilibs_rs.Files.{Files, IoError, panicked, file_name, last_name}
use pcilibs_rs.Files.Logged.{Log, IsLogged}
use pcilibs_rs.Vfio.{
  Bound, already, now, resolve, driver_override, current_driver, clear_override, after_probe,
  bind_free, bind_held, bind, unbind_held, unbind,
}

last_name-append :
    (cs : List Component) (name : Bytes) → last_name (cs ++ normal name ∷ []) ≡ some name
unfolding last_name
last_name-append [] name = refl
last_name-append (c ∷ []) name = refl
last_name-append (c ∷ d ∷ cs) name = last_name-append (d ∷ cs) name

-- The directory of a device has a name: `resolve` never panics.
pub resolve-ne-panicked : (sysfs : Sysfs) (address : Bytes) → resolve sysfs address ≢ err panicked
unfolding resolve file_name
resolve-ne-panicked sysfs address = elim (Option-cases (device sysfs address)) [
  | inl e ↦ rw e (λ x. cc x)
  | inr (path, e) ↦
      let (bdf, _, c) = device-components sysfs address e in
      rw e (rw c (rw (last_name-append (components (devices sysfs)) bdf) (λ x. cc x)))
]

module _ {S : Type 0} {files : Files S} {log : S → Log} (logged : IsLogged files log)
    (sysfs : Sysfs) where
  -- The result of `bind` with the logs before and after.
  abbrev pub IsBound :
      FilePath → Bytes → Bytes → Option Bytes → Log → Log → Result IoError Bound → Type 0
  IsBound path name driver current before after (ok already) =
      (current ≡ some driver) × (after ≡ before)
  IsBound path name driver current before after (ok now) =
      (current ≡ none)
      × (after ≡ (drivers_probe sysfs, name) ∷ (driver_override path, driver) ∷ before)
  IsBound path name driver current before after (err e) =
      (after ≡ before)
      ⊎ (after ≡ (driver_override path, 10 ∷ []) ∷ (driver_override path, driver) ∷ before)

  module _
      (clears : (path : FilePath) (s : S)
        → (files.write (driver_override path) (10 ∷ []) s).0 ≡ ok tt) where
    after_probe-IsBound :
        (path : FilePath) (name driver : Bytes) (before : Log) (s : S)
        → log s ≡ (driver_override path, driver) ∷ before
        → let r = after_probe files sysfs path (files.write (drivers_probe sysfs) name s) in
          IsBound path name driver none before (log r.1) r.0
    unfolding clear_override
    after_probe-IsBound path name driver before s h =
        elim (Result-cases (files.write (drivers_probe sysfs) name s).0) [
          | inl (_, p) ↦ rw p (
            refl,
            logged.done (drivers_probe sysfs) name s p
                ∙ ap (λ l. (drivers_probe sysfs, name) ∷ l) h,
          )
          | inr (e, p) ↦
              let probed = (files.write (drivers_probe sysfs) name s).1 in
              rw p (
                inr (
                  logged.done (driver_override path) (10 ∷ []) probed (clears path probed)
                  ∙ ap (λ l. (driver_override path, 10 ∷ []) ∷ l)
                      (logged.undone (drivers_probe sysfs) name s e p ∙ h)))
        ]

    bind_free-IsBound :
        (path : FilePath) (name driver : Bytes) (s : S)
        → let r = bind_free files sysfs path name driver s in
          IsBound path name driver none (log s) (log r.1) r.0
    unfolding bind_free
    bind_free-IsBound path name driver s =
        elim (Result-cases (files.write (driver_override path) driver s).0) [
          | inl (_, p) ↦ rw p (
              after_probe-IsBound path name driver (log s)
                (files.write (driver_override path) driver s).1
                (logged.done (driver_override path) driver s p))
          | inr (e, p) ↦ rw p (inl (logged.undone (driver_override path) driver s e p))
        ]

    bind_held-IsBound :
        (path : FilePath) (name driver : Bytes) (current : Option Bytes) (s : S)
        → let r = bind_held files sysfs path name driver current s in
          IsBound path name driver current (log s) (log r.1) r.0
    bind_held-IsBound path name driver none s = bind_free-IsBound path name driver s
    bind_held-IsBound path name driver (some current) s = elim (Bool-cases (equal current driver)) [
      | inl e ↦ rw e (ap some ((equal_iff current driver).0 e), refl)
      | inr e ↦ rw e (inl refl)
    ]

    -- Where writes that fail are not done and an override can be cleared: for a device that is
    -- there, `bind` says that it is bound already only to the driver that is asked for, having
    -- written nothing; it says that it is bound now only where no driver held the device, having
    -- set the override and then probed; and where it fails, it has written nothing or has
    -- cleared the override that it had set.
    pub bind-IsBound :
        (address driver : Bytes) (s : S) {path : FilePath} {name : Bytes}
        → resolve sysfs address ≡ ok (path, name)
        → let r = bind files sysfs address driver s in
          IsBound path name driver (current_driver files sysfs name s) (log s) (log r.1) r.0
    unfolding bind
    bind-IsBound address driver s {path} {name} h = rw h (elim (Bool-cases (files.is_dir path s)) [
      | inl e ↦ rw e (bind_held-IsBound path name driver (current_driver files sysfs name s) s)
      | inr e ↦ rw e (inl refl)
    ])

  abbrev pub unbind_file : FilePath → FilePath
  unbind_file path = join (join path (codes "driver")) (codes "unbind")

  -- The writes of an `unbind` that succeeds.
  abbrev pub unbind_writes : FilePath → Bytes → Option Bytes → Log
  unbind_writes path name none = (driver_override path, 10 ∷ []) ∷ []
  unbind_writes path name (some _) = (driver_override path, 10 ∷ []) ∷ (unbind_file path, name) ∷ []

  unbind_held-log :
      (path : FilePath) (name : Bytes) (current : Option Bytes) (s : S)
      → let r = unbind_held files sysfs path name current s in
        r.0 ≡ ok tt → log r.1 ≡ unbind_writes path name current ++ log s
  unfolding clear_override
  unbind_held-log path name none s = λ e. logged.done (driver_override path) (10 ∷ []) s e
  unbind_held-log path name (some _) s =
      elim (Result-cases (files.write (unbind_file path) name s).0) [
        | inl (_, p) ↦ rw p (λ e.
            logged.done (driver_override path) (10 ∷ []) _ e
            ∙ ap (λ l. (driver_override path, 10 ∷ []) ∷ l)
                (logged.done (unbind_file path) name s p))
        | inr (x, p) ↦ rw p (λ e. cc e)
      ]

  -- Where writes that fail are not done: an `unbind` that succeeds has written to the driver's
  -- `unbind` file exactly if a driver held the device, and then has cleared the override.
  pub unbind-log :
      (address : Bytes) (s : S) {path : FilePath} {name : Bytes}
      → resolve sysfs address ≡ ok (path, name)
      → (unbind files sysfs address s).0 ≡ ok tt
      → log (unbind files sysfs address s).1
        ≡ unbind_writes path name (current_driver files sysfs name s) ++ log s
  unfolding unbind
  unbind-log address s {path} {name} h =
      rw h (λ e. unbind_held-log path name (current_driver files sysfs name s) s e)
