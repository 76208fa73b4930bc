-- ===== src/PciDev/Opened.antt =====
-- What opening a device writes, and that a failure takes it back.
use pcilibs_rs.Prelude.{ℕ, Option, none, some, ◌∷◌, Result, ok, err, ◌≡◌, refl, sym, inl, inr}
use pcilibs_rs.Text.{Bytes, codes}
use pcilibs_rs.Sysfs.{FilePath, join}
use pcilibs_rs.Files.{Files, IoError}
use pcilibs_rs.Files.Logged.{Log, IsLogged}
use pcilibs_rs.Effects.{Effect, pure, ◌>>=◌}
use pcilibs_rs.Effects.Hoare.{
  Post, Post-always, Post-of_view, Post-to_view, Post-weaken, Hoare, Hoare-bind,
}
use pcilibs_rs.Device.{Machine}
use pcilibs_rs.PciDev.Attributes.{attr_hex}
use pcilibs_rs.PciDev.Switches.{
  control_file, reading, enable_memory_decoding, restore_power, inspect_err, wake,
}
use pcilibs_rs.PciDev.Handle.{
  PciDev, handle, decode, with_power, switch_on, mapped, identified, claimed,
}
use pcilibs_rs.PciDev.Decoded.{IsDecoded, enable-Hoare}
use pcilibs_rs.PciDev.Restore.{
  woken, policy_of, IsRestored, IsUndone, IsWoken, IsOpened, AtFirst, wake-Hoare, restoring-Hoare,
}

module _ {S : Type 0} {files : Files S} {log : S → Log} (logged : IsLogged files log)
    (machine : Machine S) (sleeps : (d : ℕ) (s : S) → log (machine.sleep d s) ≡ log s)
    (map_bar0 : FilePath → S → Result IoError ℕ) where
  module _ (bdf : Bytes) (path : FilePath) (policy : Option Bytes) (before : Log) where
    abbrev Start : S → Type 0
    Start = AtFirst logged machine sleeps path policy before

    abbrev Woken : Option Bytes → Log → Type 0
    Woken = IsWoken logged machine sleeps path policy before

    abbrev Undone : Log → Type 0
    Undone = IsUndone logged machine sleeps path policy before

    abbrev Opened : PciDev → Log → Type 0
    Opened dev = IsOpened logged machine sleeps path policy dev before

    unrestored-Post :
        {A : Type 0} (Q : A → Log → Type 0) (F : Log → Type 0) (r : Result IoError A × S)
        → Post Q F r.0 (log r.1)
        → let out = inspect_err files (restore_power files path none) r in
          Post Q F out.0 (log out.1)
    unfolding restore_power
    unrestored-Post Q F (ok a, s) q = q
    unrestored-Post Q F (err e, s) q = q

    decode-Hoare :
        (power : Option Bytes)
        → power ≡ policy
        → Hoare log
            (λ l. l ≡ woken logged machine sleeps path power before)
            (decode files machine map_bar0 path power)
            (λ b. IsDecoded path b (woken logged machine sleeps path power before))
            Undone
    decode-Hoare none e s h =
        let q = enable-Hoare logged path before s h in
        let r = enable_memory_decoding files path s in
        unrestored-Post (λ b. IsDecoded path b before) Undone r
          (Post-weaken (λ b. IsDecoded path b before) (λ b. IsDecoded path b before)
            (λ l. l ≡ before) Undone r.0 (log r.1) (λ _ x. x) inl q)
    decode-Hoare (some previous) e s h =
        let on = (control_file path, codes "on") ∷ before in
        let r = decode files machine map_bar0 path (some previous) s in
        Post-weaken (λ b. IsDecoded path b on) (λ b. IsDecoded path b on)
          (IsRestored logged machine sleeps path previous on) Undone r.0 (log r.1) (λ _ x. x)
          (λ x. inr (previous, sym e, x))
          (restoring-Hoare logged machine sleeps path (enable_memory_decoding files path) previous
            on (λ b. IsDecoded path b on) (enable-Hoare logged path on) s h)

    with_power-Hoare :
        (v d b : ℕ) (power : Option Bytes)
        → Hoare log
            (Woken power)
            (with_power files machine map_bar0 bdf path v d b power)
            Opened
            Undone
    with_power-Hoare v d b power s (e, h) =
        Hoare-bind log (λ l. l ≡ woken logged machine sleeps path power before)
          (decode files machine map_bar0 path power)
          (λ b. IsDecoded path b (woken logged machine sleeps path power before))
          (λ e. pure (handle files machine map_bar0 bdf path v d b power e)) Opened Undone
          (decode-Hoare power e) (λ _ t q. (refl, e, q)) s h

    -- Of the state itself, since the policy is still to be read from it.
    abbrev Opens : Effect IoError S PciDev → Type 0
    Opens m = Hoare (λ t. t) Start m (λ dev t. Opened dev (log t)) (λ t. Undone (log t))

    switch_on-Hoare : (v d b : ℕ) → Opens (switch_on files machine map_bar0 bdf path v d b)
    unfolding switch_on
    switch_on-Hoare v d b =
        Hoare-bind (λ t. t) Start (wake files machine path) (λ power t. Woken power (log t))
          (with_power files machine map_bar0 bdf path v d b) (λ dev t. Opened dev (log t))
          (λ t. Undone (log t)) (wake-Hoare logged machine sleeps path policy before)
          (λ power t h.
            Post-of_view log Opened Undone
              (with_power files machine map_bar0 bdf path v d b power t)
              (with_power-Hoare v d b power t h))

    read-Hoare :
        {A : Type 0} (f : S → Result IoError A) (next : A → Effect IoError S PciDev)
        → ((a : A) → Opens (next a))
        → Opens (reading files f >>= next)
    read-Hoare f next h =
        Hoare-bind (λ t. t) Start (reading files f) (λ _. Start) next (λ dev t. Opened dev (log t))
          (λ t. Undone (log t))
          (λ t q.
            Post-weaken (λ _. Start) (λ _. Start) Start (λ u. Undone (log u)) (f t) t (λ _ x. x)
              (λ x. inl x.0) (Post-always Start (f t) t q))
          h

    claimed-Hoare : Opens (claimed files machine map_bar0 bdf path)
    unfolding claimed
    claimed-Hoare =
        read-Hoare (attr_hex files path (codes "vendor"))
          (identified files machine map_bar0 bdf path)
          (λ v.
            read-Hoare (attr_hex files path (codes "device"))
              (mapped files machine map_bar0 bdf path v)
              (λ d.
                read-Hoare (map_bar0 (join path (codes "resource0")))
                  (switch_on files machine map_bar0 bdf path v d) (switch_on-Hoare v d)))

  -- With writes that are logged if done and a sleep that writes nothing: opening a device writes
  -- no more than it takes back. Where it succeeds, the handle is that of the path and holds the
  -- policy of power management that its file says at first, or none if that file cannot be read;
  -- the log has grown by `on` in the file exactly if the policy is held, and then by one write of
  -- the configuration space exactly if the handle enabled decoding. Where it fails, nothing was
  -- written, or only `on`, and then the policy that the file said at first was written back,
  -- unless the kernel has refused that write.
  pub claimed-log :
      (bdf : Bytes) (path : FilePath) (s : S)
      → let out = claimed files machine map_bar0 bdf path s in
        let policy = policy_of logged machine sleeps (files.read_to_string (control_file path) s) in
        Post
          (λ dev. IsOpened logged machine sleeps path policy dev (log s))
          (IsUndone logged machine sleeps path policy (log s))
          out.0
          (log out.1)
  claimed-log bdf path s =
      let policy = policy_of logged machine sleeps (files.read_to_string (control_file path) s) in
      Post-to_view log (λ dev. IsOpened logged machine sleeps path policy dev (log s))
        (IsUndone logged machine sleeps path policy (log s))
        (claimed files machine map_bar0 bdf path s)
        (claimed-Hoare bdf path policy (log s) s (refl, refl))
