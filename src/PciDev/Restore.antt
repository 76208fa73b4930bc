-- ===== src/PciDev/Restore.antt =====
-- What setting the power policy of a device writes, and that a failure takes it back.
use pcilibs_rs.Prelude.{
  ℕ, Option, none, some, ◌∷◌, Result, ok, err, ◌≡◌, refl, sym, ◌⊎◌, inl, inr, ◌∙◌, ap, Result-cases,
}
use pcilibs_rs.Text.{Bytes, codes, trim}
use pcilibs_rs.Sysfs.{FilePath}
use pcilibs_rs.Files.{Files, IoError}
use pcilibs_rs.Files.Logged.{Log, IsLogged}
use pcilibs_rs.Effects.{Effect, pure, ◌>>◌}
use pcilibs_rs.Effects.Hoare.{Post, Post-of_view, Post-weaken, Hoare, Hoare-bind}
use pcilibs_rs.Device.{Failure, Machine}
use pcilibs_rs.Device.Poll.{poll, poll-view}
use pcilibs_rs.PciDev.Switches.{
  control_file, restore_power, inspect_err, polls_awake, timeout_error, wait_awake, wake_from,
  wake_read, wake,
}
use pcilibs_rs.PciDev.Handle.{PciDev}
use pcilibs_rs.PciDev.Decoded.{Is, IsDecoded}

module _ {S : Type 0} {files : Files S} {log : S → Log} (logged : IsLogged files log)
    (machine : Machine S) (sleeps : (d : ℕ) (s : S) → log (machine.sleep d s) ≡ log s) where
  -- The log behind `wake`, by the policy that it returns.
  abbrev pub woken : FilePath → Option Bytes → Log → Log
  woken path none before = before
  woken path (some _) before = (control_file path, codes "on") ∷ before

  -- The previous policy was written back, or the kernel has refused just that.
  abbrev pub IsRestored : FilePath → Bytes → Log → Log → Type 0
  IsRestored path previous before after =
      (after ≡ (control_file path, previous) ∷ before)
      ⊎ ((t : S) × (e : IoError) × ((files.write (control_file path) previous t).0 ≡ err e)
          × (after ≡ before))

  -- The policy that its file says, if that can be read.
  abbrev pub policy_of : Result IoError Bytes → Option Bytes
  policy_of (err e) = none
  policy_of (ok text) = some (trim text)

  -- Nothing was written, or only the policy, and what it was before was restored.
  abbrev pub IsUndone : FilePath → Option Bytes → Log → Log → Type 0
  IsUndone path policy before after =
      (after ≡ before)
      ⊎ ((previous : Bytes) × (policy ≡ some previous)
          × IsRestored path previous ((control_file path, codes "on") ∷ before) after)

  -- The policy that is held is what it was before, and it was set to `on` exactly if it was read.
  abbrev pub IsWoken : FilePath → Option Bytes → Log → Option Bytes → Log → Type 0
  IsWoken path policy before power after = (power ≡ policy) × (after ≡ woken path power before)

  module _ (path : FilePath) where
    restore-IsRestored :
        (previous : Bytes) (before : Log) (s : S)
        → log s ≡ before
        → IsRestored path previous before (log (restore_power files path (some previous) s))
    unfolding restore_power
    restore-IsRestored previous before s h =
        elim (Result-cases (files.write (control_file path) previous s).0) [
          | inl (_, e) ↦ inl (
              logged.done (control_file path) previous s e
              ∙ ap (λ l. (control_file path, previous) ∷ l) h)
          | inr (x, e) ↦ inr (s, x, e, logged.undone (control_file path) previous s x e ∙ h)
        ]

    write-Hoare :
        (text : Bytes) (before : Log)
        → Hoare log
            (Is before)
            (files.write (control_file path) text)
            (λ _. Is ((control_file path, text) ∷ before))
            (Is before)
    write-Hoare text before s h = elim (Result-cases (files.write (control_file path) text s).0) [
      | inl (_, e) ↦
          rw e
            (logged.done (control_file path) text s e ∙ ap (λ l. (control_file path, text) ∷ l) h)
      | inr (x, e) ↦ rw e (logged.undone (control_file path) text s x e ∙ h)
    ]

    -- A failure behind the switch of the policy.
    pub restoring-Hoare :
        {A : Type 0} (m : Effect IoError S A) (previous : Bytes) (before : Log)
        (Q : A → Log → Type 0)
        → Hoare log (Is before) m Q (Is before)
        → Hoare log
            (Is before)
            (λ s. inspect_err files (restore_power files path (some previous)) (m s))
            Q
            (IsRestored path previous before)
    restoring-Hoare m previous before Q h s p = after (m s) (h s p)
      where
        after :
            (r : Result IoError _ × S)
            → Post Q (Is before) r.0 (log r.1)
            → let out = inspect_err files (restore_power files path (some previous)) r in
              Post Q (IsRestored path previous before) out.0 (log out.1)
        after (ok a, t) q = q
        after (err e, t) q = restore-IsRestored previous before t q

    timeout-Post :
        (before : Log) (r : Result Failure (Unit {0}) × S)
        → log r.1 ≡ before
        → let out = timeout_error files r in
          Post (λ (_ : Unit {0}). Is before) (Is before) out.0 (log out.1)
    timeout-Post before (ok x, t) q = q
    timeout-Post before (err e, t) q = q

    wait_awake-Hoare :
        (previous : Bytes) (before : Log)
        → Hoare log
            (Is before)
            (wait_awake files machine path previous)
            (λ _. Is before)
            (IsRestored path previous before)
    wait_awake-Hoare previous before =
        restoring-Hoare (λ s. timeout_error files (poll machine 5000 (polls_awake files path) s))
          previous before (λ _. Is before)
          (λ s h.
            timeout-Post before _
              (poll-view machine log 5000 (polls_awake files path) s (λ t. refl) sleeps ∙ h))

    wake_from-Hoare :
        (previous : Bytes) (policy : Option Bytes) (before : Log)
        → some previous ≡ policy
        → Hoare log
            (Is before)
            (wake_from files machine path previous)
            (IsWoken path policy before)
            (IsUndone path policy before)
    wake_from-Hoare previous policy before e =
        let on = (control_file path, codes "on") ∷ before in
        let waits = wait_awake files machine path previous in
        Hoare-bind log (Is before) (files.write (control_file path) (codes "on")) (λ _. Is on)
          (λ _. waits >> pure (some previous)) (IsWoken path policy before)
          (IsUndone path policy before)
          (λ s h.
            Post-weaken (λ _. Is on) (λ _. Is on) (Is before) (IsUndone path policy before) _ _
              (λ _ q. q) inl (write-Hoare (codes "on") before s h))
          (λ _.
            Hoare-bind log (Is on) waits (λ _. Is on) (λ _. pure (some previous))
              (IsWoken path policy before) (IsUndone path policy before)
              (λ s h.
                Post-weaken (λ _. Is on) (λ _. Is on) (IsRestored path previous on)
                  (IsUndone path policy before) _ _ (λ _ q. q) (λ q. inr (previous, sym e, q))
                  (wait_awake-Hoare previous on s h))
              (λ _ s h. (e, h)))

    wake_read-Hoare :
        (policy : Option Bytes) (before : Log) (r : Result IoError Bytes)
        → policy_of r ≡ policy
        → Hoare log
            (Is before)
            (wake_read files machine path r)
            (IsWoken path policy before)
            (IsUndone path policy before)
    wake_read-Hoare policy before (err x) e = λ s h. (e, h)
    wake_read-Hoare policy before (ok text) e = wake_from-Hoare (trim text) policy before e

    -- What holds until the device is woken: nothing was written, and the file says the policy.
    abbrev pub AtFirst : Option Bytes → Log → S → Type 0
    AtFirst policy before s =
        (log s ≡ before) × (policy_of (files.read_to_string (control_file path) s) ≡ policy)

    pub wake-Hoare :
        (policy : Option Bytes) (before : Log)
        → Hoare
            (λ s. s)
            (AtFirst policy before)
            (wake files machine path)
            (λ power s. IsWoken path policy before power (log s))
            (λ s. IsUndone path policy before (log s))
    unfolding wake
    wake-Hoare policy before s (h, e) =
        let r = files.read_to_string (control_file path) s in
        Post-of_view log (IsWoken path policy before) (IsUndone path policy before)
          (wake_read files machine path r s) (wake_read-Hoare policy before r e s h)

  -- The handle of a device that was opened, and the writes.
  abbrev pub IsOpened : FilePath → Option Bytes → PciDev → Log → Log → Type 0
  IsOpened path policy dev before after =
      (dev.path ≡ path)
      × (dev.power_control ≡ policy)
      × IsDecoded dev.path dev.decoding_enabled (woken dev.path dev.power_control before) after
