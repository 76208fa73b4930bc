-- ===== src/PciDev/Decoded.antt =====
-- What switching the memory decoding of a device writes, and that a failure writes nothing.
use pcilibs_rs.Prelude.{
  ℕ, Bool, true, false, not, ◌==◌, if◌then◌else◌, [], ◌∷◌, Result, ◌≡◌, inl, inr, ◌∙◌, ap,
  Bool-cases, Result-cases, bit_and, bit_or,
}
use pcilibs_rs.Text.{Bytes, codes}
use pcilibs_rs.Sysfs.{FilePath, join}
use pcilibs_rs.Files.{Files, IoError}
use pcilibs_rs.Files.Logged.{Log, IsLogged}
use pcilibs_rs.Effects.{pure}
use pcilibs_rs.Effects.Hoare.{Post-always, Hoare, Hoare-bind}
use pcilibs_rs.PciDev.Switches.{
  pci_command, pci_command_memory, reading, command, set_memory_decoding, enable_memory_decoding,
  to_le_bytes, without_memory, from_le_bytes, write_command, enable_from,
}

abbrev pub config_file : FilePath → FilePath
config_file path = join path (codes "config")

abbrev pub Is : Log → Log → Type 0
Is a b = b ≡ a

-- The log behind enabling memory decoding, by what it returns.
abbrev pub IsDecoded : FilePath → Bool → Log → Log → Type 0
IsDecoded path false before after = after ≡ before
IsDecoded path true before after = (bytes : Bytes) × (after ≡ (config_file path, bytes) ∷ before)

module _ {S : Type 0} {files : Files S} {log : S → Log} (logged : IsLogged files log)
    (path : FilePath) where
  reading-Hoare :
      {A : Type 0} (f : S → Result IoError A) (before : Log)
      → Hoare log (Is before) (reading files f) (λ (_ : A). Is before) (Is before)
  reading-Hoare f before s h = Post-always (Is before) (f s) (log s) h

  from_le_bytes-Hoare :
      (before : Log) (bytes : Bytes)
      → Hoare log (Is before) (from_le_bytes files bytes) (λ _. Is before) (Is before)
  from_le_bytes-Hoare before [] s h = h
  from_le_bytes-Hoare before (a ∷ []) s h = h
  from_le_bytes-Hoare before (a ∷ b ∷ []) s h = h
  from_le_bytes-Hoare before (a ∷ b ∷ c ∷ rest) s h = h

  command-Hoare :
      (before : Log) → Hoare log (Is before) (command files path) (λ _. Is before) (Is before)
  unfolding command
  command-Hoare before =
      Hoare-bind log (Is before) (reading files (files.read_at (config_file path) pci_command 2))
        (λ _. Is before) (from_le_bytes files) (λ _. Is before) (Is before)
        (reading-Hoare (files.read_at (config_file path) pci_command 2) before)
        (from_le_bytes-Hoare before)

  abbrev Configured : Log → Log → Type 0
  Configured before after = (bytes : Bytes) × (after ≡ (config_file path, bytes) ∷ before)

  write_at-Hoare :
      (offset : ℕ) (bytes : Bytes) (before : Log)
      → Hoare log
          (Is before)
          (files.write_at (config_file path) offset bytes)
          (λ _. Configured before)
          (Is before)
  write_at-Hoare offset bytes before s h =
      elim (Result-cases (files.write_at (config_file path) offset bytes s).0) [
        | inl (_, e) ↦ rw e (
          bytes,
          logged.done_at (config_file path) offset bytes s e
              ∙ ap (λ l. (config_file path, bytes) ∷ l) h,
        )
        | inr (x, e) ↦ rw e (logged.undone_at (config_file path) offset bytes s x e ∙ h)
      ]

  write_command-Hoare :
      (on : Bool) (current : ℕ) (before : Log)
      → Hoare log
          (Is before)
          (write_command files path on current)
          (λ _. Configured before)
          (Is before)
  write_command-Hoare on current before =
      write_at-Hoare pci_command
        (to_le_bytes
          (if on then bit_or current pci_command_memory else bit_and current without_memory))
        before

  set_memory_decoding-Hoare :
      (on : Bool) (before : Log)
      → Hoare log
          (Is before)
          (set_memory_decoding files path on)
          (λ _. Configured before)
          (Is before)
  unfolding set_memory_decoding
  set_memory_decoding-Hoare on before =
      Hoare-bind log (Is before) (command files path) (λ _. Is before) (write_command files path on)
        (λ _. Configured before) (Is before) (command-Hoare before)
        (λ current. write_command-Hoare on current before)

  enable_from-Hoare :
      (before : Log) (current : ℕ)
      → Hoare log
          (Is before)
          (enable_from files path current)
          (λ b. IsDecoded path b before)
          (Is before)
  enable_from-Hoare before current =
      elim (Bool-cases (not (bit_and current pci_command_memory == 0))) [
        | inl e ↦ λ s h. rw e h
        | inr e ↦ λ s h. rw e (
            Hoare-bind log (Is before) (set_memory_decoding files path true)
              (λ _. Configured before) (λ _. pure true) (λ b. IsDecoded path b before) (Is before)
              (set_memory_decoding-Hoare true before) (λ _ t q. q) s h)
      ]

  pub enable-Hoare :
      (before : Log)
      → Hoare log
          (Is before)
          (enable_memory_decoding files path)
          (λ b. IsDecoded path b before)
          (Is before)
  unfolding enable_memory_decoding
  enable-Hoare before =
      Hoare-bind log (Is before) (command files path) (λ _. Is before) (enable_from files path)
        (λ b. IsDecoded path b before) (Is before) (command-Hoare before) (enable_from-Hoare before)
