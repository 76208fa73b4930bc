-- ===== src/PciDev/Switches.antt =====
-- src/pci_dev.rs: the two switches of a device that a handle sets: memory decoding and the policy
-- of runtime power management.
use pcilibs_rs.Prelude.{
  ℕ, ◌+◌, ◌-◌, ◌*◌, ◌/◌, ◌%◌, bit_and, bit_or, Bool, true, false, not, ◌||◌, ◌==◌, if◌then◌else◌,
  Option, none, some, [], ◌∷◌, Result, ok, err,
}
use pcilibs_rs.Text.{Bytes, codes, equal, trim}
use pcilibs_rs.Sysfs.{FilePath, join}
use pcilibs_rs.Files.{Files, IoError, timed_out, invalid_data}
use pcilibs_rs.Effects.{Effect, pure, fail_with, ◌>>=◌, ◌>>◌}
use pcilibs_rs.Device.{Failure, Machine}
use pcilibs_rs.Device.Poll.{poll}

-- The COMMAND register in the configuration space, and its memory bit.
abbrev pub pci_command : ℕ
pci_command = 4

abbrev pub pci_command_memory : ℕ
pci_command_memory = 2

abbrev pub to_le_bytes : ℕ → Bytes
to_le_bytes n = n % 256 ∷ n / 256 ∷ []

-- `!PCI_COMMAND_MEMORY` on 16 bits
abbrev pub without_memory : ℕ
without_memory = 65535 - 2

abbrev pub control_file : FilePath → FilePath
control_file path = join path (codes "power/control")

module _ {S : Type 0} (files : Files S) where
  -- A value that is read without a change of the state.
  abbrev pub reading : {A : Type 0} → (S → Result IoError A) → Effect IoError S A
  reading f s = (f s, s)

  abbrev pub from_le_bytes : Bytes → Effect IoError S ℕ
  from_le_bytes (low ∷ high ∷ []) = pure (low + 256 * high)
  from_le_bytes _ = fail_with invalid_data

  unfoldable pub command : FilePath → Effect IoError S ℕ
  command path = do
    bytes ← reading (files.read_at (join path (codes "config")) pci_command 2)
    from_le_bytes bytes

  abbrev pub write_command : FilePath → Bool → ℕ → Effect IoError S (Unit {0})
  write_command path on current = files.write_at (join path (codes "config")) pci_command (
      to_le_bytes
        (if on then bit_or current pci_command_memory else bit_and current without_memory))

  unfoldable pub set_memory_decoding : FilePath → Bool → Effect IoError S (Unit {0})
  unfolding command
  set_memory_decoding path on = command path >>= write_command path on

  abbrev pub enable_from : FilePath → ℕ → Effect IoError S Bool
  enable_from path current =
      if not (bit_and current pci_command_memory == 0)
      then pure false
      else set_memory_decoding path true >> pure true

  unfoldable pub enable_memory_decoding : FilePath → Effect IoError S Bool
  unfolding set_memory_decoding
  enable_memory_decoding path = command path >>= enable_from path

  -- A failure to restore is ignored.
  unfoldable pub restore_power : FilePath → Option Bytes → S → S
  restore_power path none s = s
  restore_power path (some previous) s = (files.write (control_file path) previous s).1

  -- `inspect_err(|_| cleanup)`
  abbrev pub inspect_err : {A : Type 0} → (S → S) → Result IoError A × S → Result IoError A × S
  inspect_err cleanup (ok a, s) = (ok a, s)
  inspect_err cleanup (err e, s) = (err e, cleanup s)

  abbrev is_awake : Result IoError Bytes → Bool
  is_awake (ok text) = equal (trim text) (codes "active") || equal (trim text) (codes "unsupported")
  is_awake (err e) = false

  abbrev pub polls_awake : FilePath → S → Bool × S
  polls_awake path s =
      (is_awake (files.read_to_string (join path (codes "power/runtime_status")) s), s)

  -- `poll` as an I/O operation: it fails by its timeout only.
  abbrev pub timeout_error : Result Failure (Unit {0}) × S → Result IoError (Unit {0}) × S
  timeout_error (ok _, s) = (ok tt, s)
  timeout_error (err _, s) = (err timed_out, s)

  module _ (machine : Machine S) where
    -- The device is told to stay in D0, and waited for.
    abbrev pub wait_awake : FilePath → Bytes → Effect IoError S (Unit {0})
    wait_awake path previous s =
        inspect_err (restore_power path (some previous))
          (timeout_error (poll machine 5000 (polls_awake path) s))

    abbrev pub wake_from : FilePath → Bytes → Effect IoError S (Option Bytes)
    wake_from path previous =
        files.write (control_file path) (codes "on")
        >> (wait_awake path previous >> pure (some previous))

    abbrev pub wake_read : FilePath → Result IoError Bytes → Effect IoError S (Option Bytes)
    wake_read path (err _) = pure none
    wake_read path (ok text) = wake_from path (trim text)

    unfoldable pub wake : FilePath → Effect IoError S (Option Bytes)
    unfolding restore_power poll
    wake path s = wake_read path (files.read_to_string (control_file path) s) s
