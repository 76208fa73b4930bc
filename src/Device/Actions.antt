-- ===== src/Device/Actions.antt =====
-- Code that acts on a device, and how it fails.
pub use pcilibs_rs.Effects.{
  Effect, pure, fail_with, continue_with, ◌>>=◌, ◌>>◌, attempt, require, observe, negated,
}
use pcilibs_rs.Prelude.{ℕ}

pub data Failure : Type 0 where
  out_of_fuel timed_out too_long bad_reply mailbox_error unsupported failed_read invalid_state
        inaccessible security_fault :
      Failure
  completion : ℕ → Failure

abbrev pub Action : Type 0 → Type 0 → Type 0
Action = Effect Failure
