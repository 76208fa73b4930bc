-- ===== src/Fsp/Knobs.antt =====
-- src/cc/fsp.rs: what a client of the RPC sees: knobs that are read and written.
use pcilibs_rs.Prelude.{ℕ, Bool, false, ◌==◌, if◌then◌else◌}
use pcilibs_rs.Device.{Action, Failure, completion, pure, ◌>>=◌}

pub record Channel (S : Type 0) : Type 0 where
  pub knob_read : ℕ → Action S ℕ
  pub knob_write : ℕ → ℕ → Action S (Unit {0})

-- Firmware predating a knob answers knob reads with this code.
abbrev pub is_invalid_knob : Failure → Bool
is_invalid_knob (completion code) = code == 0x1e3
is_invalid_knob _ = false

module _ {S : Type 0} (rpc : Channel S) where
  unfoldable pub knob_check_and_write : ℕ → ℕ → Action S (Unit {0})
  knob_check_and_write knob value = do
    current ← rpc.knob_read knob
    (if current == value then pure tt else rpc.knob_write knob value)
