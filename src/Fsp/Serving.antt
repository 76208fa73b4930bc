-- ===== src/Fsp/Serving.antt =====
-- The RPC of src/cc/fsp.rs to firmware that works, as its client sees it: an interface. Every
-- command is answered; knobs and their values have 16 bits.
use pcilibs_rs.Prelude.{ℕ, ◌^◌, ◌<◌, ◌==◌, if◌then◌else◌, Option, none, some, Result, ok, err, ◌≡◌}
use pcilibs_rs.Device.{Failure, completion}
use pcilibs_rs.Fsp.Knobs.{Channel}

-- The knobs that the firmware has, with their values.
abbrev pub KnobValues : Type 0
KnobValues = ℕ → Option ℕ

abbrev pub with_knob : ℕ → ℕ → KnobValues → KnobValues
with_knob k v f = λ j. if j == k then some v else f j

-- What the firmware says of a knob: its value, or the code for a knob that it does not have.
abbrev pub looked_up : Option ℕ → Result Failure ℕ
looked_up none = err (completion 0x1e3)
looked_up (some v) = ok v

-- `Fits f s`: in the state `s` the firmware works and has the knobs `f`.
pub record IsReading {S : Type 0} (rpc : Channel S) (Fits : KnobValues → S → Type 0) : Type 0 where
  pub read :
      (k : ℕ) (f : KnobValues) (s : S)
      → k < 2 ^ 16
      → Fits f s
      → ((rpc.knob_read k s).0 ≡ looked_up (f k)) × Fits f (rpc.knob_read k s).1

pub record IsServing {S : Type 0} (rpc : Channel S) (Fits : KnobValues → S → Type 0) : Type 0 where
  pub reads : IsReading rpc Fits
  pub write :
      (k v : ℕ) (f : KnobValues) (s : S)
      → k < 2 ^ 16
      → v < 2 ^ 16
      → Fits f s
      → ((rpc.knob_write k v s).0 ≡ ok tt) × Fits (with_knob k v f) (rpc.knob_write k v s).1
