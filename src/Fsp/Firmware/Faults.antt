-- ===== src/Fsp/Firmware/Faults.antt =====
-- Firmware that is made to fail, and what it answers to a command on a knob.
use pcilibs_rs.Prelude.{ℕ, zero, suc, ◌==◌, Option, none, some, Result, err, ◌≡◌, arith, false}
use pcilibs_rs.Device.{Failure, completion, bad_reply, too_long, mailbox_error}
use pcilibs_rs.Fsp.Firmware.{Mailbox, State, Fault, update}
use pcilibs_rs.Fsp.Firmware.Replies.{working}

-- Firmware that fails in this way, with nothing in its queues.
abbrev pub faulted : Fault → State → State
faulted f s = record (working s) { fault = some f }

-- What a command over the mailbox fails with; `none` for a fault of which this is not said.
abbrev pub refusal : Mailbox → Fault → Option Failure
refusal m (Fault.completion zero) = none
refusal m (Fault.completion (suc c)) = some (completion (suc c))
refusal m Fault.nvdm_type = some bad_reply
refusal m Fault.other_command = some bad_reply
refusal m Fault.short = some bad_reply
refusal m Fault.extra_dword = some bad_reply
refusal m Fault.oversized = some too_long
refusal Mailbox.mnoc Fault.send_error = some mailbox_error
refusal Mailbox.mnoc Fault.late_error = some mailbox_error
refusal _ _ = none

-- The command failed, and left the firmware with the knobs `f`.
abbrev pub IsFailed :
    {A : Type 0} → Failure → (ℕ → Option ℕ) → Result Failure A × (State × ℕ) → Type 0
IsFailed e f r = (r.0 ≡ err e) × (r.1.0.knobs ≡ f)

-- What is said of a command that fails with this, if it is said.
abbrev pub IsSaid :
    {A : Type 0} → Option Failure → (ℕ → Option ℕ) → Result Failure A × (State × ℕ) → Type 0
IsSaid none f r = Unit
IsSaid (some e) f r = IsFailed e f r

pub suc-ne-zero : (c : ℕ) → (suc c == 0) ≡ false
suc-ne-zero c = ground arith

-- The knobs behind a write: a command that the mailbox loses is not carried out.
abbrev pub stored : Fault → ℕ → ℕ → (ℕ → Option ℕ) → ℕ → Option ℕ
stored Fault.oversized k v knobs = knobs
stored Fault.send_error k v knobs = knobs
stored _ k v knobs = update k (some v) knobs
