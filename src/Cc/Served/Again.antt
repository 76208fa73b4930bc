-- ===== src/Cc/Served/Again.antt =====
-- `set_cc_mode` of src/cc/mod.rs where the knobs say the mode already, and where it is set twice.
use mathlib.Core.Path.{subst}
use pcilibs_rs.Prelude.{
  ℕ, ◌^◌, ◌<◌, Bool, false, not, ◌&&◌, Result, ok, err, ◌≡◌, refl, sym, arith, All, Option-cases,
  inl, inr,
}
use pcilibs_rs.Device.{Failure, attempt}
use pcilibs_rs.Effects.Hoare.{Post}
use pcilibs_rs.Fsp.Serving.{KnobValues}
use pcilibs_rs.Fsp.Rpc.{channel}
use pcilibs_rs.Fsp.Firmware.{State, firmware}
use pcilibs_rs.Fsp.Firmware.Replies.{IsWorking}
use pcilibs_rs.Fsp.Firmware.Served.{IsNarrow, rpc_of}
use pcilibs_rs.Fsp.Firmware.Healthy.{IsHealthy, FitsAfter, firmware-IsReading}
use pcilibs_rs.Cc.Modes.{CcMode, cc_off, cc_on, cc_devtools, is_cc_off}
use pcilibs_rs.Cc.Plan.{set_cc_knobs}
use pcilibs_rs.Cc.Settled.{cc_knob}
use pcilibs_rs.Cc.Equipped.{Has, cc_knobs, cc_result}
use pcilibs_rs.Cc.Again.{Says, set_cc_knobs-Stays, cc_result-Says}
use pcilibs_rs.Cc.Operations.{Gpu, wait_for_boot, set_cc_mode}
use pcilibs_rs.Cc.Served.{
  mailbox_of, attempt-Quietly, wait_for_boot-Quietly, open_rpc-working, IsConfigured,
  set_cc_mode-IsConfigured,
}

-- The action succeeded, and the firmware, which works, has the same knobs and saw no write.
abbrev pub IsUntouched : State → Result Failure (Unit {0}) × (State × ℕ) → Type 0
IsUntouched s r = IsConfigured s.knobs r × (r.1.0.writes ≡ s.writes)

unwritten :
    (s : State) (r : Result Failure (Unit {0}) × (State × ℕ))
    → Post (λ _. FitsAfter s.writes s.knobs) (λ _. ⊥) r.0 r.1
    → IsUntouched s r
unwritten s (ok u, x) ((works, knobs, _), writes) = ((refl, knobs, works), writes)
unwritten s (err e, x) p = elim p [ ]

cc_knob-narrow :
    (hopper : Bool) (mode : CcMode) (has_ppcie : Bool) (v j : ℕ)
    → v < 2 ^ 16
    → cc_knob hopper mode has_ppcie (λ _. v) j < 2 ^ 16
unfolding cc_knob
cc_knob-narrow hopper cc_off has v j h = ground arith
cc_knob-narrow hopper cc_on has v j h = ground arith
cc_knob-narrow hopper cc_devtools has v j h = ground arith

cc_result-IsNarrow :
    (hopper : Bool) (mode : CcMode) (f : KnobValues)
    → ((j : ℕ) → IsNarrow (f j))
    → (j : ℕ) → IsNarrow (cc_result hopper mode f j)
cc_result-IsNarrow hopper mode f h j =
    let n = h j in
    elim (Option-cases (f j)) [
      | inl e ↦ rw e tt
      | inr (v, e) ↦ rw e (cc_knob-narrow hopper mode _ v j (rw e at n))
    ]

module _ (gpu : Gpu) (mode : CcMode)
    (allowed : (gpu.c2c && not gpu.chip.c2c_cc_supported && not (is_cc_off mode)) ≡ false) where
  -- Where the knobs say the mode already, it is set without a write.
  set_cc_mode-IsUntouched :
      (s : State) (t : ℕ)
      → IsWorking s
      → ((j : ℕ) → IsNarrow (s.knobs j))
      → Says gpu.chip.hopper mode s.knobs
      → IsUntouched s (set_cc_mode (firmware (mailbox_of gpu.chip.hopper)) gpu mode (s, t))
  unfolding set_cc_mode
  set_cc_mode-IsUntouched s t works narrow says =
      let mailbox = mailbox_of gpu.chip.hopper in
      let wait = wait_for_boot (firmware mailbox) gpu in
      let x = (attempt wait (s, t)).1 in
      let fits : FitsAfter s.writes s.knobs x =
        subst (λ q. IsHealthy s.knobs q × (q.writes ≡ s.writes))
          (sym (attempt-Quietly wait (wait_for_boot-Quietly mailbox gpu) (s, t)))
          ((works, refl, narrow), refl) in
      let rpc = channel (firmware mailbox) (rpc_of mailbox) in
      rw (allowed, open_rpc-working gpu x fits.0.0)
        (unwritten s (set_cc_knobs rpc gpu.chip.hopper mode x) (
          set_cc_knobs-Stays (firmware-IsReading mailbox s.writes) s.knobs gpu.chip.hopper mode says
            x fits))

  -- On firmware that works and has the knobs that the mode is written to, all values of 16 bits:
  -- where a mode that the GPU supports is set twice, the second time succeeds without writing a
  -- knob, and leaves the knobs as the first has left them.
  pub set_cc_mode-again :
      (s : State) (t : ℕ)
      → IsWorking s
      → ((j : ℕ) → IsNarrow (s.knobs j))
      → All (Has s.knobs) (cc_knobs gpu.chip.hopper)
      → let set = set_cc_mode (firmware (mailbox_of gpu.chip.hopper)) gpu mode in
        let after = (set (s, t)).1 in IsUntouched after.0 (set after)
  set_cc_mode-again s t works narrow has =
      let hopper = gpu.chip.hopper in
      let first = set_cc_mode (firmware (mailbox_of hopper)) gpu mode (s, t) in
      let done = set_cc_mode-IsConfigured s t works narrow gpu mode allowed has in
      set_cc_mode-IsUntouched first.1.0 first.1.1 done.2
        (subst (λ (f : KnobValues). (j : ℕ) → IsNarrow (f j)) (sym done.1)
          (cc_result-IsNarrow hopper mode s.knobs narrow))
        (subst (Says hopper mode) (sym done.1) (cc_result-Says hopper mode s.knobs has))
