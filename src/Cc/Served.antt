-- ===== src/Cc/Served.antt =====
-- The operations of src/cc/mod.rs on the firmware that the tests of src/cc/fsp.rs talk to.
pub mod Again
mod Tests
use pcilibs_rs.Prelude.{
  ℕ, Bool, true, false, not, ◌&&◌, ◌==◌, if◌then◌else◌, Option, none, some, Result, ok, err, List,
  ◌≡◌, refl, sym, ap, ◌∙◌, All, inl, inr, Bool-cases,
}
use mathlib.Core.Path.{fun_ext, subst}
use pcilibs_rs.Device.{Action, Failure, unsupported, pure, ◌>>=◌, ◌>>◌, attempt, require}
use pcilibs_rs.Device.Poll.{poll}
use pcilibs_rs.Effects.Hoare.{Post, Post-either, Post-always, Hoare, Hoare-bind}
use pcilibs_rs.Fsp.Packet.{knob_ppcie}
use pcilibs_rs.Fsp.Serving.{KnobValues}
use pcilibs_rs.Fsp.Rpc.{FspRpc, channel}
use pcilibs_rs.Fsp.Firmware.{Mailbox, State, firmware}
use pcilibs_rs.Fsp.Firmware.Replies.{IsWorking}
use pcilibs_rs.Fsp.Firmware.Served.{IsNarrow, rpc_of}
use pcilibs_rs.Fsp.Firmware.Healthy.{
  quiet, IsHealthy, Fits, firmware-IsServing, poll-quiet, open_emem-working,
}
use pcilibs_rs.Cc.Modes.{CcMode, PpcieMode, is_cc_off}
use pcilibs_rs.Cc.Plan.{set_cc_knobs, apply_ppcie_plan, ppcie_knob_plan}
use pcilibs_rs.Cc.Equipped.{
  Has, cc_knobs, ppcie_knobs, cc_result, ppcie_result, finished, prepared, finished-cc_result,
  with_all, with_all-ppcie_result,
}
use pcilibs_rs.Cc.Succeeds.{
  set_cc_knobs-Serves, apply_ppcie_plan-Serves, apply_ppcie_plan-unsupported,
}
use pcilibs_rs.Cc.Operations.{
  Gpu, Switch, nv_pmc_boot_0, boot_complete_ok, wait_for_bar0, wait_for_scratch, wait_for_boot,
  open_rpc, set_cc_mode, set_ppcie_mode, set_switch_ppcie,
}

-- Hopper has the EMEM mailbox, Blackwell MNOC.
abbrev pub mailbox_of : Bool → Mailbox
mailbox_of true = Mailbox.emem
mailbox_of false = Mailbox.mnoc

pub Quietly : {A : Type 0} → Action (State × ℕ) A → Type 0
Quietly m = (s : State) → Hoare quiet (λ h. h ≡ s) m (λ _ h. h ≡ s) (λ h. h ≡ s)

-- Waiting, whatever comes of it, leaves the firmware and its knobs as they are.
pub attempt-Quietly :
    {A : Type 0} (m : Action (State × ℕ) A)
    → Quietly m
    → (x : State × ℕ) → quiet (attempt m x).1 ≡ quiet x
unfolding Quietly
attempt-Quietly m h x = Post-either (λ k. k ≡ quiet x) (m x).0 _ (h (quiet x) x refl)

wait_for_bar0-Quietly :
    (mailbox : Mailbox) (gpu : Gpu) → Quietly (wait_for_bar0 (firmware mailbox) gpu)
unfolding wait_for_bar0 Quietly
wait_for_bar0-Quietly mailbox gpu s = elim (Bool-cases gpu.chip.hopper) [
  | inl e ↦ λ x h. rw e h
  | inr e ↦ λ x h. rw e (poll-quiet mailbox 15000 nv_pmc_boot_0 (λ v. not (v == 0xffffffff)) s x h)
]

wait_for_scratch-Quietly :
    (mailbox : Mailbox) (boot_complete : ℕ)
    → Quietly (wait_for_scratch (firmware mailbox) boot_complete)
unfolding wait_for_scratch Quietly
wait_for_scratch-Quietly mailbox boot_complete =
    poll-quiet mailbox 10000 boot_complete (λ v. v == boot_complete_ok)

pub wait_for_boot-Quietly :
    (mailbox : Mailbox) (gpu : Gpu) → Quietly (wait_for_boot (firmware mailbox) gpu)
unfolding wait_for_boot Quietly
wait_for_boot-Quietly mailbox gpu s =
    Hoare-bind quiet (λ h. h ≡ s) (wait_for_bar0 (firmware mailbox) gpu) (λ _ h. h ≡ s)
      (λ _. wait_for_scratch (firmware mailbox) gpu.chip.boot_complete) (λ _ h. h ≡ s) (λ h. h ≡ s)
      (wait_for_bar0-Quietly mailbox gpu s)
      (λ _. wait_for_scratch-Quietly mailbox gpu.chip.boot_complete s)

pub open_rpc-working :
    (gpu : Gpu) (x : State × ℕ)
    → IsWorking x.0
    → open_rpc (firmware (mailbox_of gpu.chip.hopper)) gpu x
      ≡ (ok (rpc_of (mailbox_of gpu.chip.hopper)), x)
unfolding open_rpc
open_rpc-working gpu (s, t) w = elim (Bool-cases gpu.chip.hopper) [
  | inl e ↦ rw e (open_emem-working s t w)
  | inr e ↦ rw e refl
]

-- The action succeeded, and left the firmware working with the knobs `f`.
abbrev pub IsConfigured : KnobValues → Result Failure (Unit {0}) × (State × ℕ) → Type 0
IsConfigured f r = (r.0 ≡ ok tt) × (r.1.0.knobs ≡ f) × IsWorking r.1.0

-- The action failed, and left the firmware working with the knobs `f`.
abbrev pub IsRefused : Failure → KnobValues → Result Failure (Unit {0}) × (State × ℕ) → Type 0
IsRefused e f r = (r.0 ≡ err e) × (r.1.0.knobs ≡ f) × IsWorking r.1.0

success-IsConfigured :
    (f g : KnobValues) (r : Result Failure (Unit {0}) × (State × ℕ))
    → ((j : ℕ) → f j ≡ g j)
    → Post (λ _. Fits f) (λ _. ⊥) r.0 r.1
    → IsConfigured g r
success-IsConfigured f g (ok u, x) e p = (refl, p.1 ∙ fun_ext e, p.0)
success-IsConfigured f g (err e, x) _ p = elim p [ ]

require-then :
    {A : Type 0} (test : Bool) (e : Failure) (m : Action (State × ℕ) A) (x : State × ℕ)
    → test ≡ true
    → (require test e >> m) x ≡ m x
require-then test e m x h = rw h refl

-- Firmware without the PPCIE knob is left alone; else the knobs are set.
abbrev pub IsPpcieConfigured :
    Option ℕ → KnobValues → KnobValues → Result Failure (Unit {0}) × (State × ℕ) → Type 0
IsPpcieConfigured none f g = IsRefused unsupported f
IsPpcieConfigured (some v) f g = IsConfigured g

ppcie_plan-IsPpcieConfigured :
    (mode : PpcieMode) (bar0_decoupler : Bool) (f : KnobValues) (x : State × ℕ) (old : Option ℕ)
    → f knob_ppcie ≡ old
    → Fits f x
    → All (Has f) (ppcie_knobs mode)
    → IsPpcieConfigured old f
        (ppcie_result mode bar0_decoupler f)
        (apply_ppcie_plan (channel (firmware Mailbox.emem) FspRpc.emem) mode bar0_decoupler x)
ppcie_plan-IsPpcieConfigured mode b f x none e fits has =
    let r = apply_ppcie_plan-unsupported (firmware-IsServing Mailbox.emem) mode b f x e fits in
    (r.0, r.1.1, r.1.0)
ppcie_plan-IsPpcieConfigured mode b f x (some v) e fits has =
    success-IsConfigured _ _ _ (with_all-ppcie_result mode b f (v, e) has)
      (apply_ppcie_plan-Serves (firmware-IsServing Mailbox.emem) mode b f v e has x fits)

module _ (s : State) (t : ℕ) (works : IsWorking s) (narrow : (j : ℕ) → IsNarrow (s.knobs j)) where
  healthy : (x : State × ℕ) → quiet x ≡ quiet (s, t) → Fits s.knobs x
  healthy x same = subst (IsHealthy s.knobs) (sym same) (works, refl, narrow)

  waited : {A : Type 0} (m : Action (State × ℕ) A) → Quietly m → Fits s.knobs (attempt m (s, t)).1
  waited m h = healthy (attempt m (s, t)).1 (attempt-Quietly m h (s, t))

  -- On firmware that works and has the knobs that the mode is written to, all values of 16 bits: a
  -- mode that the GPU supports is set with success, whatever waiting for the boot comes to. CCM
  -- and CCD say the mode, the BAR0 decoupler is set for it on Hopper, enabling CC on Hopper has
  -- cleared the knobs that conflict and the PPCIE knob where the firmware has it, every other
  -- knob is as it was, and the firmware works.
  pub set_cc_mode-IsConfigured :
      (gpu : Gpu) (mode : CcMode)
      → (gpu.c2c && not gpu.chip.c2c_cc_supported && not (is_cc_off mode)) ≡ false
      → All (Has s.knobs) (cc_knobs gpu.chip.hopper)
      → IsConfigured
          (cc_result gpu.chip.hopper mode s.knobs)
          (set_cc_mode (firmware (mailbox_of gpu.chip.hopper)) gpu mode (s, t))
  unfolding set_cc_mode
  set_cc_mode-IsConfigured gpu mode allowed has =
      let mailbox = mailbox_of gpu.chip.hopper in
      let f = s.knobs in
      let x = (attempt (wait_for_boot (firmware mailbox) gpu) (s, t)).1 in
      let fits =
        waited (wait_for_boot (firmware mailbox) gpu) (wait_for_boot-Quietly mailbox gpu) in
      let rpc = channel (firmware mailbox) (rpc_of mailbox) in
      let serving = firmware-IsServing mailbox in
      rw (allowed, open_rpc-working gpu x fits.0)
        (success-IsConfigured _ _ (set_cc_knobs rpc gpu.chip.hopper mode x)
          (finished-cc_result gpu.chip.hopper mode f has)
          (set_cc_knobs-Serves serving gpu.chip.hopper mode f has x fits))

  -- On a Hopper GPU whose firmware works and has the knobs that the mode is written to, all values
  -- of 16 bits: where the firmware has the PPCIE knob the mode is set with success, and the knobs
  -- are those that `ppcie_knob` describes; where it has not, the mode is unsupported and no knob
  -- changes. Either way the firmware works.
  pub set_ppcie_mode-IsPpcieConfigured :
      (gpu : Gpu) (mode : PpcieMode)
      → gpu.chip.hopper ≡ true
      → All (Has s.knobs) (ppcie_knobs mode)
      → IsPpcieConfigured
          (s.knobs knob_ppcie)
          s.knobs
          (ppcie_result mode true s.knobs)
          (set_ppcie_mode (firmware Mailbox.emem) gpu mode (s, t))
  unfolding set_ppcie_mode
  set_ppcie_mode-IsPpcieConfigured gpu mode hopper has =
      let mailbox = Mailbox.emem in
      let x = (attempt (wait_for_boot (firmware mailbox) gpu) (s, t)).1 in
      let fits =
        waited (wait_for_boot (firmware mailbox) gpu) (wait_for_boot-Quietly mailbox gpu) in
      rw
        (require-then gpu.chip.hopper unsupported _ (s, t) hopper, open_emem-working x.0 x.1 fits.0)
        (ppcie_plan-IsPpcieConfigured mode true s.knobs x (s.knobs knob_ppcie) refl fits has)

  -- On a switch whose firmware works and has the knobs that the mode is written to, all values of
  -- 16 bits: the same, with the BAR0 decoupler off.
  pub set_switch_ppcie-IsPpcieConfigured :
      (switch : Switch) (mode : PpcieMode)
      → All (Has s.knobs) (ppcie_knobs mode)
      → IsPpcieConfigured
          (s.knobs knob_ppcie)
          s.knobs
          (ppcie_result mode false s.knobs)
          (set_switch_ppcie (firmware Mailbox.emem) switch mode (s, t))
  unfolding set_switch_ppcie
  set_switch_ppcie-IsPpcieConfigured switch mode has =
      let wait = wait_for_scratch (firmware Mailbox.emem) switch.boot_complete in
      let x = (attempt wait (s, t)).1 in
      let fits = waited wait (wait_for_scratch-Quietly Mailbox.emem switch.boot_complete) in
      rw (open_emem-working x.0 x.1 fits.0)
        (ppcie_plan-IsPpcieConfigured mode false s.knobs x (s.knobs knob_ppcie) refl fits has)
