-- ===== src/Cc/Plan.antt =====
-- src/cc/mod.rs: which knobs are written, and in which order.
use pcilibs_rs.Prelude.{ℕ, Bool, ◌&&◌, ◌==◌, if◌then◌else◌, Result, ok, err, List, [], ◌∷◌, ◌++◌}
use pcilibs_rs.Device.{Action, Failure, unsupported, pure, fail_with, ◌>>=◌, ◌>>◌, attempt}
use pcilibs_rs.Fsp.Packet.{
  knob_2, knob_4, knob_ccd, knob_ccm, knob_bar0_decoupler, knob_34, knob_ppcie,
}
use pcilibs_rs.Fsp.Knobs.{Channel, is_invalid_knob, knob_check_and_write}
use pcilibs_rs.Cc.Modes.{CcMode, cc_off, cc_on, cc_devtools, PpcieMode, is_ppcie_on}

-- The values of the CCM, CCD and BAR0 decoupler knobs.
abbrev pub ccm_of : CcMode → ℕ
ccm_of cc_off = 0
ccm_of _ = 1

abbrev pub ccd_of : CcMode → ℕ
ccd_of cc_devtools = 1
ccd_of _ = 0

abbrev pub decoupler_of : CcMode → ℕ
decoupler_of cc_on = 2
decoupler_of _ = 0

unfoldable pub ppcie_knob_plan : PpcieMode → Bool → List (ℕ × ℕ)
ppcie_knob_plan mode bar0_decoupler =
    (if is_ppcie_on mode
      then (knob_2, 0) ∷ (knob_4, 0) ∷ (knob_ccd, 0) ∷ (knob_ccm, 0) ∷ (knob_34, 0) ∷ []
      else [])
    ++ (knob_bar0_decoupler, if is_ppcie_on mode && bar0_decoupler then 2 else 0)
      ∷ (knob_ppcie, if is_ppcie_on mode then 1 else 0)
      ∷ []

module _ {S : Type 0} (rpc : Channel S) where
  unfoldable pub write_plan : List (ℕ × ℕ) → Action S (Unit {0})
  write_plan [] = pure tt
  write_plan ((knob, value) ∷ plan) =
      let rest = write_plan plan in knob_check_and_write rpc knob value >> rest

  -- The probe's result: firmware too old for PPCIE is reported as that.
  abbrev pub probed : Result Failure ℕ → Action S (Unit {0})
  probed (ok _) = pure tt
  probed (err e) = if is_invalid_knob e then fail_with unsupported else fail_with e

  unfoldable pub apply_ppcie_plan : PpcieMode → Bool → Action S (Unit {0})
  unfolding write_plan
  apply_ppcie_plan mode bar0_decoupler = do
    probe ← attempt (rpc.knob_read knob_ppcie)
    probed probe
    write_plan (ppcie_knob_plan mode bar0_decoupler)

  -- The `match` on the PPCIE knob of `set_cc_mode`.
  abbrev pub disable_ppcie : Result Failure ℕ → Action S (Unit {0})
  disable_ppcie (ok value) = if value == 0 then pure tt else rpc.knob_write knob_ppcie 0
  disable_ppcie (err e) = if is_invalid_knob e then pure tt else fail_with e

  -- Knobs that conflict with CC are cleared first.
  unfoldable pub clear_conflicts : Action S (Unit {0})
  unfolding write_plan
  clear_conflicts = do
    write_plan ((knob_2, 0) ∷ (knob_4, 0) ∷ (knob_34, 0) ∷ [])
    ppcie ← attempt (rpc.knob_read knob_ppcie)
    disable_ppcie ppcie

  unfoldable pub prepare_hopper : CcMode → Action S (Unit {0})
  unfolding clear_conflicts
  prepare_hopper mode = do
    (if ccm_of mode == 1 then clear_conflicts else pure tt)
    knob_check_and_write rpc knob_bar0_decoupler (decoupler_of mode)

  -- CCM goes on first and off last.
  unfoldable pub write_cc_knobs : CcMode → Action S (Unit {0})
  write_cc_knobs mode =
      if ccm_of mode == 1
      then knob_check_and_write rpc knob_ccm (ccm_of mode)
        >> knob_check_and_write rpc knob_ccd (ccd_of mode)
      else knob_check_and_write rpc knob_ccd (ccd_of mode)
        >> knob_check_and_write rpc knob_ccm (ccm_of mode)

  -- `set_cc_mode`, once the channel is open.
  unfoldable pub set_cc_knobs : Bool → CcMode → Action S (Unit {0})
  unfolding prepare_hopper write_cc_knobs
  set_cc_knobs hopper mode = do
    (if hopper then prepare_hopper mode else pure tt)
    write_cc_knobs mode
