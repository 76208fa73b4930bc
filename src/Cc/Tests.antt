-- ===== src/Cc/Tests.antt =====
-- Firmware that keeps its knobs as the list of writes, and the theorems at it.
use pcilibs_rs.Prelude.{ℕ, true, ok, [], ◌∷◌, ◌≡◌, refl, inr}
use pcilibs_rs.Fsp.Knobs.{Channel, knob_check_and_write}
use pcilibs_rs.Cc.Modes.{cc_on, cc_off, ppcie_on}
use pcilibs_rs.Cc.Plan.{
  set_cc_knobs, apply_ppcie_plan, ppcie_knob_plan, write_plan, clear_conflicts, prepare_hopper,
  write_cc_knobs,
}
use pcilibs_rs.Cc.Store.{History, value, IsStore}
use pcilibs_rs.Cc.Order.{NeverCcdOnly, ccd_only, set_cc_knobs-NeverCcdOnly}
use pcilibs_rs.Cc.Settled.{cc_knob, ppcie_knob, set_cc_knobs-settles, apply_ppcie_plan-settles}

abbrev fresh : ℕ → ℕ
fresh k = 0

abbrev knobs : Channel History
knobs = record {
  knob_read = λ k h. (ok (value fresh h k), h);
  knob_write = λ k v h. (ok tt, (k, v) ∷ h);
}

knobs-IsStore : IsStore knobs (λ h. h) fresh (λ _. true)
knobs-IsStore = record {
  read_keeps = λ k s. refl;
  read_value = λ k s v e. cc;
  read_unknown = λ k s x e i. cc e;
  read_known = λ k s v e. refl;
  write_done = λ k v s e. refl;
  write_kept = λ k v s. inr refl;
}

abbrev ppcie_enabled : History
ppcie_enabled = (45, 1) ∷ (10, 2) ∷ []

set_cc_knobs-settles_example :
    value fresh (set_cc_knobs knobs true cc_on ppcie_enabled).1 45
    ≡ cc_knob true cc_on true (value fresh ppcie_enabled) 45
unfolding set_cc_knobs prepare_hopper clear_conflicts write_plan write_cc_knobs knob_check_and_write
    value
set_cc_knobs-settles_example = set_cc_knobs-settles knobs-IsStore true cc_on ppcie_enabled 45 refl

apply_ppcie_plan-settles_example :
    value fresh (apply_ppcie_plan knobs ppcie_on true ((8, 1) ∷ [])).1 8
    ≡ ppcie_knob ppcie_on true (value fresh ((8, 1) ∷ [])) 8
unfolding apply_ppcie_plan ppcie_knob_plan write_plan knob_check_and_write value
apply_ppcie_plan-settles_example =
    apply_ppcie_plan-settles knobs-IsStore ppcie_on true ((8, 1) ∷ []) 8 refl

set_cc_knobs-NeverCcdOnly_example :
    NeverCcdOnly fresh (set_cc_knobs knobs true cc_off ((6, 1) ∷ (8, 1) ∷ [])).1
unfolding NeverCcdOnly ccd_only value
set_cc_knobs-NeverCcdOnly_example =
    set_cc_knobs-NeverCcdOnly knobs-IsStore true cc_off ((6, 1) ∷ (8, 1) ∷ []) (refl, (refl, refl))
