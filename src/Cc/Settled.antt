-- ===== src/Cc/Settled.antt =====
-- What the knobs are once `set_cc_mode` or `set_ppcie_mode` has succeeded.
use pcilibs_rs.Prelude.{
  ℕ, Bool, true, false, ◌&&◌, ◌||◌, ◌==◌, if◌then◌else◌, Result, ok, err, ◌≡◌, inl, inr, refl,
  arith, Bool-cases, ◌∙◌,
}
use pcilibs_rs.Device.{Failure}
use pcilibs_rs.Fsp.Packet.{
  knob_2, knob_4, knob_ccd, knob_ccm, knob_bar0_decoupler, knob_34, knob_ppcie,
}
use pcilibs_rs.Fsp.Knobs.{Channel}
use pcilibs_rs.Cc.Modes.{
  CcMode, cc_off, cc_on, cc_devtools, PpcieMode, ppcie_off, ppcie_on, is_ppcie_on,
}
use pcilibs_rs.Cc.Plan.{
  ccm_of, ccd_of, decoupler_of, ppcie_knob_plan, apply_ppcie_plan, set_cc_knobs,
}
use pcilibs_rs.Cc.Store.{History, Predicate, Post, value, IsStore}
use pcilibs_rs.Cc.Leads.{
  Knobs, set, set_all, Holds, Any, finished, prepared, set_cc_knobs-Leads, apply_ppcie_plan-Leads,
}

abbrev is_conflict : ℕ → Bool
is_conflict k = k == knob_2 || k == knob_4 || k == knob_34

-- The knob `k` behind a success of `set_cc_mode`; `has_ppcie` where the firmware has that knob.
unfoldable pub cc_knob : Bool → CcMode → Bool → Knobs → Knobs
cc_knob hopper mode has_ppcie f k =
    if k == knob_ccm
    then ccm_of mode
    else if k == knob_ccd
    then ccd_of mode
    else if hopper && k == knob_bar0_decoupler
    then decoupler_of mode
    else if hopper && ccm_of mode == 1 && (is_conflict k || has_ppcie && k == knob_ppcie)
    then 0
    else f k

-- The knob `k` behind a success of `set_ppcie_mode`.
unfoldable pub ppcie_knob : PpcieMode → Bool → Knobs → Knobs
ppcie_knob mode bar0_decoupler f k =
    if k == knob_ppcie
    then (if is_ppcie_on mode then 1 else 0)
    else if k == knob_bar0_decoupler
    then (if is_ppcie_on mode && bar0_decoupler then 2 else 0)
    else if is_ppcie_on mode && (is_conflict k || k == knob_ccd || k == knob_ccm)
    then 0
    else f k

module _ {S : Type 0} {rpc : Channel S} {history : S → History} {initial : ℕ → ℕ} {known : ℕ → Bool}
    (store : IsStore rpc history initial known) where
  finished_cc :
      (hopper : Bool) (mode : CcMode) (f : Knobs) (k : ℕ)
      → finished store mode (if hopper then prepared store mode f else f) k
        ≡ cc_knob hopper mode (known knob_ppcie) f k
  unfolding set_all set cc_knob
  finished_cc true cc_off f k = ground arith
  finished_cc true cc_on f k = elim (Bool-cases (known knob_ppcie)) [
    | inl e ↦ rw e (ground arith)
    | inr e ↦ rw e (ground arith)
  ]
  finished_cc true cc_devtools f k = elim (Bool-cases (known knob_ppcie)) [
    | inl e ↦ rw e (ground arith)
    | inr e ↦ rw e (ground arith)
  ]
  finished_cc false cc_off f k = ground arith
  finished_cc false cc_on f k = ground arith
  finished_cc false cc_devtools f k = ground arith

  finished_ppcie :
      (mode : PpcieMode) (bar0_decoupler : Bool) (f : Knobs) (k : ℕ)
      → set_all (ppcie_knob_plan mode bar0_decoupler) f k ≡ ppcie_knob mode bar0_decoupler f k
  unfolding set_all set ppcie_knob ppcie_knob_plan
  finished_ppcie ppcie_off true f k = ground arith
  finished_ppcie ppcie_off false f k = ground arith
  finished_ppcie ppcie_on true f k = ground arith
  finished_ppcie ppcie_on false f k = ground arith

  success-Post :
      (E : Predicate) (g : Knobs) (r : Result Failure (Unit {0})) (h : History)
      → r ≡ ok tt
      → Post (λ _. Holds store g) E r h
      → Holds store g h
  success-Post E g (ok _) h e p = p
  success-Post E g (err x) h e p = cc e

  -- With firmware that keeps what is written last: once `set_cc_mode` has succeeded, CCM and CCD
  -- say the mode, the BAR0 decoupler is set for it on Hopper, enabling CC on Hopper has cleared
  -- the knobs that conflict with CC and the PPCIE knob where the firmware has it, and every
  -- other knob is as it was.
  pub set_cc_knobs-settles :
      (hopper : Bool) (mode : CcMode) (s : S) (k : ℕ)
      → (set_cc_knobs rpc hopper mode s).0 ≡ ok tt
      → value initial (history (set_cc_knobs rpc hopper mode s).1) k
        ≡ cc_knob hopper mode (known knob_ppcie) (value initial (history s)) k
  set_cc_knobs-settles hopper mode s k e =
      success-Post (Any store) _ _ _ e
        (set_cc_knobs-Leads store hopper mode (value initial (history s)) s (λ j. refl)) k
      ∙ finished_cc hopper mode _ k

  -- With firmware that keeps what is written last: once the PPCIE knobs are written, PPCIE says
  -- the mode, the BAR0 decoupler is on for a GPU that enables it and off otherwise, enabling has
  -- cleared CCM, CCD and the knobs that conflict, and every other knob is as it was.
  pub apply_ppcie_plan-settles :
      (mode : PpcieMode) (bar0_decoupler : Bool) (s : S) (k : ℕ)
      → (apply_ppcie_plan rpc mode bar0_decoupler s).0 ≡ ok tt
      → value initial (history (apply_ppcie_plan rpc mode bar0_decoupler s).1) k
        ≡ ppcie_knob mode bar0_decoupler (value initial (history s)) k
  apply_ppcie_plan-settles mode bar0_decoupler s k e =
      success-Post (Any store) _ _ _ e
        (apply_ppcie_plan-Leads store mode bar0_decoupler (value initial (history s)) s (λ j. refl))
        k
      ∙ finished_ppcie mode bar0_decoupler _ k
