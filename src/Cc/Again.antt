-- ===== src/Cc/Again.antt =====
-- Setting the mode that the knobs say already (src/cc/mod.rs): nothing is written.
use pcilibs_rs.Prelude.{
  ℕ, ◌^◌, ◌<◌, Bool, true, false, ◌==◌, ==_iff, Option, none, some, List, [], ◌∷◌, ◌≡◌, refl, arith,
  All, Option-cases, inl, inr,
}
use pcilibs_rs.Device.{Action, pure, ◌>>=◌, ◌>>◌, attempt}
use pcilibs_rs.Effects.Hoare.{Hoare, Hoare-bind}
use pcilibs_rs.Fsp.Packet.{knob_ccd, knob_ccm, knob_bar0_decoupler, knob_ppcie}
use pcilibs_rs.Fsp.Knobs.{Channel, knob_check_and_write}
use pcilibs_rs.Fsp.Serving.{KnobValues, looked_up, IsReading}
use pcilibs_rs.Cc.Modes.{CcMode, cc_off, cc_on, cc_devtools}
use pcilibs_rs.Cc.Plan.{
  ccm_of, ccd_of, decoupler_of, write_plan, disable_ppcie, clear_conflicts, prepare_hopper,
  write_cc_knobs, set_cc_knobs,
}
use pcilibs_rs.Cc.Settled.{cc_knob}
use pcilibs_rs.Cc.Equipped.{Has, conflicts, cc_knobs, cc_result}

-- The firmware lacks the knob, or it is off.
abbrev pub is_clear : Option ℕ → Bool
is_clear none = true
is_clear (some v) = v == 0

-- A knob that can be written has this value.
abbrev pub IsAt : KnobValues → ℕ × ℕ → Type 0
IsAt f (k, v) = (k < 2 ^ 16) × (f k ≡ some v)

abbrev pub settings : CcMode → List (ℕ × ℕ)
settings mode = (knob_ccm, ccm_of mode) ∷ (knob_ccd, ccd_of mode) ∷ []

abbrev pub SaysHopper : CcMode → KnobValues → Type 0
SaysHopper cc_off f = IsAt f (knob_bar0_decoupler, 0)
SaysHopper mode f =
    IsAt f (knob_bar0_decoupler, decoupler_of mode)
    × All (IsAt f) conflicts
    × (is_clear (f knob_ppcie) ≡ true)

-- The knobs say the mode.
abbrev pub Says : Bool → CcMode → KnobValues → Type 0
Says true mode f = All (IsAt f) (settings mode) × SaysHopper mode f
Says false mode f = All (IsAt f) (settings mode) × Unit {0}

module _ {S : Type 0} {rpc : Channel S} {Fits : KnobValues → S → Type 0}
    (reading : IsReading rpc Fits) (f : KnobValues) where
  abbrev Never : S → Type 0
  Never s = ⊥

  -- The action succeeds, and what holds of the state holds still.
  abbrev pub Stays : Action S (Unit {0}) → Type 0
  Stays m = Hoare (λ s. s) (Fits f) m (λ _. Fits f) Never

  Stays-then : (m n : Action S (Unit {0})) → Stays m → Stays n → Stays (m >> n)
  Stays-then m n p q =
      Hoare-bind (λ s. s) (Fits f) m (λ _. Fits f) (λ _. n) (λ _. Fits f) Never p (λ _. q)

  check-Stays : (k v : ℕ) → IsAt f (k, v) → Stays (knob_check_and_write rpc k v)
  unfolding knob_check_and_write
  check-Stays k v (small, e) s fits =
      let r = reading.read k f s small fits in rw (r.0, e, (==_iff v v).1 refl) r.1

  write_plan-Stays : (plan : List (ℕ × ℕ)) → All (IsAt f) plan → Stays (write_plan rpc plan)
  unfolding write_plan
  write_plan-Stays [] h = λ s fits. fits
  write_plan-Stays ((k, v) ∷ plan) (p, h) =
      Stays-then (knob_check_and_write rpc k v) (write_plan rpc plan) (check-Stays k v p)
        (write_plan-Stays plan h)

  disable_ppcie-Stays :
      (old : Option ℕ) → is_clear old ≡ true → Stays (disable_ppcie rpc (looked_up old))
  disable_ppcie-Stays none h = λ s fits. fits
  disable_ppcie-Stays (some v) h = λ s fits. rw h fits

  clear_conflicts-Stays :
      All (IsAt f) conflicts → is_clear (f knob_ppcie) ≡ true → Stays (clear_conflicts rpc)
  unfolding clear_conflicts
  clear_conflicts-Stays h clear =
      Stays-then (write_plan rpc conflicts)
        (attempt (rpc.knob_read knob_ppcie) >>= disable_ppcie rpc) (write_plan-Stays conflicts h)
        (λ s fits.
          let r = reading.read knob_ppcie f s (omega arith) fits in
          rw r.0 (disable_ppcie-Stays (f knob_ppcie) clear _ r.1))

  prepare_hopper-Stays : (mode : CcMode) → SaysHopper mode f → Stays (prepare_hopper rpc mode)
  unfolding prepare_hopper
  prepare_hopper-Stays cc_off d =
      Stays-then (pure tt) (knob_check_and_write rpc knob_bar0_decoupler 0) (λ s p. p)
        (check-Stays knob_bar0_decoupler 0 d)
  prepare_hopper-Stays cc_on (d, h, clear) =
      Stays-then (clear_conflicts rpc) _ (clear_conflicts-Stays h clear)
        (check-Stays knob_bar0_decoupler 2 d)
  prepare_hopper-Stays cc_devtools (d, h, clear) =
      Stays-then (clear_conflicts rpc) _ (clear_conflicts-Stays h clear)
        (check-Stays knob_bar0_decoupler 0 d)

  write_cc_knobs-Stays :
      (mode : CcMode) → All (IsAt f) (settings mode) → Stays (write_cc_knobs rpc mode)
  unfolding write_cc_knobs
  write_cc_knobs-Stays cc_off (m, (d, _)) =
      Stays-then _ _ (check-Stays knob_ccd 0 d) (check-Stays knob_ccm 0 m)
  write_cc_knobs-Stays cc_on (m, (d, _)) =
      Stays-then _ _ (check-Stays knob_ccm 1 m) (check-Stays knob_ccd 0 d)
  write_cc_knobs-Stays cc_devtools (m, (d, _)) =
      Stays-then _ _ (check-Stays knob_ccm 1 m) (check-Stays knob_ccd 1 d)

  pub set_cc_knobs-Stays :
      (hopper : Bool) (mode : CcMode) → Says hopper mode f → Stays (set_cc_knobs rpc hopper mode)
  unfolding set_cc_knobs
  set_cc_knobs-Stays true mode (h, p) =
      Stays-then (prepare_hopper rpc mode) (write_cc_knobs rpc mode) (prepare_hopper-Stays mode p)
        (write_cc_knobs-Stays mode h)
  set_cc_knobs-Stays false mode (h, _) =
      Stays-then (pure tt) (write_cc_knobs rpc mode) (λ s p. p) (write_cc_knobs-Stays mode h)

-- Once a mode is set, the knobs say it.
pub cc_result-Says :
    (hopper : Bool) (mode : CcMode) (f : KnobValues)
    → All (Has f) (cc_knobs hopper)
    → Says hopper mode (cc_result hopper mode f)
unfolding cc_knob
cc_result-Says false cc_off f ((m, a), ((d, b), _)) =
    (((omega arith, rw a refl), ((omega arith, rw b refl), tt)), tt)
cc_result-Says false cc_on f ((m, a), ((d, b), _)) =
    (((omega arith, rw a refl), ((omega arith, rw b refl), tt)), tt)
cc_result-Says false cc_devtools f ((m, a), ((d, b), _)) =
    (((omega arith, rw a refl), ((omega arith, rw b refl), tt)), tt)
cc_result-Says true cc_off f ((m, a), ((d, b), ((x, p), _))) =
    (((omega arith, rw a refl), ((omega arith, rw b refl), tt)), (omega arith, rw p refl))
cc_result-Says true cc_on f ((m, a), ((d, b), ((x, p), ((y, q), ((z, r), ((w, s), _)))))) =
    let ppcie : is_clear (cc_result true cc_on f knob_ppcie) ≡ true =
      elim (Option-cases (f knob_ppcie)) [ inl e ↦ rw e refl | inr (v, e) ↦ rw e refl ] in
    let off : All (IsAt (cc_result true cc_on f)) conflicts =
      ((omega arith, rw q refl), ((omega arith, rw r refl), ((omega arith, rw s refl), tt))) in
    (
      ((omega arith, rw a refl), ((omega arith, rw b refl), tt)),
      ((omega arith, rw p refl), off, ppcie),
    )
cc_result-Says true cc_devtools f ((m, a), ((d, b), ((x, p), ((y, q), ((z, r), ((w, s), _)))))) =
    let ppcie : is_clear (cc_result true cc_devtools f knob_ppcie) ≡ true =
      elim (Option-cases (f knob_ppcie)) [ inl e ↦ rw e refl | inr (v, e) ↦ rw e refl ] in
    let off : All (IsAt (cc_result true cc_devtools f)) conflicts =
      ((omega arith, rw q refl), ((omega arith, rw r refl), ((omega arith, rw s refl), tt))) in
    (
      ((omega arith, rw a refl), ((omega arith, rw b refl), tt)),
      ((omega arith, rw p refl), off, ppcie),
    )
