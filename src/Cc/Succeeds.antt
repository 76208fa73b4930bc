-- ===== src/Cc/Succeeds.antt =====
-- The knob writes of src/cc/mod.rs over firmware that works: they succeed.
use mathlib.Core.Path.{subst}
use pcilibs_rs.Prelude.{
  ℕ, ◌^◌, ◌<◌, Bool, true, false, ◌==◌, if◌then◌else◌, Option, none, some, Result, err, List, [],
  ◌∷◌, ◌≡◌, inl, inr, refl, sym, arith, All, Bool-cases,
}
use pcilibs_rs.Device.{Action, Failure, unsupported, pure, ◌>>=◌, ◌>>◌, attempt}
use pcilibs_rs.Effects.Hoare.{Hoare, Hoare-bind}
use pcilibs_rs.Fsp.Packet.{
  knob_2, knob_4, knob_ccd, knob_ccm, knob_bar0_decoupler, knob_34, knob_ppcie,
}
use pcilibs_rs.Fsp.Knobs.{Channel, knob_check_and_write}
use pcilibs_rs.Fsp.Serving.{KnobValues, with_knob, looked_up, IsServing}
use pcilibs_rs.Cc.Modes.{CcMode, cc_off, cc_on, cc_devtools, PpcieMode, ppcie_off, ppcie_on}
use pcilibs_rs.Cc.Equipped.{
  Has, IsReady, with_all, conflicts, without_ppcie, cleared, prepared, finished, cc_knobs,
  ppcie_knobs, Has-with_knob, Has-cleared, Has-prepared, IsReady-with_knob, with_knob_same,
}
use pcilibs_rs.Cc.Plan.{
  write_plan, disable_ppcie, clear_conflicts, prepare_hopper, write_cc_knobs, set_cc_knobs,
  ppcie_knob_plan, probed, apply_ppcie_plan,
}

module _ {S : Type 0} {rpc : Channel S} {Fits : KnobValues → S → Type 0}
    (serving : IsServing rpc Fits) where
  abbrev Never : S → Type 0
  Never s = ⊥

  -- From knobs `f`, the action succeeds and leaves knobs `g`.
  abbrev pub Serves : KnobValues → Action S (Unit {0}) → KnobValues → Type 0
  Serves f m g = Hoare (λ s. s) (Fits f) m (λ _. Fits g) Never

  Serves-then :
      (f g h : KnobValues) (m n : Action S (Unit {0}))
      → Serves f m g
      → Serves g n h
      → Serves f (m >> n) h
  Serves-then f g h m n p q =
      Hoare-bind (λ s. s) (Fits f) m (λ _. Fits g) (λ _. n) (λ _. Fits h) Never p (λ _. q)

  -- A read whose answer is used as a value.
  Serves-read :
      (f g : KnobValues) (k : ℕ) (next : Result Failure ℕ → Action S (Unit {0}))
      → k < 2 ^ 16
      → Serves f (next (looked_up (f k))) g
      → Serves f (attempt (rpc.knob_read k) >>= next) g
  Serves-read f g k next small h s fits =
      let r = serving.reads.read k f s small fits in rw r.0 (h _ r.1)

  -- Writing what a knob has already changes nothing.
  kept : (f : KnobValues) (k v : ℕ) → f k ≡ some v → (s : S) → Fits f s → Fits (with_knob k v f) s
  kept f k v e s fits = subst (λ g. Fits g s) (sym (with_knob_same f k v e)) fits

  write-Serves :
      (f : KnobValues) (k v : ℕ)
      → k < 2 ^ 16
      → v < 2 ^ 16
      → Serves f (rpc.knob_write k v) (with_knob k v f)
  write-Serves f k v a b s fits = let r = serving.write k v f s a b fits in rw r.0 r.1

  check-Serves :
      (f : KnobValues) (k v : ℕ)
      → IsReady f (k, v)
      → Serves f (knob_check_and_write rpc k v) (with_knob k v f)
  unfolding knob_check_and_write
  check-Serves f k v (a, b, (c, e)) =
      Hoare-bind (λ s. s) (Fits f) (rpc.knob_read k) (λ x s. (x ≡ c) × Fits f s) _
        (λ _. Fits (with_knob k v f)) Never
        (λ s fits. let r = serving.reads.read k f s a fits in rw (r.0, e) (refl, r.1))
        (λ x. elim (Bool-cases (x == v)) [
          | inl same ↦ λ s p. rw same (
              let q = p.0 in
              let d : c ≡ v = ground arith in kept f k v (let m : f k ≡ some v = cc in m) s p.1)
          | inr other ↦ λ s p. rw other (write-Serves f k v a b s p.1)
        ])

  pub write_plan-Serves :
      (plan : List (ℕ × ℕ)) (f : KnobValues)
      → All (IsReady f) plan
      → Serves f (write_plan rpc plan) (with_all plan f)
  unfolding write_plan
  write_plan-Serves [] f h = λ s fits. fits
  write_plan-Serves ((k, v) ∷ plan) f (r, h) =
      Serves-then f (with_knob k v f) _ _ _ (check-Serves f k v r)
        (write_plan-Serves plan (with_knob k v f) (IsReady-with_knob f k v plan h))

  disable_ppcie-Serves :
      (f : KnobValues) (old : Option ℕ)
      → f knob_ppcie ≡ old
      → Serves f (disable_ppcie rpc (looked_up old)) (without_ppcie old f)
  disable_ppcie-Serves f none e = λ s fits. fits
  disable_ppcie-Serves f (some v) e = elim (Bool-cases (v == 0)) [
    | inl off ↦ λ s fits. rw off (
        let z : v ≡ 0 = ground arith in
        kept f knob_ppcie 0 (let m : f knob_ppcie ≡ some 0 = cc in m) s fits)
    | inr on ↦ λ s fits. rw on (write-Serves f knob_ppcie 0 (omega arith) (omega arith) s fits)
  ]

  clear_conflicts-Serves :
      (f : KnobValues)
      → Has f knob_2
      → Has f knob_4
      → Has f knob_34
      → Serves f (clear_conflicts rpc) (cleared f)
  unfolding clear_conflicts
  clear_conflicts-Serves f a b c =
      Serves-then f (with_all conflicts f) _ (write_plan rpc conflicts) _
        (write_plan-Serves conflicts f (
          (omega arith, omega arith, a),
          ((omega arith, omega arith, b), ((omega arith, omega arith, c), tt)),
        ))
        (Serves-read _ _ knob_ppcie (disable_ppcie rpc) (omega arith)
          (disable_ppcie-Serves _ (f knob_ppcie) refl))

  prepare_hopper-Serves :
      (mode : CcMode) (f : KnobValues)
      → All (Has f) (cc_knobs true)
      → Serves f (prepare_hopper rpc mode) (prepared mode f)
  unfolding prepare_hopper
  prepare_hopper-Serves cc_off f (m, (d, (b, h))) =
      Serves-then f f _ (pure tt) (knob_check_and_write rpc knob_bar0_decoupler 0) (λ s p. p)
        (check-Serves f knob_bar0_decoupler 0 (omega arith, omega arith, b))
  prepare_hopper-Serves cc_on f (m, (d, (b, (x, (y, (z, _)))))) =
      Serves-then f (cleared f) _ _ _ (clear_conflicts-Serves f x y z)
        (check-Serves _ _ _ (omega arith, omega arith, Has-cleared f knob_bar0_decoupler b))
  prepare_hopper-Serves cc_devtools f (m, (d, (b, (x, (y, (z, _)))))) =
      Serves-then f (cleared f) _ _ _ (clear_conflicts-Serves f x y z)
        (check-Serves _ _ _ (omega arith, omega arith, Has-cleared f knob_bar0_decoupler b))

  write_cc_knobs-Serves :
      (mode : CcMode) (f : KnobValues)
      → Has f knob_ccm
      → Has f knob_ccd
      → Serves f (write_cc_knobs rpc mode) (finished mode f)
  unfolding write_cc_knobs
  write_cc_knobs-Serves cc_off f a b =
      Serves-then f _ _ _ _ (check-Serves f knob_ccd 0 (omega arith, omega arith, b))
        (check-Serves _ _ _ (omega arith, omega arith, Has-with_knob f knob_ccd 0 knob_ccm a))
  write_cc_knobs-Serves cc_on f a b =
      Serves-then f _ _ _ _ (check-Serves f knob_ccm 1 (omega arith, omega arith, a))
        (check-Serves _ _ _ (omega arith, omega arith, Has-with_knob f knob_ccm 1 knob_ccd b))
  write_cc_knobs-Serves cc_devtools f a b =
      Serves-then f _ _ _ _ (check-Serves f knob_ccm 1 (omega arith, omega arith, a))
        (check-Serves _ _ _ (omega arith, omega arith, Has-with_knob f knob_ccm 1 knob_ccd b))

  pub set_cc_knobs-Serves :
      (hopper : Bool) (mode : CcMode) (f : KnobValues)
      → All (Has f) (cc_knobs hopper)
      → Serves f
          (set_cc_knobs rpc hopper mode)
          (finished mode (if hopper then prepared mode f else f))
  unfolding set_cc_knobs
  set_cc_knobs-Serves true mode f (m, (d, h)) =
      Serves-then f (prepared mode f) _ _ _ (prepare_hopper-Serves mode f (m, (d, h))) (
        write_cc_knobs-Serves mode _ (Has-prepared mode f knob_ccm m)
          (Has-prepared mode f knob_ccd d))
  set_cc_knobs-Serves false mode f (m, (d, h)) =
      Serves-then f f _ (pure tt) (write_cc_knobs rpc mode) (λ s p. p)
        (write_cc_knobs-Serves mode f m d)

  ppcie_plan-IsReady :
      (mode : PpcieMode) (bar0_decoupler : Bool) (f : KnobValues)
      → Has f knob_ppcie
      → All (Has f) (ppcie_knobs mode)
      → All (IsReady f) (ppcie_knob_plan mode bar0_decoupler)
  unfolding ppcie_knob_plan
  ppcie_plan-IsReady ppcie_off b f p (q, _) =
      ((omega arith, omega arith, q), ((omega arith, omega arith, p), tt))
  ppcie_plan-IsReady ppcie_on b f p (q, (x, (y, (d, (m, (z, _)))))) = (
    (omega arith, omega arith, x),
    (
      (omega arith, omega arith, y),
      (
        (omega arith, omega arith, d),
        (
          (omega arith, omega arith, m),
          (
            (omega arith, omega arith, z),
            ((omega arith, ground arith, q), ((omega arith, omega arith, p), tt)),
          ),
        ),
      ),
    ),
  )

  pub apply_ppcie_plan-Serves :
      (mode : PpcieMode) (bar0_decoupler : Bool) (f : KnobValues) (old : ℕ)
      → f knob_ppcie ≡ some old
      → All (Has f) (ppcie_knobs mode)
      → Serves f
          (apply_ppcie_plan rpc mode bar0_decoupler)
          (with_all (ppcie_knob_plan mode bar0_decoupler) f)
  unfolding apply_ppcie_plan
  apply_ppcie_plan-Serves mode b f old e h =
      Serves-read f _ knob_ppcie
        (λ probe. probed rpc probe >> write_plan rpc (ppcie_knob_plan mode b)) (omega arith)
        (rw e
          (write_plan-Serves (ppcie_knob_plan mode b) f (ppcie_plan-IsReady mode b f (old, e) h)))

  -- Firmware without the PPCIE knob is asked for nothing else.
  pub apply_ppcie_plan-unsupported :
      (mode : PpcieMode) (bar0_decoupler : Bool) (f : KnobValues) (s : S)
      → f knob_ppcie ≡ none
      → Fits f s
      → let r = apply_ppcie_plan rpc mode bar0_decoupler s in (r.0 ≡ err unsupported) × Fits f r.1
  unfolding apply_ppcie_plan
  apply_ppcie_plan-unsupported mode b f s e fits =
      let r = serving.reads.read knob_ppcie f s (omega arith) fits in rw (r.0, e) (refl, r.1)
