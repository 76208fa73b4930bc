-- ===== src/Cc/Leads.antt =====
-- Each action on the knobs, as a function from the knobs before to the knobs behind a success.
use pcilibs_rs.Prelude.{
  ℕ, Bool, true, false, ◌==◌, if◌then◌else◌, Result, ok, err, List, [], ◌∷◌, ◌≡◌, inl, inr, arith,
  Bool-cases, Result-cases,
}
use pcilibs_rs.Device.{Action, Failure, pure, ◌>>=◌, ◌>>◌, attempt}
use pcilibs_rs.Fsp.Packet.{
  knob_2, knob_4, knob_ccd, knob_ccm, knob_bar0_decoupler, knob_34, knob_ppcie,
}
use pcilibs_rs.Fsp.Knobs.{Channel, is_invalid_knob, knob_check_and_write}
use pcilibs_rs.Cc.Modes.{CcMode, cc_off, cc_on, cc_devtools, PpcieMode}
use pcilibs_rs.Cc.Plan.{
  ccm_of, ccd_of, decoupler_of, ppcie_knob_plan, write_plan, probed, apply_ppcie_plan,
  clear_conflicts, disable_ppcie, prepare_hopper, write_cc_knobs, set_cc_knobs,
}
use pcilibs_rs.Cc.Store.{
  History, Predicate, value, IsStore, Hoare, Hoare-bind, Hoare-write, Hoare-check_and_write,
}

abbrev pub Knobs : Type 0
Knobs = ℕ → ℕ

unfoldable pub set : ℕ → ℕ → Knobs → Knobs
set k v f j = if k == j then v else f j

unfoldable pub set_all : List (ℕ × ℕ) → Knobs → Knobs
unfolding set
set_all [] f = f
set_all ((k, v) ∷ plan) f = set_all plan (set k v f)

module _ {S : Type 0} {rpc : Channel S} {history : S → History} {initial : ℕ → ℕ} {known : ℕ → Bool}
    (store : IsStore rpc history initial known) where
  abbrev pub Holds : Knobs → Predicate
  Holds f h = (j : ℕ) → value initial h j ≡ f j

  abbrev pub Any : Predicate
  Any h = Unit {0}

  -- From knobs `f`, a success leaves knobs `g`.
  abbrev pub Leads : Knobs → Action S (Unit {0}) → Knobs → Type 0
  Leads f m g = Hoare history (Holds f) m (λ _. Holds g) Any

  Leads-then :
      (f g k : Knobs) (m n : Action S (Unit {0})) → Leads f m g → Leads g n k → Leads f (m >> n) k
  Leads-then f g k m n p q =
      Hoare-bind history (Holds f) m (λ _. Holds g) (λ _. n) (λ _. Holds k) Any p (λ _. q)

  written : (f : Knobs) (k v : ℕ) (h : History) → Holds f h → Holds (set k v f) ((k, v) ∷ h)
  unfolding value set
  written f k v h holds j = let e = holds j in ground arith

  unchanged :
      (f : Knobs) (k v : ℕ) (h : History) → Holds f h → value initial h k ≡ v → Holds (set k v f) h
  unfolding set
  unchanged f k v h holds e j =
      let i = holds j in
      elim (Bool-cases (k == j)) [
        | inl same ↦ rw same (let p : k ≡ j = ground arith in cc)
        | inr other ↦ rw other i
      ]

  check-Leads : (f : Knobs) (k v : ℕ) → Leads f (knob_check_and_write rpc k v) (set k v f)
  check-Leads f k v =
      Hoare-check_and_write store (Holds f) (Holds (set k v f)) Any k v (unchanged f k v)
        (written f k v) (λ h _. tt) (λ h _. tt)

  write_plan-Leads :
      (plan : List (ℕ × ℕ)) (f : Knobs) → Leads f (write_plan rpc plan) (set_all plan f)
  unfolding write_plan set_all
  write_plan-Leads [] f = λ s h. h
  write_plan-Leads ((k, v) ∷ plan) f =
      Leads-then _ _ _ _ _ (check-Leads f k v) (write_plan-Leads plan (set k v f))

  -- What the probe of the PPCIE knob tells.
  abbrev pub Probed : Knobs → Result Failure ℕ → Predicate
  Probed f (ok v) h = Holds f h × (v ≡ value initial h knob_ppcie) × (known knob_ppcie ≡ true)
  Probed f (err e) h = Holds f h × (is_invalid_knob e ≡ true → known knob_ppcie ≡ false)

  read-Probed :
      (f : Knobs) → Hoare history (Holds f) (attempt (rpc.knob_read knob_ppcie)) (Probed f) Any
  read-Probed f s holds = elim (Result-cases (rpc.knob_read knob_ppcie s).0) [
    | inl (v, e) ↦ rw e (
        rw (store.read_keeps knob_ppcie s)
          (holds, store.read_value _ s v e, store.read_known _ s v e))
    | inr (x, e) ↦ rw e (rw (store.read_keeps knob_ppcie s) (holds, store.read_unknown _ s x e))
  ]

  probed-Leads :
      (f : Knobs) (r : Result Failure ℕ)
      → Hoare history (Probed f r) (probed rpc r) (λ _. Holds f) Any
  probed-Leads f (ok v) = λ s p. p.0
  probed-Leads f (err e) = elim (Bool-cases (is_invalid_knob e)) [
    | inl old ↦ λ s p. rw old tt
    | inr new ↦ λ s p. rw new tt
  ]

  Leads-probed :
      (f g : Knobs) (m : Result Failure ℕ → Action S (Unit {0}))
      → ((r : Result Failure ℕ) → Hoare history (Probed f r) (m r) (λ _. Holds g) Any)
      → Leads f (attempt (rpc.knob_read knob_ppcie) >>= m) g
  Leads-probed f g m next =
      Hoare-bind history (Holds f) (attempt (rpc.knob_read knob_ppcie)) (Probed f) m (λ _. Holds g)
        Any (read-Probed f) next

  pub apply_ppcie_plan-Leads :
      (mode : PpcieMode) (bar0_decoupler : Bool) (f : Knobs)
      → Leads f
          (apply_ppcie_plan rpc mode bar0_decoupler)
          (set_all (ppcie_knob_plan mode bar0_decoupler) f)
  unfolding apply_ppcie_plan
  apply_ppcie_plan-Leads mode bar0_decoupler f = Leads-probed f _ _ (λ r.
      Hoare-bind history (Probed f r) (probed rpc r) (λ _. Holds f)
        (λ _. write_plan rpc (ppcie_knob_plan mode bar0_decoupler))
        (λ _. Holds (set_all (ppcie_knob_plan mode bar0_decoupler) f)) Any (probed-Leads f r)
        (λ _. write_plan-Leads (ppcie_knob_plan mode bar0_decoupler) f))

  abbrev pub without_ppcie : Knobs → Knobs
  without_ppcie f = if known knob_ppcie then set knob_ppcie 0 f else f

  disable_ppcie-Leads :
      (f : Knobs) (r : Result Failure ℕ)
      → Hoare history (Probed f r) (disable_ppcie rpc r) (λ _. Holds (without_ppcie f)) Any
  disable_ppcie-Leads f (ok v) = elim (Bool-cases (v == 0)) [
    | inl e ↦ λ s p. rw e (
        rw p.2 (unchanged f knob_ppcie 0 _ p.0 (let q = p.1 in let z : v ≡ 0 = ground arith in cc)))
    | inr e ↦ λ s p. rw e (
        rw p.2 (
          Hoare-write store (Holds f) (Holds (set knob_ppcie 0 f)) Any knob_ppcie 0
            (written f knob_ppcie 0) (λ h _. tt) (λ h _. tt) s p.0))
  ]
  disable_ppcie-Leads f (err e) = elim (Bool-cases (is_invalid_knob e)) [
    | inl old ↦ λ s p. rw old (rw (p.1 old) p.0)
    | inr new ↦ λ s p. rw new tt
  ]

  abbrev pub cleared : Knobs → Knobs
  cleared f = without_ppcie (set_all ((knob_2, 0) ∷ (knob_4, 0) ∷ (knob_34, 0) ∷ []) f)

  clear_conflicts-Leads : (f : Knobs) → Leads f (clear_conflicts rpc) (cleared f)
  unfolding clear_conflicts
  clear_conflicts-Leads f =
      Leads-then f _ _ _ _ (write_plan-Leads ((knob_2, 0) ∷ (knob_4, 0) ∷ (knob_34, 0) ∷ []) f)
        (Leads-probed _ _ (disable_ppcie rpc) (disable_ppcie-Leads _))

  abbrev pub prepared : CcMode → Knobs → Knobs
  prepared mode f =
      set knob_bar0_decoupler (decoupler_of mode) (if ccm_of mode == 1 then cleared f else f)

  prepare_hopper-Leads :
      (mode : CcMode) (f : Knobs) → Leads f (prepare_hopper rpc mode) (prepared mode f)
  unfolding prepare_hopper
  prepare_hopper-Leads cc_off f =
      Leads-then f f _ (pure tt) (knob_check_and_write rpc knob_bar0_decoupler 0) (λ s p. p)
        (check-Leads f knob_bar0_decoupler 0)
  prepare_hopper-Leads cc_on f =
      Leads-then f (cleared f) _ _ _ (clear_conflicts-Leads f) (check-Leads _ _ _)
  prepare_hopper-Leads cc_devtools f =
      Leads-then f (cleared f) _ _ _ (clear_conflicts-Leads f) (check-Leads _ _ _)

  abbrev pub finished : CcMode → Knobs → Knobs
  finished mode f =
      if ccm_of mode == 1
      then set knob_ccd (ccd_of mode) (set knob_ccm (ccm_of mode) f)
      else set knob_ccm (ccm_of mode) (set knob_ccd (ccd_of mode) f)

  write_cc_knobs-Leads :
      (mode : CcMode) (f : Knobs) → Leads f (write_cc_knobs rpc mode) (finished mode f)
  unfolding write_cc_knobs
  write_cc_knobs-Leads cc_off f = Leads-then f _ _ _ _ (check-Leads _ _ _) (check-Leads _ _ _)
  write_cc_knobs-Leads cc_on f = Leads-then f _ _ _ _ (check-Leads _ _ _) (check-Leads _ _ _)
  write_cc_knobs-Leads cc_devtools f = Leads-then f _ _ _ _ (check-Leads _ _ _) (check-Leads _ _ _)

  pub set_cc_knobs-Leads :
      (hopper : Bool) (mode : CcMode) (f : Knobs)
      → Leads f
          (set_cc_knobs rpc hopper mode)
          (finished mode (if hopper then prepared mode f else f))
  unfolding set_cc_knobs
  set_cc_knobs-Leads true mode f =
      Leads-then f (prepared mode f) _ _ _ (prepare_hopper-Leads mode f)
        (write_cc_knobs-Leads mode _)
  set_cc_knobs-Leads false mode f =
      Leads-then f f _ (pure tt) (write_cc_knobs rpc mode) (λ s p. p) (write_cc_knobs-Leads mode f)
