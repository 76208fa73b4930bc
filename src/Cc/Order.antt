-- ===== src/Cc/Order.antt =====
-- The order of the knob writes of `set_cc_mode`: CCD is never left on without CCM.
use pcilibs_rs.Prelude.{
  ℕ, Bool, true, false, not, ◌&&◌, ◌==◌, if◌then◌else◌, Result, ok, err, List, [], ◌∷◌, ◌≡◌, inl,
  inr, refl, arith, Bool-cases, Result-cases, All,
}
use pcilibs_rs.Device.{Action, Failure, pure, ◌>>=◌, ◌>>◌, attempt}
use pcilibs_rs.Fsp.Packet.{
  knob_2, knob_4, knob_ccd, knob_ccm, knob_bar0_decoupler, knob_34, knob_ppcie,
}
use pcilibs_rs.Fsp.Knobs.{Channel, is_invalid_knob, knob_check_and_write}
use pcilibs_rs.Cc.Modes.{CcMode, cc_off, cc_on, cc_devtools}
use pcilibs_rs.Cc.Plan.{
  ccm_of, write_plan, clear_conflicts, disable_ppcie, prepare_hopper, write_cc_knobs, set_cc_knobs,
}
use pcilibs_rs.Cc.Store.{
  History, Predicate, Post, value, IsStore, Hoare, Hoare-bind, Hoare-write, Hoare-check_and_write,
}

-- CCD on, CCM off: the state that the firmware takes for invalid.
unfoldable pub ccd_only : (ℕ → ℕ) → History → Bool
unfolding value
ccd_only initial h = value initial h knob_ccm == 0 && not (value initial h knob_ccd == 0)

-- In none of the states that the history went through.
unfoldable pub NeverCcdOnly : (ℕ → ℕ) → History → Type 0
NeverCcdOnly initial [] = ccd_only initial [] ≡ false
NeverCcdOnly initial (write ∷ h) = (ccd_only initial (write ∷ h) ≡ false) × NeverCcdOnly initial h

module _ {S : Type 0} {rpc : Channel S} {history : S → History} {initial : ℕ → ℕ} {known : ℕ → Bool}
    (store : IsStore rpc history initial known) where
  abbrev Never : Predicate
  Never = NeverCcdOnly initial

  Never-now : (h : History) → Never h → ccd_only initial h ≡ false
  unfolding NeverCcdOnly
  Never-now [] n = n
  Never-now (w ∷ h) n = n.0

  abbrev Keeps : {A : Type 0} → Action S A → Type 0
  Keeps m = Hoare history Never m (λ _. Never) Never

  Keeps-bind :
      {A B : Type 0} (m : Action S A) (f : A → Action S B)
      → Keeps m
      → ((a : A) → Keeps (f a))
      → Keeps (m >>= f)
  Keeps-bind m f = Hoare-bind history Never m (λ _. Never) f (λ _. Never) Never

  abbrev IsOther : ℕ × ℕ → Type 0
  IsOther w = ((w.0 == knob_ccm) ≡ false) × ((w.0 == knob_ccd) ≡ false)

  other_write : (k v : ℕ) → IsOther (k, v) → (h : History) → Never h → Never ((k, v) ∷ h)
  unfolding NeverCcdOnly ccd_only value
  other_write k v o h n = let now = Never-now h n in (ground arith, n)

  check-Keeps : (k v : ℕ) → IsOther (k, v) → Keeps (knob_check_and_write rpc k v)
  check-Keeps k v o =
      Hoare-check_and_write store Never Never Never k v (λ h n _. n) (other_write k v o) (λ h n. n)
        (λ h n. n)

  write_plan-Keeps : (plan : List (ℕ × ℕ)) → All IsOther plan → Keeps (write_plan rpc plan)
  unfolding write_plan
  write_plan-Keeps [] o = λ s n. n
  write_plan-Keeps ((k, v) ∷ plan) o =
      Keeps-bind _ _ (check-Keeps k v o.0) (λ _. write_plan-Keeps plan o.1)

  Post-Never :
      {A : Type 0} (r : Result Failure A) (h : History)
      → Post (λ (_ : A). Never) Never r h
      → Never h
  Post-Never (ok a) h n = n
  Post-Never (err e) h n = n

  attempt-Keeps : {A : Type 0} (m : Action S A) → Keeps m → Keeps (attempt m)
  attempt-Keeps m keeps s n = Post-Never (m s).0 (history (m s).1) (keeps s n)

  disable_ppcie-Keeps : (r : Result Failure ℕ) → Keeps (disable_ppcie rpc r)
  disable_ppcie-Keeps (ok v) = elim (Bool-cases (v == 0)) [
    | inl e ↦ λ s n. rw e n
    | inr e ↦ λ s n. rw e (
        Hoare-write store Never Never Never knob_ppcie 0 (other_write knob_ppcie 0 (refl, refl))
          (λ h n. n) (λ h n. n) s n)
  ]
  disable_ppcie-Keeps (err e) = elim (Bool-cases (is_invalid_knob e)) [
    | inl old ↦ λ s n. rw old n
    | inr new ↦ λ s n. rw new n
  ]

  read-Keeps : (k : ℕ) → Keeps (rpc.knob_read k)
  read-Keeps k s n = elim (Result-cases (rpc.knob_read k s).0) [
    | inl (v, e) ↦ rw e (rw (store.read_keeps k s) n)
    | inr (x, e) ↦ rw e (rw (store.read_keeps k s) n)
  ]

  clear_conflicts-Keeps : Keeps (clear_conflicts rpc)
  unfolding clear_conflicts
  clear_conflicts-Keeps =
      Keeps-bind _ _
        (write_plan-Keeps ((knob_2, 0) ∷ (knob_4, 0) ∷ (knob_34, 0) ∷ [])
          ((refl, refl), ((refl, refl), ((refl, refl), tt))))
        (λ _.
          Keeps-bind (attempt (rpc.knob_read knob_ppcie)) (disable_ppcie rpc)
            (attempt-Keeps _ (read-Keeps knob_ppcie)) disable_ppcie-Keeps)

  prepare_hopper-Keeps : (mode : CcMode) → Keeps (prepare_hopper rpc mode)
  unfolding prepare_hopper
  prepare_hopper-Keeps mode =
      Keeps-bind _ _ (first mode) (λ _. check-Keeps knob_bar0_decoupler _ (refl, refl))
    where
      first : (mode : CcMode) → Keeps (if ccm_of mode == 1 then clear_conflicts rpc else pure tt)
      first cc_off = λ s n. n
      first cc_on = clear_conflicts-Keeps
      first cc_devtools = clear_conflicts-Keeps

  abbrev After : ℕ → ℕ → Predicate
  After k v h = Never h × (value initial h k ≡ v)

  -- CCM is on: CCD may be anything.
  enable-Keeps :
      (ccd : ℕ)
      → Keeps (knob_check_and_write rpc knob_ccm 1 >> knob_check_and_write rpc knob_ccd ccd)
  unfolding NeverCcdOnly ccd_only value
  enable-Keeps ccd =
      Hoare-bind history Never _ (λ _. After knob_ccm 1) _ (λ _. Never) Never
        (Hoare-check_and_write store Never (After knob_ccm 1) Never knob_ccm 1 (λ h n e. (n, e))
          (λ h n. ((refl, n), refl)) (λ h n. n) (λ h n. n.0))
        (λ _.
          Hoare-check_and_write store (After knob_ccm 1) Never Never knob_ccd ccd (λ h n _. n.0)
            (λ h n. let e = n.1 in (ground arith, n.0)) (λ h n. n.0) (λ h n. n))

  -- CCD is off: CCM may be anything.
  disable-Keeps :
      (ccm : ℕ)
      → Keeps (knob_check_and_write rpc knob_ccd 0 >> knob_check_and_write rpc knob_ccm ccm)
  unfolding NeverCcdOnly ccd_only value
  disable-Keeps ccm =
      Hoare-bind history Never _ (λ _. After knob_ccd 0) _ (λ _. Never) Never
        (Hoare-check_and_write store Never (After knob_ccd 0) Never knob_ccd 0 (λ h n e. (n, e))
          (λ h n. ((ground arith, n), refl)) (λ h n. n) (λ h n. n.0))
        (λ _.
          Hoare-check_and_write store (After knob_ccd 0) Never Never knob_ccm ccm (λ h n _. n.0)
            (λ h n. let e = n.1 in (ground arith, n.0)) (λ h n. n.0) (λ h n. n))

  write_cc_knobs-Keeps : (mode : CcMode) → Keeps (write_cc_knobs rpc mode)
  unfolding write_cc_knobs
  write_cc_knobs-Keeps cc_off = disable-Keeps 0
  write_cc_knobs-Keeps cc_on = enable-Keeps 0
  write_cc_knobs-Keeps cc_devtools = enable-Keeps 1

  Keeps-set_cc_knobs : (hopper : Bool) (mode : CcMode) → Keeps (set_cc_knobs rpc hopper mode)
  unfolding set_cc_knobs
  Keeps-set_cc_knobs hopper mode = Keeps-bind _ _ (first hopper) (λ _. write_cc_knobs-Keeps mode)
    where
      first : (hopper : Bool) → Keeps (if hopper then prepare_hopper rpc mode else pure tt)
      first true = prepare_hopper-Keeps mode
      first false = λ s n. n

  -- With firmware that keeps what is written last: whatever mode is set and wherever it fails, if
  -- CCD was never on while CCM was off, then this is so after every write of `set_cc_mode`.
  pub set_cc_knobs-NeverCcdOnly :
      (hopper : Bool) (mode : CcMode) (s : S)
      → NeverCcdOnly initial (history s)
      → NeverCcdOnly initial (history (set_cc_knobs rpc hopper mode s).1)
  set_cc_knobs-NeverCcdOnly hopper mode s n = Post-Never _ _ (Keeps-set_cc_knobs hopper mode s n)
