-- ===== src/Cc/Equipped.antt =====
-- Which knobs firmware must have for the writes of src/cc/mod.rs, and the knobs behind them.
use mathlib.Core.Path.{fun_ext}
use pcilibs_rs.Prelude.{
  ℕ, ◌^◌, ◌<◌, Bool, true, false, ◌==◌, if◌then◌else◌, Option, none, some, List, [], ◌∷◌, ◌≡◌, inl,
  inr, refl, arith, All, Bool-cases, Option-cases,
}
use pcilibs_rs.Fsp.Packet.{
  knob_2, knob_4, knob_ccd, knob_ccm, knob_bar0_decoupler, knob_34, knob_ppcie,
}
use pcilibs_rs.Fsp.Serving.{KnobValues, with_knob}
use pcilibs_rs.Cc.Modes.{CcMode, cc_off, cc_on, cc_devtools, PpcieMode, ppcie_off, ppcie_on}
use pcilibs_rs.Cc.Plan.{ccm_of, ccd_of, decoupler_of, ppcie_knob_plan}
use pcilibs_rs.Cc.Settled.{cc_knob, ppcie_knob}

abbrev pub Has : KnobValues → ℕ → Type 0
Has f k = (v : ℕ) × (f k ≡ some v)

-- A knob can be written with a value.
abbrev pub IsReady : KnobValues → ℕ × ℕ → Type 0
IsReady f (k, v) = (k < 2 ^ 16) × (v < 2 ^ 16) × Has f k

abbrev pub with_all : List (ℕ × ℕ) → KnobValues → KnobValues
with_all [] f = f
with_all ((k, v) ∷ plan) f = with_all plan (with_knob k v f)

pub Has-with_knob : (f : KnobValues) (k v j : ℕ) → Has f j → Has (with_knob k v f) j
Has-with_knob f k v j (w, e) = elim (Bool-cases (j == k)) [
  | inl same ↦ (v, rw same refl)
  | inr other ↦ (w, rw other e)
]

pub IsReady-with_knob :
    (f : KnobValues) (k v : ℕ) (plan : List (ℕ × ℕ))
    → All (IsReady f) plan
    → All (IsReady (with_knob k v f)) plan
IsReady-with_knob f k v [] h = tt
IsReady-with_knob f k v ((j, w) ∷ plan) ((a, b, c), h) =
    ((a, b, Has-with_knob f k v j c), IsReady-with_knob f k v plan h)

pub with_knob_same : (f : KnobValues) (k v : ℕ) → f k ≡ some v → with_knob k v f ≡ f
with_knob_same f k v e = fun_ext λ j. elim (Bool-cases (j == k)) [
  | inl same ↦ rw same (let p : j ≡ k = ground arith in cc)
  | inr other ↦ rw other refl
]

-- The PPCIE knob, cleared where the firmware has it: `old` is what it said of it.
abbrev pub without_ppcie : Option ℕ → KnobValues → KnobValues
without_ppcie none f = f
without_ppcie (some v) f = with_knob knob_ppcie 0 f

abbrev pub conflicts : List (ℕ × ℕ)
conflicts = (knob_2, 0) ∷ (knob_4, 0) ∷ (knob_34, 0) ∷ []

abbrev pub cleared : KnobValues → KnobValues
cleared f = without_ppcie (f knob_ppcie) (with_all conflicts f)

abbrev pub prepared : CcMode → KnobValues → KnobValues
prepared mode f =
    with_knob knob_bar0_decoupler (decoupler_of mode) (if ccm_of mode == 1 then cleared f else f)

abbrev pub finished : CcMode → KnobValues → KnobValues
finished mode f =
    if ccm_of mode == 1
    then with_knob knob_ccd (ccd_of mode) (with_knob knob_ccm (ccm_of mode) f)
    else with_knob knob_ccm (ccm_of mode) (with_knob knob_ccd (ccd_of mode) f)

Has-without_ppcie :
    (old : Option ℕ) (f : KnobValues) (j : ℕ) → Has f j → Has (without_ppcie old f) j
Has-without_ppcie none f j h = h
Has-without_ppcie (some v) f j h = Has-with_knob f knob_ppcie 0 j h

Has-with_all : (plan : List (ℕ × ℕ)) (f : KnobValues) (j : ℕ) → Has f j → Has (with_all plan f) j
Has-with_all [] f j h = h
Has-with_all ((k, v) ∷ plan) f j h = Has-with_all plan (with_knob k v f) j (Has-with_knob f k v j h)

pub Has-cleared : (f : KnobValues) (j : ℕ) → Has f j → Has (cleared f) j
Has-cleared f j h =
    Has-without_ppcie (f knob_ppcie) (with_all conflicts f) j (Has-with_all conflicts f j h)

-- The knobs that `set_cc_mode` writes, but for the PPCIE knob, which firmware may lack.
abbrev pub cc_knobs : Bool → List ℕ
cc_knobs true = knob_ccm ∷ knob_ccd ∷ knob_bar0_decoupler ∷ knob_2 ∷ knob_4 ∷ knob_34 ∷ []
cc_knobs false = knob_ccm ∷ knob_ccd ∷ []

pub Has-prepared : (mode : CcMode) (f : KnobValues) (j : ℕ) → Has f j → Has (prepared mode f) j
Has-prepared cc_off f j h = Has-with_knob f knob_bar0_decoupler 0 j h
Has-prepared cc_on f j h = Has-with_knob (cleared f) knob_bar0_decoupler 2 j (Has-cleared f j h)
Has-prepared cc_devtools f j h =
    Has-with_knob (cleared f) knob_bar0_decoupler 0 j (Has-cleared f j h)

-- The knobs that `set_ppcie_mode` writes, but for the PPCIE knob.
abbrev pub ppcie_knobs : PpcieMode → List ℕ
ppcie_knobs ppcie_on = knob_bar0_decoupler ∷ knob_2 ∷ knob_4 ∷ knob_ccd ∷ knob_ccm ∷ knob_34 ∷ []
ppcie_knobs ppcie_off = knob_bar0_decoupler ∷ []

abbrev pub is_known : Option ℕ → Bool
is_known none = false
is_known (some v) = true

-- A function on values, at the value of one knob that the firmware may have.
abbrev pub at_value : (ℕ → ℕ) → Option ℕ → Option ℕ
at_value φ none = none
at_value φ (some v) = some (φ v)

abbrev pub cc_result : Bool → CcMode → KnobValues → KnobValues
cc_result hopper mode f j =
    at_value (λ v. cc_knob hopper mode (is_known (f knob_ppcie)) (λ _. v) j) (f j)

abbrev pub ppcie_result : PpcieMode → Bool → KnobValues → KnobValues
ppcie_result mode bar0_decoupler f j =
    at_value (λ v. ppcie_knob mode bar0_decoupler (λ _. v) j) (f j)

pub finished-cc_result :
    (hopper : Bool) (mode : CcMode) (f : KnobValues)
    → All (Has f) (cc_knobs hopper)
    → (j : ℕ) → finished mode (if hopper then prepared mode f else f) j ≡ cc_result hopper mode f j
unfolding cc_knob
finished-cc_result false cc_off f ((a, e), ((b, d), _)) j = ground (arith, Option-cases (f j))
finished-cc_result false cc_on f ((a, e), ((b, d), _)) j = ground (arith, Option-cases (f j))
finished-cc_result false cc_devtools f ((a, e), ((b, d), _)) j = ground (arith, Option-cases (f j))
finished-cc_result true cc_off f ((a, e), ((b, d), ((x, p), _))) j =
    ground (arith, Option-cases (f j))
finished-cc_result true cc_on f ((a, e), ((b, d), ((x, p), ((y, q), ((z, r), ((w, s), _)))))) j =
    elim (Option-cases (f knob_ppcie)) [
      | inl old ↦ rw old (ground (arith, Option-cases (f j)))
      | inr (u, new) ↦ rw new (ground (arith, Option-cases (f j)))
    ]
finished-cc_result true cc_devtools f ((a, e), ((b, d), ((x, p), ((y, q), ((z, r), ((w, s), _))))))
      j =
    elim (Option-cases (f knob_ppcie)) [
      | inl old ↦ rw old (ground (arith, Option-cases (f j)))
      | inr (u, new) ↦ rw new (ground (arith, Option-cases (f j)))
    ]

pub with_all-ppcie_result :
    (mode : PpcieMode) (bar0_decoupler : Bool) (f : KnobValues)
    → Has f knob_ppcie
    → All (Has f) (ppcie_knobs mode)
    → (j : ℕ)
    → with_all (ppcie_knob_plan mode bar0_decoupler) f j ≡ ppcie_result mode bar0_decoupler f j
unfolding ppcie_knob ppcie_knob_plan
with_all-ppcie_result ppcie_off b f (p, e) ((q, d), _) j = ground (arith, Option-cases (f j))
with_all-ppcie_result ppcie_on b f (p, e)
      ((q, d), ((r, g), ((s, i), ((t, k), ((u, l), ((v, m), _)))))) j =
    ground (arith, Option-cases (f j))
