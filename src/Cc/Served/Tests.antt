-- ===== src/Cc/Served/Tests.antt =====
-- The modes set on the firmware that `Fsp::new` makes.
use pcilibs_rs.Prelude.{
  ℕ, arith, true, false, ◌==◌, any, some, ◌≡◌, refl, inl, inr, Bool-cases, All,
}
use pcilibs_rs.Text.{codes}
use pcilibs_rs.Gpu.Chips.{Family}
use pcilibs_rs.Fsp.Firmware.{Mailbox, firmware, fresh, knobs_known}
use pcilibs_rs.Fsp.Firmware.Replies.{IsWorking}
use pcilibs_rs.Fsp.Firmware.Served.{IsNarrow}
use pcilibs_rs.Cc.Modes.{cc_devtools, ppcie_on}
use pcilibs_rs.Cc.Settled.{cc_knob}
use pcilibs_rs.Cc.Equipped.{Has, cc_knobs, ppcie_knobs, cc_result, ppcie_result}
use pcilibs_rs.Cc.Operations.{Gpu, set_cc_mode, set_ppcie_mode}
use pcilibs_rs.Cc.Served.Again.{IsUntouched, set_cc_mode-again}
use pcilibs_rs.Cc.Served.{IsConfigured, set_cc_mode-IsConfigured, set_ppcie_mode-IsPpcieConfigured}

abbrev gh100 : Gpu
gh100 = record {
  chip = record {
    family = Family.hopper;
    name = codes "GH100";
    devid = (0x22f0, 0x237f);
    hopper = true;
    c2c_cc_supported = false;
    boot_complete = 0x200bc;
  };
  c2c = false;
}

abbrev fresh-IsWorking : IsWorking fresh
fresh-IsWorking = (refl, refl, refl, refl, refl, refl)

fresh-IsNarrow : (j : ℕ) → IsNarrow (fresh.knobs j)
fresh-IsNarrow j = elim (Bool-cases (any (λ i. i == j) knobs_known)) [
  | inl e ↦ rw e (omega arith)
  | inr e ↦ rw e tt
]

abbrev fresh-cc_knobs : All (Has fresh.knobs) (cc_knobs true)
fresh-cc_knobs = ((0, refl), ((0, refl), ((0, refl), ((0, refl), ((0, refl), ((0, refl), tt))))))

abbrev fresh-ppcie_knobs : All (Has fresh.knobs) (ppcie_knobs ppcie_on)
fresh-ppcie_knobs = ((0, refl), ((0, refl), ((0, refl), ((0, refl), ((0, refl), ((0, refl), tt))))))

set_cc_mode-IsSet_example :
    IsConfigured
      (cc_result true cc_devtools fresh.knobs)
      (set_cc_mode (firmware Mailbox.emem) gh100 cc_devtools (fresh, 0))
set_cc_mode-IsSet_example =
    set_cc_mode-IsConfigured fresh 0 fresh-IsWorking fresh-IsNarrow gh100 cc_devtools refl
      fresh-cc_knobs

set_ppcie_mode-IsPpcieConfigured_example :
    IsConfigured
      (ppcie_result ppcie_on true fresh.knobs)
      (set_ppcie_mode (firmware Mailbox.emem) gh100 ppcie_on (fresh, 0))
set_ppcie_mode-IsPpcieConfigured_example =
    set_ppcie_mode-IsPpcieConfigured fresh 0 fresh-IsWorking fresh-IsNarrow gh100 ppcie_on refl
      fresh-ppcie_knobs

cc_result_example : cc_result true cc_devtools fresh.knobs 6 ≡ some 1
unfolding cc_knob
cc_result_example = refl

set_cc_mode-again_example :
    let set = set_cc_mode (firmware Mailbox.emem) gh100 cc_devtools in
    let after = (set (fresh, 0)).1 in IsUntouched after.0 (set after)
set_cc_mode-again_example =
    set_cc_mode-again gh100 cc_devtools refl fresh 0 fresh-IsWorking fresh-IsNarrow fresh-cc_knobs
