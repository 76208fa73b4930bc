-- ===== src/Cc/Operations.antt =====
-- src/cc/mod.rs: the operations of a GPU and of an NVSwitch that is open.
use pcilibs_rs.Prelude.{
  ℕ, bit_and, Bool, true, false, not, ◌&&◌, ◌==◌, if◌then◌else◌, Option, none, some, List, [], ◌∷◌,
}
use pcilibs_rs.Device.{
  Action, Machine, unsupported, failed_read, invalid_state, inaccessible, security_fault, pure,
  fail_with, ◌>>=◌, ◌>>◌, require, attempt, read32, reads_as,
}
use pcilibs_rs.Device.Poll.{poll}
use pcilibs_rs.Gpu.Chips.{Chip}
use pcilibs_rs.Fsp.Packet.{shift_right}
use pcilibs_rs.Fsp.Rpc.{FspRpc, open_emem, mnoc, channel}
use pcilibs_rs.Cc.Modes.{
  CcMode, cc_off, cc_on, cc_devtools, PpcieMode, ppcie_off, ppcie_on, is_cc_off,
}
use pcilibs_rs.Cc.Plan.{set_cc_knobs, apply_ppcie_plan}

abbrev pub nv_pmc_boot_0 : ℕ
nv_pmc_boot_0 = 0x0

abbrev pub cc_state_hopper : ℕ
cc_state_hopper = 0x1182cc

abbrev pub cc_state_blackwell : ℕ
cc_state_blackwell = 0x590

abbrev pub ppcie_state_hopper : ℕ
ppcie_state_hopper = 0x1182cc

abbrev pub ppcie_state_hopper_bit : ℕ
ppcie_state_hopper_bit = 0x20

abbrev pub ppcie_state_switch : ℕ
ppcie_state_switch = 0x28c50

abbrev pub ppcie_state_switch_bit : ℕ
ppcie_state_switch_bit = 0x1

abbrev pub boot_complete_ok : ℕ
boot_complete_ok = 0xff

-- `Gpu` without its device, which is the machine.
pub record Gpu : Type 0 where
  pub chip : Chip
  pub c2c : Bool

pub record Switch : Type 0 where
  pub boot0 : ℕ
  pub boot_complete : ℕ

abbrev pub switches : List Switch
switches = record { boot0 = 0x7000a1; boot_complete = 0x660bc } ∷ []

abbrev find_switch : List Switch → ℕ → Option Switch
find_switch [] boot0 = none
find_switch (s ∷ rest) boot0 =
    let later = find_switch rest boot0 in if s.boot0 == boot0 then some s else later

unfoldable pub switch_for : ℕ → Option Switch
switch_for boot0 = find_switch switches boot0

unfoldable pub ppcie_state : ℕ → ℕ → PpcieMode
ppcie_state reg bit = if bit_and reg bit == bit then ppcie_on else ppcie_off

-- The mode that the bits 1:0 of the state say.
unfoldable pub cc_state : {S : Type 0} → ℕ → Action S CcMode
cc_state bits =
    if bits == 0
    then pure cc_off
    else if bits == 1
    then pure cc_on
    else if bits == 3
    then pure cc_devtools
    else fail_with invalid_state

module _ {S : Type 0} (machine : Machine S) where
  unfoldable pub read_state : ℕ → Action S ℕ
  read_state reg = do
    value ← read32 machine reg
    require (not (shift_right value 16 == 0xbadf)) failed_read
    pure value

  -- `wait_for_boot` of a switch, and the last wait of a GPU's.
  unfoldable pub wait_for_scratch : ℕ → Action S (Unit {0})
  unfolding poll
  wait_for_scratch boot_complete =
      poll machine 10000 (reads_as machine boot_complete (λ v. v == boot_complete_ok))

  module _ (gpu : Gpu) where
    unfoldable pub wait_for_bar0 : Action S (Unit {0})
    unfolding poll
    wait_for_bar0 =
        if gpu.chip.hopper
        then pure tt
        else poll machine 15000 (reads_as machine nv_pmc_boot_0 (λ v. not (v == 0xffffffff)))

    unfoldable pub finish_open : Action S Gpu
    unfolding wait_for_bar0
    finish_open = do
      wait_for_bar0
      boot0 ← read32 machine nv_pmc_boot_0
      require (not (boot0 == 0xffffffff)) inaccessible
      require (not (boot0 == 0xbadf0200) && not (boot0 == 0xbad00200)) security_fault
      pure gpu

    unfoldable pub wait_for_boot : Action S (Unit {0})
    unfolding wait_for_bar0 wait_for_scratch
    wait_for_boot = do wait_for_bar0; wait_for_scratch gpu.chip.boot_complete

    unfoldable pub query_cc_mode : Action S CcMode
    unfolding wait_for_boot read_state cc_state
    query_cc_mode = do
      wait_for_boot
      value ← read_state (if gpu.chip.hopper then cc_state_hopper else cc_state_blackwell)
      cc_state (bit_and value 3)

    unfoldable pub open_rpc : Action S FspRpc
    unfolding open_emem
    open_rpc = if gpu.chip.hopper then open_emem machine else pure mnoc

    unfoldable pub set_cc_mode : CcMode → Action S (Unit {0})
    unfolding wait_for_boot open_rpc set_cc_knobs channel
    set_cc_mode mode = do
      require (not (gpu.c2c && not gpu.chip.c2c_cc_supported && not (is_cc_off mode))) unsupported
      _ ← attempt wait_for_boot
      rpc ← open_rpc
      set_cc_knobs (channel machine rpc) gpu.chip.hopper mode

    unfoldable pub query_ppcie_mode : Action S PpcieMode
    unfolding wait_for_boot read_state ppcie_state
    query_ppcie_mode = do
      require gpu.chip.hopper unsupported
      wait_for_boot
      value ← read_state ppcie_state_hopper
      pure (ppcie_state value ppcie_state_hopper_bit)

    unfoldable pub set_ppcie_mode : PpcieMode → Action S (Unit {0})
    unfolding wait_for_boot open_emem apply_ppcie_plan channel
    set_ppcie_mode mode = do
      require gpu.chip.hopper unsupported
      _ ← attempt wait_for_boot
      rpc ← open_emem machine
      apply_ppcie_plan (channel machine rpc) mode true

  module _ (switch : Switch) where
    unfoldable pub query_switch_ppcie : Action S PpcieMode
    unfolding wait_for_scratch read_state ppcie_state
    query_switch_ppcie = do
      wait_for_scratch switch.boot_complete
      value ← read_state ppcie_state_switch
      pure (ppcie_state value ppcie_state_switch_bit)

    unfoldable pub set_switch_ppcie : PpcieMode → Action S (Unit {0})
    unfolding wait_for_scratch open_emem apply_ppcie_plan channel
    set_switch_ppcie mode = do
      _ ← attempt (wait_for_scratch switch.boot_complete)
      rpc ← open_emem machine
      apply_ppcie_plan (channel machine rpc) mode false

  -- `NvSwitch::open_in`, once the vendor is checked.
  unfoldable pub open_switch : Action S Switch
  unfolding switch_for
  open_switch = do
    boot0 ← read32 machine nv_pmc_boot_0
    require (not (boot0 == 0xffffffff)) inaccessible
    elim (switch_for boot0) [ none ↦ fail_with unsupported | some s ↦ pure s ]
