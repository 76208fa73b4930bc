-- ===== src/Cc/Modes.antt =====
-- src/cc/mod.rs: the modes and their text forms.
use pcilibs_rs.Prelude.{Bool, true, false, Option, none, some, if◌then◌else◌}
use pcilibs_rs.Text.{Bytes, codes, equal}

pub data CcMode : Type 0 where
  cc_off cc_on cc_devtools : CcMode

pub data PpcieMode : Type 0 where
  ppcie_off ppcie_on : PpcieMode

unfoldable pub parse_cc_mode : Bytes → Option CcMode
unfolding equal
parse_cc_mode s =
    if equal s (codes "off")
    then some cc_off
    else if equal s (codes "on")
    then some cc_on
    else if equal s (codes "devtools")
    then some cc_devtools
    else none

unfoldable pub print_cc_mode : CcMode → Bytes
print_cc_mode cc_off = codes "off"
print_cc_mode cc_on = codes "on"
print_cc_mode cc_devtools = codes "devtools"

unfoldable pub parse_ppcie_mode : Bytes → Option PpcieMode
unfolding equal
parse_ppcie_mode s =
    if equal s (codes "off")
    then some ppcie_off
    else if equal s (codes "on")
    then some ppcie_on
    else none

unfoldable pub print_ppcie_mode : PpcieMode → Bytes
print_ppcie_mode ppcie_off = codes "off"
print_ppcie_mode ppcie_on = codes "on"

-- `mode != CcMode::Off`, `mode == PpcieMode::On`
abbrev pub is_cc_off : CcMode → Bool
is_cc_off cc_off = true
is_cc_off _ = false

abbrev pub is_ppcie_on : PpcieMode → Bool
is_ppcie_on ppcie_on = true
is_ppcie_on ppcie_off = false
