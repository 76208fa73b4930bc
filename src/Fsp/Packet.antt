-- ===== src/Fsp/Packet.antt =====
-- src/cc/fsp.rs: identifiers and the framing of messages, in 32-bit words.
use pcilibs_rs.Prelude.{ℕ, ◌*◌, ◌/◌, ◌%◌, ◌^◌, bit_or, List, ◌∷◌}

abbrev pub shift_left : ℕ → ℕ → ℕ
shift_left x n = x * 2 ^ n % 2 ^ 32

abbrev pub shift_right : ℕ → ℕ → ℕ
shift_right x n = x / 2 ^ n

-- PRC knob ids
abbrev pub knob_2 : ℕ
knob_2 = 2

abbrev pub knob_4 : ℕ
knob_4 = 4

abbrev pub knob_ccd : ℕ
knob_ccd = 6

abbrev pub knob_ccm : ℕ
knob_ccm = 8

abbrev pub knob_bar0_decoupler : ℕ
knob_bar0_decoupler = 10

abbrev pub knob_34 : ℕ
knob_34 = 34

abbrev pub knob_ppcie : ℕ
knob_ppcie = 45

abbrev pub nvdm_prc : ℕ
nvdm_prc = 0x13

abbrev pub nvdm_response : ℕ
nvdm_response = 0x15

abbrev pub mctp_header : ℕ
mctp_header = 0xc0000000

unfoldable pub mctp_msg_header : ℕ → ℕ
mctp_msg_header nvdm_type = bit_or 0x0010de7e (shift_left nvdm_type 24)

unfoldable pub mctp_packet : ℕ → List ℕ → List ℕ
unfolding mctp_msg_header
mctp_packet nvdm_type payload = mctp_header ∷ mctp_msg_header nvdm_type ∷ payload
