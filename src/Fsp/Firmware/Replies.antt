-- ===== src/Fsp/Firmware/Replies.antt =====
-- What the firmware replies to a command on a knob.
use pcilibs_rs.Prelude.{
  ℕ, ◌+◌, ◌*◌, ◌/◌, ◌%◌, ◌^◌, ◌<◌, bit_and, bit_or, true, false, ◌==◌, ==_iff, none, some, List, [],
  ◌∷◌, ◌≡◌, refl, sym, ap, ◌∙◌, arith,
}
use pcilibs_rs.Prelude.Bits.{bit_or_above, bit_or_below, bit_and-ones}
use pcilibs_rs.Fsp.Packet.{mctp_header, nvdm_prc, shift_left}
use pcilibs_rs.Fsp.Rpc.{command}
use pcilibs_rs.Fsp.Firmware.{invalid_knob, State, reply_to, update}

below_word : (k : ℕ) → k < 2 ^ 16 → shift_left k 16 ≡ k * 2 ^ 16
below_word k h = omega arith

read_command : (k : ℕ) → k < 2 ^ 16 → command 0xc k ≡ 524 + k * 2 ^ 16
unfolding command
read_command k h = rw (below_word k h) (bit_or_above 16 524 k (omega arith))

write_command : (k : ℕ) → k < 2 ^ 16 → command 0xd k ≡ 525 + k * 2 ^ 16
unfolding command
write_command k h = rw (below_word k h) (bit_or_above 16 525 k (omega arith))

read_knob : (k : ℕ) → k < 2 ^ 16 → command 0xc k / 2 ^ 16 ≡ k
read_knob k h = rw (read_command k h) (omega arith)

write_knob : (k : ℕ) → k < 2 ^ 16 → command 0xd k / 2 ^ 16 ≡ k
write_knob k h = rw (write_command k h) (omega arith)

pub read_subcommand : (k : ℕ) → k < 2 ^ 16 → bit_and (command 0xc k) 0xff ≡ 0xc
read_subcommand k h =
    ap (λ (t : ℕ). bit_and t 0xff) (read_command k h ∙ omega arith)
    ∙ bit_and-ones 8 12 (2 + k * 256) (omega arith)

pub write_subcommand : (k : ℕ) → k < 2 ^ 16 → bit_and (command 0xd k) 0xff ≡ 0xd
write_subcommand k h =
    ap (λ (t : ℕ). bit_and t 0xff) (write_command k h ∙ omega arith)
    ∙ bit_and-ones 8 13 (2 + k * 256) (omega arith)

pub low_half : (v : ℕ) → v < 2 ^ 16 → bit_or 0xdead0000 v % 2 ^ 16 ≡ v
low_half v h = rw (bit_or_below 16 v 0xdead h) (omega arith)

-- Firmware that is not made to fail, with nothing in its queues.
abbrev pub IsWorking : State → Type 0
IsWorking s =
    (s.fault ≡ none)
    × (s.faulty_knob ≡ none)
    × (s.send_error ≡ false)
    × (s.late_error ≡ false)
    × (s.queue_tail ≡ s.queue_head)
    × (s.msgq_tail ≡ s.msgq_head)

abbrev pub working : State → State
working s = record s {
  fault = none;
  faulty_knob = none;
  send_error = false;
  late_error = false;
  queue_tail = s.queue_head;
  msgq_tail = s.msgq_head;
}

pub working_same : (s : State) → IsWorking s → working s ≡ s
working_same s w = λ i. record s {
  fault = sym w.0 i;
  faulty_knob = sym w.1 i;
  send_error = sym w.2 i;
  late_error = sym w.3 i;
  queue_tail = sym w.4 i;
  msgq_tail = sym w.5 i;
}

module _ (k a b : ℕ) (small : k < 2 ^ 16) (s : State) where
  pub reply_read :
      (v : ℕ)
      → s.knobs k ≡ some v
      → reply_to (a ∷ b ∷ command 0xc k ∷ []) s
        ≡ record { code = 0; body = bit_or 0xdead0000 v ∷ []; after = s }
  unfolding reply_to
  reply_read v known = rw (read_subcommand k small, read_knob k small, known)

  pub reply_unknown :
      s.knobs k ≡ none
      → reply_to (a ∷ b ∷ command 0xc k ∷ []) s
        ≡ record { code = invalid_knob; body = []; after = s }
  unfolding reply_to
  reply_unknown known = rw (read_subcommand k small, read_knob k small, known)

  pub reply_written :
      (v : ℕ)
      → v < 2 ^ 16
      → reply_to (a ∷ b ∷ command 0xd k ∷ v ∷ []) s ≡ record {
        code = 0;
        body = [];
        after = record s { knobs = update k (some v) s.knobs; writes = s.writes + 1 };
      }
  unfolding reply_to
  reply_written v h =
      let half : v % 2 ^ 16 ≡ v = omega arith in
      rw (write_subcommand k small, write_knob k small, half)

-- A response of the firmware to a command.
abbrev pub response_of : ℕ → List ℕ → List ℕ
response_of code body = mctp_header ∷ 0x1510de7e ∷ 0 ∷ nvdm_prc ∷ code ∷ body

abbrev pub packet_of : List ℕ → List ℕ
packet_of payload = mctp_header ∷ 0x1310de7e ∷ payload

pub alike : (n : ℕ) → (n == n) ≡ true
alike n = (==_iff n n).1 refl
