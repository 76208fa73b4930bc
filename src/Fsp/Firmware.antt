-- ===== src/Fsp/Firmware.antt =====
-- The module `fake` of src/cc/fsp.rs: firmware that answers knob commands over either mailbox, and
-- the ways in which it is made to fail. Hash maps and the EMEM window are functions; a command
-- that is too short, where the source panics, reads as zeros. Time passes only in a sleep.
mod Answers
pub mod Replies
mod OverMnoc
mod OverEmem
pub mod Served
pub mod Healthy
pub mod Faults
mod FailingEmem
mod FailingMnoc
pub mod Refused
mod Tests
unfoldable pub use Answers.*
use pcilibs_rs.Prelude.{
  ℕ, zero, suc, ◌+◌, ◌-◌, ◌*◌, ◌/◌, ◌%◌, ◌^◌, bit_and, bit_or, Bool, true, false, not, ◌&&◌, ◌==◌,
  if◌then◌else◌, Option, none, some, List, [], ◌∷◌, ◌++◌, length, take, any, is_empty,
}
use pcilibs_rs.Device.{Machine}
use pcilibs_rs.Fsp.Packet.{
  shift_left, shift_right, knob_2, knob_4, knob_ccd, knob_ccm, knob_bar0_decoupler, knob_34,
  knob_ppcie, nvdm_prc, nvdm_response, mctp_header, mctp_msg_header,
}
use pcilibs_rs.Fsp.Emem
use pcilibs_rs.Fsp.Emem.{emem_base, ememc, ememd, wrapping_sub}
use pcilibs_rs.Fsp.Mnoc.{
  mnoc_info_send, mnoc_rdata_send, mnoc_info_recv, mnoc_wdata_recv, mnoc_size_mask, mnoc_ready,
  mnoc_error, mnoc_credits,
}

abbrev base : ℕ
base = emem_base / 4

abbrev queued : List ℕ × State → State
queued (response, s) = record s {
  emem = copy_to response base s.emem;
  msgq_head = emem_base;
  msgq_tail = emem_base + (length response - 1) * 4;
}

abbrev reply_over_emem : List ℕ → Option Fault → State → State
reply_over_emem command (some silent) s = s
reply_over_emem command (some oversized) s = record s {
  msgq_head = emem_base;
  msgq_tail = emem_base + 256 * 4;
}
reply_over_emem command fault s = queued (answer command fault s)

unfoldable pub answer_over_emem : State → State
unfolding fault_of wrapping_sub
answer_over_emem s =
    let dwords = wrapping_sub s.queue_tail s.queue_head / 4 + 1 in
    let command = copy_from s.emem base dwords in
    let consumed = record s { queue_tail = s.queue_head } in
    reply_over_emem command (fault_of command consumed) consumed

abbrev read_bytes : Option Fault → ℕ → ℕ
read_bytes (some (knob_reply_bytes bytes)) _ = bytes
read_bytes _ bytes = bytes - 2

-- A knob that was read has 16 bits, which are not padded.
abbrev reply_bytes : List ℕ → Option Fault → List ℕ → ℕ
reply_bytes command fault response =
    let bytes = length response * 4 in
    if is_read command && length response == 6 && word 4 response == 0
    then read_bytes fault bytes
    else bytes

abbrev offered : List ℕ → Option Fault → List ℕ × State → State
offered command fault (response, s) = record s {
  info_send = bit_or mnoc_ready (reply_bytes command fault response);
  response = response;
}

abbrev reply_over_mnoc : List ℕ → Option Fault → State → State
reply_over_mnoc command (some silent) s = s
reply_over_mnoc command (some send_error) s = record s { send_error = true }
reply_over_mnoc command (some receive_error) s = record s { info_send = mnoc_error }
reply_over_mnoc command (some oversized) s = record s { info_send = bit_or mnoc_ready 2048 }
reply_over_mnoc command (some late_error) s =
    offered command (some late_error)
      (answer command (some late_error) (record s { late_error = true }))
reply_over_mnoc command fault s = offered command fault (answer command fault s)

unfoldable pub answer_over_mnoc : State → State
unfolding fault_of
answer_over_mnoc s =
    let taken = record s { command = [] } in
    reply_over_mnoc s.command (fault_of s.command taken) taken

abbrev or_zero : Option ℕ → ℕ
or_zero none = 0
or_zero (some value) = value

abbrev other_register : ℕ → State → ℕ × State
other_register offset s = (or_zero (s.regs offset), s)

abbrev pub pop_front : List ℕ → State → ℕ × State
pop_front [] s = (0, s)
pop_front (w ∷ ws) s = (w, record s { response = ws })

unfoldable pub read_register : Mailbox → ℕ → State → ℕ × State
read_register emem offset s =
    if offset == Emem.queue_head
    then (s.queue_head, s)
    else if offset == Emem.queue_tail
    then (s.queue_tail, s)
    else if offset == Emem.msgq_head
    then (s.msgq_head, s)
    else if offset == Emem.msgq_tail
    then (s.msgq_tail, s)
    else if offset == ememd
    then (s.emem s.emem_at, record s { emem_at = s.emem_at + 1 })
    else other_register offset s
read_register mnoc offset s =
    if offset == mnoc_info_recv
    then (bit_or (bit_or mnoc_ready mnoc_credits) (if s.send_error then mnoc_error else 0), s)
    else if offset == mnoc_info_send
    then (bit_or s.info_send (if s.late_error && is_empty s.response then mnoc_error else 0), s)
    else if offset == mnoc_rdata_send
    then pop_front s.response s
    else other_register offset s

-- The head that meets the tail resets the queue, and rings no bell.
abbrev ring : State → State
ring s = if s.queue_head == s.queue_tail then s else answer_over_emem s

abbrev push_word : State → State
push_word s = if length s.command == s.expected then answer_over_mnoc s else s

unfoldable pub write_register : Mailbox → ℕ → ℕ → State → State
write_register emem offset value s =
    if offset == ememc
    then record s { emem_at = bit_and value 0x00ffffff / 4 }
    else if offset == ememd
    then record s { emem = update s.emem_at value s.emem; emem_at = s.emem_at + 1 }
    else if offset == Emem.queue_tail
    then record s { queue_tail = value }
    else if offset == Emem.queue_head
    then ring (record s { queue_head = value })
    else if offset == Emem.msgq_head
    then record s { msgq_head = value }
    else if offset == Emem.msgq_tail
    then record s { msgq_tail = value }
    else set_register offset value s
write_register mnoc offset value s =
    if offset == mnoc_info_recv
    then record s { expected = bit_and value mnoc_size_mask / 4; command = [] }
    else if offset == mnoc_wdata_recv
    then push_word (record s { command = s.command ++ value ∷ [] })
    else set_register offset value s

-- The firmware with a clock, as a device.
abbrev pub firmware : Mailbox → Machine (State × ℕ)
firmware mailbox = record {
  read32 = λ offset x. let r = read_register mailbox offset x.0 in (r.0, (r.1, x.1));
  write32 = λ offset value x. (write_register mailbox offset value x.0, x.1);
  now = λ x. x.1;
  sleep = λ d x. (x.0, x.1 + d);
}
