-- ===== src/Fsp/Firmware/Answers.antt =====
-- The state of the firmware of src/cc/fsp.rs's `fake`, and how it answers a command.
use pcilibs_rs.Prelude.{
  ℕ, zero, suc, ◌+◌, ◌%◌, ◌^◌, bit_and, bit_or, Bool, false, ◌==◌, if◌then◌else◌, Option, none,
  some, List, [], ◌∷◌, ◌++◌, take, any,
}
use pcilibs_rs.Fsp.Packet.{
  shift_right, knob_2, knob_4, knob_ccd, knob_ccm, knob_bar0_decoupler, knob_34, knob_ppcie,
  nvdm_prc, nvdm_response, mctp_header, mctp_msg_header,
}

abbrev pub prc_read : ℕ
prc_read = 0xc

abbrev pub invalid_knob : ℕ
invalid_knob = 0x1e3

abbrev pub knobs_known : List ℕ
knobs_known =
    knob_2 ∷ knob_4 ∷ knob_ccd ∷ knob_ccm ∷ knob_bar0_decoupler ∷ knob_34 ∷ knob_ppcie ∷ []

pub data Fault : Type 0 where
  completion : ℕ → Fault
  nvdm_type other_command short extra_dword : Fault
  knob_reply_bytes : ℕ → Fault
  oversized silent send_error receive_error late_error : Fault

pub data Mailbox : Type 0 where
  emem mnoc : Mailbox

pub record State : Type 0 where
  pub regs : ℕ → Option ℕ
  pub knobs : ℕ → Option ℕ
  pub writes : ℕ
  pub fault : Option Fault
  pub faulty_knob : Option ℕ
  pub emem : ℕ → ℕ
  pub emem_at : ℕ
  pub queue_head : ℕ
  pub queue_tail : ℕ
  pub msgq_head : ℕ
  pub msgq_tail : ℕ
  pub expected : ℕ
  pub command : List ℕ
  pub response : List ℕ
  pub info_send : ℕ
  pub send_error : Bool
  pub late_error : Bool

-- `insert`, and writing an element.
abbrev pub update : {A : Type 0} → ℕ → A → (ℕ → A) → ℕ → A
update k a f = λ i. if i == k then a else f i

-- `Fsp::new`
abbrev pub fresh : State
fresh = record {
  regs = λ offset. none;
  knobs = λ k. if any (λ j. j == k) knobs_known then some 0 else none;
  writes = 0;
  fault = none;
  faulty_knob = none;
  emem = λ i. 0;
  emem_at = 0;
  queue_head = 0;
  queue_tail = 0;
  msgq_head = 0;
  msgq_tail = 0;
  expected = 0;
  command = [];
  response = [];
  info_send = 0;
  send_error = false;
  late_error = false;
}

abbrev pub set_register : ℕ → ℕ → State → State
set_register offset value s = record s { regs = update offset (some value) s.regs }

abbrev pub set_knob : ℕ → ℕ → State → State
set_knob knob value s = record s { knobs = update knob (some value) s.knobs }

abbrev pub forget_knob : ℕ → State → State
forget_knob knob s = record s { knobs = update knob none s.knobs }

abbrev pub fail : Fault → State → State
fail fault s = record s { fault = some fault; faulty_knob = none }

abbrev pub fail_knob : ℕ → Fault → State → State
fail_knob knob fault s = record s { fault = some fault; faulty_knob = some knob }

abbrev pub leave_a_stale_response : State → State
leave_a_stale_response s = record s { msgq_tail = 4 }

abbrev pub word : ℕ → List ℕ → ℕ
word i [] = 0
word zero (w ∷ ws) = w
word (suc i) (w ∷ ws) = word i ws

-- The copies between the window and a list.
abbrev pub copy_from : (ℕ → ℕ) → ℕ → ℕ → List ℕ
copy_from memory at zero = []
copy_from memory at (suc n) = memory at ∷ copy_from memory (suc at) n

abbrev pub copy_to : List ℕ → ℕ → (ℕ → ℕ) → ℕ → ℕ
copy_to [] at memory = memory
copy_to (w ∷ ws) at memory = copy_to ws (suc at) (update at w memory)

abbrev pub applies : Option ℕ → ℕ → Option Fault → Option Fault
applies none asked fault = fault
applies (some knob) asked fault = if knob == asked then fault else none

-- `State::fault`
unfoldable pub fault_of : List ℕ → State → Option Fault
fault_of command s = applies s.faulty_knob (shift_right (word 2 command) 16) s.fault

-- What a command is answered with: a completion code, a body, and the state.
pub record Reply : Type 0 where
  pub code : ℕ
  pub body : List ℕ
  pub after : State

-- The dword's upper half is as the firmware found it.
abbrev pub read_reply : Option ℕ → State → Reply
read_reply none s = record { code = invalid_knob; body = []; after = s }
read_reply (some value) s = record { code = 0; body = bit_or 0xdead0000 value ∷ []; after = s }

abbrev pub written : ℕ → ℕ → State → State
written knob value s = record s {
  knobs = update knob (some (value % 2 ^ 16)) s.knobs;
  writes = s.writes + 1;
}

abbrev pub is_read : List ℕ → Bool
is_read command = bit_and (word 2 command) 0xff == prc_read

unfoldable pub reply_to : List ℕ → State → Reply
reply_to command s =
    let knob = shift_right (word 2 command) 16 in
    if is_read command
    then read_reply (s.knobs knob) s
    else record { code = 0; body = []; after = written knob (word 3 command) s }

abbrev pub faulty : Option Fault → Reply → Reply
faulty (some (completion code)) r = record r { code = code }
faulty (some extra_dword) r = record r { body = r.body ++ 0 ∷ [] }
faulty _ r = r

abbrev pub response_type : Option Fault → ℕ
response_type (some nvdm_type) = nvdm_prc
response_type _ = nvdm_response

abbrev pub answered_type : Option Fault → ℕ
answered_type (some other_command) = nvdm_response
answered_type _ = nvdm_prc

abbrev pub shortened : Option Fault → List ℕ → List ℕ
shortened (some short) response = take 4 response
shortened _ response = response

-- `State::answer`: the response, and the state.
unfoldable pub answer : List ℕ → Option Fault → State → List ℕ × State
unfolding mctp_msg_header
answer command fault s =
    let r = faulty fault (reply_to command s) in
    let header =
      mctp_header ∷ mctp_msg_header (response_type fault) ∷ 0 ∷ answered_type fault ∷ r.code ∷ [] in
    (shortened fault (header ++ r.body), r.after)
