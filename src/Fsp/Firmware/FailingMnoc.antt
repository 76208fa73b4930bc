-- ===== src/Fsp/Firmware/FailingMnoc.antt =====
-- A command on a knob over the MNOC mailbox, to firmware that fails.
use pcilibs_rs.Prelude.{
  ℕ, zero, suc, ◌+◌, ◌^◌, ◌<◌, bit_or, some, List, [], ◌∷◌, ◌++◌, ◌≡◌, refl, true,
}
use pcilibs_rs.Device.Poll.{poll, poll_from}
use pcilibs_rs.Fsp.Packet.{mctp_header, mctp_packet, mctp_msg_header, nvdm_prc, nvdm_response}
use pcilibs_rs.Fsp.Mnoc.{mnoc_ready, mnoc_send, mnoc_receive, send_words}
use pcilibs_rs.Fsp.Rpc.{FspRpc, knob_read, knob_write, prc_cmd, exchange, check_response, command}
use pcilibs_rs.Fsp.Firmware.{
  reply_to, update, Mailbox, State, Fault, firmware, read_register, write_register,
  answer_over_mnoc, answer, fault_of,
}
use pcilibs_rs.Fsp.Firmware.Replies.{
  reply_read, reply_written, packet_of, read_subcommand, write_subcommand,
}
use pcilibs_rs.Fsp.Firmware.Faults.{faulted, refusal, IsSaid, suc-ne-zero, stored}

-- The response, by the fault and the body of the reply.
abbrev reply_of : Fault → List ℕ → List ℕ
reply_of (Fault.completion c) body = mctp_header ∷ 0x1510de7e ∷ 0 ∷ nvdm_prc ∷ c ∷ body
reply_of Fault.nvdm_type body = mctp_header ∷ 0x1310de7e ∷ 0 ∷ nvdm_prc ∷ 0 ∷ body
reply_of Fault.other_command body = mctp_header ∷ 0x1510de7e ∷ 0 ∷ nvdm_response ∷ 0 ∷ body
reply_of Fault.short body = mctp_header ∷ 0x1510de7e ∷ 0 ∷ nvdm_prc ∷ []
reply_of Fault.extra_dword body = mctp_header ∷ 0x1510de7e ∷ 0 ∷ nvdm_prc ∷ 0 ∷ body ++ 0 ∷ []
reply_of _ body = mctp_header ∷ 0x1510de7e ∷ 0 ∷ nvdm_prc ∷ 0 ∷ body

-- Its length in bytes, to a read and to a write.
abbrev read_size : Fault → ℕ
read_size (Fault.completion c) = 24
read_size Fault.short = 16
read_size Fault.extra_dword = 28
read_size _ = 22

abbrev write_size : Fault → ℕ
write_size Fault.short = 16
write_size Fault.extra_dword = 24
write_size _ = 20

-- What the mailbox holds when a command has been answered.
abbrev held : Fault → List ℕ → ℕ → State → State
held Fault.oversized body bytes s = record s { info_send = mnoc_ready + 2048 }
held Fault.send_error body bytes s = record s { send_error = true }
held Fault.late_error body bytes s = record s {
  info_send = mnoc_ready + bytes;
  response = reply_of Fault.late_error body;
  late_error = true;
}
held f body bytes s = record s { info_send = mnoc_ready + bytes; response = reply_of f body }

-- The faults of which something is said.
abbrev IsTold : Fault → Type 0
IsTold (Fault.completion zero) = ⊥
IsTold (Fault.knob_reply_bytes n) = ⊥
IsTold Fault.silent = ⊥
IsTold Fault.receive_error = ⊥
IsTold _ = Unit

module _ (s : State) (t k : ℕ) (small : k < 2 ^ 16) where
  abbrev asked : List ℕ → ℕ → Fault → State
  asked payload n f = record (faulted f s) { expected = n; command = packet_of payload }

  abbrev taken : ℕ → Fault → State
  taken n f = record (faulted f s) { expected = n; command = [] }

  replied_read :
      (f : Fault) (v : ℕ)
      → s.knobs k ≡ some v
      → reply_to (mctp_header ∷ 0x1310de7e ∷ command 0xc k ∷ []) (taken 3 f)
        ≡ record { code = 0; body = bit_or 0xdead0000 v ∷ []; after = taken 3 f }
  replied_read f = reply_read k mctp_header 0x1310de7e small (taken 3 f)

  answered_read :
      (f : Fault) (v : ℕ)
      → s.knobs k ≡ some v
      → IsTold f
      → answer_over_mnoc (asked (command 0xc k ∷ []) 3 f)
        ≡ held f (bit_or 0xdead0000 v ∷ []) (read_size f) (taken 3 f)
  unfolding answer_over_mnoc answer fault_of mctp_msg_header
  answered_read (Fault.completion zero) v known h = elim h [ ]
  answered_read (Fault.completion (suc c)) v known h =
      rw (replied_read (Fault.completion (suc c)) v known, read_subcommand k small, suc-ne-zero c)
  answered_read Fault.nvdm_type v known h =
      rw (replied_read Fault.nvdm_type v known, read_subcommand k small)
  answered_read Fault.other_command v known h =
      rw (replied_read Fault.other_command v known, read_subcommand k small)
  answered_read Fault.short v known h =
      rw (replied_read Fault.short v known, read_subcommand k small)
  answered_read Fault.extra_dword v known h =
      rw (replied_read Fault.extra_dword v known, read_subcommand k small)
  answered_read (Fault.knob_reply_bytes n) v known h = elim h [ ]
  answered_read Fault.oversized v known h = refl
  answered_read Fault.silent v known h = elim h [ ]
  answered_read Fault.send_error v known h = refl
  answered_read Fault.receive_error v known h = elim h [ ]
  answered_read Fault.late_error v known h = rw (
    reply_read k mctp_header 0x1310de7e small
        (record (taken 3 Fault.late_error) { late_error = true }) v known,
    read_subcommand k small,
  )

  -- The number of writes behind a write.
  abbrev written_by : Fault → ℕ → ℕ
  written_by Fault.oversized n = n
  written_by Fault.send_error n = n
  written_by _ n = n + 1

  abbrev after_write : ℕ → Fault → State
  after_write v f = record (taken 4 f) {
    knobs = stored f k v s.knobs;
    writes = written_by f s.writes;
  }

  replied_write :
      (f : Fault) (v : ℕ)
      → v < 2 ^ 16
      → reply_to (mctp_header ∷ 0x1310de7e ∷ command 0xd k ∷ v ∷ []) (taken 4 f) ≡ record {
        code = 0;
        body = [];
        after = record (taken 4 f) { knobs = update k (some v) s.knobs; writes = s.writes + 1 };
      }
  replied_write f v = reply_written k mctp_header 0x1310de7e small (taken 4 f) v

  answered_write :
      (f : Fault) (v : ℕ)
      → v < 2 ^ 16
      → IsTold f
      → answer_over_mnoc (asked (command 0xd k ∷ v ∷ []) 4 f)
        ≡ held f [] (write_size f) (after_write v f)
  unfolding answer_over_mnoc answer fault_of mctp_msg_header
  answered_write (Fault.completion zero) v small_value h = elim h [ ]
  answered_write (Fault.completion (suc c)) v small_value h =
      rw (replied_write (Fault.completion (suc c)) v small_value, write_subcommand k small)
  answered_write Fault.nvdm_type v small_value h =
      rw (replied_write Fault.nvdm_type v small_value, write_subcommand k small)
  answered_write Fault.other_command v small_value h =
      rw (replied_write Fault.other_command v small_value, write_subcommand k small)
  answered_write Fault.short v small_value h =
      rw (replied_write Fault.short v small_value, write_subcommand k small)
  answered_write Fault.extra_dword v small_value h =
      rw (replied_write Fault.extra_dword v small_value, write_subcommand k small)
  answered_write (Fault.knob_reply_bytes n) v small_value h = elim h [ ]
  answered_write Fault.oversized v small_value h = refl
  answered_write Fault.silent v small_value h = elim h [ ]
  answered_write Fault.send_error v small_value h = refl
  answered_write Fault.receive_error v small_value h = elim h [ ]
  answered_write Fault.late_error v small_value h = rw (
    reply_written k mctp_header 0x1310de7e small
        (record (taken 4 Fault.late_error) { late_error = true }) v small_value,
    write_subcommand k small,
  )

  pub mnoc_read_refused :
      (f : Fault) (v : ℕ)
      → s.knobs k ≡ some v
      → IsSaid
          (refusal Mailbox.mnoc f)
          s.knobs
          (knob_read (firmware Mailbox.mnoc) FspRpc.mnoc k (faulted f s, t))
  unfolding knob_read prc_cmd exchange check_response mctp_packet mctp_msg_header mnoc_send
      send_words write_register mnoc_receive poll poll_from read_register
  mnoc_read_refused (Fault.completion zero) v known = tt
  mnoc_read_refused (Fault.completion (suc c)) v known =
      rw (answered_read (Fault.completion (suc c)) v known tt, suc-ne-zero c) (refl, refl)
  mnoc_read_refused Fault.nvdm_type v known =
      rw (answered_read Fault.nvdm_type v known tt) (refl, refl)
  mnoc_read_refused Fault.other_command v known =
      rw (answered_read Fault.other_command v known tt) (refl, refl)
  mnoc_read_refused Fault.short v known = rw (answered_read Fault.short v known tt) (refl, refl)
  mnoc_read_refused Fault.extra_dword v known =
      rw (answered_read Fault.extra_dword v known tt) (refl, refl)
  mnoc_read_refused (Fault.knob_reply_bytes n) v known = tt
  mnoc_read_refused Fault.oversized v known =
      rw (answered_read Fault.oversized v known tt) (refl, refl)
  mnoc_read_refused Fault.silent v known = tt
  mnoc_read_refused Fault.send_error v known =
      rw (answered_read Fault.send_error v known tt) (refl, refl)
  mnoc_read_refused Fault.receive_error v known = tt
  mnoc_read_refused Fault.late_error v known =
      rw (answered_read Fault.late_error v known tt) (refl, refl)

  pub mnoc_write_refused :
      (f : Fault) (v : ℕ)
      → v < 2 ^ 16
      → IsSaid
          (refusal Mailbox.mnoc f)
          (stored f k v s.knobs)
          (knob_write (firmware Mailbox.mnoc) FspRpc.mnoc k v (faulted f s, t))
  unfolding knob_write prc_cmd exchange check_response mctp_packet mctp_msg_header mnoc_send
      send_words write_register mnoc_receive poll poll_from read_register
  mnoc_write_refused (Fault.completion zero) v h = tt
  mnoc_write_refused (Fault.completion (suc c)) v h =
      rw (answered_write (Fault.completion (suc c)) v h tt, suc-ne-zero c) (refl, refl)
  mnoc_write_refused Fault.nvdm_type v h = rw (answered_write Fault.nvdm_type v h tt) (refl, refl)
  mnoc_write_refused Fault.other_command v h =
      rw (answered_write Fault.other_command v h tt) (refl, refl)
  mnoc_write_refused Fault.short v h = rw (answered_write Fault.short v h tt) (refl, refl)
  mnoc_write_refused Fault.extra_dword v h =
      rw (answered_write Fault.extra_dword v h tt) (refl, refl)
  mnoc_write_refused (Fault.knob_reply_bytes n) v h = tt
  mnoc_write_refused Fault.oversized v h = rw (answered_write Fault.oversized v h tt) (refl, refl)
  mnoc_write_refused Fault.silent v h = tt
  mnoc_write_refused Fault.send_error v h = rw (answered_write Fault.send_error v h tt) (refl, refl)
  mnoc_write_refused Fault.receive_error v h = tt
  mnoc_write_refused Fault.late_error v h = rw (answered_write Fault.late_error v h tt) (refl, refl)
