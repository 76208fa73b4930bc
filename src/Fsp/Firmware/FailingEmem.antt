-- ===== src/Fsp/Firmware/FailingEmem.antt =====
-- A command on a knob over the EMEM mailbox, to firmware that fails.
use pcilibs_rs.Prelude.{bit_or, ℕ, zero, suc, ◌+◌, ◌^◌, ◌<◌, some, List, [], ◌∷◌, ok, ◌≡◌, refl, ap}
use pcilibs_rs.Device.{reads_alike}
use pcilibs_rs.Device.Poll.{poll, poll_from, poll_at_once}
use pcilibs_rs.Fsp.Packet.{mctp_header, mctp_packet, mctp_msg_header}
use pcilibs_rs.Fsp.Emem.{queue_head, queue_tail, emem_send, emem_receive, wrapping_sub}
use pcilibs_rs.Fsp.Rpc.{FspRpc, knob_read, knob_write, prc_cmd, exchange, check_response, command}
use pcilibs_rs.Fsp.Firmware.{
  reply_to, update, Mailbox, State, Fault, firmware, read_register, write_register,
  answer_over_emem, answer, fault_of, copy_to,
}
use pcilibs_rs.Fsp.Firmware.Replies.{alike, reply_read, reply_written, packet_of}
use pcilibs_rs.Fsp.Firmware.Faults.{faulted, refusal, IsSaid, suc-ne-zero, stored}

module _ (s : State) (t k : ℕ) (small : k < 2 ^ 16) where
  abbrev taken : ℕ → List ℕ → Fault → State
  taken n payload f = record (faulted f s) {
    emem = copy_to (packet_of payload) 512 s.emem;
    emem_at = 512 + n;
    queue_head = 2048;
    queue_tail = 2048;
  }

  polled_empty :
      (f : Fault)
      → poll
          (firmware Mailbox.emem)
          5000
          (reads_alike (firmware Mailbox.emem) queue_head queue_tail)
          (faulted f s, t)
        ≡ (ok tt, (faulted f s, t))
  unfolding read_register
  polled_empty f =
      poll_at_once (firmware Mailbox.emem) 5000 _ (faulted f s, t) (faulted f s, t)
        (ap (λ b. (b, (faulted f s, t))) (alike s.queue_head))

  replied_read :
      (f : Fault) (v : ℕ)
      → s.knobs k ≡ some v
      → reply_to (mctp_header ∷ 0x1310de7e ∷ command 0xc k ∷ []) (taken 3 (command 0xc k ∷ []) f)
        ≡ record {
          code = 0;
          body = bit_or 0xdead0000 v ∷ [];
          after = taken 3 (command 0xc k ∷ []) f;
        }
  replied_read f = reply_read k mctp_header 0x1310de7e small (taken 3 (command 0xc k ∷ []) f)

  pub emem_read_refused :
      (f : Fault) (v : ℕ)
      → s.knobs k ≡ some v
      → IsSaid
          (refusal Mailbox.emem f)
          s.knobs
          (knob_read (firmware Mailbox.emem) FspRpc.emem k (faulted f s, t))
  unfolding knob_read prc_cmd exchange check_response mctp_packet mctp_msg_header emem_send
      write_register answer_over_emem answer fault_of emem_receive poll_from read_register
      wrapping_sub
  emem_read_refused (Fault.completion zero) v known = tt
  emem_read_refused (Fault.completion (suc c)) v known =
      rw
        (
          polled_empty (Fault.completion (suc c)),
          replied_read (Fault.completion (suc c)) v known,
          suc-ne-zero c,
        )
        (refl, refl)
  emem_read_refused Fault.nvdm_type v known =
      rw (polled_empty Fault.nvdm_type, replied_read Fault.nvdm_type v known) (refl, refl)
  emem_read_refused Fault.other_command v known =
      rw (polled_empty Fault.other_command, replied_read Fault.other_command v known) (refl, refl)
  emem_read_refused Fault.short v known =
      rw (polled_empty Fault.short, replied_read Fault.short v known) (refl, refl)
  emem_read_refused Fault.extra_dword v known =
      rw (polled_empty Fault.extra_dword, replied_read Fault.extra_dword v known) (refl, refl)
  emem_read_refused (Fault.knob_reply_bytes n) v known = tt
  emem_read_refused Fault.oversized v known = rw (polled_empty Fault.oversized) (refl, refl)
  emem_read_refused Fault.silent v known = tt
  emem_read_refused Fault.send_error v known = tt
  emem_read_refused Fault.receive_error v known = tt
  emem_read_refused Fault.late_error v known = tt

  replied_write :
      (f : Fault) (v : ℕ)
      → v < 2 ^ 16
      → reply_to
          (mctp_header ∷ 0x1310de7e ∷ command 0xd k ∷ v ∷ [])
          (taken 4 (command 0xd k ∷ v ∷ []) f)
        ≡ record {
          code = 0;
          body = [];
          after = record (taken 4 (command 0xd k ∷ v ∷ []) f) {
            knobs = update k (some v) s.knobs;
            writes = s.writes + 1;
          };
        }
  replied_write f v =
      reply_written k mctp_header 0x1310de7e small (taken 4 (command 0xd k ∷ v ∷ []) f) v

  pub emem_write_refused :
      (f : Fault) (v : ℕ)
      → v < 2 ^ 16
      → IsSaid
          (refusal Mailbox.emem f)
          (stored f k v s.knobs)
          (knob_write (firmware Mailbox.emem) FspRpc.emem k v (faulted f s, t))
  unfolding knob_write prc_cmd exchange check_response mctp_packet mctp_msg_header emem_send
      write_register answer_over_emem answer fault_of emem_receive poll_from read_register
      wrapping_sub
  emem_write_refused (Fault.completion zero) v h = tt
  emem_write_refused (Fault.completion (suc c)) v h =
      rw
        (
          polled_empty (Fault.completion (suc c)),
          replied_write (Fault.completion (suc c)) v h,
          suc-ne-zero c,
        )
        (refl, refl)
  emem_write_refused Fault.nvdm_type v h =
      rw (polled_empty Fault.nvdm_type, replied_write Fault.nvdm_type v h) (refl, refl)
  emem_write_refused Fault.other_command v h =
      rw (polled_empty Fault.other_command, replied_write Fault.other_command v h) (refl, refl)
  emem_write_refused Fault.short v h =
      rw (polled_empty Fault.short, replied_write Fault.short v h) (refl, refl)
  emem_write_refused Fault.extra_dword v h =
      rw (polled_empty Fault.extra_dword, replied_write Fault.extra_dword v h) (refl, refl)
  emem_write_refused (Fault.knob_reply_bytes n) v h = tt
  emem_write_refused Fault.oversized v h = rw (polled_empty Fault.oversized) (refl, refl)
  emem_write_refused Fault.silent v h = tt
  emem_write_refused Fault.send_error v h = tt
  emem_write_refused Fault.receive_error v h = tt
  emem_write_refused Fault.late_error v h = tt
