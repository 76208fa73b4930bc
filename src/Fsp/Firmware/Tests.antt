-- ===== src/Fsp/Firmware/Tests.antt =====
-- Commands over both mailboxes, to firmware that works and to firmware that fails.
use pcilibs_rs.Prelude.{ok, err, some, ◌≡◌, refl, arith}
use pcilibs_rs.Device.{completion, mailbox_error}
use pcilibs_rs.Device.Poll.{poll, poll_from}
use pcilibs_rs.Fsp.Packet.{mctp_packet, mctp_msg_header, knob_ccm}
use pcilibs_rs.Fsp.Emem.{emem_send, emem_receive, wrapping_sub}
use pcilibs_rs.Fsp.Mnoc.{mnoc_send, mnoc_receive, send_words}
use pcilibs_rs.Fsp.Rpc.{FspRpc, knob_read, knob_write, prc_cmd, exchange, check_response, command}
use pcilibs_rs.Fsp.Firmware.Replies.{IsWorking}
use pcilibs_rs.Fsp.Firmware.Served.{IsServed, knob_read-IsServed, knob_write-IsServed}
use pcilibs_rs.Fsp.Firmware.Faults.{IsFailed, stored}
use pcilibs_rs.Fsp.Firmware.Refused.{knob_read_and_write-IsFailed}
use pcilibs_rs.Fsp.Firmware.{
  fail, Fault, Mailbox, State, firmware, fresh, set_knob, update, read_register, write_register,
  answer_over_mnoc, answer_over_emem, answer, reply_to, fault_of,
}

mnoc_reads :
    (knob_read (firmware Mailbox.mnoc) FspRpc.mnoc knob_ccm (set_knob knob_ccm 3 fresh, 0)).0 ≡ ok 3
unfolding knob_read prc_cmd exchange check_response command mctp_packet mctp_msg_header mnoc_send
    mnoc_receive send_words poll poll_from read_register write_register answer_over_mnoc answer
    reply_to fault_of
mnoc_reads = refl

emem_reads :
    (knob_read (firmware Mailbox.emem) FspRpc.emem knob_ccm (set_knob knob_ccm 3 fresh, 0)).0 ≡ ok 3
unfolding knob_read prc_cmd exchange check_response command mctp_packet mctp_msg_header emem_send
    emem_receive wrapping_sub poll poll_from read_register write_register answer_over_emem answer
    reply_to fault_of
emem_reads = refl

mnoc_unknown :
    (knob_read (firmware Mailbox.mnoc) FspRpc.mnoc 9 (fresh, 0)).0 ≡ err (completion 0x1e3)
unfolding knob_read prc_cmd exchange check_response command mctp_packet mctp_msg_header mnoc_send
    mnoc_receive send_words poll poll_from read_register write_register answer_over_mnoc answer
    reply_to fault_of
mnoc_unknown = refl

abbrev set_ccm : State
set_ccm = set_knob knob_ccm 3 fresh

fresh-IsWorking : IsWorking fresh
fresh-IsWorking = (refl, refl, refl, refl, refl, refl)

set_ccm-IsWorking : IsWorking set_ccm
set_ccm-IsWorking = (refl, refl, refl, refl, refl, refl)

knob_read-IsServed_example :
    IsServed
      (ok 3)
      set_ccm.knobs
      0
      7
      (knob_read (firmware Mailbox.mnoc) FspRpc.mnoc knob_ccm (set_ccm, 7))
knob_read-IsServed_example =
    knob_read-IsServed 7 knob_ccm (omega arith) Mailbox.mnoc set_ccm set_ccm-IsWorking (omega arith)

knob_write-IsServed_example :
    IsServed
      (ok tt)
      (update knob_ccm (some 3) fresh.knobs)
      1
      7
      (knob_write (firmware Mailbox.emem) FspRpc.emem knob_ccm 3 (fresh, 7))
knob_write-IsServed_example =
    knob_write-IsServed 7 knob_ccm (omega arith) Mailbox.emem fresh 3 fresh-IsWorking (omega arith)

knob_read_and_write-IsFailed_example :
    IsFailed mailbox_error set_ccm.knobs
      (knob_read (firmware Mailbox.mnoc) FspRpc.mnoc knob_ccm (fail Fault.late_error set_ccm, 7))
    × IsFailed mailbox_error (stored Fault.late_error knob_ccm 1 set_ccm.knobs) (
        knob_write
          (firmware Mailbox.mnoc)
          FspRpc.mnoc
          knob_ccm
          1
          (fail Fault.late_error set_ccm, 7))
knob_read_and_write-IsFailed_example =
    knob_read_and_write-IsFailed 7 knob_ccm (omega arith) Mailbox.mnoc Fault.late_error
      (fail Fault.late_error set_ccm) 3 1 (refl, refl, refl, refl, refl, refl) refl refl
      (omega arith)
