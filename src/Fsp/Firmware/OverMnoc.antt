-- ===== src/Fsp/Firmware/OverMnoc.antt =====
-- A command on a knob over the MNOC mailbox, to firmware that works.
use pcilibs_rs.Prelude.{
  ℕ, ◌+◌, ◌^◌, ◌<◌, bit_or, false, none, some, List, [], ◌∷◌, ok, err, ◌≡◌, refl,
}
use pcilibs_rs.Device.{completion}
use pcilibs_rs.Device.Poll.{poll, poll_from}
use pcilibs_rs.Fsp.Packet.{mctp_header, mctp_packet, mctp_msg_header}
use pcilibs_rs.Fsp.Mnoc.{mnoc_ready, mnoc_send, mnoc_receive, send_words}
use pcilibs_rs.Fsp.Rpc.{FspRpc, knob_read, knob_write, prc_cmd, exchange, check_response, command}
use pcilibs_rs.Fsp.Firmware.{
  invalid_knob, Mailbox, State, firmware, read_register, write_register, answer_over_mnoc, answer,
  fault_of, update,
}
use pcilibs_rs.Fsp.Firmware.Replies.{
  working, reply_read, reply_unknown, reply_written, response_of, packet_of, read_subcommand,
  write_subcommand, low_half,
}

-- What the mailbox holds when a command has been answered, and when the answer has been read.
abbrev pub holding : ℕ → List ℕ → ℕ → State → State
holding n response bytes s = record s {
  expected = n;
  command = [];
  info_send = mnoc_ready + bytes;
  response = response;
  late_error = false;
}

module _ (s : State) (t n : ℕ) where
  mnoc_received_word :
      (code w : ℕ)
      → mnoc_receive (firmware Mailbox.mnoc) (holding n (response_of code (w ∷ [])) 22 s, t)
        ≡ (ok (response_of code (w ∷ []), 22), (holding n [] 22 s, t))
  unfolding mnoc_receive poll poll_from read_register
  mnoc_received_word code w = refl

  mnoc_received :
      (code : ℕ)
      → mnoc_receive (firmware Mailbox.mnoc) (holding n (response_of code []) 20 s, t)
        ≡ (ok (response_of code [], 20), (holding n [] 20 s, t))
  unfolding mnoc_receive poll poll_from read_register
  mnoc_received code = refl

module _ (s : State) (t k : ℕ) (small : k < 2 ^ 16) where
  -- The state when the last word has come, and when the command is taken.
  abbrev asked : ℕ → List ℕ → State
  asked n payload = record (working s) { expected = n; command = packet_of payload }

  abbrev taken : ℕ → State
  taken n = record (working s) { expected = n; command = [] }

  abbrev reading : List ℕ
  reading = command 0xc k ∷ []

  abbrev writing : ℕ → List ℕ
  writing v = command 0xd k ∷ v ∷ []

  answered_read :
      (v : ℕ)
      → s.knobs k ≡ some v
      → answer_over_mnoc (asked 3 reading)
        ≡ holding 3 (response_of 0 (bit_or 0xdead0000 v ∷ [])) 22 (working s)
  unfolding answer_over_mnoc answer fault_of mctp_msg_header
  answered_read v known =
      rw (reply_read k mctp_header 0x1310de7e small (taken 3) v known, read_subcommand k small)

  answered_unknown :
      s.knobs k ≡ none
      → answer_over_mnoc (asked 3 reading) ≡ holding 3 (response_of invalid_knob []) 20 (working s)
  unfolding answer_over_mnoc answer fault_of mctp_msg_header
  answered_unknown known =
      rw (reply_unknown k mctp_header 0x1310de7e small (taken 3) known, read_subcommand k small)

  abbrev pub after_write : ℕ → State
  after_write v = record (working s) { knobs = update k (some v) s.knobs; writes = s.writes + 1 }

  answered_write :
      (v : ℕ)
      → v < 2 ^ 16
      → answer_over_mnoc (asked 4 (writing v)) ≡ holding 4 (response_of 0 []) 20 (after_write v)
  unfolding answer_over_mnoc answer fault_of mctp_msg_header
  answered_write v h =
      rw (reply_written k mctp_header 0x1310de7e small (taken 4) v h, write_subcommand k small)

  sent_read :
      (v : ℕ)
      → s.knobs k ≡ some v
      → mnoc_send (firmware Mailbox.mnoc) (packet_of reading) (working s, t)
        ≡ (ok tt, (holding 3 (response_of 0 (bit_or 0xdead0000 v ∷ [])) 22 (working s), t))
  unfolding mnoc_send send_words poll poll_from read_register write_register
  sent_read v known = rw (answered_read v known)

  sent_unknown :
      s.knobs k ≡ none
      → mnoc_send (firmware Mailbox.mnoc) (packet_of reading) (working s, t)
        ≡ (ok tt, (holding 3 (response_of invalid_knob []) 20 (working s), t))
  unfolding mnoc_send send_words poll poll_from read_register write_register
  sent_unknown known = rw (answered_unknown known)

  sent_write :
      (v : ℕ)
      → v < 2 ^ 16
      → mnoc_send (firmware Mailbox.mnoc) (packet_of (writing v)) (working s, t)
        ≡ (ok tt, (holding 4 (response_of 0 []) 20 (after_write v), t))
  unfolding mnoc_send send_words poll poll_from read_register write_register
  sent_write v h = rw (answered_write v h)

  pub mnoc_read :
      (v : ℕ)
      → v < 2 ^ 16
      → s.knobs k ≡ some v
      → knob_read (firmware Mailbox.mnoc) FspRpc.mnoc k (working s, t)
        ≡ (ok v, (holding 3 [] 22 (working s), t))
  unfolding knob_read prc_cmd exchange check_response mctp_packet mctp_msg_header
  mnoc_read v h known =
      rw (
        sent_read v known,
        mnoc_received_word (working s) t 3 0 (bit_or 0xdead0000 v),
        low_half v h,
      )

  pub mnoc_unknown :
      s.knobs k ≡ none
      → knob_read (firmware Mailbox.mnoc) FspRpc.mnoc k (working s, t)
        ≡ (err (completion invalid_knob), (holding 3 [] 20 (working s), t))
  unfolding knob_read prc_cmd exchange check_response mctp_packet mctp_msg_header
  mnoc_unknown known = rw (sent_unknown known, mnoc_received (working s) t 3 invalid_knob)

  pub mnoc_write :
      (v : ℕ)
      → v < 2 ^ 16
      → knob_write (firmware Mailbox.mnoc) FspRpc.mnoc k v (working s, t)
        ≡ (ok tt, (holding 4 [] 20 (after_write v), t))
  unfolding knob_write prc_cmd exchange check_response mctp_packet mctp_msg_header
  mnoc_write v h = rw (sent_write v h, mnoc_received (after_write v) t 4 0)
