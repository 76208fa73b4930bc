-- ===== src/Fsp/Firmware/OverEmem.antt =====
-- A command on a knob over the EMEM mailbox, to firmware that works.
use pcilibs_rs.Prelude.{
  ℕ, ◌+◌, ◌-◌, ◌*◌, ◌^◌, ◌<◌, bit_or, none, some, List, [], ◌∷◌, ok, err, ◌≡◌, refl, ap,
}
use pcilibs_rs.Device.{reads_alike, completion}
use pcilibs_rs.Device.Poll.{poll, poll_from, poll_at_once}
use pcilibs_rs.Fsp.Packet.{mctp_header, mctp_packet, mctp_msg_header}
use pcilibs_rs.Fsp.Emem.{queue_head, queue_tail, emem_send, emem_receive, wrapping_sub}
use pcilibs_rs.Fsp.Rpc.{FspRpc, knob_read, knob_write, prc_cmd, exchange, check_response, command}
use pcilibs_rs.Fsp.Firmware.{
  invalid_knob, Mailbox, State, firmware, read_register, write_register, answer_over_emem, answer,
  fault_of, update, copy_to,
}
use pcilibs_rs.Fsp.Firmware.Replies.{
  working, alike, reply_read, reply_unknown, reply_written, response_of, packet_of, low_half,
}

-- The window behind a response of `n` words, both queues empty at its base.
abbrev pub settled : ℕ → (ℕ → ℕ) → State → State
settled n window s = record s {
  emem = window;
  emem_at = 512 + n;
  queue_head = 2048;
  queue_tail = 2048;
  msgq_head = 2048;
  msgq_tail = 2048;
}

-- The response is in the window, and the message queue tells its length.
abbrev delivered : ℕ → ℕ → List ℕ → (ℕ → ℕ) → State → State
delivered at n response window s = record s {
  emem = copy_to response 512 window;
  emem_at = at;
  queue_head = 2048;
  queue_tail = 2048;
  msgq_head = 2048;
  msgq_tail = 2048 + (n - 1) * 4;
}

module _ (s : State) (t at : ℕ) (window : ℕ → ℕ) where
  emem_received_word :
      (code w : ℕ)
      → emem_receive
          (firmware Mailbox.emem)
          (delivered at 6 (response_of code (w ∷ [])) window s, t)
        ≡ (
          ok (response_of code (w ∷ [])),
          (settled 6 (copy_to (response_of code (w ∷ [])) 512 window) s, t),
        )
  unfolding emem_receive poll poll_from read_register write_register wrapping_sub
  emem_received_word code w = refl

  emem_received :
      (code : ℕ)
      → emem_receive (firmware Mailbox.emem) (delivered at 5 (response_of code []) window s, t)
        ≡ (ok (response_of code []), (settled 5 (copy_to (response_of code []) 512 window) s, t))
  unfolding emem_receive poll poll_from read_register write_register wrapping_sub
  emem_received code = refl

module _ (s : State) (t k : ℕ) (small : k < 2 ^ 16) where
  abbrev window : List ℕ → ℕ → ℕ
  window payload = copy_to (packet_of payload) 512 s.emem

  -- The state when the doorbell rings, and when the command is taken.
  abbrev asked : ℕ → List ℕ → State
  asked n payload = record (working s) {
    emem = window payload;
    emem_at = 512 + n;
    queue_head = 2048;
    queue_tail = 2048 + (n - 1) * 4;
  }

  abbrev taken : ℕ → List ℕ → State
  taken n payload = record (asked n payload) { queue_tail = 2048 }

  abbrev reading : List ℕ
  reading = command 0xc k ∷ []

  abbrev writing : ℕ → List ℕ
  writing v = command 0xd k ∷ v ∷ []

  answered_read :
      (v : ℕ)
      → s.knobs k ≡ some v
      → answer_over_emem (asked 3 reading)
        ≡ delivered 515 6 (response_of 0 (bit_or 0xdead0000 v ∷ [])) (window reading) (working s)
  unfolding answer_over_emem answer fault_of mctp_msg_header
  answered_read v known = rw (reply_read k mctp_header 0x1310de7e small (taken 3 reading) v known)

  answered_unknown :
      s.knobs k ≡ none
      → answer_over_emem (asked 3 reading)
        ≡ delivered 515 5 (response_of invalid_knob []) (window reading) (working s)
  unfolding answer_over_emem answer fault_of mctp_msg_header
  answered_unknown known = rw (reply_unknown k mctp_header 0x1310de7e small (taken 3 reading) known)

  abbrev pub after_write : ℕ → State
  after_write v = record (working s) { knobs = update k (some v) s.knobs; writes = s.writes + 1 }

  answered_write :
      (v : ℕ)
      → v < 2 ^ 16
      → answer_over_emem (asked 4 (writing v))
        ≡ delivered 516 5 (response_of 0 []) (window (writing v)) (after_write v)
  unfolding answer_over_emem answer fault_of mctp_msg_header
  answered_write v h = rw (reply_written k mctp_header 0x1310de7e small (taken 4 (writing v)) v h)

  polled_empty :
      poll
        (firmware Mailbox.emem)
        5000
        (reads_alike (firmware Mailbox.emem) queue_head queue_tail)
        (working s, t)
      ≡ (ok tt, (working s, t))
  unfolding read_register
  polled_empty =
      poll_at_once (firmware Mailbox.emem) 5000 _ (working s, t) (working s, t)
        (ap (λ b. (b, (working s, t))) (alike s.queue_head))

  sent_read :
      (v : ℕ)
      → s.knobs k ≡ some v
      → emem_send (firmware Mailbox.emem) (packet_of reading) (working s, t) ≡ (
        ok tt,
        (
          delivered 515 6 (response_of 0 (bit_or 0xdead0000 v ∷ [])) (window reading) (working s),
          t,
        ),
      )
  unfolding emem_send write_register
  sent_read v known = rw (polled_empty, answered_read v known)

  sent_unknown :
      s.knobs k ≡ none
      → emem_send (firmware Mailbox.emem) (packet_of reading) (working s, t)
        ≡ (ok tt, (delivered 515 5 (response_of invalid_knob []) (window reading) (working s), t))
  unfolding emem_send write_register
  sent_unknown known = rw (polled_empty, answered_unknown known)

  sent_write :
      (v : ℕ)
      → v < 2 ^ 16
      → emem_send (firmware Mailbox.emem) (packet_of (writing v)) (working s, t)
        ≡ (ok tt, (delivered 516 5 (response_of 0 []) (window (writing v)) (after_write v), t))
  unfolding emem_send write_register
  sent_write v h = rw (polled_empty, answered_write v h)

  pub emem_read :
      (v : ℕ)
      → v < 2 ^ 16
      → s.knobs k ≡ some v
      → knob_read (firmware Mailbox.emem) FspRpc.emem k (working s, t) ≡ (
        ok v,
        (
          settled 6
              (copy_to (response_of 0 (bit_or 0xdead0000 v ∷ [])) 512 (window reading))
              (working s),
          t,
        ),
      )
  unfolding knob_read prc_cmd exchange check_response mctp_packet mctp_msg_header
  emem_read v h known = rw (
    sent_read v known,
    emem_received_word (working s) t 515 (window reading) 0 (bit_or 0xdead0000 v),
    low_half v h,
  )

  pub emem_unknown :
      s.knobs k ≡ none
      → knob_read (firmware Mailbox.emem) FspRpc.emem k (working s, t) ≡ (
        err (completion invalid_knob),
        (settled 5 (copy_to (response_of invalid_knob []) 512 (window reading)) (working s), t),
      )
  unfolding knob_read prc_cmd exchange check_response mctp_packet mctp_msg_header
  emem_unknown known =
      rw (sent_unknown known, emem_received (working s) t 515 (window reading) invalid_knob)

  pub emem_write :
      (v : ℕ)
      → v < 2 ^ 16
      → knob_write (firmware Mailbox.emem) FspRpc.emem k v (working s, t) ≡ (
        ok tt,
        (settled 5 (copy_to (response_of 0 []) 512 (window (writing v))) (after_write v), t),
      )
  unfolding knob_write prc_cmd exchange check_response mctp_packet mctp_msg_header
  emem_write v h = rw (sent_write v h, emem_received (after_write v) t 516 (window (writing v)) 0)
