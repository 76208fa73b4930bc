-- ===== src/Fsp/Firmware/Refused.antt =====
-- A command on a knob over either mailbox, to firmware that is made to fail.
use mathlib.Core.Path.{subst}
use pcilibs_rs.Prelude.{ℕ, ◌^◌, ◌<◌, Option, none, some, ◌≡◌, sym, false}
use pcilibs_rs.Device.{Failure}
use pcilibs_rs.Fsp.Rpc.{knob_read, knob_write}
use pcilibs_rs.Fsp.Firmware.{Mailbox, State, Fault, firmware}
use pcilibs_rs.Fsp.Firmware.Served.{rpc_of}
use pcilibs_rs.Fsp.Firmware.Faults.{faulted, refusal, stored, IsSaid, IsFailed}
use pcilibs_rs.Fsp.Firmware.FailingEmem.{emem_read_refused, emem_write_refused}
use pcilibs_rs.Fsp.Firmware.FailingMnoc.{mnoc_read_refused, mnoc_write_refused}

-- Firmware that fails in this way at every knob, with nothing in its queues.
abbrev pub IsFaulted : Fault → State → Type 0
IsFaulted f s =
    (s.fault ≡ some f)
    × (s.faulty_knob ≡ none)
    × (s.send_error ≡ false)
    × (s.late_error ≡ false)
    × (s.queue_tail ≡ s.queue_head)
    × (s.msgq_tail ≡ s.msgq_head)

faulted_same : (f : Fault) (s : State) → IsFaulted f s → faulted f s ≡ s
faulted_same f s w = λ i. record s {
  fault = sym w.0 i;
  faulty_knob = sym w.1 i;
  send_error = sym w.2 i;
  late_error = sym w.3 i;
  queue_tail = sym w.4 i;
  msgq_tail = sym w.5 i;
}

module _ (t k : ℕ) (small : k < 2 ^ 16) where
  read_refused :
      (mailbox : Mailbox) (f : Fault) (s : State) (v : ℕ)
      → s.knobs k ≡ some v
      → IsSaid
          (refusal mailbox f)
          s.knobs
          (knob_read (firmware mailbox) (rpc_of mailbox) k (faulted f s, t))
  read_refused Mailbox.emem f s = emem_read_refused s t k small f
  read_refused Mailbox.mnoc f s = mnoc_read_refused s t k small f

  write_refused :
      (mailbox : Mailbox) (f : Fault) (s : State) (v : ℕ)
      → v < 2 ^ 16
      → IsSaid
          (refusal mailbox f)
          (stored f k v s.knobs)
          (knob_write (firmware mailbox) (rpc_of mailbox) k v (faulted f s, t))
  write_refused Mailbox.emem f s = emem_write_refused s t k small f
  write_refused Mailbox.mnoc f s = mnoc_write_refused s t k small f

  -- Over either mailbox, to firmware that fails at every command in a way that `refusal` lists (a
  -- completion code, an answer of another type, to another command or of the wrong length, or an
  -- error of the mailbox): reading and writing a knob of 16 bits that it has both fail with the
  -- error of that fault. The read changes no knob; the write is done all the same where the
  -- firmware answered it, so not where its message is oversized or the mailbox refused the
  -- command.
  pub knob_read_and_write-IsFailed :
      (mailbox : Mailbox) (f : Fault) {e : Failure} (s : State) (old new : ℕ)
      → IsFaulted f s
      → refusal mailbox f ≡ some e
      → s.knobs k ≡ some old
      → new < 2 ^ 16
      → IsFailed e s.knobs (knob_read (firmware mailbox) (rpc_of mailbox) k (s, t))
        × IsFailed e
            (stored f k new s.knobs)
            (knob_write (firmware mailbox) (rpc_of mailbox) k new (s, t))
  knob_read_and_write-IsFailed mailbox f {e} s old new w said known low =
      let Both = λ (o : Option Failure) (x : State).
        IsSaid o s.knobs (knob_read (firmware mailbox) (rpc_of mailbox) k (x, t))
        × IsSaid o (stored f k new s.knobs)
            (knob_write (firmware mailbox) (rpc_of mailbox) k new (x, t)) in
      subst (λ o. Both o s) said
        (subst (λ x. Both (refusal mailbox f) x) (faulted_same f s w)
          (read_refused mailbox f s old known, write_refused mailbox f s new low))
