-- ===== src/Fsp/Firmware/Served.antt =====
-- A command on a knob over either mailbox: the client and the firmware agree on the knobs.
use pcilibs_rs.Prelude.{ℕ, ◌+◌, ◌^◌, ◌<◌, Option, none, some, Result, ok, ◌≡◌, refl}
use mathlib.Core.Path.{subst}
use pcilibs_rs.Device.{Failure}
use pcilibs_rs.Fsp.Rpc.{FspRpc, knob_read, knob_write}
use pcilibs_rs.Fsp.Serving.{looked_up}
use pcilibs_rs.Fsp.Firmware.{Mailbox, State, firmware, update}
use pcilibs_rs.Fsp.Firmware.Replies.{IsWorking, working, working_same}
use pcilibs_rs.Fsp.Firmware.OverMnoc.{mnoc_read, mnoc_unknown, mnoc_write}
use pcilibs_rs.Fsp.Firmware.OverEmem.{emem_read, emem_unknown, emem_write}

-- The client for a mailbox.
abbrev pub rpc_of : Mailbox → FspRpc
rpc_of Mailbox.emem = FspRpc.emem
rpc_of Mailbox.mnoc = FspRpc.mnoc

-- What a command comes to: its result, the knobs, the number of writes, and the clock.
abbrev pub IsServed :
    {A : Type 0}
    → Result Failure A
    → (ℕ → Option ℕ)
    → ℕ
    → ℕ
    → Result Failure A × (State × ℕ)
    → Type 0
IsServed result knobs writes time r =
    (r.0 ≡ result)
    × (r.1.0.knobs ≡ knobs)
    × (r.1.0.writes ≡ writes)
    × (r.1.1 ≡ time)
    × IsWorking r.1.0

-- The values of the knobs have 16 bits.
abbrev pub IsNarrow : Option ℕ → Type 0
IsNarrow none = Unit
IsNarrow (some v) = v < 2 ^ 16

module _ (t k : ℕ) (small : k < 2 ^ 16) where
  read_working :
      (mailbox : Mailbox) (s : State) (known : Option ℕ)
      → IsNarrow known
      → s.knobs k ≡ known
      → IsServed
          (looked_up known)
          s.knobs
          s.writes
          t
          (knob_read (firmware mailbox) (rpc_of mailbox) k (working s, t))
  read_working Mailbox.emem s none h e =
      rw (emem_unknown s t k small e) (refl, refl, refl, refl, (refl, refl, refl, refl, refl, refl))
  read_working Mailbox.emem s (some v) h e =
      rw (emem_read s t k small v h e)
        (refl, refl, refl, refl, (refl, refl, refl, refl, refl, refl))
  read_working Mailbox.mnoc s none h e =
      rw (mnoc_unknown s t k small e) (refl, refl, refl, refl, (refl, refl, refl, refl, refl, refl))
  read_working Mailbox.mnoc s (some v) h e =
      rw (mnoc_read s t k small v h e)
        (refl, refl, refl, refl, (refl, refl, refl, refl, refl, refl))

  write_working :
      (mailbox : Mailbox) (s : State) (v : ℕ)
      → v < 2 ^ 16
      → IsServed
          (ok tt)
          (update k (some v) s.knobs)
          (s.writes + 1)
          t
          (knob_write (firmware mailbox) (rpc_of mailbox) k v (working s, t))
  write_working Mailbox.emem s v h =
      rw (emem_write s t k small v h) (refl, refl, refl, refl, (refl, refl, refl, refl, refl, refl))
  write_working Mailbox.mnoc s v h =
      rw (mnoc_write s t k small v h) (refl, refl, refl, refl, (refl, refl, refl, refl, refl, refl))

  -- Over either mailbox, to firmware that works: reading a knob of 16 bits gives the value that
  -- the firmware holds, or the code for a knob that it does not have, and changes no knob, writes
  -- none, takes no time, and leaves the firmware working with empty queues.
  pub knob_read-IsServed :
      (mailbox : Mailbox) (s : State)
      → IsWorking s
      → IsNarrow (s.knobs k)
      → IsServed
          (looked_up (s.knobs k))
          s.knobs
          s.writes
          t
          (knob_read (firmware mailbox) (rpc_of mailbox) k (s, t))
  knob_read-IsServed mailbox s w h =
      subst
        (λ x.
          IsServed (looked_up (s.knobs k)) s.knobs s.writes t
            (knob_read (firmware mailbox) (rpc_of mailbox) k (x, t)))
        (working_same s w) (read_working mailbox s (s.knobs k) h refl)

  -- Over either mailbox, to firmware that works: writing a value of 16 bits to a knob of 16 bits
  -- succeeds, sets this knob in the firmware and no other, by one write, takes no time, and leaves
  -- the firmware working with empty queues.
  pub knob_write-IsServed :
      (mailbox : Mailbox) (s : State) (v : ℕ)
      → IsWorking s
      → v < 2 ^ 16
      → IsServed
          (ok tt)
          (update k (some v) s.knobs)
          (s.writes + 1)
          t
          (knob_write (firmware mailbox) (rpc_of mailbox) k v (s, t))
  knob_write-IsServed mailbox s v w h =
      subst
        (λ x.
          IsServed (ok tt) (update k (some v) s.knobs) (s.writes + 1) t
            (knob_write (firmware mailbox) (rpc_of mailbox) k v (x, t)))
        (working_same s w) (write_working mailbox s v h)
