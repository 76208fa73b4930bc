-- ===== src/Fsp/Firmware/Healthy.antt =====
-- Firmware that works serves its knobs over either mailbox, and reading a register keeps it so.
use mathlib.Core.Path.{subst}
use pcilibs_rs.Prelude.{
  ℕ, ◌^◌, ◌<◌, ◌==◌, Bool, ok, List, [], ◌∷◌, ◌≡◌, refl, sym, ap, ◌∙◌, arith, inl, inr, Bool-cases,
}
use pcilibs_rs.Device.{reads_as}
use pcilibs_rs.Device.Poll.{poll, poll-view}
use pcilibs_rs.Effects.Hoare.{Post-always, Hoare}
use pcilibs_rs.Fsp.Emem.{emem_reset_queues}
use pcilibs_rs.Fsp.Rpc.{FspRpc, open_emem, channel, knob_read}
use pcilibs_rs.Fsp.Serving.{KnobValues, with_knob, looked_up, IsReading, IsServing}
use pcilibs_rs.Fsp.Firmware.{Mailbox, State, firmware, read_register, pop_front}
use pcilibs_rs.Fsp.Firmware.Replies.{IsWorking, working, working_same, alike}
use pcilibs_rs.Fsp.Firmware.Served.{
  IsNarrow, IsServed, rpc_of, knob_read-IsServed, knob_write-IsServed,
}

-- The state but for what a read of a register may change.
abbrev pub quiet : State × ℕ → State
quiet x = record x.0 { emem_at = 0; response = [] }

-- The firmware works, has the knobs `f`, and their values have 16 bits.
abbrev pub IsHealthy : KnobValues → State → Type 0
IsHealthy f s = IsWorking s × (s.knobs ≡ f) × ((j : ℕ) → IsNarrow (f j))

abbrev pub Fits : KnobValues → State × ℕ → Type 0
Fits f x = IsHealthy f (quiet x)

with_knob-IsNarrow :
    (f : KnobValues) (k v : ℕ)
    → v < 2 ^ 16
    → ((j : ℕ) → IsNarrow (f j))
    → (j : ℕ) → IsNarrow (with_knob k v f j)
with_knob-IsNarrow f k v small h j = elim (Bool-cases (j == k)) [
  | inl same ↦ rw same small
  | inr other ↦ rw other (h j)
]

-- Healthy firmware that has been written to `n` times.
abbrev pub FitsAfter : ℕ → KnobValues → State × ℕ → Type 0
FitsAfter n f x = Fits f x × ((quiet x).writes ≡ n)

module _ (mailbox : Mailbox) where
  read_healthy :
      (k : ℕ) (f : KnobValues) (x : State × ℕ)
      → k < 2 ^ 16
      → Fits f x
      → IsServed
          (looked_up (f k))
          f
          x.0.writes
          x.1
          (knob_read (firmware mailbox) (rpc_of mailbox) k x)
  read_healthy k f x small fits =
      let narrow : IsNarrow (x.0.knobs k) =
        subst (λ (g : KnobValues). IsNarrow (g k)) (sym fits.1) (fits.2 k) in
      subst
        (λ (g : KnobValues).
          IsServed (looked_up (g k)) g x.0.writes x.1
            (knob_read (firmware mailbox) (rpc_of mailbox) k x))
        fits.1 (knob_read-IsServed x.1 k small mailbox x.0 fits.0 narrow)

  -- Reads are not counted as writes.
  pub firmware-IsReading :
      (n : ℕ) → IsReading (channel (firmware mailbox) (rpc_of mailbox)) (FitsAfter n)
  unfolding channel
  firmware-IsReading n = record {
    read = λ k f x small fits.
        let r = read_healthy k f x small fits.0 in (r.0, ((r.4, r.1, fits.0.2), r.2 ∙ fits.1));
  }

  pub firmware-IsServing : IsServing (channel (firmware mailbox) (rpc_of mailbox)) Fits
  unfolding channel
  firmware-IsServing = record {
    reads = record {
      read = λ k f x small fits. let r = read_healthy k f x small fits in (r.0, (r.4, r.1, fits.2));
    };
    write = λ k v f x small low fits.
        let r = knob_write-IsServed x.1 k small mailbox x.0 v fits.0 low in
        (
          r.0,
          (
            r.4,
            r.1 ∙ ap (λ (g : KnobValues). with_knob k v g) fits.1,
            with_knob-IsNarrow f k v low fits.2,
          ),
        );
  }

pop_front-quiet :
    (response : List ℕ) (s : State) (t : ℕ) → quiet ((pop_front response s).1, t) ≡ quiet (s, t)
pop_front-quiet [] s t = refl
pop_front-quiet (w ∷ ws) s t = refl

read_register-quiet :
    (mailbox : Mailbox) (offset : ℕ) (x : State × ℕ)
    → quiet ((read_register mailbox offset x.0).1, x.1) ≡ quiet x
unfolding read_register
read_register-quiet Mailbox.emem offset (s, t) = ground arith
read_register-quiet Mailbox.mnoc offset (s, t) = ground (arith, pop_front-quiet s.response s t)

pub poll-quiet :
    (mailbox : Mailbox) (timeout offset : ℕ) (test : ℕ → Bool) (s : State)
    → Hoare quiet
        (λ h. h ≡ s)
        (poll (firmware mailbox) timeout (reads_as (firmware mailbox) offset test))
        (λ _ h. h ≡ s)
        (λ h. h ≡ s)
poll-quiet mailbox timeout offset test s x e =
    Post-always (λ h. h ≡ s) _ _
      (poll-view (firmware mailbox) quiet timeout (reads_as (firmware mailbox) offset test) x
          (read_register-quiet mailbox offset) (λ d y. refl)
        ∙ e)

open_working :
    (s : State) (t : ℕ)
    → open_emem (firmware Mailbox.emem) (working s, t) ≡ (ok FspRpc.emem, (working s, t))
unfolding open_emem emem_reset_queues read_register
open_working s t = rw (alike s.queue_head, alike s.msgq_head) refl

-- The queues of firmware that works are not reset.
pub open_emem-working :
    (s : State) (t : ℕ)
    → IsWorking s
    → open_emem (firmware Mailbox.emem) (s, t) ≡ (ok FspRpc.emem, (s, t))
open_emem-working s t w =
    subst (λ x. open_emem (firmware Mailbox.emem) (x, t) ≡ (ok FspRpc.emem, (x, t)))
      (working_same s w) (open_working s t)
