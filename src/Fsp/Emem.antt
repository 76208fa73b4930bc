-- ===== src/Fsp/Emem.antt =====
-- src/cc/fsp.rs, Hopper: the EMEM mailbox of the FSP falcon, channel 2.
use pcilibs_rs.Prelude.{
  ℕ, ◌+◌, ◌-◌, ◌*◌, ◌/◌, ◌%◌, ◌^◌, bit_or, Bool, false, leb, if◌then◌else◌, List, length,
}
use pcilibs_rs.Device.{
  Action, Machine, too_long, pure, ◌>>=◌, ◌>>◌, require, attempt, read32, write32, write_all,
  read_all, reads_alike, negated, observe,
}
use pcilibs_rs.Device.Poll.{poll}

abbrev pub emem_base : ℕ
emem_base = 2 * 1024

abbrev pub ememc : ℕ
ememc = 0x8f2ac0 + 2 * 8

abbrev pub ememd : ℕ
ememd = ememc + 4

abbrev pub queue_head : ℕ
queue_head = 0x8f2c00 + 2 * 8

abbrev pub queue_tail : ℕ
queue_tail = queue_head + 4

abbrev pub msgq_head : ℕ
msgq_head = 0x8f2c80 + 2 * 8

abbrev pub msgq_tail : ℕ
msgq_tail = msgq_head + 4

-- `EMEM_BASE | EMEMC_AINCW | EMEMC_AINCR`
abbrev pub ememc_start : ℕ
ememc_start = bit_or (bit_or emem_base (2 ^ 24)) (2 ^ 25)

-- `a.wrapping_sub(b)` on 32 bits
unfoldable pub wrapping_sub : ℕ → ℕ → ℕ
wrapping_sub a b = (a + 2 ^ 32 - b) % 2 ^ 32

module _ {S : Type 0} (machine : Machine S) where
  abbrev command_queue_empty : S → Bool × S
  command_queue_empty = reads_alike machine queue_head queue_tail

  abbrev message_queue_empty : S → Bool × S
  message_queue_empty = reads_alike machine msgq_head msgq_tail

  unfoldable pub reset_both_queues : Action S (Unit {0})
  unfolding poll
  reset_both_queues = do
    _ ← attempt (poll machine 5000 (negated message_queue_empty))
    write32 machine queue_tail emem_base
    write32 machine queue_head emem_base
    write32 machine msgq_tail emem_base
    write32 machine msgq_head emem_base

  unfoldable pub emem_reset_queues : Action S (Unit {0})
  unfolding reset_both_queues
  emem_reset_queues = do
    idle ← observe command_queue_empty
    answered ← (if idle then observe message_queue_empty else pure false)
    (if answered then pure tt else reset_both_queues)

  unfoldable pub emem_send : List ℕ → Action S (Unit {0})
  unfolding poll
  emem_send data_words = do
    require (leb (length data_words * 4) 1024) too_long
    poll machine 5000 command_queue_empty
    write32 machine ememc ememc_start
    write_all machine ememd data_words
    write32 machine queue_tail (emem_base + (length data_words - 1) * 4)
    write32 machine queue_head emem_base

  unfoldable pub emem_receive : Action S (List ℕ)
  unfolding poll wrapping_sub
  emem_receive = do
    poll machine 5000 (negated message_queue_empty)
    head ← read32 machine msgq_head
    tail ← read32 machine msgq_tail
    let dwords = wrapping_sub tail head / 4 + 1
    require (leb dwords 256) too_long
    write32 machine ememc ememc_start
    answer ← read_all machine ememd dwords
    write32 machine msgq_tail head
    pure answer
