-- ===== src/Fsp/Mnoc.antt =====
-- src/cc/fsp.rs, Blackwell: the MNOC mailbox, port 0.
use pcilibs_rs.Prelude.{
  ℕ, suc, ◌+◌, ◌*◌, ◌/◌, ◌%◌, ◌^◌, bit_and, bit_or, Bool, not, ◌==◌, leb, if◌then◌else◌, List, [],
  ◌∷◌, length, ok, err,
}
use pcilibs_rs.Device.{
  Action, Failure, Machine, too_long, mailbox_error, pure, fail_with, ◌>>=◌, ◌>>◌, require, attempt,
  read32, write32, read_all, reads_as,
}
use pcilibs_rs.Device.Poll.{poll}

abbrev pub mnoc_info_send : ℕ
mnoc_info_send = 0x8f1e00 + 0x104

abbrev pub mnoc_rdata_send : ℕ
mnoc_rdata_send = mnoc_info_send + 4

abbrev pub mnoc_info_recv : ℕ
mnoc_info_recv = 0x8f1e00 + 0x184

abbrev pub mnoc_wdata_recv : ℕ
mnoc_wdata_recv = mnoc_info_recv + 4

abbrev pub mnoc_size_mask : ℕ
mnoc_size_mask = 0xfffff

abbrev pub mnoc_new_msg : ℕ
mnoc_new_msg = 2 ^ 20

abbrev pub mnoc_ready : ℕ
mnoc_ready = 2 ^ 24

abbrev pub mnoc_error : ℕ
mnoc_error = 2 ^ 25

abbrev pub mnoc_credits : ℕ
mnoc_credits = 2 ^ 26

-- `value & mask != 0`
abbrev pub has : ℕ → ℕ → Bool
has mask value = not (bit_and value mask == 0)

-- `bytes.div_ceil(4)`
abbrev pub dwords_of : ℕ → ℕ
dwords_of bytes = (bytes + 3) / 4

module _ {S : Type 0} (machine : Machine S) where
  -- The loop of `mnoc_send`, from the word with the number `i` on.
  unfoldable pub send_words : ℕ → List ℕ → Action S (Unit {0})
  unfolding poll
  send_words i [] = pure tt
  send_words i (d ∷ rest_words) =
      let rest = send_words (suc i) rest_words in
      do
        (if i % 16 == 0
            then poll machine 1000 (reads_as machine mnoc_info_recv (has mnoc_credits))
            else pure tt)
        write32 machine mnoc_wdata_recv d
        rest

  unfoldable pub mnoc_send : List ℕ → Action S (Unit {0})
  unfolding poll send_words
  mnoc_send data_words = do
    poll machine 5000 (reads_as machine mnoc_info_recv (has mnoc_ready))
    write32 machine mnoc_info_recv (bit_or (length data_words * 4) mnoc_new_msg)
    send_words 0 data_words
    info ← read32 machine mnoc_info_recv
    require (not (has mnoc_error info)) mailbox_error

  -- What a poll that failed becomes.
  abbrev no_response : Failure → Action S (Unit {0})
  no_response e = do
    info ← read32 machine mnoc_info_send
    (if has mnoc_error info then fail_with mailbox_error else fail_with e)

  unfoldable pub mnoc_receive : Action S (List ℕ × ℕ)
  unfolding poll
  mnoc_receive = do
    polled ← attempt (poll machine 5000 (reads_as machine mnoc_info_send (has mnoc_ready)))
    elim polled [ ok _ ↦ pure tt | err e ↦ no_response e ]
    first ← read32 machine mnoc_info_send
    let bytes = bit_and first mnoc_size_mask
    require (leb bytes 1024) too_long
    answer ← read_all machine mnoc_rdata_send (dwords_of bytes)
    info ← read32 machine mnoc_info_send
    require (not (has mnoc_error info)) mailbox_error
    pure (answer, bytes)
