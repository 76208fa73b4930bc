-- ===== src/Fsp/Rpc.antt =====
-- src/cc/fsp.rs: commands over a mailbox, and the checks of their answers.
use pcilibs_rs.Prelude.{
  ℕ, ◌*◌, ◌%◌, ◌^◌, bit_or, ◌==◌, leb, if◌then◌else◌, List, [], ◌∷◌, length, is_empty,
}
use pcilibs_rs.Device.{
  Action, Machine, bad_reply, completion, pure, fail_with, ◌>>=◌, ◌>>◌, require,
}
use pcilibs_rs.Fsp.Packet.{mctp_packet, nvdm_prc, nvdm_response, shift_left, shift_right}
use pcilibs_rs.Fsp.Emem.{emem_reset_queues, emem_send, emem_receive}
use pcilibs_rs.Fsp.Mnoc.{mnoc_send, mnoc_receive}
use pcilibs_rs.Fsp.Knobs.{Channel}

-- The device that the source's variants carry is the machine.
pub data FspRpc : Type 0 where
  emem mnoc : FspRpc

-- `[mctp hdr, msg hdr, seq, request nvdm type, completion, payload...]`
unfoldable pub check_response : {S : Type 0} → List ℕ → ℕ → Action S (List ℕ × ℕ)
check_response (_ ∷ header ∷ _ ∷ request ∷ code ∷ payload) bytes = do
  require (shift_right header 24 == nvdm_response) bad_reply
  require (request == nvdm_prc) bad_reply
  (if code == 0 then pure (payload, bytes) else fail_with (completion code))
check_response _ bytes = fail_with bad_reply

-- The first word of a command on a knob.
unfoldable pub command : ℕ → ℕ → ℕ
command subcommand knob = bit_or (bit_or subcommand (shift_left 2 8)) (shift_left knob 16)

abbrev one_word : {S : Type 0} → List ℕ → ℕ → Action S ℕ
one_word (word ∷ []) bytes = do require (leb 22 bytes) bad_reply; pure (word % 2 ^ 16)
one_word _ bytes = fail_with bad_reply

module _ {S : Type 0} (machine : Machine S) where
  unfoldable pub open_emem : Action S FspRpc
  unfolding emem_reset_queues
  open_emem = do emem_reset_queues machine; pure emem

  unfoldable pub exchange : FspRpc → List ℕ → Action S (List ℕ × ℕ)
  unfolding emem_send emem_receive mnoc_send mnoc_receive
  exchange emem packet = do
    emem_send machine packet
    response ← emem_receive machine
    pure (response, length response * 4)
  exchange mnoc packet = do mnoc_send machine packet; mnoc_receive machine

  unfoldable pub prc_cmd : FspRpc → List ℕ → Action S (List ℕ × ℕ)
  unfolding exchange check_response mctp_packet
  prc_cmd rpc payload = do
    answer ← exchange rpc (mctp_packet nvdm_prc payload)
    check_response answer.0 answer.1

  unfoldable pub knob_read : FspRpc → ℕ → Action S ℕ
  unfolding prc_cmd command
  knob_read rpc knob = do answer ← prc_cmd rpc (command 0xc knob ∷ []); one_word answer.0 answer.1

  unfoldable pub knob_write : FspRpc → ℕ → ℕ → Action S (Unit {0})
  unfolding prc_cmd command
  knob_write rpc knob value = do
    answer ← prc_cmd rpc (command 0xd knob ∷ value ∷ [])
    require (is_empty answer.0) bad_reply

  unfoldable pub channel : FspRpc → Channel S
  channel rpc = record { knob_read = knob_read rpc; knob_write = knob_write rpc }
