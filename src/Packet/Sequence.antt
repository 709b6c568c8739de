-- ===== src/Packet/Sequence.antt =====
-- protocol/src/packet/sequence.cpp and sequence.hpp: a stream's next packet, and the generation of a
-- received 16-bit packet ID.
pub mod Keys
use ts_cli.Prelude.{ℕ, ◌+◌, ◌-◌, ◌*◌, ◌%◌, ◌^◌, Result, ok, err, ltb, ◌==◌, if◌then◌else◌}

pub record PacketSequence : Type 0 where
  pub packet_id : ℕ
  pub generation_id : ℕ

pub data SequenceError : Type 0 where
  generation_overflow ambiguous_generation invalid_previous_generation : SequenceError

-- `PacketSequence::Advance`
unfoldable pub advance : PacketSequence → Result SequenceError PacketSequence
advance s =
    if s.packet_id == 65535
    then if s.generation_id == 2 ^ 32 - 1
      then err generation_overflow
      else ok (record { packet_id = 0; generation_id = s.generation_id + 1 })
    else ok (record s { packet_id = s.packet_id + 1 })

-- `forwardDistance`
unfoldable pub forward_distance : PacketSequence → ℕ → ℕ
forward_distance expected id = (id + 65536 - expected.packet_id) % 65536

unfoldable pub resolve_generation : PacketSequence → ℕ → Result SequenceError ℕ
unfolding forward_distance
resolve_generation expected id =
    let distance = forward_distance expected id in
    if distance == 0
    then ok expected.generation_id
    else if distance == 32768
    then err ambiguous_generation
    else if ltb distance 32768
    then if ltb id expected.packet_id
      then if expected.generation_id == 2 ^ 32 - 1
        then err generation_overflow
        else ok (expected.generation_id + 1)
      else ok expected.generation_id
    else if ltb expected.packet_id id
    then if expected.generation_id == 0
      then err invalid_previous_generation
      else ok (expected.generation_id - 1)
    else ok expected.generation_id

-- `( generationId << 16 ) | packetId` over `uint64_t`; the two have no common bit.
unfoldable pub sequence_key : ℕ → ℕ → ℕ
sequence_key id generation = generation * 2 ^ 16 % 2 ^ 64 + id

unfoldable pub key_of : PacketSequence → ℕ
unfolding sequence_key
key_of s = sequence_key s.packet_id s.generation_id
