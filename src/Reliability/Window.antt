-- ===== src/Reliability/Window.antt =====
-- protocol/src/reliability/command_receive_window.cpp: reordering, deduplication and reassembly of one
-- command stream. A call that throws keeps what it has changed so far, so that an outcome has the state
-- beside the result.
pub mod Cases
pub mod Reference
pub mod InOrder
pub mod Reassembly
use ts_cli.Prelude.{
  ℕ, zero, suc, ◌+◌, ◌-◌, Bool, true, false, not, none, some, List, [], ◌∷◌, ◌++◌, Result, ok, err,
  ltb, leb, length, if◌then◌else◌,
}
use ts_cli.Binary.{Bytes, sub64}
use ts_cli.Packet.Limits
use ts_cli.Packet.PacketFlags
use ts_cli.Packet.PacketFlags.{has_flag}
use ts_cli.Packet.Sequence.{PacketSequence, SequenceError, advance, sequence_key, key_of}
use ts_cli.Prelude.OrderedMap.{OrderedMap, find, insert, erase, contains}
use ts_cli.QuickLz.{QuickLzError, decompress}

pub record QueuedPacket : Type 0 where
  pub flags : ℕ
  pub bytes : Bytes

-- `m_Assembling`, `m_Compressed` and `m_Fragments`
pub record Assembly : Type 0 where
  pub assembling : Bool
  pub compressed : Bool
  pub fragments : Bytes

abbrev pub idle : Assembly
idle = record { assembling = false; compressed = false; fragments = [] }

-- The window with the stream's `PacketSequence`, which the caller owns and `Feed` advances.
pub record Stream : Type 0 where
  pub expected : PacketSequence
  pub queued : OrderedMap QueuedPacket
  pub assembly : Assembly

-- `out_of_fuel` is no C++ value: the loop of `feed` never ends so.
pub data WindowError : Type 0 where
  outside_window queue_full command_too_large : WindowError
  quick_lz : QuickLzError → WindowError
  sequence : SequenceError → WindowError
  out_of_fuel : WindowError

abbrev pub max_queued_packets : ℕ
max_queued_packets = 64

-- What is pushed on `ready` for a whole command.
unfoldable pub finished : Bool → Bytes → Result WindowError (List Bytes)
finished compressed bytes =
    if compressed
    then elim (decompress bytes Limits.max_command_size) [
      | ok out ↦ ok (out ∷ [])
      | err e ↦ err (quick_lz e)
    ]
    else ok (bytes ∷ [])

-- `ProcessOrdered`: the commands are those that it pushes on `ready`.
unfoldable pub process_ordered : ℕ → Bytes → Assembly → Assembly × Result WindowError (List Bytes)
process_ordered flags bytes a =
    let joined = a.fragments ++ bytes in
    let fragmented = has_flag flags PacketFlags.fragmented in
    let compressed = has_flag flags PacketFlags.compressed in
    if ltb (sub64 Limits.max_command_size (length a.fragments)) (length bytes)
    then (a, err command_too_large)
    else if not a.assembling
    then if not fragmented
      then (a, finished compressed bytes)
      else (record { assembling = true; compressed = compressed; fragments = bytes }, ok [])
    else if not fragmented
    then (record a { fragments = joined }, ok [])
    else elim (finished a.compressed joined) [
      | ok commands ↦ (idle, ok commands)
      | err e ↦ (record a { fragments = joined }, err e)
    ]

abbrev pub Fed : Type 0
Fed = Stream × Result WindowError (List Bytes)

-- `ProcessOrdered( … ); expected.Advance();`
unfoldable pub consume : QueuedPacket → Stream → Fed
consume p s =
    let (a, pushed) = process_ordered p.flags p.bytes s.assembly in
    elim pushed [
      | err e ↦ (record s { assembly = a }, err e)
      | ok commands ↦ elim (advance s.expected) [
        | err e ↦ (record s { assembly = a }, err (sequence e))
        | ok next ↦ (record s { assembly = a; expected = next }, ok commands)
      ]
    ]

-- `while ( true )`: the packets that wait for their turn.
unfoldable pub drain : ℕ → Stream → List Bytes → Fed
drain zero s ready = (s, err out_of_fuel)
drain (suc fuel) s ready = elim (find (key_of s.expected) s.queued) [
  | none ↦ (s, ok ready)
  | some p ↦
      let (s', pushed) = consume p (record s { queued = erase (key_of s.expected) s.queued }) in
      elim pushed [ err e ↦ (s', err e) | ok commands ↦ drain fuel s' (ready ++ commands) ]
]

-- A round takes a packet from the queue, so that its size and one more is enough fuel.
unfoldable pub feed : ℕ → ℕ → ℕ → Bytes → Stream → Fed
unfolding contains
feed id generation flags bytes s =
    let key = sequence_key id generation in
    let expected_key = key_of s.expected in
    let packet : QueuedPacket = record { flags = flags; bytes = bytes } in
    if ltb key expected_key
    then (s, ok [])
    else if ltb expected_key key
    then if ltb max_queued_packets (key - expected_key)
      then (s, err outside_window)
      else if contains key s.queued
      then (s, ok [])
      else if leb max_queued_packets (length s.queued)
      then (s, err queue_full)
      else (record s { queued = insert key packet s.queued }, ok [])
    else let (s', pushed) = consume packet s in
      elim pushed [ err e ↦ (s', err e) | ok commands ↦ drain (length s'.queued + 1) s' commands ]
