-- ===== src/Transport/Receiving.antt =====
-- What a session receives: the handlers of the packet types, and `ProcessPacket`.
use ts_cli.Prelude.{
  ℕ, ◌+◌, Bool, true, false, not, ◌&&◌, Option, none, some, List, [], ◌∷◌, ◌++◌, ok, err, leb,
  length, if◌then◌else◌, bytes_eq, ◌==◌,
}
use ts_cli.Binary.{Bytes, reader, read_u16}
use ts_cli.Packet.{ServerPacket}
use ts_cli.Packet.Codec.{parse_server_packet}
use ts_cli.Packet.Limits
use ts_cli.Packet.PacketFlags
use ts_cli.Packet.PacketFlags.{has_flag}
use ts_cli.Packet.PacketType
use ts_cli.Packet.Sequence.{PacketSequence, advance, resolve_generation, sequence_key, key_of}
use ts_cli.Reliability.Window.{Stream, feed}
use ts_cli.Statistics.Recording.{record_received}
use ts_cli.Voice.{VoiceFrame, decode_server}
use ts_cli.Transport.{
  SessionCrypto, SessionTransport, Window, Act, PendingPing, invalid_mac, unexpected_size,
  encrypted_packet, unexpected_init, no_command, no_voice, sequence, window, parse, read, voice,
  statistics, incoming, save_incoming, retire, ipv4_udp_overhead,
}
use ts_cli.Transport.Sending.{send_ack, send_pong}
use ts_cli.Actions.{return, throw, gets, modify, call, or_throw, throw_when, ◌>>◌, ◌>>=◌}

-- `if ( packetKey >= expectedKey ) …`: the assignments come before `Advance`, which may throw.
unfoldable pub follow : ℕ → ℕ → ℕ → Act (Unit {0})
follow type packet_id generation = do
  expected ← incoming type
  let q : PacketSequence = record { packet_id = packet_id; generation_id = generation }
  if leb (key_of expected) (sequence_key packet_id generation)
      then (do save_incoming type q; next ← call sequence (advance q); save_incoming type next)
      else return tt

-- The generation of a packet of a type
unfoldable pub generation_of : ℕ → ℕ → Act ℕ
generation_of type packet_id = do
  expected ← incoming type
  call sequence (resolve_generation expected packet_id)

-- A 16-bit number that is the whole payload
unfoldable pub read_packet_id : Bytes → Act ℕ
read_packet_id bytes = do
  throw_when (not (length bytes == 2)) unexpected_size
  (id, r) ← call read (read_u16 (reader bytes))
  return id

abbrev pub save_window : Bool → Window → SessionTransport → SessionTransport
save_window true w s = record s { command_low_window = w }
save_window false w s = record s { command_window = w }

-- The state behind `window.Feed`, which also advances the expected sequence.
abbrev pub fed : Bool → Stream → Act (Unit {0})
fed low stream =
    modify (save_window low (record { queued = stream.queued; assembly = stream.assembly }))
    >> save_incoming (if low then PacketType.command_low else PacketType.command) stream.expected

unfoldable pub make_ready : List Bytes → Act (Unit {0})
make_ready commands = modify (λ s. record s { ready_commands = s.ready_commands ++ commands })

-- `window.Feed( … )`; its commands are ready if it returns.
unfoldable pub feed_window : Bool → ServerPacket → ℕ → Bytes → Act (Unit {0})
feed_window low packet generation bytes = do
  expected ← incoming (if low then PacketType.command_low else PacketType.command)
  w ← gets (λ s. if low then s.command_low_window else s.command_window)
  let before : Stream = record { expected = expected; queued = w.queued; assembly = w.assembly }
  let outcome = feed packet.header.packet_id generation packet.header.flags bytes before
  fed low outcome.0
  commands ← call window outcome.1
  make_ready commands

-- `m_PendingPing.reset()` where the ID is the one of the ping
abbrev pub answered : ℕ → Option PendingPing → Option PendingPing
answered id none = none
answered id (some p) = if p.packet_id == id then none else some p

-- `m_Statistics.RecordReceived( … )`
unfoldable pub count_received : ServerPacket → ℕ → Act (Unit {0})
count_received packet now s =
    elim (record_received packet.header.packet_type packet.header.packet_id
      (Limits.server_header_size + length packet.payload + ipv4_udp_overhead) now s.counters) [
        | err e ↦ (err (statistics e), s)
        | ok counters' ↦ (ok tt, record s { counters = counters' })
      ]

-- `m_ReliableCommands.Acknowledge( *m_FirstCommandPacketId )` where there is one
unfoldable pub retire_first : Option ℕ → Act (Unit {0})
retire_first none = return tt
retire_first (some id) = retire id >>= λ a. return tt

-- `if ( m_Connected ) m_LastReceiveAt = …;`
abbrev pub heard : ℕ → SessionTransport → SessionTransport
heard now s = if s.connected then record s { last_receive_at = now } else s

module _ (crypto : SessionCrypto) where
  -- `m_Crypto.DecryptServer`
  unfoldable pub decrypt : ServerPacket → ℕ → Act Bytes
  decrypt packet generation = or_throw invalid_mac (crypto.decrypt_server packet generation)

  -- The comparison of the MAC of an unencrypted packet
  unfoldable pub verify_mac : ServerPacket → Act (Unit {0})
  verify_mac packet = throw_when (not (bytes_eq packet.header.mac crypto.shared_mac)) invalid_mac

  abbrev pub is_unencrypted : ServerPacket → Bool
  is_unencrypted packet = has_flag packet.header.flags PacketFlags.unencrypted

  -- The payload of a packet that may be unencrypted
  unfoldable pub plaintext_of : ServerPacket → ℕ → Act Bytes
  plaintext_of packet generation =
      if is_unencrypted packet
      then (verify_mac packet >> return packet.payload)
      else decrypt packet generation

  -- The session's first Ack
  unfoldable pub accept_first_ack : ServerPacket → ℕ → Act (Unit {0})
  accept_first_ack packet generation = do
    first ← gets (λ s. s.first_command_packet_id)
    retire_first first
    follow PacketType.ack packet.header.packet_id generation

  -- Every other Ack
  unfoldable pub accept_ack : ServerPacket → ℕ → Act (Unit {0})
  accept_ack packet generation = do
    bytes ← plaintext_of packet generation
    acknowledged ← read_packet_id bytes
    a ← retire acknowledged
    follow PacketType.ack packet.header.packet_id generation

  unfoldable pub handle_ack : ServerPacket → Act (Unit {0})
  handle_ack packet = do
    generation ← generation_of PacketType.ack packet.header.packet_id
    if generation == 0 && packet.header.packet_id == 1
        then accept_first_ack packet generation
        else accept_ack packet generation

  unfoldable pub handle_ack_low : ServerPacket → Act (Unit {0})
  handle_ack_low packet = do
    generation ← generation_of PacketType.ack_low packet.header.packet_id
    bytes ← plaintext_of packet generation
    throw_when (not (length bytes == 2)) unexpected_size
    follow PacketType.ack_low packet.header.packet_id generation

  unfoldable pub handle_ping : ServerPacket → ℕ → Act (Unit {0})
  handle_ping packet now = do
    throw_when (not (is_unencrypted packet)) encrypted_packet
    verify_mac packet
    send_pong crypto packet.header.packet_id now

  unfoldable pub handle_pong : ServerPacket → Act (Unit {0})
  handle_pong packet = do
    throw_when (not (is_unencrypted packet)) encrypted_packet
    verify_mac packet
    id ← read_packet_id packet.payload
    modify (λ s. record s { pending_ping = answered id s.pending_ping })

  -- `ProcessIncomingCommand`
  unfoldable pub process_incoming_command : Bool → ServerPacket → ℕ → Act (Unit {0})
  process_incoming_command low packet now = do
    generation ←
        generation_of (if low then PacketType.command_low else PacketType.command)
          packet.header.packet_id
    bytes ← decrypt packet generation
    send_ack crypto packet.header.packet_id (if low then PacketType.ack_low else PacketType.ack) now
    feed_window low packet generation bytes

  unfoldable pub handle_voice : ServerPacket → Act (Unit {0})
  handle_voice packet = do
    generation ← generation_of packet.header.packet_type packet.header.packet_id
    bytes ← plaintext_of packet generation
    frame ← call voice (
        decode_server bytes packet.header.flags
          (packet.header.packet_type == PacketType.voice_whisper))
    modify (λ s. record s { ready_voice = s.ready_voice ++ (frame ∷ []) })
    follow packet.header.packet_type packet.header.packet_id generation

  -- The `switch` of `ProcessPacket`, which has no default.
  unfoldable pub dispatch : ServerPacket → ℕ → Act (Unit {0})
  dispatch packet now =
      let type = packet.header.packet_type in
      if type == PacketType.ack
      then handle_ack packet
      else if type == PacketType.ping
      then handle_ping packet now
      else if type == PacketType.pong
      then handle_pong packet
      else if type == PacketType.command
      then process_incoming_command false packet now
      else if type == PacketType.voice
      then handle_voice packet
      else if type == PacketType.voice_whisper
      then handle_voice packet
      else if type == PacketType.command_low
      then process_incoming_command true packet now
      else if type == PacketType.ack_low
      then handle_ack_low packet
      else if type == PacketType.init1
      then throw unexpected_init
      else return tt

  -- `ProcessPacket`, behind `ServerPacket::Parse`
  unfoldable pub process_parsed : ServerPacket → ℕ → Act (Unit {0})
  process_parsed packet now = do dispatch packet now; count_received packet now; modify (heard now)

  -- `ProcessPacket`, of the datagram that is received
  unfoldable pub process_packet : Bytes → ℕ → Act (Unit {0})
  process_packet datagram now = do
    packet ← call parse (parse_server_packet datagram)
    process_parsed packet now

-- `TakeReadyCommand`
unfoldable pub take_ready_command : Act Bytes
take_ready_command s = elim s.ready_commands [
  | [] ↦ (err no_command, s)
  | c ∷ cs ↦ (ok c, record s { ready_commands = cs })
]

-- `TakeReadyVoice`
unfoldable pub take_ready_voice : Act VoiceFrame
take_ready_voice s = elim s.ready_voice [
  | [] ↦ (err no_voice, s)
  | f ∷ fs ↦ (ok f, record s { ready_voice = fs })
]
