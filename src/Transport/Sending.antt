-- ===== src/Transport/Sending.antt =====
-- What a session sends: encrypted and unencrypted packets, commands, voice, pings and acknowledgements.
use ts_cli.Prelude.{
  ℕ, Bool, true, false, none, some, List, [], ◌∷◌, Result, ok, err, ltb, length, take, drop,
  if◌then◌else◌,
}
use ts_cli.Binary.{Bytes, write_u16, write_bytes}
use ts_cli.Packet.{ClientPacketHeader}
use ts_cli.Packet.Codec.{write_client_meta, write_client_header}
use ts_cli.Packet.Fragmenter.{CommandFragment, plan}
use ts_cli.Packet.Limits
use ts_cli.Packet.PacketFlags
use ts_cli.Packet.PacketFlags.{join_flags}
use ts_cli.Packet.PacketType
use ts_cli.Packet.Sequence.{PacketSequence}
use ts_cli.Reliability.Queue.{Pending, add}
use ts_cli.Voice.{encode_client, encode_client_whisper, encode_client_group_whisper}
use ts_cli.Transport.{
  SessionCrypto, TransportError, SessionTransport, Act, payload_too_large, queue, voice, outgoing,
  transmit,
}
use ts_cli.Transport
use ts_cli.Actions.{return, gets, modify, call, throw_when, ◌>>◌, ◌>>=◌}

abbrev pub header_of : Bytes → ℕ → ℕ → ℕ → ℕ → ClientPacketHeader
header_of mac packet_id client_id type flags = record {
  mac = mac;
  packet_id = packet_id;
  client_id = client_id;
  packet_type = type;
  flags = flags;
}

abbrev pub awaited : PacketSequence → Pending → SessionTransport → SessionTransport
awaited q pending s = record s {
  reliable_commands = pending;
  first_command_packet_id =
      some (elim s.first_command_packet_id [ none ↦ q.packet_id | some id ↦ id ]);
}

-- `m_ReliableCommands.Add( … )`, and the ID of the session's first command
unfoldable pub await_acknowledgement : PacketSequence → Bytes → ℕ → Act (Unit {0})
await_acknowledgement q packet now s =
    elim (add q.packet_id q.generation_id packet now s.reliable_commands) [
      | err e ↦ (err (queue e), s)
      | ok pending ↦ (ok tt, awaited q pending s)
    ]

abbrev voiced {ℓ} :
    {E : Type 0} {A : Type ℓ} → (E → TransportError) → Result E A → Result TransportError A
voiced wrap (ok a) = ok a
voiced wrap (err e) = err (wrap e)

module _ (crypto : SessionCrypto) where
  -- `CreateEncryptedPacket`
  unfoldable pub create_encrypted_packet : ℕ → ℕ → Bytes → PacketSequence → ℕ → Bytes
  create_encrypted_packet type flags payload q client_id =
      let meta = write_client_meta (header_of [] q.packet_id client_id type flags) [] in
      let (mac, encrypted) = crypto.encrypt_client type q.packet_id q.generation_id meta payload in
      write_bytes encrypted
        (write_client_header (header_of mac q.packet_id client_id type flags) [])

  -- `CreateUnencryptedPacket`
  unfoldable pub create_unencrypted_packet : ℕ → ℕ → Bytes → PacketSequence → ℕ → Bytes
  create_unencrypted_packet type flags payload q client_id = write_bytes payload (
      write_client_header
        (header_of crypto.shared_mac q.packet_id client_id type
          (join_flags flags PacketFlags.unencrypted))
        [])

  abbrev pub create_packet : Bool → ℕ → ℕ → Bytes → PacketSequence → ℕ → Bytes
  create_packet encrypted type flags payload q client_id =
      if encrypted
      then create_encrypted_packet type flags payload q client_id
      else create_unencrypted_packet type flags payload q client_id

  -- `SendEncrypted` and `SendUnencrypted`
  unfoldable pub send_packet : Bool → ℕ → ℕ → Bytes → ℕ → Act (Unit {0})
  send_packet encrypted type flags payload now = do
    throw_when (ltb Limits.max_client_payload (length payload)) payload_too_large
    q ← outgoing type
    packet ← gets (λ s. create_packet encrypted type flags payload q s.client_id)
    transmit type q packet now

  -- `SendCommandPacket`
  unfoldable pub send_command_packet : Bytes → ℕ → ℕ → Act ℕ
  send_command_packet payload flags now = do
    q ← outgoing PacketType.command
    packet ← gets (λ s. create_encrypted_packet PacketType.command flags payload q s.client_id)
    await_acknowledgement q packet now
    transmit PacketType.command q packet now
    return q.packet_id

  -- The loop of `SendCommand`, with the ID of the last packet so far.
  unfoldable pub send_fragments : Bytes → ℕ → List CommandFragment → ℕ → Act ℕ
  send_fragments bytes now [] last_packet_id = return last_packet_id
  send_fragments bytes now (f ∷ fs) last_packet_id =
      send_command_packet (take f.size (drop f.offset bytes)) f.flags now
      >>= send_fragments bytes now fs

  -- `SendCommand`
  unfoldable pub send_command : Bytes → ℕ → Act ℕ
  send_command bytes now = do
    fragments ← call Transport.plan (plan (length bytes))
    send_fragments bytes now fragments 0

  -- What the three functions for voice have in common, behind the encoding.
  unfoldable pub send_voice_payload :
      ℕ → ℕ → Bool → (ℕ → Result TransportError Bytes) → ℕ → Act (Unit {0})
  send_voice_payload type flags encrypted encode now = do
    q ← outgoing type
    payload ← call (λ e. e) (encode q.packet_id)
    packet ← gets (λ s. create_packet encrypted type flags payload q s.client_id)
    transmit type q packet now

  -- The flags of a voice packet
  abbrev pub talk_flags : ℕ → Bool → ℕ
  talk_flags flags talk_start =
      if talk_start then join_flags flags PacketFlags.compressed else flags

  unfoldable pub send_voice : ℕ → Bytes → Bool → Bool → ℕ → Act (Unit {0})
  send_voice codec bytes encrypted talk_start now =
      send_voice_payload PacketType.voice
        (if talk_start then PacketFlags.compressed else PacketFlags.none) encrypted
        (λ id. voiced voice (encode_client id codec bytes)) now

  unfoldable pub send_voice_whisper : ℕ → List ℕ → List ℕ → Bytes → Bool → Bool → ℕ → Act (Unit {0})
  send_voice_whisper codec channel_ids client_ids bytes encrypted talk_start now =
      send_voice_payload PacketType.voice_whisper
        (if talk_start then PacketFlags.compressed else PacketFlags.none) encrypted
        (λ id. voiced voice (encode_client_whisper id codec channel_ids client_ids bytes)) now

  unfoldable pub send_group_whisper : ℕ → ℕ → ℕ → ℕ → Bytes → Bool → Bool → ℕ → Act (Unit {0})
  send_group_whisper codec type target target_id bytes encrypted talk_start now =
      send_voice_payload PacketType.voice_whisper (talk_flags PacketFlags.new_protocol talk_start)
        encrypted
        (λ id. voiced voice (encode_client_group_whisper id codec type target target_id bytes)) now

  -- `SendPing`
  unfoldable pub send_ping : ℕ → Act (Unit {0})
  send_ping now = do
    q ← outgoing PacketType.ping
    send_packet false PacketType.ping PacketFlags.none [] now
    modify
        (λ s. record s { pending_ping = some (record { packet_id = q.packet_id; sent_at = now }) })

  -- `SendAck`
  unfoldable pub send_ack : ℕ → ℕ → ℕ → Act (Unit {0})
  send_ack packet_id ack_type now =
      send_packet true ack_type PacketFlags.none (write_u16 packet_id []) now

  -- `SendPong`
  unfoldable pub send_pong : ℕ → ℕ → Act (Unit {0})
  send_pong ping_packet_id now =
      send_packet false PacketType.pong PacketFlags.none (write_u16 ping_packet_id []) now
