-- ===== src/Transport/Runs/Calls.antt =====
-- The calls of a session keep its packets apart.
use ts_cli.Prelude.{ℕ, Bool, true, some, List, [], ◌∷◌, Result, take, drop, refl}
use ts_cli.Binary.{Bytes}
use ts_cli.Packet.PacketType
use ts_cli.Packet.Sequence.{PacketSequence}
use ts_cli.Packet.Fragmenter.{CommandFragment}
use ts_cli.Transport.{SessionCrypto, SessionTransport, TransportError, outgoing, transmit}
use ts_cli.Transport.Sending.{
  create_packet, create_encrypted_packet, send_packet, await_acknowledgement, send_command_packet,
  send_fragments, send_command, send_voice_payload, send_ping, send_ack, send_pong,
}
use ts_cli.Transport.Fresh.{
  IsSound, IsNext, Leads, IsMade, gets-bind, IsNext-bind, Leads-then, outgoing-bind, transmit-Leads,
}
use ts_cli.Transport.Runs.{Keeps-modify, await_acknowledgement-Keeps, outgoing-Keeps}
use ts_cli.Actions.{return, gets, modify, call, ◌>>◌, ◌>>=◌}
use ts_cli.Actions.Keeps.{Keeps, Keeps-bind, Keeps-return, Keeps-call, keeps_rules}

module _ (crypto : SessionCrypto) where
  packet-Leads :
      (encrypted : Bool) (type flags : ℕ) (payload : Bytes) (now : ℕ) (q : PacketSequence)
      → Leads (IsNext crypto type q) (IsSound crypto) (
          gets (λ s. create_packet crypto encrypted type flags payload q s.client_id) >>= λ packet.
          transmit type q packet now)
  packet-Leads encrypted type flags payload now q =
      gets-bind type q (λ s. create_packet crypto encrypted type flags payload q s.client_id)
        (λ packet. transmit type q packet now)
        (λ s.
          transmit-Leads type q (create_packet crypto encrypted type flags payload q s.client_id)
            now (encrypted, flags, payload, s.client_id, refl))

  next_packet-Keeps :
      (encrypted : Bool) (type flags : ℕ) (payload : Bytes) (now : ℕ)
      → Keeps (IsSound crypto) (
          outgoing type >>= λ q.
          gets (λ s. create_packet crypto encrypted type flags payload q s.client_id) >>= λ packet.
          transmit type q packet now)
  next_packet-Keeps encrypted type flags payload now =
      outgoing-bind type
        (λ q.
          gets (λ s. create_packet crypto encrypted type flags payload q s.client_id) >>= λ packet.
          transmit type q packet now)
        (packet-Leads encrypted type flags payload now)

  pub send_packet-Keeps :
      (encrypted : Bool) (type flags : ℕ) (payload : Bytes) (now : ℕ)
      → Keeps (IsSound crypto) (send_packet crypto encrypted type flags payload now)
  unfolding send_packet
  send_packet-Keeps encrypted type flags payload now = search (keeps_rules, next_packet-Keeps)

  command_packet-Leads :
      (payload : Bytes) (flags now : ℕ) (q : PacketSequence) (packet : Bytes)
      → IsMade crypto PacketType.command q packet
      → Leads (IsNext crypto PacketType.command q) (IsSound crypto) (
          await_acknowledgement q packet now
          >> (transmit PacketType.command q packet now >> return q.packet_id))
  unfolding ◌>>◌
  command_packet-Leads payload flags now q packet made =
      IsNext-bind PacketType.command q (await_acknowledgement q packet now)
        (λ done. transmit PacketType.command q packet now >> return q.packet_id)
        (await_acknowledgement-Keeps PacketType.command q q packet now)
        (λ done.
          Leads-then PacketType.command q (transmit PacketType.command q packet now)
            (return q.packet_id) (transmit-Leads PacketType.command q packet now made)
            (Keeps-return q.packet_id))

  send_command_packet-Keeps :
      (payload : Bytes) (flags now : ℕ)
      → Keeps (IsSound crypto) (send_command_packet crypto payload flags now)
  unfolding send_command_packet
  send_command_packet-Keeps payload flags now =
      let create = λ (q : PacketSequence) (s : SessionTransport).
        create_encrypted_packet crypto PacketType.command flags payload q s.client_id in
      let rest = λ (q : PacketSequence) (packet : Bytes).
        await_acknowledgement q packet now
        >> (transmit PacketType.command q packet now >> return q.packet_id) in
      outgoing-bind PacketType.command (λ q. gets (create q) >>= rest q)
        (λ q. gets-bind PacketType.command q (create q) (rest q) (λ s.
          command_packet-Leads payload flags now q (create q s)
            (true, flags, payload, s.client_id, refl)))

  send_fragments-Keeps :
      (bytes : Bytes) (now : ℕ) (fs : List CommandFragment) (last_packet_id : ℕ)
      → Keeps (IsSound crypto) (send_fragments crypto bytes now fs last_packet_id)
  unfolding send_fragments
  send_fragments-Keeps bytes now [] last_packet_id = Keeps-return last_packet_id
  send_fragments-Keeps bytes now (f ∷ fs) last_packet_id =
      Keeps-bind (send_command_packet crypto (take f.size (drop f.offset bytes)) f.flags now)
        (send_fragments crypto bytes now fs)
        (send_command_packet-Keeps (take f.size (drop f.offset bytes)) f.flags now)
        (send_fragments-Keeps bytes now fs)

  pub send_command-Keeps :
      (bytes : Bytes) (now : ℕ) → Keeps (IsSound crypto) (send_command crypto bytes now)
  unfolding send_command
  send_command-Keeps bytes now = search (keeps_rules, send_fragments-Keeps)

  pub send_voice_payload-Keeps :
      (type flags : ℕ) (encrypted : Bool) (encode : ℕ → Result TransportError Bytes) (now : ℕ)
      → Keeps (IsSound crypto) (send_voice_payload crypto type flags encrypted encode now)
  unfolding send_voice_payload
  send_voice_payload-Keeps type flags encrypted encode now =
      let rest = λ (q : PacketSequence) (payload : Bytes).
        gets (λ s. create_packet crypto encrypted type flags payload q s.client_id) >>= λ packet.
        transmit type q packet now in
      outgoing-bind type (λ q. call (λ e. e) (encode q.packet_id) >>= rest q)
        (λ q.
          IsNext-bind type q (call (λ e. e) (encode q.packet_id)) (rest q)
            (Keeps-call (λ e. e) (encode q.packet_id))
            (λ payload. packet-Leads encrypted type flags payload now q))

  waiting_ping-Keeps :
      (q : PacketSequence) (now : ℕ)
      → Keeps {E = TransportError} (IsSound crypto) (
          modify (λ s. record s {
            pending_ping = some (record { packet_id = q.packet_id; sent_at = now });
          }))
  waiting_ping-Keeps q now =
      Keeps-modify
        (λ s. record s { pending_ping = some (record { packet_id = q.packet_id; sent_at = now }) })
        (λ s. refl) (λ s. refl)

  pub send_ping-Keeps : (now : ℕ) → Keeps (IsSound crypto) (send_ping crypto now)
  unfolding send_ping
  send_ping-Keeps now = search (keeps_rules, outgoing-Keeps, send_packet-Keeps, waiting_ping-Keeps)

  pub send_ack-Keeps :
      (packet_id ack_type now : ℕ) → Keeps (IsSound crypto) (send_ack crypto packet_id ack_type now)
  unfolding send_ack
  send_ack-Keeps packet_id ack_type now = search send_packet-Keeps

  pub send_pong-Keeps :
      (packet_id now : ℕ) → Keeps (IsSound crypto) (send_pong crypto packet_id now)
  unfolding send_pong
  send_pong-Keeps packet_id now = search send_packet-Keeps
