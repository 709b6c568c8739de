-- ===== src/Transport/Runs/Handlers.antt =====
-- The handlers of received packets keep the packets that are sent apart.
use ts_cli.Prelude.{ℕ, Bool, true, false, Option, none, some, [], ◌∷◌, ◌++◌, if◌then◌else◌, refl}
use ts_cli.Binary.{Bytes}
use ts_cli.Packet.{ServerPacket}
use ts_cli.Voice.{VoiceFrame}
use ts_cli.Transport.{SessionCrypto, SessionTransport, TransportError, retire}
use ts_cli.Transport.Receiving.{
  decrypt, verify_mac, plaintext_of, retire_first, heard, accept_first_ack, accept_ack, handle_ack,
  handle_ack_low, handle_ping, handle_pong, process_incoming_command, handle_voice, dispatch,
  process_parsed, process_packet, answered,
}
use ts_cli.Transport.Fresh.{IsSound}
use ts_cli.Transport.Runs.{
  IsSound-same, Keeps-modify, follow-Keeps, generation_of-Keeps, read_packet_id-Keeps,
  feed_window-Keeps, retire-Keeps, count_received-Keeps,
}
use ts_cli.Transport.Runs.Calls.{send_ack-Keeps, send_pong-Keeps}
use ts_cli.Actions.{return, modify}
use ts_cli.Actions.Keeps.{Keeps, Keeps-bind, Keeps-return, keeps_rules}

module _ {crypto : SessionCrypto} where
  retire_first-Keeps : (id : Option ℕ) → Keeps (IsSound crypto) (retire_first id)
  unfolding retire_first
  retire_first-Keeps none = Keeps-return tt
  retire_first-Keeps (some i) =
      Keeps-bind (retire i) (λ a. return tt) (retire-Keeps i) (λ a. Keeps-return tt)

  answered-Keeps :
      (id : ℕ)
      → Keeps {E = TransportError}
          (IsSound crypto)
          (modify (λ s. record s { pending_ping = answered id s.pending_ping }))
  answered-Keeps id =
      Keeps-modify (λ s. record s { pending_ping = answered id s.pending_ping }) (λ s. refl)
        (λ s. refl)

  add_voice-Keeps :
      (frame : VoiceFrame)
      → Keeps {E = TransportError}
          (IsSound crypto)
          (modify (λ s. record s { ready_voice = s.ready_voice ++ (frame ∷ []) }))
  add_voice-Keeps frame =
      Keeps-modify (λ s. record s { ready_voice = s.ready_voice ++ (frame ∷ []) }) (λ s. refl)
        (λ s. refl)

  if-IsSound :
      (t : Bool) (s s' : SessionTransport)
      → IsSound crypto s
      → IsSound crypto s'
      → IsSound crypto (if t then s else s')
  if-IsSound true s s' h h' = h
  if-IsSound false s s' h h' = h'

  heard-Keeps : (now : ℕ) → Keeps {E = TransportError} (IsSound crypto) (modify (heard now))
  unfolding modify
  heard-Keeps now = record {
    at = λ s h.
        let s' : SessionTransport = record s { last_receive_at = now } in
        if-IsSound s.connected s' s (IsSound-same s s' refl refl h) h;
  }

module _ (crypto : SessionCrypto) where
  decrypt-Keeps :
      (packet : ServerPacket) (generation : ℕ)
      → Keeps (IsSound crypto) (decrypt crypto packet generation)
  unfolding decrypt
  decrypt-Keeps packet generation = search keeps_rules

  verify_mac-Keeps : (packet : ServerPacket) → Keeps (IsSound crypto) (verify_mac crypto packet)
  unfolding verify_mac
  verify_mac-Keeps packet = search keeps_rules

  plaintext_of-Keeps :
      (packet : ServerPacket) (generation : ℕ)
      → Keeps (IsSound crypto) (plaintext_of crypto packet generation)
  unfolding plaintext_of
  plaintext_of-Keeps packet generation = search (keeps_rules, decrypt-Keeps, verify_mac-Keeps)

  accept_first_ack-Keeps :
      (packet : ServerPacket) (generation : ℕ)
      → Keeps (IsSound crypto) (accept_first_ack crypto packet generation)
  unfolding accept_first_ack
  accept_first_ack-Keeps packet generation = search (keeps_rules, retire_first-Keeps, follow-Keeps)

  accept_ack-Keeps :
      (packet : ServerPacket) (generation : ℕ)
      → Keeps (IsSound crypto) (accept_ack crypto packet generation)
  unfolding accept_ack
  accept_ack-Keeps packet generation =
      search (keeps_rules, plaintext_of-Keeps, read_packet_id-Keeps, retire-Keeps, follow-Keeps)

  handle_ack-Keeps : (packet : ServerPacket) → Keeps (IsSound crypto) (handle_ack crypto packet)
  unfolding handle_ack
  handle_ack-Keeps packet =
      search (keeps_rules, generation_of-Keeps, accept_first_ack-Keeps, accept_ack-Keeps)

  handle_ack_low-Keeps :
      (packet : ServerPacket) → Keeps (IsSound crypto) (handle_ack_low crypto packet)
  unfolding handle_ack_low
  handle_ack_low-Keeps packet =
      search (keeps_rules, generation_of-Keeps, plaintext_of-Keeps, follow-Keeps)

  handle_ping-Keeps :
      (packet : ServerPacket) (now : ℕ) → Keeps (IsSound crypto) (handle_ping crypto packet now)
  unfolding handle_ping
  handle_ping-Keeps packet now = search (keeps_rules, verify_mac-Keeps, send_pong-Keeps)

  handle_pong-Keeps : (packet : ServerPacket) → Keeps (IsSound crypto) (handle_pong crypto packet)
  unfolding handle_pong
  handle_pong-Keeps packet =
      search (keeps_rules, verify_mac-Keeps, read_packet_id-Keeps, answered-Keeps)

  process_incoming_command-Keeps :
      (low : Bool) (packet : ServerPacket) (now : ℕ)
      → Keeps (IsSound crypto) (process_incoming_command crypto low packet now)
  unfolding process_incoming_command
  process_incoming_command-Keeps low packet now =
      search (keeps_rules, generation_of-Keeps, decrypt-Keeps, send_ack-Keeps, feed_window-Keeps)

  handle_voice-Keeps : (packet : ServerPacket) → Keeps (IsSound crypto) (handle_voice crypto packet)
  unfolding handle_voice
  handle_voice-Keeps packet =
      search (keeps_rules, generation_of-Keeps, plaintext_of-Keeps, add_voice-Keeps, follow-Keeps)

  dispatch-Keeps :
      (packet : ServerPacket) (now : ℕ) → Keeps (IsSound crypto) (dispatch crypto packet now)
  unfolding dispatch
  dispatch-Keeps packet now =
      search
        (
          keeps_rules, handle_ack-Keeps, handle_ack_low-Keeps, handle_ping-Keeps, handle_pong-Keeps,
          process_incoming_command-Keeps, handle_voice-Keeps,
        )
        depth 12

  process_parsed-Keeps :
      (packet : ServerPacket) (now : ℕ) → Keeps (IsSound crypto) (process_parsed crypto packet now)
  unfolding process_parsed
  process_parsed-Keeps packet now =
      search (keeps_rules, dispatch-Keeps, count_received-Keeps, heard-Keeps)

  pub process_packet-Keeps :
      (datagram : Bytes) (now : ℕ) → Keeps (IsSound crypto) (process_packet crypto datagram now)
  unfolding process_packet
  process_packet-Keeps datagram now = search (keeps_rules, process_parsed-Keeps)
