-- ===== src/Transport/Authentication.antt =====
-- A packet that is not authentic changes nothing.
use ts_cli.Prelude.{
  ℕ, ◌<◌, Bool, true, false, not, ◌&&◌, none, ok, err, if◌then◌else◌, Result-cases, ◌≡◌, inl, inr,
  refl, bytes_eq, arith, ◌==◌,
}
use ts_cli.Packet.{ServerPacket}
use ts_cli.Packet.PacketType
use ts_cli.Packet.SequenceState.{incoming_of}
use ts_cli.Transport.{
  SessionCrypto, SessionTransport, TransportError, state, incoming, invalid_mac, unexpected_init,
}
use ts_cli.Transport.Receiving.{
  generation_of, decrypt, verify_mac, plaintext_of, accept_first_ack, accept_ack, handle_ack,
  handle_ack_low, handle_ping, handle_pong, process_incoming_command, handle_voice, dispatch,
  process_parsed, count_received, heard,
}
use ts_cli.Actions.{◌>>◌, call, throw, modify, return}
use ts_cli.Actions.Rejects.{
  Rejects, Reads, Rejects-throw_when, Rejects-first_then, Rejects-test, Rejects-after,
  Rejects-throw, rejects_rules,
}

incoming-Reads : (type : ℕ) → Reads (incoming type)
unfolding incoming call
incoming-Reads type = record {
  unchanged = λ s. elim (Result-cases (incoming_of type s.sequences)) [
    | inl (q, e) ↦ (ok q, rw e refl)
    | inr (x, e) ↦ (err (state x), rw e refl)
  ];
}

generation_of-Reads : (type packet_id : ℕ) → Reads (generation_of type packet_id)
unfolding generation_of
generation_of-Reads type packet_id = search (rejects_rules, incoming-Reads)

module _ (crypto : SessionCrypto) (packet : ServerPacket)
    (undecrypted : (generation : ℕ) → crypto.decrypt_server packet generation ≡ none)
    (mac : bytes_eq packet.header.mac crypto.shared_mac ≡ false) where
  decrypt-Rejects : (generation : ℕ) → Rejects (decrypt crypto packet generation)
  unfolding decrypt
  decrypt-Rejects generation = search (rejects_rules, undecrypted)

  verify_mac-Rejects : Rejects (verify_mac crypto packet)
  unfolding verify_mac
  verify_mac-Rejects =
      Rejects-throw_when (not (bytes_eq packet.header.mac crypto.shared_mac)) invalid_mac
        (rw mac refl)

  plaintext_of-Rejects : (generation : ℕ) → Rejects (plaintext_of crypto packet generation)
  unfolding plaintext_of
  plaintext_of-Rejects generation = search (rejects_rules, decrypt-Rejects, verify_mac-Rejects)

  accept_ack-Rejects : (generation : ℕ) → Rejects (accept_ack crypto packet generation)
  unfolding accept_ack
  accept_ack-Rejects generation = search (rejects_rules, plaintext_of-Rejects)

  handle_ack-Rejects : (packet.header.packet_id == 1) ≡ false → Rejects (handle_ack crypto packet)
  unfolding handle_ack
  handle_ack-Rejects other =
      Rejects-after (generation_of PacketType.ack packet.header.packet_id)
        (λ generation.
          if generation == 0 && packet.header.packet_id == 1
          then accept_first_ack crypto packet generation
          else accept_ack crypto packet generation)
        (generation_of-Reads PacketType.ack packet.header.packet_id)
        (λ generation.
          Rejects-test (generation == 0 && packet.header.packet_id == 1)
            (accept_first_ack crypto packet generation) (accept_ack crypto packet generation)
            (λ first. absurd (ground (arith, first, other)))
            (λ later. accept_ack-Rejects generation))

  handle_ack_low-Rejects : Rejects (handle_ack_low crypto packet)
  unfolding handle_ack_low
  handle_ack_low-Rejects = search (rejects_rules, generation_of-Reads, plaintext_of-Rejects)

  handle_ping-Rejects : (now : ℕ) → Rejects (handle_ping crypto packet now)
  unfolding handle_ping
  handle_ping-Rejects now = search (rejects_rules, verify_mac-Rejects)

  handle_pong-Rejects : Rejects (handle_pong crypto packet)
  unfolding handle_pong
  handle_pong-Rejects = search (rejects_rules, verify_mac-Rejects)

  process_incoming_command-Rejects :
      (low : Bool) (now : ℕ) → Rejects (process_incoming_command crypto low packet now)
  unfolding process_incoming_command
  process_incoming_command-Rejects low now =
      search (rejects_rules, generation_of-Reads, decrypt-Rejects)

  handle_voice-Rejects : Rejects (handle_voice crypto packet)
  unfolding handle_voice
  handle_voice-Rejects = search (rejects_rules, generation_of-Reads, plaintext_of-Rejects)

  dispatch-Rejects :
      (now : ℕ)
      → packet.header.packet_type < 9
      → ((packet.header.packet_type == PacketType.ack) ≡ true
          → (packet.header.packet_id == 1) ≡ false)
      → Rejects (dispatch crypto packet now)
  unfolding dispatch
  dispatch-Rejects now known other =
      let type = packet.header.packet_type in
      Rejects-test (type == PacketType.ack) (handle_ack crypto packet) _
        (λ e. handle_ack-Rejects (other e))
        (λ n6.
          Rejects-test (type == PacketType.ping) (handle_ping crypto packet now) _
            (λ e. handle_ping-Rejects now)
            (λ n4.
              Rejects-test (type == PacketType.pong) (handle_pong crypto packet) _
                (λ e. handle_pong-Rejects)
                (λ n5.
                  Rejects-test (type == PacketType.command)
                    (process_incoming_command crypto false packet now) _
                    (λ e. process_incoming_command-Rejects false now)
                    (λ n2.
                      Rejects-test (type == PacketType.voice) (handle_voice crypto packet) _
                        (λ e. handle_voice-Rejects)
                        (λ n0.
                          Rejects-test (type == PacketType.voice_whisper)
                            (handle_voice crypto packet) _ (λ e. handle_voice-Rejects)
                            (λ n1.
                              Rejects-test (type == PacketType.command_low)
                                (process_incoming_command crypto true packet now) _
                                (λ e. process_incoming_command-Rejects true now)
                                (λ n3.
                                  Rejects-test (type == PacketType.ack_low)
                                    (handle_ack_low crypto packet) _ (λ e. handle_ack_low-Rejects)
                                    (λ n7.
                                      Rejects-test (type == PacketType.init1)
                                        (throw unexpected_init) (return tt)
                                        (λ e. Rejects-throw unexpected_init)
                                        (λ n8. absurd (
                                          ground (
                                            arith, n0, n1, n2, n3, n4, n5, n6, n7, n8, known,
                                          )))))))))))

-- A packet of one of the nine types that has neither the shared MAC nor, in any generation, a payload
-- that can be decrypted, and is not an Ack with the packet ID 1, is an exception, and the transport
-- is exactly as it was: no command acknowledged, no answer sent, nothing counted, and the
-- time of the last packet as before.
pub process_parsed-Rejects :
    (crypto : SessionCrypto) (packet : ServerPacket) (now : ℕ) (s : SessionTransport)
    → ((generation : ℕ) → crypto.decrypt_server packet generation ≡ none)
    → bytes_eq packet.header.mac crypto.shared_mac ≡ false
    → packet.header.packet_type < 9
    → ((packet.header.packet_type == PacketType.ack) ≡ true
        → (packet.header.packet_id == 1) ≡ false)
    → (e : TransportError) × (process_parsed crypto packet now s ≡ (err e, s))
unfolding process_parsed
process_parsed-Rejects crypto packet now s undecrypted mac known other =
    (Rejects-first_then (dispatch crypto packet now)
        (count_received packet now >> modify (heard now))
        (dispatch-Rejects crypto packet undecrypted mac now known other)).rejected
      s
