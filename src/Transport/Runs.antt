-- ===== src/Transport/Runs.antt =====
-- What a session does, in any order, keeps its packets apart.
pub mod Calls
pub mod Handlers
pub mod Timing
pub mod Headers
pub mod Keys
use ts_cli.Prelude.{
  ℕ, ◌+◌, Bool, true, false, List, ◌++◌, ok, length, if◌then◌else◌, Result-cases, ◌≡◌, inl, inr,
  refl, ap, sym, ◌∙◌, arith,
}
use ts_cli.Binary.{Bytes}
use ts_cli.Packet.{ServerPacket}
use ts_cli.Packet.Sequence.{PacketSequence}
use ts_cli.Packet.Limits
use ts_cli.Packet.PacketType
use ts_cli.Packet.SequenceState.{PacketSequenceState, outgoing_of, incoming_of, set_incoming, index}
use ts_cli.Reliability.Queue.{add, acknowledge}
use ts_cli.Reliability.Window.{Stream}
use ts_cli.Statistics.Recording.{record_received}
use ts_cli.Transport.{
  SessionCrypto, SessionTransport, TransportError, Window, outgoing, incoming, save_incoming,
  retire, ipv4_udp_overhead,
}
use ts_cli.Transport.Sending.{awaited, await_acknowledgement}
use ts_cli.Transport.Receiving.{
  follow, generation_of, read_packet_id, feed_window, count_received, save_window, fed, make_ready,
}
use ts_cli.Transport.Fresh.{IsSound, IsNext}
use ts_cli.Actions.{modify, call}
use ts_cli.Actions.Keeps.{Keeps, Keeps-then, keeps_rules}

outgoing_of-same :
    (type : ℕ) (m m' : PacketSequenceState)
    → m'.outgoing ≡ m.outgoing
    → outgoing_of type m' ≡ outgoing_of type m
unfolding outgoing_of
outgoing_of-same type m m' e = rw e refl

set_incoming-outgoing :
    (type : ℕ) (q : PacketSequence) (m m' : PacketSequenceState)
    → set_incoming type q m ≡ ok m'
    → m'.outgoing ≡ m.outgoing
unfolding set_incoming index
set_incoming-outgoing type q m m' e = ground (arith, e)

save_window-outgoing :
    (low : Bool) (w : Window) (s : SessionTransport)
    → (save_window low w s).sequences.outgoing ≡ s.sequences.outgoing
save_window-outgoing true w s = refl
save_window-outgoing false w s = refl

save_window-sent :
    (low : Bool) (w : Window) (s : SessionTransport) → (save_window low w s).sent ≡ s.sent
save_window-sent true w s = refl
save_window-sent false w s = refl

module _ {crypto : SessionCrypto} where
  -- Only the outgoing sequences and the log matter.
  pub IsSound-same :
      (s s' : SessionTransport)
      → s'.sequences.outgoing ≡ s.sequences.outgoing
      → s'.sent ≡ s.sent
      → IsSound crypto s
      → IsSound crypto s'
  IsSound-same s s' sequences sent h = record {
    tracked = ap length sequences ∙ h.tracked;
    ahead = λ t q e.
        rw sent (h.ahead t q (sym (outgoing_of-same t s.sequences s'.sequences sequences) ∙ e));
    made = rw sent h.made;
  }

  pub Keeps-modify :
      (f : SessionTransport → SessionTransport)
      → ((s : SessionTransport) → (f s).sequences.outgoing ≡ s.sequences.outgoing)
      → ((s : SessionTransport) → (f s).sent ≡ s.sent)
      → Keeps {E = TransportError} (IsSound crypto) (modify f)
  unfolding modify
  Keeps-modify f sequences sent = record {
    at = λ s h. IsSound-same s (f s) (sequences s) (sent s) h;
  }

  incoming-Keeps : (type : ℕ) → Keeps (IsSound crypto) (incoming type)
  unfolding incoming call
  incoming-Keeps type = record {
    at = λ s h. elim (Result-cases (incoming_of type s.sequences)) [
      | inl (q, e) ↦ rw e h
      | inr (x, e) ↦ rw e h
    ];
  }

  pub outgoing-Keeps : (type : ℕ) → Keeps (IsSound crypto) (outgoing type)
  unfolding outgoing call
  outgoing-Keeps type = record {
    at = λ s h. elim (Result-cases (outgoing_of type s.sequences)) [
      | inl (q, e) ↦ rw e h
      | inr (x, e) ↦ rw e h
    ];
  }

  save_incoming-Keeps :
      (type : ℕ) (q : PacketSequence) → Keeps (IsSound crypto) (save_incoming type q)
  unfolding save_incoming
  save_incoming-Keeps type q = record {
    at = λ s h. elim (Result-cases (set_incoming type q s.sequences)) [
      | inl (m, e) ↦
          rw (save_incoming, e)
            (IsSound-same s (record s { sequences = m })
              (set_incoming-outgoing type q s.sequences m e) refl h)
      | inr (x, e) ↦ rw (save_incoming, e) h
    ];
  }

  pub retire-Keeps : (id : ℕ) → Keeps (IsSound crypto) (retire id)
  unfolding retire
  retire-Keeps id = record {
    at = λ s h. elim (Result-cases (acknowledge id s.reliable_commands)) [
      | inl (p, e) ↦
          rw (retire, e) (IsSound-same s (record s { reliable_commands = p.1 }) refl refl h)
      | inr (x, e) ↦ rw (retire, e) h
    ];
  }

  pub count_received-Keeps :
      (packet : ServerPacket) (now : ℕ) → Keeps (IsSound crypto) (count_received packet now)
  unfolding count_received
  count_received-Keeps packet now = record {
    at = λ s h.
        elim (Result-cases (
          record_received packet.header.packet_type packet.header.packet_id
            (Limits.server_header_size + length packet.payload + ipv4_udp_overhead) now
            s.counters)) [
              | inl (c, e) ↦
                  rw (count_received, e) (IsSound-same s (record s { counters = c }) refl refl h)
              | inr (x, e) ↦ rw (count_received, e) h
            ];
  }

  pub follow-Keeps :
      (type packet_id generation : ℕ) → Keeps (IsSound crypto) (follow type packet_id generation)
  unfolding follow
  follow-Keeps type packet_id generation = search (keeps_rules, incoming-Keeps, save_incoming-Keeps)

  pub generation_of-Keeps :
      (type packet_id : ℕ) → Keeps (IsSound crypto) (generation_of type packet_id)
  unfolding generation_of
  generation_of-Keeps type packet_id = search (keeps_rules, incoming-Keeps)

  pub read_packet_id-Keeps : (bytes : Bytes) → Keeps (IsSound crypto) (read_packet_id bytes)
  unfolding read_packet_id
  read_packet_id-Keeps bytes = search keeps_rules

  fed-Keeps : (low : Bool) (stream : Stream) → Keeps (IsSound crypto) (fed low stream)
  fed-Keeps low stream =
      let w : Window = record { queued = stream.queued; assembly = stream.assembly } in
      Keeps-then (modify (save_window low w))
        (save_incoming (if low then PacketType.command_low else PacketType.command) stream.expected)
        (Keeps-modify (save_window low w) (save_window-outgoing low w) (save_window-sent low w))
        (save_incoming-Keeps (if low then PacketType.command_low else PacketType.command)
          stream.expected)

  make_ready-Keeps : (commands : List Bytes) → Keeps (IsSound crypto) (make_ready commands)
  unfolding make_ready
  make_ready-Keeps commands =
      Keeps-modify (λ s. record s { ready_commands = s.ready_commands ++ commands }) (λ s. refl)
        (λ s. refl)

  pub feed_window-Keeps :
      (low : Bool) (packet : ServerPacket) (generation : ℕ) (bytes : Bytes)
      → Keeps (IsSound crypto) (feed_window low packet generation bytes)
  unfolding feed_window
  feed_window-Keeps low packet generation bytes =
      search (keeps_rules, incoming-Keeps, fed-Keeps, make_ready-Keeps)

  pub await_acknowledgement-Keeps :
      (type : ℕ) (q p : PacketSequence) (packet : Bytes) (now : ℕ)
      → Keeps (IsNext crypto type p) (await_acknowledgement q packet now)
  unfolding await_acknowledgement
  await_acknowledgement-Keeps type q p packet now = record {
    at = λ s h.
        elim (Result-cases (add q.packet_id q.generation_id packet now s.reliable_commands)) [
          | inr (x, e) ↦ rw (await_acknowledgement, e) h
          | inl (pending, e) ↦
              rw (await_acknowledgement, e)
                (IsSound-same s (awaited q pending s) refl refl h.0, h.1)
        ];
  }
