-- ===== src/Transport/Returns.antt =====
-- What a session that can send does send: pings while it is quiet, and commands that wait for their Ack.
use ts_cli.Prelude.{
  ℕ, ◌+◌, ◌-◌, ◌≤◌, Bool, true, false, not, ◌||◌, Option, none, some, [], ◌∷◌, Result, ok, ltb, leb,
  length, if◌then◌else◌, ◌≡◌, refl, ap, ◌∙◌, arith,
}
use ts_cli.Binary.{Bytes}
use ts_cli.Packet.Limits
use ts_cli.Packet.PacketFlags
use ts_cli.Packet.PacketType
use ts_cli.Packet.Sequence.{PacketSequence, advance}
use ts_cli.Packet.SequenceState.{PacketSequenceState, outgoing_of}
use ts_cli.Reliability.Queue.{collect_due, size}
use ts_cli.Transport.{
  SessionCrypto, TransportError, SessionTransport, PendingPing, fresh, state, payload_too_large,
  transmit, outgoing, save_outgoing,
}
use ts_cli.Transport.Sending.{create_packet, create_unencrypted_packet, send_packet, send_ping}
use ts_cli.Transport.Timers.{
  ping_interval, collect, retransmit, has_pending, forget_ping, next_ping, keep_alive,
  process_timers,
}
use ts_cli.Transport.Fresh.{logged, set_outgoing-returns}
use ts_cli.Actions.Returns.{after, then_after, call-returns, throw_when-returns}
use ts_cli.Actions.{return, throw_when, gets, modify, call, for_each, ◌>>=◌, ◌>>◌}

-- A state behind the sending of a packet, for what the sequences become.
abbrev pub sent_with :
    ℕ → PacketSequence → Bytes → ℕ → PacketSequenceState → SessionTransport → SessionTransport
sent_with type q packet now m s = record (logged type q packet now s) { sequences = m }

pub transmit-returns :
    (type : ℕ) (q n : PacketSequence) (packet : Bytes) (now : ℕ) (s : SessionTransport)
    → outgoing_of type s.sequences ≡ ok q
    → advance q ≡ ok n
    → (m : PacketSequenceState) × (transmit type q packet now s
        ≡ (ok tt, sent_with type q packet now m s))
unfolding transmit modify ◌>>=◌ ◌>>◌ call save_outgoing
transmit-returns type q n packet now s e stepped =
    let (m, written) = set_outgoing-returns type q n s.sequences e in
    (m, rw (save_outgoing, stepped, written) refl)

pub outgoing-returns :
    (type : ℕ) (q : PacketSequence) (s : SessionTransport)
    → outgoing_of type s.sequences ≡ ok q
    → outgoing type s ≡ (ok q, s)
unfolding outgoing
outgoing-returns type q s e = call-returns state (outgoing_of type s.sequences) q s e

module _ (crypto : SessionCrypto) where
  abbrev pub ping_of : PacketSequence → SessionTransport → Bytes
  ping_of q s = create_unencrypted_packet crypto PacketType.ping PacketFlags.none [] q s.client_id

  send_packet-returns :
      (encrypted : Bool) (type flags : ℕ) (payload : Bytes) (q n : PacketSequence) (now : ℕ)
      (s : SessionTransport)
      → length payload ≤ Limits.max_client_payload
      → outgoing_of type s.sequences ≡ ok q
      → advance q ≡ ok n
      → (m : PacketSequenceState) × (send_packet crypto encrypted type flags payload now s ≡ (
        ok tt,
        sent_with type q (create_packet crypto encrypted type flags payload q s.client_id) now m s,
      ))
  unfolding send_packet gets
  send_packet-returns encrypted type flags payload q n now s small e stepped =
      let create =
        λ (s : SessionTransport). create_packet crypto encrypted type flags payload q s.client_id in
      let (m, done) = transmit-returns type q n (create s) now s e stepped in
      (
        m,
        then_after (throw_when (ltb Limits.max_client_payload (length payload)) payload_too_large) _
              s s
              (throw_when-returns (ltb Limits.max_client_payload (length payload)) payload_too_large
                s (ground arith))
            ∙ after (outgoing type)
                (λ p.
                  gets (λ s. create_packet crypto encrypted type flags payload p s.client_id)
                  >>= λ packet. transmit type p packet now)
                s s q (outgoing-returns type q s e)
            ∙ after (gets create) (λ packet. transmit type q packet now) s s (create s) refl
            ∙ done,
      )

  send_ping-returns :
      (q n : PacketSequence) (now : ℕ) (s : SessionTransport)
      → outgoing_of PacketType.ping s.sequences ≡ ok q
      → advance q ≡ ok n
      → (s' : SessionTransport) × (send_ping crypto now s ≡ (ok tt, s'))
        × (s'.sent ≡ fresh PacketType.ping q (ping_of q s) ∷ s.sent)
        × (s'.pending_ping ≡ some (record { packet_id = q.packet_id; sent_at = now }))
  unfolding send_ping modify
  send_ping-returns q n now s e stepped =
      let (m, done) =
        send_packet-returns false PacketType.ping PacketFlags.none [] q n now s (omega arith) e
          stepped in
      let s1 = sent_with PacketType.ping q (ping_of q s) now m s in
      (
        record s1 { pending_ping = some (record { packet_id = q.packet_id; sent_at = now }) },
        after (outgoing PacketType.ping) _ s s q (outgoing-returns PacketType.ping q s e)
            ∙ then_after (send_packet crypto false PacketType.ping PacketFlags.none [] now) _ s s1
                done,
        refl,
        refl,
      )

  -- A ping is sent, and is the one that waits for its answer.
  abbrev pub Pings :
      PacketSequence
      → ℕ
      → SessionTransport
      → Result TransportError (Unit {0}) × SessionTransport
      → Type 0
  Pings q now s outcome =
      (s' : SessionTransport) × (outcome ≡ (ok tt, s'))
      × (s'.sent ≡ fresh PacketType.ping q (ping_of q s) ∷ s.sent)
      × (s'.pending_ping ≡ some (record { packet_id = q.packet_id; sent_at = now }))

  next_ping-Pings :
      (pending : Option PendingPing) (last_receive_at : ℕ) (q n : PacketSequence) (now : ℕ)
      (s : SessionTransport)
      → last_receive_at + ping_interval ≤ now
      → ((p : PendingPing)
          → pending ≡ some p
          → (last_receive_at ≤ p.sent_at) × (p.sent_at + ping_interval ≤ now))
      → outgoing_of PacketType.ping s.sequences ≡ ok q
      → advance q ≡ ok n
      → Pings q now s (next_ping crypto pending last_receive_at now s)
  unfolding next_ping modify
  next_ping-Pings none last_receive_at q n now s silent waiting e stepped =
      let due : leb ping_interval (now - last_receive_at) ≡ true = ground (arith, silent) in
      rw due (send_ping-returns q n now s e stepped)
  next_ping-Pings (some p) last_receive_at q n now s silent waiting e stepped =
      let (unanswered, old) = waiting p refl in
      let no : ltb p.sent_at last_receive_at ≡ false = ground (arith, unanswered) in
      let due : leb ping_interval (now - p.sent_at) ≡ true = ground (arith, old) in
      let (s', done, sent, noted) = send_ping-returns q n now (forget_ping s) e stepped in
      (
        s',
        rw (no, due)
            (then_after (modify forget_ping) (send_ping crypto now) s (forget_ping s) refl ∙ done),
        sent,
        noted,
      )

-- In a session that is connected and waits for no command's acknowledgement, whose last packet came a
-- second ago or more, and whose ping that waits for its answer, if there is one, was sent when that
-- packet came or later, and a second ago or more: the timers send a ping with the next sequence, without
-- an exception, and note it with its time. The ping's sequence can advance.
pub process_timers-send_ping :
    (crypto : SessionCrypto) (q n : PacketSequence) (now : ℕ) (s : SessionTransport)
    → s.connected ≡ true
    → s.reliable_commands ≡ []
    → s.last_receive_at + ping_interval ≤ now
    → ((p : PendingPing)
        → s.pending_ping ≡ some p
        → (s.last_receive_at ≤ p.sent_at) × (p.sent_at + ping_interval ≤ now))
    → outgoing_of PacketType.ping s.sequences ≡ ok q
    → advance q ≡ ok n
    → Pings crypto q now s (process_timers crypto now s)
unfolding process_timers keep_alive gets collect collect_due for_each return size
process_timers-send_ping crypto q n now s connected idle silent waiting e stepped =
    let s1 : SessionTransport = record s { reliable_commands = [] } in
    let (s', done, sent, noted) =
      next_ping-Pings crypto s.pending_ping s.last_receive_at q n now s1 silent waiting e stepped in
    let behind = λ (quiet : Bool). if quiet then return tt else keep_alive crypto now in
    let quiet : (not s.connected || has_pending s1) ≡ false = rw connected refl in
    (
      s',
      after (collect now)
            (λ packets.
              for_each (retransmit now) packets
              >> (gets (λ s. not s.connected || has_pending s) >>= behind))
            s s1 [] (rw idle refl)
          ∙ then_after (return tt) (gets (λ s. not s.connected || has_pending s) >>= behind) s1 s1
              refl
          ∙ after (gets (λ s. not s.connected || has_pending s)) behind s1 s1
              (not s1.connected || has_pending s1) refl
          ∙ ap (λ t. behind t s1) quiet
          ∙ after (gets (λ s. s.pending_ping))
              (λ pending. gets (λ s. s.last_receive_at) >>= λ at. next_ping crypto pending at now)
              s1 s1 s1.pending_ping refl
          ∙ after (gets (λ s. s.last_receive_at)) (λ at. next_ping crypto s1.pending_ping at now) s1
              s1 s1.last_receive_at refl
          ∙ done,
      sent,
      noted,
    )
