-- ===== src/Transport/Delivery.antt =====
-- A command is sent, waits for its Ack, and is retired by it.
use ts_cli.Prelude.{
  ℕ, ◌+◌, ◌*◌, ◌/◌, ◌%◌, ◌^◌, ◌≤◌, ◌<◌, true, false, ◌&&◌, Option, none, some, [], ◌∷◌, ok, length,
  take, take_all, if◌then◌else◌, Bool-cases, Result-cases, ◌≡◌, inl, inr, refl, sym, ◌∙◌, arith,
  ◌==◌,
}
use mathlib.Core.Path.{subst}
use ts_cli.Binary.Views.{moved, reader-Sees, read_u16-Sees}
use ts_cli.Binary.{IsU16, Bytes, write_u16, reader, read_u16}
use ts_cli.Packet.{ServerPacket}
use ts_cli.Packet.Fragmenter.{CommandFragment, plan}
use ts_cli.Packet.Limits
use ts_cli.Packet.PacketFlags
use ts_cli.Packet.PacketType
use ts_cli.Packet.Sequence.{PacketSequence, advance, resolve_generation}
use ts_cli.Packet.SequenceState.{PacketSequenceState, outgoing_of, incoming_of, set_incoming}
use ts_cli.Prelude.OrderedMap.{erase}
use ts_cli.Reliability.Queue.{Pending, Acknowledgement, add, contains_id, max_pending_commands}
use ts_cli.Reliability.Queue.Pending
use ts_cli.Reliability.Queue.Pending.{add_branches, acknowledge_branches}
use ts_cli.Packet.Sequence.Keys.{IsValid}
use ts_cli.Transport.{
  SessionCrypto, SessionTransport, fresh, transmit, outgoing, retire, incoming, save_incoming,
  unexpected_size, read, invalid_mac,
}
use ts_cli.Transport
use ts_cli.Transport.Sending.{
  create_encrypted_packet, await_acknowledgement, awaited, send_command_packet, send_fragments,
  send_command,
}
use ts_cli.Transport.Receiving.{
  decrypt, is_unencrypted, generation_of, plaintext_of, accept_first_ack, accept_ack, handle_ack,
  follow, read_packet_id,
}
use ts_cli.Transport.Timers.{is_command_pending}
use ts_cli.Transport.Returns.{sent_with, transmit-returns, outgoing-returns}
use ts_cli.Actions.Keeps.{Keeps, keeps_rules}
use ts_cli.Actions.Returns.{after, then_after, call-returns, throw_when-returns, or_throw-returns}
use ts_cli.Actions.{return, throw_when, gets, call, ◌>>◌, ◌>>=◌}

await_acknowledgement-returns :
    (q : PacketSequence) (packet : Bytes) (now : ℕ) (s : SessionTransport) (pending : Pending)
    → add q.packet_id q.generation_id packet now s.reliable_commands ≡ ok pending
    → await_acknowledgement q packet now s ≡ (ok tt, awaited q pending s)
unfolding await_acknowledgement
await_acknowledgement-returns q packet now s pending e = rw (await_acknowledgement, e) refl

module _ (crypto : SessionCrypto) where
  abbrev pub command_packet : PacketSequence → Bytes → ℕ → SessionTransport → Bytes
  command_packet q payload flags s =
      create_encrypted_packet crypto PacketType.command flags payload q s.client_id

  send_command_packet-returns :
      (q n : PacketSequence) (payload : Bytes) (flags now : ℕ) (s : SessionTransport)
      (pending : Pending)
      → outgoing_of PacketType.command s.sequences ≡ ok q
      → advance q ≡ ok n
      → add q.packet_id q.generation_id (command_packet q payload flags s) now s.reliable_commands
        ≡ ok pending
      → (m : PacketSequenceState) × (send_command_packet crypto payload flags now s ≡ (
        ok q.packet_id,
        sent_with PacketType.command q
            (command_packet q payload flags s)
            now
            m
            (awaited q pending s),
      ))
  unfolding send_command_packet gets return
  send_command_packet-returns q n payload flags now s pending e stepped added =
      let packet = command_packet q payload flags s in
      let s1 = awaited q pending s in
      let (m, done) = transmit-returns PacketType.command q n packet now s1 e stepped in
      let finish = λ (p : PacketSequence) (b : Bytes).
        await_acknowledgement p b now
        >> (transmit PacketType.command p b now >> return p.packet_id) in
      let create =
        λ (p : PacketSequence) (s : SessionTransport). command_packet p payload flags s in
      (
        m,
        after (outgoing PacketType.command) (λ p. gets (create p) >>= finish p) s s q
              (outgoing-returns PacketType.command q s e)
            ∙ after (gets (create q)) (finish q) s s packet refl
            ∙ then_after (await_acknowledgement q packet now)
                (transmit PacketType.command q packet now >> return q.packet_id) s s1
                (await_acknowledgement-returns q packet now s pending added)
            ∙ then_after (transmit PacketType.command q packet now) (return q.packet_id) s1
                (sent_with PacketType.command q packet now m s1) done,
      )

-- A command that fits in one packet is sent encrypted with the next sequence of its type, whose packet ID
-- is returned, and waits for its acknowledgement under this ID. The queue of commands is valid, not
-- full and without the ID, and the sequence is valid and can advance.
pub send_command-is_command_pending :
    (crypto : SessionCrypto) (q n : PacketSequence) (bytes : Bytes) (now : ℕ) (s : SessionTransport)
    → length bytes ≤ Limits.max_client_payload
    → outgoing_of PacketType.command s.sequences ≡ ok q
    → IsValid q
    → advance q ≡ ok n
    → Pending.IsValid s.reliable_commands
    → length s.reliable_commands < max_pending_commands
    → is_command_pending q.packet_id s ≡ false
    → (s' : SessionTransport) × (send_command crypto bytes now s ≡ (ok q.packet_id, s'))
      × (s'.sent
          ≡ fresh PacketType.command q (command_packet crypto q bytes PacketFlags.new_protocol s)
            ∷ s.sent)
      × (is_command_pending q.packet_id s' ≡ true)
unfolding send_command send_fragments return is_command_pending plan
send_command-is_command_pending crypto q n bytes now s small e valid stepped queue room new =
    let packet = command_packet crypto q bytes PacketFlags.new_protocol s in
    let (pending, added, queue', waits, longer) =
      (add_branches q.packet_id q.generation_id packet now s.reliable_commands valid.id_fits
          valid.generation_fits queue).2
        room new in
    let (m, done) =
      send_command_packet-returns crypto q n bytes PacketFlags.new_protocol now s pending e stepped
        added in
    let s' : SessionTransport = sent_with PacketType.command q packet now m (awaited q pending s) in
    let fragment : CommandFragment = record {
      offset = 0;
      size = length bytes;
      flags = PacketFlags.new_protocol;
    } in
    let planned : plan (length bytes) ≡ ok (fragment ∷ []) = ground (arith, small) in
    let whole : take (length bytes) bytes ≡ bytes = take_all (length bytes) bytes (omega arith) in
    (
      s',
      after (call Transport.plan (plan (length bytes)))
            (λ fragments. send_fragments crypto bytes now fragments 0) s s (fragment ∷ [])
            (call-returns Transport.plan (plan (length bytes)) (fragment ∷ []) s planned)
          ∙ after
              (send_command_packet crypto (take (length bytes) bytes) PacketFlags.new_protocol now)
              (send_fragments crypto bytes now []) s s' q.packet_id (rw whole done),
      refl,
      waits,
    )

retire-state :
    (id : ℕ) (s : SessionTransport)
    → Pending.IsValid s.reliable_commands
    → (a : Option Acknowledgement) × (s' : SessionTransport) × (retire id s ≡ (ok a, s'))
      × (contains_id id s'.reliable_commands ≡ false)
unfolding retire
retire-state id s queue = elim (Bool-cases (contains_id id s.reliable_commands)) [
  | inr absent ↦
      let done = (acknowledge_branches id s.reliable_commands queue).0 absent in
      (none, record s { reliable_commands = s.reliable_commands }, rw (retire, done) refl, absent)
  | inl present ↦
      let (k, p, found, done, valid, gone, shorter) =
        (acknowledge_branches id s.reliable_commands queue).1 present in
      (
        some (record { first_sent = p.first_sent; retransmitted = p.retransmitted }),
        record s { reliable_commands = erase k s.reliable_commands },
        rw (retire, done) refl,
        gone,
      )
]

-- An ID that waits no more.
abbrev Retired : ℕ → SessionTransport → Type 0
Retired id s = contains_id id s.reliable_commands ≡ false

incoming-Retired : (id type : ℕ) → Keeps (Retired id) (incoming type)
unfolding incoming call
incoming-Retired id type = record {
  at = λ s h. elim (Result-cases (incoming_of type s.sequences)) [
    | inl (q, e) ↦ rw e h
    | inr (x, e) ↦ rw e h
  ];
}

save_incoming-Retired :
    (id type : ℕ) (q : PacketSequence) → Keeps (Retired id) (save_incoming type q)
unfolding save_incoming
save_incoming-Retired id type q = record {
  at = λ s h. elim (Result-cases (set_incoming type q s.sequences)) [
    | inl (m, e) ↦ rw (save_incoming, e) h
    | inr (x, e) ↦ rw (save_incoming, e) h
  ];
}

follow-Retired :
    (id type packet_id generation : ℕ) → Keeps (Retired id) (follow type packet_id generation)
unfolding follow
follow-Retired id type packet_id generation =
    search (keeps_rules, incoming-Retired, save_incoming-Retired)

read_packet_id-returns :
    (id : ℕ) (s : SessionTransport) → IsU16 id → read_packet_id (write_u16 id []) s ≡ (ok id, s)
unfolding read_packet_id write_u16 return
read_packet_id-returns id s fits =
    let a = id / 2 ^ 8 % 256 in
    let b = id % 256 in
    let same : a * 2 ^ 8 + b ≡ id = omega arith in
    let r = read_u16 (reader (a ∷ b ∷ [])) in
    let got = read_u16-Sees {r = reader (a ∷ b ∷ [])} a b (reader-Sees (a ∷ b ∷ [])) in
    then_after (throw_when false unexpected_size) _ s s
      (throw_when-returns false unexpected_size s refl)
    ∙ after (call read r) (λ x. return x.0) s s (a * 2 ^ 8 + b, moved (reader (a ∷ b ∷ [])) 2)
        (call-returns read r (a * 2 ^ 8 + b, moved (reader (a ∷ b ∷ [])) 2) s got)
    ∙ rw same refl

-- An Ack that names a command's ID in its encrypted payload takes the command from the queue: the command
-- is not pending any more, also if the sequence of the Acks cannot advance behind it. The queue is
-- valid, and the Ack is not the packet 1 of generation 0.
pub handle_ack-is_command_pending :
    (crypto : SessionCrypto) (packet : ServerPacket) (id generation : ℕ) (expected : PacketSequence)
    (s : SessionTransport)
    → IsU16 id
    → Pending.IsValid s.reliable_commands
    → incoming_of PacketType.ack s.sequences ≡ ok expected
    → resolve_generation expected packet.header.packet_id ≡ ok generation
    → (generation == 0 && packet.header.packet_id == 1) ≡ false
    → is_unencrypted crypto packet ≡ false
    → crypto.decrypt_server packet generation ≡ some (write_u16 id [])
    → is_command_pending id (handle_ack crypto packet s).1 ≡ false
unfolding is_command_pending handle_ack accept_ack generation_of plaintext_of decrypt incoming
handle_ack-is_command_pending crypto packet id generation expected s fits queue e resolved later
      encrypted decrypted =
    let (a, s', retired, gone) = retire-state id s queue in
    let packet_id = packet.header.packet_id in
    let behind = λ (g : ℕ).
      if g == 0 && packet_id == 1
      then accept_first_ack crypto packet g
      else accept_ack crypto packet g in
    let acked = λ (x : Option Acknowledgement). follow PacketType.ack packet_id generation in
    let same =
      after (generation_of PacketType.ack packet_id) behind s s generation (
        after (incoming PacketType.ack)
          (λ q. call Transport.sequence (resolve_generation q packet_id)) s s expected
          (call-returns Transport.state (incoming_of PacketType.ack s.sequences) expected s e)
        ∙ call-returns Transport.sequence (resolve_generation expected packet_id) generation s
            resolved)
      ∙ (rw later refl)
      ∙ after (plaintext_of crypto packet generation)
          (λ bytes. read_packet_id bytes >>= λ i. retire i >>= acked) s s (write_u16 id [])
          (rw encrypted (
            or_throw-returns invalid_mac (crypto.decrypt_server packet generation) (write_u16 id [])
              s decrypted))
      ∙ after (read_packet_id (write_u16 id [])) (λ i. retire i >>= acked) s s id
          (read_packet_id-returns id s fits)
      ∙ after (retire id) acked s s' a retired in
    subst (λ o. contains_id id (o.1).reliable_commands ≡ false) (sym same)
      ((follow-Retired id PacketType.ack packet_id generation).at s' gone)
