-- ===== src/Tests/Transports.antt =====
-- The theorems on the session's transport at concrete inputs.
use ts_cli.Prelude.{
  ℕ, zero, suc, ◌<◌, true, false, Option, none, some, List, [], ◌∷◌, ◌++◌, ok, err, leb, get_or,
  replicate, if◌then◌else◌, Bool-cases, ◌≡◌, ◌⊎◌, inl, inr, refl, bytes_eq, arith, ◌==◌,
}
use ts_cli.Binary.{Bytes, write_u16}
use ts_cli.Packet.{ServerPacket}
use ts_cli.Packet.PacketFlags
use ts_cli.Packet.PacketType
use ts_cli.Packet.Sequence.{PacketSequence, key_of, sequence_key, advance, resolve_generation}
use ts_cli.Packet.Sequence.Keys.{IsValid}
use ts_cli.Packet.SequenceState.{
  initial_state, initial_sequence, outgoing_of, incoming_of, set_outgoing, index,
  tracked_packet_type_count,
}
use ts_cli.Reliability.Queue.{Pending, new_command, contains_id}
use ts_cli.Reliability.Queue.Pending
use ts_cli.Transport.{
  SessionCrypto, SessionTransport, TransportError, fresh, new_transport, transmit, outgoing,
  save_outgoing,
}
use ts_cli.Transport.Sending.{create_unencrypted_packet, send_packet}
use ts_cli.Transport.Receiving.{process_parsed, handle_ack}
use ts_cli.Transport.Timers.{ping_interval, process_timers, is_command_pending}
use ts_cli.Transport.Sending
use ts_cli.Transport.Operations.{Operation, perform, run, call_send_packet}
use ts_cli.Transport.Fresh.{last_key}
use ts_cli.Transport.Runs.Headers.{HasMacs, Bears}
use ts_cli.Transport.Runs.Keys.{run-key_of}
use ts_cli.Transport.Authentication.{process_parsed-Rejects}
use ts_cli.Transport.Returns.{Pings, process_timers-send_ping}
use ts_cli.Transport.Delivery.{
  command_packet, send_command-is_command_pending, handle_ack-is_command_pending,
}
use ts_cli.Tests.{two}

-- A cipher that hides nothing, and can decrypt an Ack of the command 7 and nothing else.
abbrev decrypt_ack : ServerPacket → ℕ → Option Bytes
decrypt_ack packet generation =
    if packet.header.packet_type == PacketType.ack then some (write_u16 7 []) else none

abbrev plain : SessionCrypto
plain = record {
  encrypt_client = λ type id generation meta payload. (replicate 8 1, payload);
  decrypt_server = decrypt_ack;
  shared_mac = replicate 8 2;
}

get_or-replicate : {A : Type 0} (n i : ℕ) (x : A) → get_or (replicate n x) i x ≡ x
get_or-replicate zero i x = refl
get_or-replicate (suc n) zero x = refl
get_or-replicate (suc n) (suc i) x = get_or-replicate n i x

initial_state-IsValid :
    (type : ℕ) (q : PacketSequence) → outgoing_of type initial_state ≡ ok q → IsValid q
unfolding outgoing_of index
initial_state-IsValid type q e = elim (Bool-cases (leb tracked_packet_type_count type)) [
  | inl untracked ↦ absurd (ground (arith, untracked, e))
  | inr tracked ↦
      let first : ok (get_or (replicate 8 initial_sequence) type initial_sequence) ≡ ok q =
        (rw tracked at e) in
      let same : ok initial_sequence ≡ ok q =
        (rw (get_or-replicate 8 type initial_sequence) at first) in
      let it : initial_sequence ≡ q = cc in
      rw⁻¹ it (record { id_fits = omega arith; generation_fits = omega arith })
]

abbrev second_sequence : PacketSequence
second_sequence = record { packet_id = 2; generation_id = 0 }

abbrev pong_packet : PacketSequence → Bytes
pong_packet q = create_unencrypted_packet plain PacketType.pong PacketFlags.none two q 0

abbrev two_pongs : List Operation
two_pongs =
    call_send_packet false PacketType.pong PacketFlags.none two 5
    ∷ call_send_packet false PacketType.pong PacketFlags.none two 6
    ∷ []

two_pongs_sent :
    (run plain two_pongs (new_transport initial_state 0)).sent
    ≡ []
      ++ (fresh PacketType.pong second_sequence (pong_packet second_sequence)
          ∷ ([] ++ (fresh PacketType.pong initial_sequence (pong_packet initial_sequence) ∷ [])))
unfolding run perform send_packet transmit outgoing save_outgoing outgoing_of set_outgoing index
    advance ts_cli.Actions.gets ts_cli.Actions.modify ts_cli.Actions.call ts_cli.Actions.throw_when
    ts_cli.Actions.◌>>=◌ ts_cli.Actions.◌>>◌
two_pongs_sent = refl

plain-HasMacs : HasMacs plain
plain-HasMacs = record { encrypted = λ type id generation meta text. refl; shared = refl }

run-key_of_example :
    Bears PacketType.pong second_sequence (pong_packet second_sequence)
    × Bears PacketType.pong initial_sequence (pong_packet initial_sequence)
    × ((key_of initial_sequence < key_of second_sequence)
        ⊎ ((key_of initial_sequence ≡ last_key) × (key_of second_sequence ≡ last_key)))
run-key_of_example =
    run-key_of plain initial_state 0 two_pongs plain-HasMacs refl initial_state-IsValid
      PacketType.pong (omega arith) second_sequence initial_sequence (pong_packet second_sequence)
      (pong_packet initial_sequence) [] [] [] two_pongs_sent

abbrev forged : ServerPacket
forged = record {
  header = record { mac = 3 ∷ []; packet_id = 5; packet_type = PacketType.voice; flags = 0 };
  meta = [];
  payload = two;
}

forged_mac : bytes_eq forged.header.mac plain.shared_mac ≡ false
unfolding bytes_eq
forged_mac = refl

process_parsed-Rejects_example :
    (e : TransportError) × (process_parsed plain forged 9 (new_transport initial_state 0)
      ≡ (err e, new_transport initial_state 0))
process_parsed-Rejects_example =
    process_parsed-Rejects plain forged 9 (new_transport initial_state 0) (λ generation. refl)
      forged_mac (omega arith) (λ e. refl)

abbrev connected : SessionTransport
connected = record (new_transport initial_state 0) { connected = true }

initial_outgoing :
    (outgoing_of PacketType.ping initial_state ≡ ok initial_sequence)
    × (outgoing_of PacketType.command initial_state ≡ ok initial_sequence)
unfolding outgoing_of index
initial_outgoing = (refl, refl)

initial_advance : advance initial_sequence ≡ ok second_sequence
unfolding advance
initial_advance = refl

process_timers-send_ping_example :
    Pings plain initial_sequence ping_interval connected
      (process_timers plain ping_interval connected)
process_timers-send_ping_example =
    process_timers-send_ping plain initial_sequence second_sequence ping_interval connected refl
      refl (omega arith) (λ p e. absurd (ground (arith, e))) initial_outgoing.0 initial_advance

-- A session that waits for the acknowledgement of the command 7.
abbrev one_waiting : Pending
one_waiting = (7, new_command 7 0 two 50) ∷ []

one_waiting-IsValid : Pending.IsValid one_waiting
unfolding contains_id sequence_key
one_waiting-IsValid = record {
  distinct = ((refl, omega arith, omega arith), refl, tt);
  bounded = omega arith;
}

abbrev waiting : SessionTransport
waiting = record connected { reliable_commands = one_waiting }

not_pending : is_command_pending 1 waiting ≡ false
unfolding is_command_pending contains_id
not_pending = refl

send_command-is_command_pending_example :
    (s' : SessionTransport) × (Sending.send_command plain two 9 waiting ≡ (ok 1, s'))
    × (s'.sent
        ≡ fresh PacketType.command initial_sequence
            (command_packet plain initial_sequence two PacketFlags.new_protocol waiting)
          ∷ [])
    × (is_command_pending 1 s' ≡ true)
send_command-is_command_pending_example =
    send_command-is_command_pending plain initial_sequence second_sequence two 9 waiting
      (omega arith) initial_outgoing.1
      (record { id_fits = omega arith; generation_fits = omega arith }) initial_advance
      one_waiting-IsValid (omega arith) not_pending

abbrev ack_of_seven : ServerPacket
ack_of_seven = record {
  header = record { mac = 3 ∷ []; packet_id = 2; packet_type = PacketType.ack; flags = 0 };
  meta = [];
  payload = two;
}

ack_incoming : incoming_of PacketType.ack initial_state ≡ ok initial_sequence
unfolding incoming_of index
ack_incoming = refl

ack_generation : resolve_generation initial_sequence 2 ≡ ok 0
unfolding resolve_generation
ack_generation = refl

ack_encrypted : PacketFlags.has_flag 0 PacketFlags.unencrypted ≡ false
unfolding PacketFlags.has_flag
ack_encrypted = refl

handle_ack-is_command_pending_example :
    is_command_pending 7 (handle_ack plain ack_of_seven waiting).1 ≡ false
handle_ack-is_command_pending_example =
    handle_ack-is_command_pending plain ack_of_seven 7 0 initial_sequence waiting (omega arith)
      one_waiting-IsValid ack_incoming ack_generation refl ack_encrypted refl
