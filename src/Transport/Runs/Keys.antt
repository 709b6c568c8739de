-- ===== src/Transport/Runs/Keys.antt =====
-- The packets of a type are sent with one key after the other.
use ts_cli.Prelude.{
  ℕ, ◌<◌, true, false, List, [], ◌∷◌, ◌++◌, ok, leb, length, get_or, Bool-cases, ◌≡◌, ◌⊎◌, inl, inr,
  refl, arith, ◌==◌, sym, ◌∙◌, append_assoc,
}
use ts_cli.Binary.{Bytes}
use ts_cli.Packet.Sequence.{PacketSequence, key_of}
use ts_cli.Packet.Sequence.Keys.{IsValid}
use ts_cli.Packet.SequenceState.{
  PacketSequenceState, tracked_packet_type_count, outgoing_of, index, initial_sequence,
}
use ts_cli.Transport.{SessionCrypto, SessionTransport, Transmission, fresh, again, new_transport}
use ts_cli.Transport.Sending.{send_voice, send_voice_whisper, send_group_whisper}
use ts_cli.Transport.Operations.{
  Operation, perform, run, call_send_packet, call_send_command, call_send_voice,
  call_send_voice_whisper, call_send_group_whisper, call_process_packet, call_process_timers,
  call_receive_command, call_take_command, call_take_voice, call_confirm_command,
  call_set_client_id, call_set_connected,
}
use ts_cli.Transport.Runs.Headers.{HasMacs, Bears, IsMade-Bears}
use ts_cli.Transport.Fresh.{
  IsMade, AreMade, IsSound, Descends, IsBefore, IsBefore-transitive, last_key,
}
use ts_cli.Transport.Runs.Calls.{send_packet-Keeps, send_command-Keeps, send_voice_payload-Keeps}
use ts_cli.Transport.Runs.Handlers.{process_packet-Keeps}
use ts_cli.Transport.Runs.Timing.{
  process_timers-Keeps, receive_command-Keeps, take_ready_command-Keeps, take_ready_voice-Keeps,
  confirm_command-Keeps, set_client_id-Keeps, set_connected-Keeps,
}
use ts_cli.Actions.Keeps.{Keeps, keeps_rules}

module _ (crypto : SessionCrypto) where
  perform-Keeps : (o : Operation) → Keeps (IsSound crypto) (perform crypto o)
  unfolding perform send_voice send_voice_whisper send_group_whisper
  perform-Keeps (call_send_packet encrypted type flags payload now) = search send_packet-Keeps
  perform-Keeps (call_send_command bytes now) = search (keeps_rules, send_command-Keeps)
  perform-Keeps (call_send_voice codec bytes encrypted start now) = search send_voice_payload-Keeps
  perform-Keeps (call_send_voice_whisper codec channels clients bytes encrypted start now) =
      search send_voice_payload-Keeps
  perform-Keeps (call_send_group_whisper codec type target target_id bytes encrypted start now) =
      search send_voice_payload-Keeps
  perform-Keeps (call_process_packet datagram now) = search process_packet-Keeps
  perform-Keeps (call_process_timers now) = search process_timers-Keeps
  perform-Keeps (call_receive_command rounds) = search (keeps_rules, receive_command-Keeps)
  perform-Keeps call_take_command = search (keeps_rules, take_ready_command-Keeps)
  perform-Keeps call_take_voice = search (keeps_rules, take_ready_voice-Keeps)
  perform-Keeps (call_confirm_command id) = search confirm_command-Keeps
  perform-Keeps (call_set_client_id id) = search set_client_id-Keeps
  perform-Keeps (call_set_connected now) = search set_connected-Keeps

  run-IsSound :
      (os : List Operation) (s : SessionTransport)
      → IsSound crypto s
      → IsSound crypto (run crypto os s)
  unfolding run
  run-IsSound [] s h = h
  run-IsSound (o ∷ os) s h = run-IsSound os (perform crypto o s).1 ((perform-Keeps o).at s h)

-- What is sent before some other packets descends from what these descend from.
Descends-append :
    (type bound : ℕ) (later earlier : List Transmission) (q : PacketSequence) (b : Bytes)
    → Descends type bound (later ++ (fresh type q b ∷ earlier))
    → IsValid q × IsBefore (key_of q) bound × Descends type (key_of q) earlier
Descends-append type bound [] earlier q b h =
    let same : (type == type) ≡ true = ground arith in
    let (valid, below) = h.0 refl in (valid, below, rw same at (h.1))
Descends-append type bound (again c ∷ later) earlier q b h =
    Descends-append type bound later earlier q b h
Descends-append type bound (fresh t p c ∷ later) earlier q b h = elim (Bool-cases (t == type)) [
  | inr other ↦ Descends-append type bound later earlier q b (rw other at (h.1))
  | inl same ↦
      let (valid, below, rest) =
        Descends-append type (key_of p) later earlier q b (rw same at (h.1)) in
      (
        valid,
        IsBefore-transitive (key_of q) (key_of p) bound below ((h.0 (ground (arith, same))).1),
        rest,
      )
]

outgoing_of-returns :
    (type : ℕ) (m : PacketSequenceState)
    → type < tracked_packet_type_count
    → (q : PacketSequence) × (outgoing_of type m ≡ ok q)
unfolding outgoing_of index
outgoing_of-returns type m small =
    let tracked : leb tracked_packet_type_count type ≡ false = ground arith in
    (get_or m.outgoing type initial_sequence, rw tracked refl)

new_transport-IsSound :
    {crypto : SessionCrypto} (m : PacketSequenceState) (now : ℕ)
    → length m.outgoing ≡ tracked_packet_type_count
    → ((type : ℕ) (q : PacketSequence) → outgoing_of type m ≡ ok q → IsValid q)
    → IsSound crypto (new_transport m now)
new_transport-IsSound m now tracked valid = record {
  tracked = tracked;
  ahead = λ type q e. (valid type q e, tt);
  made = tt;
}

-- What is sent for the first time is made with its sequence.
AreMade-append :
    (crypto : SessionCrypto) (later earlier : List Transmission) (type : ℕ) (q : PacketSequence)
    (b : Bytes)
    → AreMade crypto (later ++ (fresh type q b ∷ earlier))
    → IsMade crypto type q b
AreMade-append crypto [] earlier type q b h = h.0
AreMade-append crypto (again c ∷ later) earlier type q b h =
    AreMade-append crypto later earlier type q b h
AreMade-append crypto (fresh t p c ∷ later) earlier type q b h =
    AreMade-append crypto later earlier type q b (h.1)

-- A packet that is sent for the first time, its sequence, and what has been sent before it.
pub run-Descends :
    (crypto : SessionCrypto) (m : PacketSequenceState) (start : ℕ) (os : List Operation)
    → length m.outgoing ≡ tracked_packet_type_count
    → ((type : ℕ) (q : PacketSequence) → outgoing_of type m ≡ ok q → IsValid q)
    → (type : ℕ) → type < tracked_packet_type_count
    → (q : PacketSequence) (b : Bytes) (later earlier : List Transmission)
    → (run crypto os (new_transport m start)).sent ≡ later ++ (fresh type q b ∷ earlier)
    → IsMade crypto type q b × IsValid q × Descends type (key_of q) earlier
run-Descends crypto m start os tracked valid type small q b later earlier logged =
    let h =
      run-IsSound crypto os (new_transport m start) (new_transport-IsSound m start tracked valid) in
    let s : SessionTransport = run crypto os (new_transport m start) in
    let (p, e) = outgoing_of-returns type s.sequences small in
    let (fits, below, rest) =
      Descends-append type (key_of p) later earlier q b (rw logged at ((h.ahead type p e).1)) in
    (AreMade-append crypto later earlier type q b (rw logged at (h.made)), fits, rest)

-- Two packets in the log, of which one is the later
pub split_log :
    (later between : List Transmission) (x y : Transmission) (earlier : List Transmission)
    → later ++ (x ∷ (between ++ (y ∷ earlier))) ≡ (later ++ (x ∷ between)) ++ (y ∷ earlier)
split_log later between x y earlier = sym (append_assoc later (x ∷ between) (y ∷ earlier))

-- The keys alone, whatever the MACs.
pub run-ordered :
    (crypto : SessionCrypto) (m : PacketSequenceState) (start : ℕ) (os : List Operation)
    → length m.outgoing ≡ tracked_packet_type_count
    → ((type : ℕ) (q : PacketSequence) → outgoing_of type m ≡ ok q → IsValid q)
    → (type : ℕ) → type < tracked_packet_type_count
    → (q q' : PacketSequence) (b b' : Bytes) (later between earlier : List Transmission)
    → (run crypto os (new_transport m start)).sent
      ≡ later ++ (fresh type q b ∷ (between ++ (fresh type q' b' ∷ earlier)))
    → IsBefore (key_of q') (key_of q)
run-ordered crypto m start os tracked valid type small q q' b b' later between earlier logged =
    let (made, fits, rest) =
      run-Descends crypto m start os tracked valid type small q b later
        (between ++ (fresh type q' b' ∷ earlier)) logged in
    (Descends-append type (key_of q) between earlier q' b' rest).1

-- In a session whose eight outgoing sequences begin valid, whatever calls of the public functions, of
-- SendEncrypted and of SendUnencrypted are made, with whatever datagrams received and whatever exceptions
-- thrown: of two packets of a type that are sent for the first time, the bytes of each have, behind a MAC of
-- eight bytes, a header with the packet ID of its sequence and with its type, joined with some flags; and
-- the earlier one's sequence has the smaller key, made of its generation and packet ID, or both have the last
-- key of all, 2^48 - 1, behind which the sequence cannot advance. The type is one of the eight that have a
-- sequence, and the MACs of the session have eight bytes.
pub run-key_of :
    (crypto : SessionCrypto) (m : PacketSequenceState) (start : ℕ) (os : List Operation)
    → HasMacs crypto
    → length m.outgoing ≡ tracked_packet_type_count
    → ((type : ℕ) (q : PacketSequence) → outgoing_of type m ≡ ok q → IsValid q)
    → (type : ℕ) → type < tracked_packet_type_count
    → (q q' : PacketSequence) (b b' : Bytes) (later between earlier : List Transmission)
    → (run crypto os (new_transport m start)).sent
      ≡ later ++ (fresh type q b ∷ (between ++ (fresh type q' b' ∷ earlier)))
    → Bears type q b
      × Bears type q' b'
      × ((key_of q' < key_of q) ⊎ ((key_of q' ≡ last_key) × (key_of q ≡ last_key)))
run-key_of crypto m start os macs tracked valid type small q q' b b' later between earlier logged =
    let (made, fits, rest) =
      run-Descends crypto m start os tracked valid type small q b later
        (between ++ (fresh type q' b' ∷ earlier)) logged in
    let (made', fits', rest') =
      run-Descends crypto m start os tracked valid type small q' b'
        (later ++ (fresh type q b ∷ between)) earlier
        (logged ∙ split_log later between (fresh type q b) (fresh type q' b') earlier) in
    (
      IsMade-Bears crypto type q b macs made,
      IsMade-Bears crypto type q' b' macs made',
      run-ordered crypto m start os tracked valid type small q q' b b' later between earlier logged,
    )
