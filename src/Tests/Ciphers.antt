-- ===== src/Tests/Ciphers.antt =====
-- The theorems on the session's encryption at concrete inputs.
use ts_cli.Prelude.{
  ℕ, zero, suc, ◌-◌, ◌/◌, ◌%◌, ◌^◌, true, false, some, List, [], ◌∷◌, ◌++◌, ok, leb, get_or, take,
  drop, replicate, All, Bool-cases, ◌≡◌, ◌≢◌, ◌⊎◌, inl, inr, refl, ap, arith,
}
use ts_cli.Binary.{Bytes, IsByte, IsU32}
use ts_cli.Packet.{ServerPacket}
use ts_cli.Packet.PacketFlags
use ts_cli.Packet.PacketType
use ts_cli.Packet.Sequence.{PacketSequence, key_of, advance}
use ts_cli.Packet.Sequence.Keys.{IsValid}
use ts_cli.Packet.SequenceState.{
  PacketSequenceState, initial_sequence, initial_state, outgoing_of, index,
  tracked_packet_type_count,
}
use ts_cli.Transport.{fresh, new_transport, transmit, outgoing, save_outgoing}
use ts_cli.Transport.Sending.{create_encrypted_packet, send_packet}
use ts_cli.Transport.Operations.{Operation, perform, run, call_send_packet}
use ts_cli.Transport.Fresh.{last_key}
use ts_cli.Crypto.{
  Primitives, digest_input, encrypt, create_key_nonce, decrypt_server, session_crypto,
}
use ts_cli.Crypto.Sealed.{AreSound, decrypt_server-encrypt}
use ts_cli.Crypto.KeyNonces.{IsHash}
use ts_cli.Crypto.Sessions.{IsSealed, IsOpen, run-create_key_nonce}
use ts_cli.Tests.{two}

-- A digest that repeats the type and the generation of what it is given.
abbrev digest : Bytes → Bytes
digest text =
    0
    ∷ 0
    ∷ (get_or text 1 0 % 256)
    ∷ (get_or text 2 0 % 256)
    ∷ (get_or text 3 0 % 256)
    ∷ (get_or text 4 0 % 256)
    ∷ (get_or text 5 0 % 256)
    ∷ replicate 25 0

abbrev toy : Primitives
toy = record { cmac = λ key text. replicate 16 1; ctr = λ key counter text. text; sha256 = digest }

toy-AreSound : AreSound toy
toy-AreSound = record { tag_size = λ key text. refl; inverse = λ key counter text. refl }

toy-distinct :
    (t g t' g' : ℕ)
    → IsByte t
    → IsU32 g
    → IsByte t'
    → IsU32 g'
    → drop 2 (take 16 (digest (digest_input two t true g)))
      ≡ drop 2 (take 16 (digest (digest_input two t' true g')))
    → (t ≡ t') × (g ≡ g')
toy-distinct t g t' g' ft fg ft' fg' e =
    let e0 : t % 256 ≡ t' % 256 = ap (λ xs. get_or xs 0 0) e in
    let e1 : g / 2 ^ 24 % 256 % 256 ≡ g' / 2 ^ 24 % 256 % 256 = ap (λ xs. get_or xs 1 0) e in
    let e2 : g / 2 ^ 16 % 256 % 256 ≡ g' / 2 ^ 16 % 256 % 256 = ap (λ xs. get_or xs 2 0) e in
    let e3 : g / 2 ^ 8 % 256 % 256 ≡ g' / 2 ^ 8 % 256 % 256 = ap (λ xs. get_or xs 3 0) e in
    let e4 : g % 256 % 256 ≡ g' % 256 % 256 = ap (λ xs. get_or xs 4 0) e in
    (omega (arith, e0), omega (arith, e1, e2, e3, e4))

IsByte-replicate : (n : ℕ) → All IsByte (replicate n 0)
IsByte-replicate zero = tt
IsByte-replicate (suc n) = (omega arith, IsByte-replicate n)

toy-IsHash : IsHash toy two
toy-IsHash = record {
  size = λ text. refl;
  bytes = λ text. (
    omega arith,
    (
      omega arith,
      (omega arith, (omega arith, (omega arith, (omega arith, (omega arith, IsByte-replicate 9))))),
    ),
  );
  distinct = λ t g t' g' ft fg ft' fg' same. toy-distinct t g t' g' ft fg ft' fg' (same.0);
}

abbrev sealed : Bytes × Bytes
sealed =
    let (key, nonce) = create_key_nonce toy two 2 false 5 0 in
    let encrypted = encrypt toy key nonce [] two in (encrypted.content, take 8 encrypted.tag)

abbrev sealed_packet : ServerPacket
sealed_packet = record {
  header = record { mac = sealed.1; packet_id = 5; packet_type = 2; flags = 0 };
  meta = [];
  payload = sealed.0;
}

decrypt_server-encrypt_example : decrypt_server toy two sealed_packet 0 ≡ some two
decrypt_server-encrypt_example =
    decrypt_server-encrypt toy two two 0 sealed_packet toy-AreSound (refl, refl)

-- All sequences are at their last key.
abbrev last_sequence : PacketSequence
last_sequence = record { packet_id = 65535; generation_id = 2 ^ 32 - 1 }

abbrev last_state : PacketSequenceState
last_state = record initial_state { outgoing = replicate tracked_packet_type_count last_sequence }

IsValid-replicate :
    (n i : ℕ) (x d : PacketSequence) → IsValid x → IsValid d → IsValid (get_or (replicate n x) i d)
IsValid-replicate zero i x d fx fd = fd
IsValid-replicate (suc n) zero x d fx fd = fx
IsValid-replicate (suc n) (suc i) x d fx fd = IsValid-replicate n i x d fx fd

last_state-IsValid :
    (type : ℕ) (q : PacketSequence) → outgoing_of type last_state ≡ ok q → IsValid q
unfolding outgoing_of index
last_state-IsValid type q e = elim (Bool-cases (leb tracked_packet_type_count type)) [
  | inl untracked ↦ absurd (ground (arith, untracked, e))
  | inr tracked ↦
      let first : ok (get_or (replicate 8 last_sequence) type initial_sequence) ≡ ok q =
        (rw tracked at e) in
      let it : get_or (replicate 8 last_sequence) type initial_sequence ≡ q = cc in
      rw⁻¹ it (
        IsValid-replicate 8 type last_sequence initial_sequence
          (record { id_fits = omega arith; generation_fits = omega arith })
          (record { id_fits = omega arith; generation_fits = omega arith }))
]

abbrev last_packet : Bytes
last_packet =
    create_encrypted_packet (session_crypto toy two two) PacketType.ack PacketFlags.none two
      last_sequence 0

abbrev two_acks : List Operation
two_acks =
    call_send_packet true PacketType.ack PacketFlags.none two 5
    ∷ call_send_packet true PacketType.ack PacketFlags.none two 6
    ∷ []

-- Both are sent: the sequence overflows behind each of them.
two_acks_sent :
    (run (session_crypto toy two two) two_acks (new_transport last_state 0)).sent
    ≡ []
      ++ (fresh PacketType.ack last_sequence last_packet
          ∷ ([] ++ (fresh PacketType.ack last_sequence last_packet ∷ [])))
unfolding run perform send_packet transmit outgoing save_outgoing outgoing_of index advance
    ts_cli.Actions.gets ts_cli.Actions.modify ts_cli.Actions.call ts_cli.Actions.throw_when
    ts_cli.Actions.◌>>=◌ ts_cli.Actions.◌>>◌
two_acks_sent = refl

abbrev last_key_nonce : Bytes × Bytes
last_key_nonce = create_key_nonce toy two PacketType.ack true 65535 (2 ^ 32 - 1)

run-create_key_nonce_example :
    (IsSealed toy last_key_nonce PacketType.ack 65535 last_packet
      ⊎ IsOpen two PacketType.ack 65535 last_packet)
    × (IsSealed toy last_key_nonce PacketType.ack 65535 last_packet
        ⊎ IsOpen two PacketType.ack 65535 last_packet)
    × ((last_key_nonce ≢ last_key_nonce)
        ⊎ ((PacketType.ack ≡ PacketType.ack) × (key_of last_sequence ≡ last_key)))
run-create_key_nonce_example =
    run-create_key_nonce toy two two last_state 0 two_acks toy-IsHash refl last_state-IsValid
      PacketType.ack PacketType.ack (omega arith) (omega arith) last_sequence last_sequence
      last_packet last_packet [] [] [] two_acks_sent
