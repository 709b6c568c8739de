-- ===== src/Crypto/Sessions.antt =====
-- A session that is encrypted uses no key and nonce for two packets.
use ts_cli.Prelude.{
  ℕ, ◌<◌, true, false, List, ◌∷◌, ◌++◌, ok, length, take, ◌≡◌, ◌≢◌, ◌⊎◌, inl, inr, ◌==◌, ◌&&◌,
  Bool-cases, ap, sym, ◌∙◌, arith,
}
use Prim.Native.Nat.{bit_or}
use mathlib.Core.Path.{subst}
use ts_cli.Binary.{Bytes}
use ts_cli.Packet.Sequence.{PacketSequence, key_of, sequence_key}
use ts_cli.Packet.Sequence.Keys.{IsValid}
use ts_cli.Packet.SequenceState.{PacketSequenceState, outgoing_of, tracked_packet_type_count}
use ts_cli.Transport.{Transmission, fresh, new_transport}
use ts_cli.Transport.Operations.{Operation, run}
use ts_cli.Packet.PacketFlags
use ts_cli.Transport.Fresh.{IsMade, IsBefore, last_key}
use ts_cli.Transport.Runs.Headers.{
  client_meta, create_encrypted_packet-append, create_unencrypted_packet-append,
}
use ts_cli.Transport.Runs.Keys.{run-Descends, run-ordered, split_log}
use ts_cli.Crypto.{Primitives, encrypt, encrypt_client, create_key_nonce, session_crypto}
use ts_cli.Crypto.KeyNonces.{IsHash, create_key_nonce-injective}

-- The bytes of a packet that is encrypted under a key and a nonce: the tag's first 8 bytes, the type and
-- the packet ID, and the encrypted text
abbrev pub IsSealed : Primitives → Bytes × Bytes → ℕ → ℕ → Bytes → Type 0
IsSealed p (key, nonce) type packet_id b =
    (client_id : ℕ) × (flags : ℕ) × (text : Bytes) × (let meta =
        client_meta type packet_id client_id flags in
      let sealed = encrypt p key nonce meta text in
      b ≡ take 8 sealed.tag ++ (meta ++ sealed.content))

-- Those of one that is not encrypted, which has a flag of its own
abbrev pub IsOpen : Bytes → ℕ → ℕ → Bytes → Type 0
IsOpen shared_mac type packet_id b =
    (client_id : ℕ) × (flags : ℕ) × (text : Bytes) × (b
      ≡ shared_mac
        ++ (client_meta type packet_id client_id (bit_or flags PacketFlags.unencrypted) ++ text))

IsMade-IsSealed :
    (p : Primitives) (shared_iv shared_mac : Bytes) (type : ℕ) (q : PacketSequence) (b : Bytes)
    → IsMade (session_crypto p shared_iv shared_mac) type q b
    → IsSealed p
        (create_key_nonce p shared_iv type true q.packet_id q.generation_id)
        type
        q.packet_id
        b
      ⊎ IsOpen shared_mac type q.packet_id b
unfolding encrypt_client
IsMade-IsSealed p shared_iv shared_mac type q b (true, flags, payload, client_id, e) = inl (
  client_id,
  flags,
  payload,
  e
      ∙ create_encrypted_packet-append (session_crypto p shared_iv shared_mac) type flags payload q
          client_id,
)
IsMade-IsSealed p shared_iv shared_mac type q b (false, flags, payload, client_id, e) = inr (
  client_id,
  flags,
  payload,
  e
      ∙ create_unencrypted_packet-append (session_crypto p shared_iv shared_mac) type flags payload
          q client_id,
)

-- Keys and nonces differ where the types or the keys of the sequences do.
create_key_nonce-distinct :
    (p : Primitives) (shared_iv : Bytes) (type type' : ℕ) (q q' : PacketSequence)
    → IsHash p shared_iv
    → type < tracked_packet_type_count
    → type' < tracked_packet_type_count
    → IsValid q
    → IsValid q'
    → (type ≡ type' → IsBefore (key_of q') (key_of q))
    → (create_key_nonce p shared_iv type true q.packet_id q.generation_id
        ≢ create_key_nonce p shared_iv type' true q'.packet_id q'.generation_id)
      ⊎ ((type ≡ type') × (key_of q ≡ last_key))
unfolding key_of
create_key_nonce-distinct p shared_iv type type' q q' hash small small' fits fits' ordered =
    elim (Bool-cases (type == type' && key_of q == last_key)) [
      | inl last ↦ inr (ground (arith, last), ground (arith, last))
      | inr other ↦ inl (λ e.
          let (types, ids, generations) =
            create_key_nonce-injective p shared_iv type q.packet_id q.generation_id type'
              q'.packet_id q'.generation_id hash (omega arith) fits.id_fits fits.generation_fits
              (omega arith) fits'.id_fits fits'.generation_fits e in
          let same : key_of q ≡ key_of q' =
            ap (λ i. sequence_key i q.generation_id) ids
            ∙ ap (λ g. sequence_key q'.packet_id g) generations in
          let before = ordered types in absurd (ground (arith, other, types, same, before)))
    ]

-- In a session that encrypts with SessionCrypto and whose eight outgoing sequences begin valid, whatever
-- calls of the public functions, of SendEncrypted and of SendUnencrypted are made, with whatever datagrams
-- received and whatever exceptions thrown: each of two packets that are sent for the first time bears its
-- type, joined with some flags, and its packet ID, and either is encrypted, with its header as associated bytes, under the key and
-- nonce of its type, packet ID and generation, or bears the shared MAC and the flag of a packet that
-- is not; and these keys and nonces of the two packets differ, or both have the same type and the later
-- one the last key of all sequences, 2^48 - 1. The hash keeps the types and generations of the session
-- apart, also in the bytes that the packet ID is not mixed into; the types are among the eight that have a
-- sequence.
pub run-create_key_nonce :
    (p : Primitives) (shared_iv shared_mac : Bytes) (m : PacketSequenceState) (start : ℕ)
    (os : List Operation)
    → IsHash p shared_iv
    → length m.outgoing ≡ tracked_packet_type_count
    → ((type : ℕ) (q : PacketSequence) → outgoing_of type m ≡ ok q → IsValid q)
    → (type type' : ℕ) → type < tracked_packet_type_count
    → type' < tracked_packet_type_count
    → (q q' : PacketSequence) (b b' : Bytes) (later between earlier : List Transmission)
    → (run (session_crypto p shared_iv shared_mac) os (new_transport m start)).sent
      ≡ later ++ (fresh type q b ∷ (between ++ (fresh type' q' b' ∷ earlier)))
    → (let used = create_key_nonce p shared_iv type true q.packet_id q.generation_id in
        let used' = create_key_nonce p shared_iv type' true q'.packet_id q'.generation_id in
        (IsSealed p used type q.packet_id b ⊎ IsOpen shared_mac type q.packet_id b)
        × (IsSealed p used' type' q'.packet_id b' ⊎ IsOpen shared_mac type' q'.packet_id b')
        × ((used ≢ used') ⊎ ((type ≡ type') × (key_of q ≡ last_key))))
run-create_key_nonce p shared_iv shared_mac m start os hash tracked valid type type' small small' q
      q' b b' later between earlier logged =
    let crypto = session_crypto p shared_iv shared_mac in
    let (made, fits, rest) =
      run-Descends crypto m start os tracked valid type small q b later
        (between ++ (fresh type' q' b' ∷ earlier)) logged in
    let (made', fits', rest') =
      run-Descends crypto m start os tracked valid type' small' q' b'
        (later ++ (fresh type q b ∷ between)) earlier
        (logged ∙ split_log later between (fresh type q b) (fresh type' q' b') earlier) in
    (
      IsMade-IsSealed p shared_iv shared_mac type q b made,
      IsMade-IsSealed p shared_iv shared_mac type' q' b' made',
      create_key_nonce-distinct p shared_iv type type' q q' hash small small' fits fits' (λ types.
          run-ordered crypto m start os tracked valid type small q q' b b' later between earlier (
            subst
              (λ t.
                (run crypto os (new_transport m start)).sent
                ≡ later ++ (fresh type q b ∷ (between ++ (fresh t q' b' ∷ earlier))))
              (sym types) logged)),
    )
