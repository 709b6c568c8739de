-- ===== src/Transport/Runs/Headers.antt =====
-- The bytes of a packet that is made bear its type and the ID of its sequence.
use Prim.Native.Nat.{bit_or}
use ts_cli.Prelude.{ℕ, ◌/◌, ◌%◌, ◌^◌, true, false, [], ◌∷◌, ◌++◌, length, ◌≡◌, ◌∙◌}
use ts_cli.Binary.{Bytes}
use ts_cli.Packet.PacketFlags
use ts_cli.Packet.Codec.{write_client_meta}
use ts_cli.Packet.Codec.RoundTrip.{write_client_header-append}
use ts_cli.Packet.Sequence.{PacketSequence}
use ts_cli.Transport.{SessionCrypto}
use ts_cli.Transport.Sending.{header_of, create_encrypted_packet, create_unencrypted_packet}
use ts_cli.Transport.Fresh.{IsMade}

-- The five bytes of a client's header behind the MAC
abbrev pub client_meta : ℕ → ℕ → ℕ → ℕ → Bytes
client_meta type packet_id client_id flags =
    packet_id / 2 ^ 8 % 256
    ∷ packet_id % 256
    ∷ client_id / 2 ^ 8 % 256
    ∷ client_id % 256
    ∷ bit_or type flags
    ∷ []

-- A MAC of eight bytes, and the type and the packet ID behind it
abbrev pub Bears : ℕ → PacketSequence → Bytes → Type 0
Bears type q b =
    (mac : Bytes) × (client_id : ℕ) × (flags : ℕ) × (rest : Bytes) × (length mac ≡ 8)
    × (b ≡ mac ++ (client_meta type q.packet_id client_id flags ++ rest))

pub record HasMacs (crypto : SessionCrypto) : Type 0 where
  pub encrypted :
      (type id generation : ℕ) (meta text : Bytes)
      → length (crypto.encrypt_client type id generation meta text).0 ≡ 8
  pub shared : length crypto.shared_mac ≡ 8

module _ (crypto : SessionCrypto) where
  -- What an encrypted packet is, written out.
  pub create_encrypted_packet-append :
      (type flags : ℕ) (payload : Bytes) (q : PacketSequence) (client_id : ℕ)
      → (let sealed =
            crypto.encrypt_client type q.packet_id q.generation_id
              (client_meta type q.packet_id client_id flags)
              payload in
          create_encrypted_packet crypto type flags payload q client_id
          ≡ sealed.0 ++ (client_meta type q.packet_id client_id flags ++ sealed.1))
  unfolding create_encrypted_packet write_client_meta ts_cli.Binary.write_u8 ts_cli.Binary.write_u16
  create_encrypted_packet-append type flags payload q client_id =
      let sealed =
        crypto.encrypt_client type q.packet_id q.generation_id
          (client_meta type q.packet_id client_id flags) payload in
      write_client_header-append (header_of sealed.0 q.packet_id client_id type flags) sealed.1

  pub create_unencrypted_packet-append :
      (type flags : ℕ) (payload : Bytes) (q : PacketSequence) (client_id : ℕ)
      → create_unencrypted_packet crypto type flags payload q client_id
        ≡ crypto.shared_mac
          ++ (client_meta type q.packet_id client_id (bit_or flags PacketFlags.unencrypted)
              ++ payload)
  unfolding create_unencrypted_packet PacketFlags.join_flags
  create_unencrypted_packet-append type flags payload q client_id =
      write_client_header-append
        (header_of crypto.shared_mac q.packet_id client_id type
          (bit_or flags PacketFlags.unencrypted))
        payload

  pub IsMade-Bears :
      (type : ℕ) (q : PacketSequence) (b : Bytes)
      → HasMacs crypto
      → IsMade crypto type q b
      → Bears type q b
  IsMade-Bears type q b macs (true, flags, payload, client_id, e) =
      let meta = client_meta type q.packet_id client_id flags in
      let sealed = crypto.encrypt_client type q.packet_id q.generation_id meta payload in
      (
        sealed.0,
        client_id,
        flags,
        sealed.1,
        macs.encrypted type q.packet_id q.generation_id meta payload,
        e ∙ create_encrypted_packet-append type flags payload q client_id,
      )
  IsMade-Bears type q b macs (false, flags, payload, client_id, e) = (
    crypto.shared_mac,
    client_id,
    bit_or flags PacketFlags.unencrypted,
    payload,
    macs.shared,
    e ∙ create_unencrypted_packet-append type flags payload q client_id,
  )
