-- ===== src/Crypto.antt =====
-- protocol/src/crypto: aes_eax.cpp and session_crypto.cpp, over the AES, CMAC and SHA-256 of the library
-- that they call. Its calls are taken to succeed, and a text to have less than 2^31 bytes.
pub mod Sealed
pub mod KeyNonces
pub mod Sessions
use ts_cli.Prelude.{
  ℕ, ◌/◌, ◌%◌, ◌^◌, Bool, true, false, ◌||◌, Option, none, some, [], ◌∷◌, ◌++◌, Result, ok, err,
  ltb, length, take, drop, replicate, if◌then◌else◌, bytes_eq, ◌==◌,
}
use Prim.Native.Nat.{bit_xor}
use ts_cli.Binary.{Bytes}
use ts_cli.Packet.{ServerPacket}
use ts_cli.Transport.{SessionCrypto}

pub data CryptoError : Type 0 where
  invalid_tag_size : CryptoError

-- `AesEaxEncryptedData`
pub record Encrypted : Type 0 where
  pub tag : Bytes
  pub content : Bytes

-- Bytes, combined one by one
unfoldable pub xor_bytes : Bytes → Bytes → Bytes
xor_bytes [] ys = []
xor_bytes (x ∷ xs) [] = []
xor_bytes (x ∷ xs) (y ∷ ys) = bit_xor x y ∷ xor_bytes xs ys

-- What the code calls: the CMAC of a text, and AES-128 in counter mode from a counter, each with a key;
-- and SHA-256.
pub record Primitives : Type 0 where
  pub cmac : Bytes → Bytes → Bytes
  pub ctr : Bytes → Bytes → Bytes → Bytes
  pub sha256 : Bytes → Bytes

-- The array that is hashed
abbrev pub digest_input : Bytes → ℕ → Bool → ℕ → Bytes
digest_input shared_iv type client_to_server generation =
    (if client_to_server then 0x31 else 0x30)
    ∷ type
    ∷ (generation / 2 ^ 24 % 256)
    ∷ (generation / 2 ^ 16 % 256)
    ∷ (generation / 2 ^ 8 % 256)
    ∷ (generation % 256)
    ∷ shared_iv

-- The packet ID goes into the first two bytes of the key.
unfoldable pub mix_id : Bytes → ℕ → Bytes
mix_id (a ∷ b ∷ rest) packet_id =
    bit_xor a (packet_id / 2 ^ 8 % 256) ∷ bit_xor b (packet_id % 256) ∷ rest
mix_id (a ∷ []) packet_id = a ∷ []
mix_id [] packet_id = []

module _ (p : Primitives) where
  -- `Omac`
  abbrev pub omac : Bytes → ℕ → Bytes → Bytes
  omac key domain text = p.cmac key (replicate 15 0 ++ (domain ∷ text))

  -- `ComputeTag`
  abbrev pub compute_tag : Bytes → Bytes → Bytes → Bytes → Bytes
  compute_tag key nonce_tag associated ciphertext =
      xor_bytes (xor_bytes nonce_tag (omac key 1 associated)) (omac key 2 ciphertext)

  -- `AesEax::Encrypt`
  unfoldable pub encrypt : Bytes → Bytes → Bytes → Bytes → Encrypted
  encrypt key nonce associated text =
      let nonce_tag = omac key 0 nonce in
      let ciphertext = p.ctr key nonce_tag text in
      record { tag = compute_tag key nonce_tag associated ciphertext; content = ciphertext }

  -- `AesEax::Decrypt`
  unfoldable pub decrypt : Bytes → Bytes → Bytes → Bytes → Bytes → Result CryptoError (Option Bytes)
  decrypt key nonce associated ciphertext tag =
      if length tag == 0 || ltb 16 (length tag)
      then err invalid_tag_size
      else (let nonce_tag = omac key 0 nonce in
          let expected = compute_tag key nonce_tag associated ciphertext in
          ok (
            if bytes_eq tag (take (length tag) expected)
            then some (p.ctr key nonce_tag ciphertext)
            else none))

  -- `CreateKeyNonce`: the key, and the nonce
  unfoldable pub create_key_nonce : Bytes → ℕ → Bool → ℕ → ℕ → Bytes × Bytes
  create_key_nonce shared_iv type client_to_server packet_id generation =
      let digest = p.sha256 (digest_input shared_iv type client_to_server generation) in
      (mix_id (take 16 digest) packet_id, take 16 (drop 16 digest))

  -- `EncryptClient`: the MAC is the tag's first 8 bytes.
  unfoldable pub encrypt_client : Bytes → ℕ → ℕ → ℕ → Bytes → Bytes → Bytes × Bytes
  encrypt_client shared_iv type packet_id generation meta text =
      let (key, nonce) = create_key_nonce shared_iv type true packet_id generation in
      let encrypted = encrypt key nonce meta text in (take 8 encrypted.tag, encrypted.content)

  abbrev opened : Result CryptoError (Option Bytes) → Option Bytes
  opened (ok text) = text
  opened (err e) = none

  -- `DecryptServer`: none for either exception
  unfoldable pub decrypt_server : Bytes → ServerPacket → ℕ → Option Bytes
  decrypt_server shared_iv packet generation =
      let (key, nonce) =
        create_key_nonce shared_iv packet.header.packet_type false packet.header.packet_id
          generation in
      opened (decrypt key nonce packet.meta packet.payload packet.header.mac)

  abbrev pub session_crypto : Bytes → Bytes → SessionCrypto
  session_crypto shared_iv shared_mac = record {
    encrypt_client = encrypt_client shared_iv;
    decrypt_server = decrypt_server shared_iv;
    shared_mac = shared_mac;
  }
