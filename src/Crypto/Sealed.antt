-- ===== src/Crypto/Sealed.antt =====
-- What has been encrypted can be decrypted, by its tag's beginning.
use ts_cli.Prelude.{
  ℕ, suc, ◌≤◌, true, false, ◌||◌, some, [], ◌∷◌, ◌++◌, ok, ltb, length, take, replicate,
  length-take, ◌≡◌, refl, ap, sym, ◌∙◌, bytes_eq, bytes_eq_iff, arith, ◌==◌,
}
use ts_cli.Binary.{Bytes}
use ts_cli.Packet.{ServerPacket}
use ts_cli.Crypto.{
  xor_bytes, Primitives, omac, compute_tag, encrypt, decrypt, create_key_nonce, decrypt_server,
}

length-xor_bytes : (xs ys : Bytes) → length xs ≡ length ys → length (xor_bytes xs ys) ≡ length xs
unfolding xor_bytes
length-xor_bytes [] ys h = refl
length-xor_bytes (x ∷ xs) [] h = absurd (omega arith)
length-xor_bytes (x ∷ xs) (y ∷ ys) h = ap suc (length-xor_bytes xs ys (omega arith))

-- A CMAC has 16 bytes, and counter mode is its own inverse.
pub record AreSound (p : Primitives) : Type 0 where
  pub tag_size : (key text : Bytes) → length (p.cmac key text) ≡ 16
  pub inverse : (key counter text : Bytes) → p.ctr key counter (p.ctr key counter text) ≡ text

length-compute_tag :
    (p : Primitives) (key nonce associated text : Bytes)
    → AreSound p
    → length (compute_tag p key (omac p key 0 nonce) associated text) ≡ 16
length-compute_tag p key nonce associated text sound =
    let a = omac p key 0 nonce in
    let b = omac p key 1 associated in
    let c = omac p key 2 text in
    let la : length a ≡ 16 = sound.tag_size key (replicate 15 0 ++ (0 ∷ nonce)) in
    let lb : length b ≡ 16 = sound.tag_size key (replicate 15 0 ++ (1 ∷ associated)) in
    let lc : length c ≡ 16 = sound.tag_size key (replicate 15 0 ++ (2 ∷ text)) in
    let lab : length (xor_bytes a b) ≡ 16 = length-xor_bytes a b (la ∙ sym lb) ∙ la in
    length-xor_bytes (xor_bytes a b) c (lab ∙ sym lc) ∙ lab

-- With the CMAC and the counter mode as documented: what is encrypted under a key, a nonce and some
-- associated bytes is decrypted under the same, with any beginning of its tag, from 1 to all 16 bytes.
pub decrypt-encrypt :
    (p : Primitives) (key nonce associated text : Bytes) (n : ℕ)
    → AreSound p
    → 1 ≤ n
    → n ≤ 16
    → decrypt p key nonce associated
        (encrypt p key nonce associated text).content
        (take n (encrypt p key nonce associated text).tag)
      ≡ ok (some text)
unfolding decrypt encrypt
decrypt-encrypt p key nonce associated text n sound low high =
    let tag = (encrypt p key nonce associated text).tag in
    let whole =
      length-compute_tag p key nonce associated (p.ctr key (omac p key 0 nonce) text) sound in
    let size : length (take n tag) ≡ n = omega (arith, length-take n tag, whole) in
    let fits : (length (take n tag) == 0 || ltb 16 (length (take n tag))) ≡ false =
      ground (arith, size) in
    let same : bytes_eq (take n tag) (take (length (take n tag)) tag) ≡ true =
      (bytes_eq_iff (take n tag) (take (length (take n tag)) tag)).1
        (ap (λ k. take k tag) (sym size)) in
    rw (fits, same, sound.inverse key (omac p key 0 nonce) text) refl

-- A packet whose payload and MAC were made with the server's key and nonce of its type, packet ID and
-- generation, over the bytes of its header, is decrypted to what was encrypted.
pub decrypt_server-encrypt :
    (p : Primitives) (shared_iv text : Bytes) (generation : ℕ) (packet : ServerPacket)
    → AreSound p
    → (let (key, nonce) =
          create_key_nonce p shared_iv packet.header.packet_type false packet.header.packet_id
            generation in
        (packet.payload ≡ (encrypt p key nonce packet.meta text).content)
        × (packet.header.mac ≡ take 8 (encrypt p key nonce packet.meta text).tag))
    → decrypt_server p shared_iv packet generation ≡ some text
unfolding decrypt_server
decrypt_server-encrypt p shared_iv text generation packet sound made =
    let (key, nonce) =
      create_key_nonce p shared_iv packet.header.packet_type false packet.header.packet_id
        generation in
    rw
      (
        made.0,
        made.1,
        decrypt-encrypt p key nonce packet.meta text 8 sound (omega arith) (omega arith),
      )
      refl
