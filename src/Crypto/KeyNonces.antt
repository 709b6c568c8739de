-- ===== src/Crypto/KeyNonces.antt =====
-- Two packets of a session have different keys or nonces.
use ts_cli.Prelude.{
  ℕ, zero, suc, ◌/◌, ◌%◌, ◌^◌, ◌≤◌, ◌<◌, Bool, true, ◌&&◌, [], ◌∷◌, length, get_or, take, drop, All,
  length-take, ==_iff, ◌≡◌, refl, ap, sym, ◌∙◌, arith, ◌==◌,
}
use Prim.Native.Nat.{bit_xor}
use ts_cli.Binary.{Bytes, IsByte, IsU16, IsU32}
use ts_cli.Crypto.{Primitives, digest_input, mix_id, create_key_nonce}

-- Every byte is tried.
every : ℕ → (ℕ → Bool) → Bool
every zero test = true
every (suc n) test = test n && every n test

every_lem : (n : ℕ) (test : ℕ → Bool) (x : ℕ) → every n test ≡ true → x < n → test x ≡ true
unfolding every
every_lem zero test x h below = absurd (omega arith)
every_lem (suc n) test x h below = ground (arith, every_lem n test x)

undone : every 256 (λ x. every 256 (λ y. bit_xor (bit_xor x y) x == y)) ≡ true
unfolding every
undone = refl

bit_xor-bit_xor : (x y : ℕ) → x < 256 → y < 256 → bit_xor (bit_xor x y) x ≡ y
bit_xor-bit_xor x y small small' =
    let row = every_lem 256 (λ x. every 256 (λ y. bit_xor (bit_xor x y) x == y)) x undone small in
    (==_iff (bit_xor (bit_xor x y) x) y).0
      (every_lem 256 (λ y. bit_xor (bit_xor x y) x == y) y row small')

bit_xor-injective : (x y z : ℕ) → x < 256 → y < 256 → z < 256 → bit_xor x y ≡ bit_xor x z → y ≡ z
bit_xor-injective x y z fx fy fz e =
    sym (bit_xor-bit_xor x y fx fy) ∙ ap (λ k. bit_xor k x) e ∙ bit_xor-bit_xor x z fx fz

mix_id-injective :
    (ds : Bytes) (i j : ℕ)
    → 2 ≤ length ds
    → All IsByte ds
    → IsU16 i
    → IsU16 j
    → mix_id ds i ≡ mix_id ds j
    → i ≡ j
unfolding mix_id
mix_id-injective [] i j long bytes fi fj e = absurd (omega arith)
mix_id-injective (a ∷ []) i j long bytes fi fj e = absurd (omega arith)
mix_id-injective (a ∷ b ∷ rest) i j long bytes fi fj e =
    let high =
      bit_xor-injective a (i / 2 ^ 8 % 256) (j / 2 ^ 8 % 256) (bytes.0) (omega arith) (omega arith)
        (ap (λ xs. get_or xs 0 0) e) in
    let low =
      bit_xor-injective b (i % 256) (j % 256) (bytes.1.0) (omega arith) (omega arith)
        (ap (λ xs. get_or xs 1 0) e) in
    omega (arith, high, low)

drop-mix_id : (ds : Bytes) (i : ℕ) → drop 2 (mix_id ds i) ≡ drop 2 ds
unfolding mix_id
drop-mix_id [] i = refl
drop-mix_id (a ∷ []) i = refl
drop-mix_id (a ∷ b ∷ rest) i = refl

-- A digest has 32 bytes, and what of it the packet ID is not mixed into tells the types and the
-- generations of a session apart.
pub record IsHash (p : Primitives) (shared_iv : Bytes) : Type 0 where
  pub size : (text : Bytes) → length (p.sha256 text) ≡ 32
  pub bytes : (text : Bytes) → All IsByte (take 16 (p.sha256 text))
  pub distinct :
      (type generation type' generation' : ℕ)
      → IsByte type
      → IsU32 generation
      → IsByte type'
      → IsU32 generation'
      → (let digest = p.sha256 (digest_input shared_iv type true generation) in
          let digest' = p.sha256 (digest_input shared_iv type' true generation') in
          (drop 2 (take 16 digest) ≡ drop 2 (take 16 digest'))
          × (take 16 (drop 16 digest) ≡ take 16 (drop 16 digest')))
      → (type ≡ type') × (generation ≡ generation')

-- The key and the nonce tell the type, the packet ID and the generation.
pub create_key_nonce-injective :
    (p : Primitives) (shared_iv : Bytes)
    (type packet_id generation type' packet_id' generation' : ℕ)
    → IsHash p shared_iv
    → IsByte type
    → IsU16 packet_id
    → IsU32 generation
    → IsByte type'
    → IsU16 packet_id'
    → IsU32 generation'
    → create_key_nonce p shared_iv type true packet_id generation
      ≡ create_key_nonce p shared_iv type' true packet_id' generation'
    → (type ≡ type') × (packet_id ≡ packet_id') × (generation ≡ generation')
unfolding create_key_nonce
create_key_nonce-injective p shared_iv type packet_id generation type' packet_id' generation' hash
      ft fi fg ft' fi' fg' e =
    let digest = take 16 (p.sha256 (digest_input shared_iv type true generation)) in
    let digest' = take 16 (p.sha256 (digest_input shared_iv type' true generation')) in
    let keys : mix_id digest packet_id ≡ mix_id digest' packet_id' = ap (λ x. x.0) e in
    let rest =
      sym (drop-mix_id digest packet_id) ∙ ap (drop 2) keys ∙ drop-mix_id digest' packet_id' in
    let (types, generations) =
      hash.distinct type generation type' generation' ft fg ft' fg' (rest, ap (λ x. x.1) e) in
    let same : digest' ≡ digest = rw (types, generations) refl in
    let whole = hash.size (digest_input shared_iv type true generation) in
    let long : 2 ≤ length digest =
      omega
        (arith, length-take 16 (p.sha256 (digest_input shared_iv type true generation)), whole) in
    let ids : mix_id digest packet_id ≡ mix_id digest packet_id' =
      keys ∙ ap (λ d. mix_id d packet_id') same in
    (
      types,
      mix_id-injective digest packet_id packet_id' long
          (hash.bytes (digest_input shared_iv type true generation)) fi fi' ids,
      generations,
    )
