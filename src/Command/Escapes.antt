-- ===== src/Command/Escapes.antt =====
-- Values survive their escapes, and escaped values have no separators.
use ts_cli.Prelude.{
  ℕ, Bool, false, not, ◌||◌, List, [], ◌∷◌, ◌++◌, Result, ok, err, >>=-returns, ◌==◌, All,
  if◌then◌else◌, Bool-cases, Result-cases, ◌≡◌, ◌≢◌, inl, inr, refl, arith,
}
use ts_cli.Binary.{Bytes}
use ts_cli.Command.{CommandError, null_byte}
use ts_cli.Command.Parser.{unescape, decode_from, decode_value}
use ts_cli.Command.Writer.{encode_character, encode_value}

-- No space, no row separator, no newline and no null byte.
abbrev pub IsPlain : ℕ → Type 0
IsPlain c = (c ≢ b' ') × (c ≢ b'|') × (c ≢ b'\n') × (c ≢ b'\r') × (c ≢ 0)

-- The letter behind the backslash.
letter : ℕ → ℕ
letter c =
    if c == b' '
    then b's'
    else if c == b'|'
    then b'p'
    else if c == 0x07
    then b'a'
    else if c == 0x08
    then b'b'
    else if c == 0x0c
    then b'f'
    else if c == b'\n'
    then b'n'
    else if c == b'\r'
    then b'r'
    else if c == b'\t'
    then b't'
    else if c == 0x0b
    then b'v'
    else c

-- A character is refused, or stands for itself, or is escaped.
data Encoded (c : ℕ) (r : Result CommandError Bytes) : Type 0 where
  refused : r ≡ err null_byte → c ≡ 0 → Encoded c r
  itself : r ≡ ok (c ∷ []) → IsPlain c → c ≢ b'\\' → Encoded c r
  escaped :
      r ≡ ok (b'\\' ∷ letter c ∷ []) → IsPlain (letter c) → unescape (letter c) ≡ ok c → Encoded c r

is_escaped : ℕ → Bool
is_escaped c = c == b'\\' || c == b'/' || not (letter c == c)

encode_character_cases : (c : ℕ) → Encoded c (encode_character c)
unfolding encode_character letter unescape is_escaped
encode_character_cases c = elim (Bool-cases (is_escaped c)) [
  | inl yes' ↦ escaped (ground arith) (ground arith) (ground arith)
  | inr no' ↦ elim (Bool-cases (c == 0)) [
    | inl null ↦ refused (ground arith) (ground arith)
    | inr plain ↦ itself (ground arith) (ground arith) (ground arith)
  ]
]

decode_from-append :
    (c : ℕ) (e rest v : Bytes)
    → Encoded c (ok e)
    → decode_from false rest ≡ ok v
    → decode_from false (e ++ rest) ≡ ok (c ∷ v)
unfolding decode_from
decode_from-append c e rest v (refused h z) d = absurd (ground (arith, h))
decode_from-append c e rest v (itself h p n) d =
    let one : e ≡ c ∷ [] = ground (arith, h) in rw one (ground (arith, d))
decode_from-append c e rest v (escaped h p u) d =
    let two : e ≡ b'\\' ∷ letter c ∷ [] = ground (arith, h) in rw two (ground (arith, u, d))

Encoded-IsPlain : (c : ℕ) (e : Bytes) → Encoded c (ok e) → All IsPlain e
Encoded-IsPlain c e (refused h z) = absurd (ground (arith, h))
Encoded-IsPlain c e (itself h p n) = let one : e ≡ c ∷ [] = ground (arith, h) in rw one (p, tt)
Encoded-IsPlain c e (escaped h p u) =
    let two : e ≡ b'\\' ∷ letter c ∷ [] = ground (arith, h) in rw two (ground arith, (p, tt))

All-append {ℓ} :
    {A : Type ℓ} (P : A → Type 0) (xs ys : List A) → All P xs → All P ys → All P (xs ++ ys)
All-append P [] ys p q = q
All-append P (x ∷ xs) ys p q = (p.0, All-append P xs ys p.1 q)

pub encode_value_lem :
    (v e : Bytes) → encode_value v ≡ ok e → (decode_value e ≡ ok v) × All IsPlain e
unfolding encode_value decode_value decode_from
encode_value_lem [] e h = let none_left : e ≡ [] = ground (arith, h) in rw none_left (refl, tt)
encode_value_lem (c ∷ v) e h =
    let (a, ha, h') = >>=-returns (encode_character c) _ h in
    let (b, hb, h'') = >>=-returns (encode_value v) _ h' in
    let both : e ≡ a ++ b = ground (arith, h'') in
    let (ih, plain) = encode_value_lem v b hb in
    let encoded : Encoded c (ok a) = rw ha at (encode_character_cases c) in
    rw both (
      decode_from-append c a b v encoded ih,
      All-append IsPlain a b (Encoded-IsPlain c a encoded) plain,
    )

refused_null : (c : ℕ) (x : CommandError) → Encoded c (err x) → c ≡ 0
refused_null c x (refused h z) = z
refused_null c x (itself h p n) = absurd (ground (arith, h))
refused_null c x (escaped h p u) = absurd (ground (arith, h))

-- A value without a null byte is always encoded.
encode_value_total : (v : Bytes) → All (λ c. c ≢ 0) v → (e : Bytes) × (encode_value v ≡ ok e)
unfolding encode_value
encode_value_total [] h = ([], refl)
encode_value_total (c ∷ v) (n, h) = elim (Result-cases (encode_character c)) [
  | inr (x, f) ↦ absurd (n (refused_null c x (rw f at (encode_character_cases c))))
  | inl (a, f) ↦ let (b, g) = encode_value_total v h in (a ++ b, ground (arith, f, g))
]

-- `EncodeValue` encodes every value without a null byte, and `DecodeValue` gives it back; the encoded
-- text has no space, no `|`, no newline and no null byte.
pub decode_value-encode_value :
    (v : Bytes)
    → All (λ c. c ≢ 0) v
    → (e : Bytes) × (encode_value v ≡ ok e) × (decode_value e ≡ ok v) × All IsPlain e
decode_value-encode_value v h =
    let (e, q) = encode_value_total v h in let (d, p) = encode_value_lem v e q in (e, q, d, p)
