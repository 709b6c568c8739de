-- ===== src/Message/Numbers.antt =====
-- Numbers that are written are read back, and texts that are no numbers are refused.
use ts_cli.Prelude.{
  ℕ, zero, suc, ◌+◌, ◌-◌, ◌*◌, ◌/◌, ◌%◌, ◌^◌, ◌<◌, ◌≤◌, ◌≢◌, ◌⊎◌, All, length, ltb, err, none, some,
  [], ◌∷◌, ok, ◌==◌, Bool-cases, ◌≡◌, inl, inr, refl, ap, sym, ◌∙◌, arith,
}
use ts_cli.Binary.{Bytes}
use native.Mathlib.Nat.{add-mul, mul_assoc}
use ts_cli.Message.{is_digit, digits, parse_unsigned, invalid_unsigned}
use ts_cli.Message.Requests.{decimal_from, decimal}

digits_step :
    (v d : ℕ) (out : Bytes) → d < 10 → digits v ((b'0' + d) ∷ out) ≡ digits (v * 10 + d) out
unfolding digits
digits_step v d out h =
    let same : v * 10 + (b'0' + d - b'0') ≡ v * 10 + d = omega arith in ground (arith, same)

-- A number of as many digits at most.
abbrev Fits : ℕ → ℕ → Type 0
Fits zero n = n ≡ 0
Fits (suc fuel) n = Fits fuel (n / 10)

digits_last : (q n : ℕ) (out : Bytes) → n / 10 ≡ q → digits q ((b'0' + n % 10) ∷ out) ≡ digits n out
digits_last q n out h =
    digits_step q (n % 10) out (omega arith) ∙ ap (λ v. digits v out) (omega arith)

digits-decimal_from :
    (fuel n : ℕ) (out : Bytes) → Fits fuel n → digits 0 (decimal_from fuel n out) ≡ digits n out
unfolding decimal_from
digits-decimal_from zero n out h = ap (λ v. digits v out) (sym h)
digits-decimal_from (suc fuel) n out h = elim (Bool-cases (n / 10 == 0)) [
  | inl last ↦ rw last (digits_last 0 n out (ground (arith, last)))
  | inr more ↦ rw more (
      digits-decimal_from fuel (n / 10) ((b'0' + n % 10) ∷ out) h ∙ digits_last (n / 10) n out refl)
]

decimal-cons :
    (fuel n : ℕ) (out : Bytes) → (c : ℕ) × (cs : Bytes) × (decimal_from (suc fuel) n out ≡ c ∷ cs)
unfolding decimal_from
decimal-cons zero n out = (b'0' + n % 10, out, ground arith)
decimal-cons (suc fuel) n out = elim (Bool-cases (n / 10 == 0)) [
  | inl last ↦ (b'0' + n % 10, out, rw last)
  | inr more ↦ rw more (decimal-cons fuel (n / 10) ((b'0' + n % 10) ∷ out))
]

Fits-64 : (n : ℕ) → n < 2 ^ 64 → Fits 20 n
Fits-64 n h = omega arith

read_back :
    (text name : Bytes) (n c : ℕ) (cs : Bytes)
    → text ≡ c ∷ cs
    → digits 0 text ≡ some n
    → n < 2 ^ 64
    → parse_unsigned text name ≡ ok n
unfolding parse_unsigned
read_back text name n c cs e d h =
    rw e (let d' : digits 0 (c ∷ cs) ≡ some n = rw e at d in ground (arith, d'))

-- Every number of 64 bits that `std::to_string` writes is read back as it was.
pub parse_unsigned-decimal :
    (n : ℕ) (name : Bytes) → n < 2 ^ 64 → parse_unsigned (decimal n) name ≡ ok n
unfolding decimal digits
parse_unsigned-decimal n name h =
    let (c, cs, e) = decimal-cons 19 n [] in
    read_back (decimal n) name n c cs e (digits-decimal_from 20 n [] (Fits-64 n h)) h

-- The numbers that a text may stand for, by the place values of its digits.
abbrev pub IsDigit : ℕ → Type 0
IsDigit c = (b'0' ≤ c) × (c ≤ b'9')

abbrev pub place_value : ℕ → ℕ
place_value zero = 1
place_value (suc n) = 10 * place_value n

abbrev pub number_of : Bytes → ℕ
number_of [] = 0
number_of (c ∷ cs) = (c - b'0') * place_value (length cs) + number_of cs

abbrev pub IsNumber : Bytes → Type 0
IsNumber text = (text ≢ []) × All IsDigit text × (number_of text < 2 ^ 64)

place_step : (v d p r : ℕ) → (v * 10 + d) * p + r ≡ v * (10 * p) + (d * p + r)
place_step v d p r = omega (arith, add-mul (v * 10) d p, mul_assoc v 10 p)

digits-number_of :
    (v : ℕ) (text : Bytes)
    → (All IsDigit text × (digits v text ≡ some (v * place_value (length text) + number_of text)))
      ⊎ ((¬ All IsDigit text) × (digits v text ≡ none))
unfolding digits
digits-number_of v [] = inl (tt, ap some (omega arith))
digits-number_of v (c ∷ cs) = elim (Bool-cases (is_digit c)) [
  | inr other ↦ inr (λ h. absurd (ground (arith, other, h.0)), rw other refl)
  | inl digit ↦ elim (digits-number_of (v * 10 + (c - b'0')) cs) [
    | inl (all, e) ↦ inl (
      (ground (arith, digit), all),
      rw digit (e ∙ ap some (place_step v (c - b'0') (place_value (length cs)) (number_of cs))),
    )
    | inr (bad, e) ↦ inr (λ h. bad (h.1), rw digit e)
  ]
]

-- A text that is not empty, whose characters are all decimal digits, and whose number, by the place values of
-- its digits, has 64 bits at most, is read as this number; every other text is refused, with an exception
-- that names the parameter.
pub parse_unsigned_lem :
    (text name : Bytes)
    → (IsNumber text × (parse_unsigned text name ≡ ok (number_of text)))
      ⊎ ((¬ IsNumber text) × (parse_unsigned text name ≡ err (invalid_unsigned name)))
unfolding parse_unsigned
parse_unsigned_lem [] name = inr (λ h. h.0 refl, refl)
parse_unsigned_lem (c ∷ cs) name = elim (digits-number_of 0 (c ∷ cs)) [
  | inr (bad, e) ↦ inr (λ h. bad (h.1), ground (arith, e))
  | inl (all, e) ↦
      let e' : digits 0 (c ∷ cs) ≡ some (number_of (c ∷ cs)) = e ∙ ap some (omega arith) in
      elim (Bool-cases (ltb (number_of (c ∷ cs)) (2 ^ 64))) [
        | inl fits ↦ inl ((λ h. cc, all, ground (arith, fits)), ground (arith, e', fits))
        | inr big ↦ inr (λ h. absurd (ground (arith, big, h.2)), ground (arith, e', big))
      ]
]
