-- ===== src/QuickLz/Steps.antt =====
-- Each decoding step of quick_lz.cpp keeps the decoder sound and writes a byte at least.
use ts_cli.Prelude.{
  ℕ, zero, suc, ◌+◌, ◌-◌, ◌*◌, ◌/◌, ◌^◌, ◌≤◌, ◌<◌, Bool, true, false, Option, some, Result, ok, err,
  ◌>>=◌, ◌>>◌, throw_if, ltb, leb, ◌==◌, length, get_or, Bool-cases, Result-cases, ◌≡◌, inl, inr,
  refl, ◌∙◌, arith,
}
use Prim.Native.Nat.{bit_and}
use ts_cli.Binary.{Bytes, sub64}
use ts_cli.QuickLz.{
  require_source, bad_control_word, QuickLzError, end_of_data, Decoder, beyond, copy_byte,
  decode_literal, read_control_word, decode_tail, copy_match, match_length, copy_reference,
  decode_reference, is_tail, round, refill,
}
use ts_cli.QuickLz.Bounds.{
  IsPossible, IsSound, Keeps, update_hash_upto-IsSound, update_hash_upto-destination,
  copy_byte-IsSound, length-copy_match,
}

lt→not_leb : (a b : ℕ) → b < a → leb a b ≡ false
lt→not_leb a b h = ground arith

ltb-false : (a b : ℕ) → ltb a b ≡ false → b ≤ a
ltb-false a b h = ground arith

match_length_taken :
    (span : Bytes) (d : Decoder) (encoded : ℕ) {n taken : ℕ}
    → length span < 2 ^ 64
    → d.source_position + 2 ≤ length span
    → match_length span d encoded ≡ ok (n, taken)
    → d.source_position + taken ≤ length span
unfolding match_length
match_length_taken span d encoded {n} {taken} fits h e = ground arith

pub IsPossible-end : (x : QuickLzError) → x ≡ end_of_data → IsPossible x
IsPossible-end x h = ((λ e. cc), (λ e. cc), (λ e. cc))

match_length_err :
    (span : Bytes) (d : Decoder) (encoded : ℕ) {x : QuickLzError}
    → match_length span d encoded ≡ err x
    → x ≡ end_of_data
unfolding match_length
match_length_err span d encoded {x} e = ground arith

taken-IsSound :
    {span : Bytes} {size : ℕ} {d : Decoder} (n : ℕ)
    → d.source_position + n ≤ length span
    → IsSound span size d
    → IsSound span size (record d { source_position = d.source_position + n })
taken-IsSound n h s = record {
  source_within = h;
  destination_within = s.destination_within;
  output_size = s.output_size;
  entries = s.entries;
}

-- A step that ends the loop: the output is full.
abbrev Fills : Bytes → ℕ → Result QuickLzError Decoder → Type 0
Fills span size (ok d) = IsSound span size d × (d.destination_position ≡ size)
Fills span size (err e) = IsPossible e

abbrev pub Advances : Bytes → ℕ → Decoder → Result QuickLzError (Bool × ℕ × Decoder) → Type 0
Advances span size d (ok (true, c, d')) = IsSound span size d' × (d'.destination_position ≡ size)
Advances span size d (ok (false, c, d')) =
    IsSound span size d' × (d.destination_position < d'.destination_position)
Advances span size d (err e) = IsPossible e

Keeps-Advances :
    (span : Bytes) (size c : ℕ) (d : Decoder) (r : Result QuickLzError Decoder)
    → Keeps span size d r
    → Advances span size d (r >>= λ d'. ok (false, c, d'))
Keeps-Advances span size c d (ok d') k = k
Keeps-Advances span size c d (err e) k = k

Fills-Advances :
    (span : Bytes) (size c : ℕ) (d : Decoder) (r : Result QuickLzError Decoder)
    → Fills span size r
    → Advances span size d (r >>= λ d'. ok (true, c, d'))
Fills-Advances span size c d (ok d') k = k
Fills-Advances span size c d (err e) k = k

-- A control word is read without a write.
abbrev pub Refilled : Bytes → ℕ → Decoder → Result QuickLzError (ℕ × Decoder) → Type 0
Refilled span size d (ok (c, d')) =
    IsSound span size d' × (d'.destination_position ≡ d.destination_position)
Refilled span size d (err e) = IsPossible e

zero_word-Refilled :
    {span : Bytes} {size : ℕ} (d : Decoder)
    → IsSound span size d
    → d.source_position + 4 ≤ length span
    → (value : ℕ)
    → Refilled span size d (
        throw_if (value == 0) bad_control_word
        >> ok (value, record d { source_position = d.source_position + 4 }))
zero_word-Refilled d s h value = elim (Bool-cases (value == 0)) [
  | inl bad ↦ rw bad ((λ e. cc), (λ e. cc), (λ e. cc))
  | inr good ↦ rw good (taken-IsSound 4 h s, refl)
]

relast-IsSound :
    {span : Bytes} {size : ℕ} {d : Decoder} (last : Option ℕ)
    → IsSound span size d
    → IsSound span size (record d { last_hashed = last })
relast-IsSound last s = record {
  source_within = s.source_within;
  destination_within = s.destination_within;
  output_size = s.output_size;
  entries = s.entries;
}

module _ {span : Bytes} {size : ℕ} (span_fits : length span < 2 ^ 64)
    (size_fits : size < 2 ^ 64) where
  pub decode_literal-Keeps :
      (d : Decoder)
      → IsSound span size d
      → d.destination_position < size
      → Keeps span size d (decode_literal span d)
  unfolding decode_literal
  decode_literal-Keeps d s h = elim (Bool-cases (beyond span d.source_position 1)) [
    | inl short ↦ rw short ((λ e. cc), (λ e. cc), (λ e. cc))
    | inr room ↦
        let next = copy_byte-IsSound s (ground arith) h in
        rw room (elim (Bool-cases (leb 3 (d.destination_position + 1))) [
          | inl three ↦ rw three (
            update_hash_upto-IsSound _ next,
            omega (
              arith,
              update_hash_upto-destination (d.destination_position + 1 - 3) (copy_byte span d),
            ),
          )
          | inr few ↦ rw few (next, omega arith)
        ])
  ]

  copy_reference-Keeps :
      (d : Decoder) (h n : ℕ) → IsSound span size d → Keeps span size d (copy_reference d h n)
  unfolding copy_reference
  copy_reference-Keeps d h n s =
      let start = d.destination_position in
      let copied = record d {
        output = copy_match n 0 (d.hash_table h) start d.output;
        destination_position = start + n;
      } in
      let copied-IsSound : start + n ≤ size → IsSound span size copied = λ f. record {
        source_within = s.source_within;
        destination_within = f;
        output_size = length-copy_match n 0 (d.hash_table h) start d.output ∙ s.output_size;
        entries = λ k v. omega (arith, s.entries k v);
      } in
      elim (Bool-cases (ltb n 3)) [
        | inl small ↦ rw small ((λ e. cc), (λ e. cc), (λ e. cc))
        | inr large ↦ rw large (elim (Bool-cases (d.hash_valid h)) [
          | inr bad ↦ rw bad ((λ e. cc), (λ e. cc), (λ e. cc))
          | inl good ↦
              rw (good, lt→not_leb start (d.hash_table h) (s.entries h good))
                (elim (Bool-cases (ltb (sub64 (length d.output) start) n)) [
                  | inl over ↦ rw over ((λ e. cc), (λ e. cc), (λ e. cc))
                  | inr fits ↦ rw fits (
                    relast-IsSound (some (start + n - 1))
                        (update_hash_upto-IsSound start (copied-IsSound (ground arith))),
                    omega (arith, update_hash_upto-destination start copied, ltb-false n 3 large),
                  )
                ])
        ])
      ]

  decode_reference-Keeps :
      (d : Decoder) → IsSound span size d → Keeps span size d (decode_reference span d)
  unfolding decode_reference
  decode_reference-Keeps d s = elim (Bool-cases (beyond span d.source_position 2)) [
    | inl short ↦ rw short ((λ e. cc), (λ e. cc), (λ e. cc))
    | inr room ↦
        let encoded =
          get_or span d.source_position 0 + get_or span (d.source_position + 1) 0 * 2 ^ 8 in
        rw room (elim (Result-cases (match_length span d encoded)) [
          | inr (x, e) ↦ rw e (IsPossible-end x (match_length_err span d encoded e))
          | inl ((n, taken), e) ↦ rw e (
              copy_reference-Keeps (record d { source_position = d.source_position + taken })
                (bit_and (encoded / 2 ^ 4) 0x0fff) n
                (taken-IsSound taken (match_length_taken span d encoded span_fits (ground arith) e)
                  s))
        ])
  ]

  tail_byte-Fills :
      (rest : Decoder → Result QuickLzError Decoder) (d : Decoder)
      → IsSound span size d
      → d.destination_position < size
      → (IsSound span size (copy_byte span d) → Fills span size (rest (copy_byte span d)))
      → Fills span size (require_source span d 1 >> rest (copy_byte span d))
  tail_byte-Fills rest d s h next = elim (Bool-cases (beyond span d.source_position 1)) [
    | inl short ↦ rw short ((λ e. cc), (λ e. cc), (λ e. cc))
    | inr room ↦ rw room (next (copy_byte-IsSound s (ground arith) h))
  ]

  -- The tail fills the output.
  decode_tail-Fills :
      (rounds control : ℕ) (d : Decoder)
      → IsSound span size d
      → d.destination_position + rounds ≡ size
      → Fills span size (decode_tail rounds span control d)
  unfolding decode_tail
  decode_tail-Fills zero control d s h = (s, omega arith)
  decode_tail-Fills (suc rounds) control d s h = elim (Bool-cases (control == 1)) [
    | inr going ↦ rw going (
        tail_byte-Fills (decode_tail rounds span (control / 2)) d s (omega arith)
          (λ next. decode_tail-Fills rounds (control / 2) (copy_byte span d) next (omega arith)))
    | inl refilled ↦ rw refilled (elim (Bool-cases (beyond span d.source_position 4)) [
      | inl short ↦ rw short ((λ e. cc), (λ e. cc), (λ e. cc))
      | inr room ↦
          let d' = record d { source_position = d.source_position + 4 } in
          rw room (
            tail_byte-Fills (decode_tail rounds span (2 ^ 31 / 2)) d'
              (taken-IsSound 4 (ground arith) s) (omega arith)
              (λ next.
                decode_tail-Fills rounds (2 ^ 31 / 2) (copy_byte span d') next (omega arith)))
    ])
  ]

  -- A round that does not end the loop writes a byte at least; one that does has filled the output.
  pub round-Advances :
      (control : ℕ) (d : Decoder)
      → IsSound span size d
      → d.destination_position < size
      → Advances span size d (round span control d)
  unfolding round
  round-Advances control d s h = elim (Bool-cases (bit_and control 0x01 == 0)) [
    | inr reference ↦
        rw reference (Keeps-Advances span size (control / 2) d _ (decode_reference-Keeps d s))
    | inl literal ↦ rw literal (elim (Bool-cases (is_tail d)) [
      | inl last ↦ rw last (
          Fills-Advances span size control d _ (
            decode_tail-Fills (length d.output - d.destination_position) control d s
              (omega (arith, s.output_size))))
      | inr more ↦ rw more (Keeps-Advances span size (control / 2) d _ (decode_literal-Keeps d s h))
    ])
  ]

  pub refill-Refilled :
      (control : ℕ) (d : Decoder)
      → IsSound span size d
      → Refilled span size d (refill span control d)
  unfolding read_control_word
  refill-Refilled control d s = elim (Bool-cases (control == 1)) [
    | inr going ↦ rw going (s, refl)
    | inl word ↦ rw word (elim (Bool-cases (beyond span d.source_position 4)) [
      | inl short ↦ rw short ((λ e. cc), (λ e. cc), (λ e. cc))
      | inr room ↦ rw room (zero_word-Refilled d s (ground arith) _)
    ])
  ]
