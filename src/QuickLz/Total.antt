-- ===== src/QuickLz/Total.antt =====
-- What `Decompress` promises: the size that the header declares, and an end.
use ts_cli.Prelude.{
  ℕ, zero, suc, ◌+◌, ◌-◌, ◌/◌, ◌^◌, ◌≤◌, ◌<◌, Bool, true, false, not, Result, ok, err, ◌>>=◌, ◌>>◌,
  throw_if, ltb, leb, ◌==◌, length, get_or, length-replicate, length-drop, Bool-cases, Result-cases,
  ==_iff, ◌≡◌, inl, inr, refl, ◌∙◌, arith,
}
use mathlib.Core.Path.{subst}
use Prim.Native.Nat.{bit_and}
use ts_cli.Binary.{Bytes}
use ts_cli.QuickLz.{
  QuickLzError, end_of_data, too_small, header_truncated, unsupported_level, streaming_unsupported,
  size_mismatch, output_too_large, Decoder, round, refill, run_loop, run, decoder, header_size,
  read_size, unpack, decompress,
}
use ts_cli.QuickLz.Bounds.{IsPossible, IsSound}
use ts_cli.QuickLz.Steps.{IsPossible-end, round-Advances, refill-Refilled}

-- The loop ends with a full output.
abbrev Ends : Bytes → ℕ → Result QuickLzError Decoder → Type 0
Ends span size (ok d) = IsSound span size d × (d.destination_position ≡ size)
Ends span size (err e) = IsPossible e

module _ {span : Bytes} {size : ℕ} (span_fits : length span < 2 ^ 64)
    (size_fits : size < 2 ^ 64) where
  run_loop-Ends :
      (fuel control : ℕ) (d : Decoder)
      → IsSound span size d
      → size - d.destination_position < fuel
      → Ends span size (run_loop fuel span control d)
  unfolding run_loop
  run_loop-Ends zero control d s h = absurd (omega arith)
  run_loop-Ends (suc fuel) control d s h =
      elim (Bool-cases (leb (length d.output) d.destination_position)) [
        | inl full ↦ rw full (s, ground (arith, s.destination_within, s.output_size))
        | inr more ↦ rw more (elim (Result-cases (refill span control d)) [
          | inr (x, e) ↦ rw e (rw e at (refill-Refilled span_fits size_fits control d s))
          | inl ((c, d'), e) ↦ rw e (
              let (s', same) = rw e at (refill-Refilled span_fits size_fits control d s) in
              let below : d'.destination_position < size = ground (arith, same, s.output_size) in
              elim (Result-cases (round span c d')) [
                | inr (x, f) ↦ rw f (rw f at (round-Advances span_fits size_fits c d' s' below))
                | inl ((true, c', d''), f) ↦
                    rw f (rw f at (round-Advances span_fits size_fits c d' s' below))
                | inl ((false, c', d''), f) ↦ rw f (
                    let (s'', further) =
                      rw f at (round-Advances span_fits size_fits c d' s' below) in
                    run_loop-Ends fuel c' d'' s'' (omega (arith, further, same)))
              ])
        ])
      ]

-- The outcome that an output of `size` bytes allows.
abbrev Delivers : ℕ → Result QuickLzError Bytes → Type 0
Delivers size (ok out) = length out ≡ size
Delivers size (err e) = IsPossible e

decoder-IsSound :
    (span : Bytes) (position size : ℕ)
    → position ≤ length span
    → IsSound span size (decoder position size)
decoder-IsSound span position size h = record {
  source_within = h;
  destination_within = omega arith;
  output_size = length-replicate size 0;
  entries = λ k v. cc;
}

run-Delivers :
    (span : Bytes) (position size : ℕ)
    → length span < 2 ^ 64
    → size < 2 ^ 64
    → position ≤ length span
    → Delivers size (run span (decoder position size))
unfolding run
run-Delivers span position size f g h =
    let d = decoder position size in
    let loop =
      run_loop-Ends f g (length d.output + 1) 1 d (decoder-IsSound span position size h)
        (omega (arith, length-replicate {A = ℕ} size 0)) in
    elim (Result-cases (run_loop (length d.output + 1) span 1 d)) [
      | inr (x, e) ↦ rw e (rw e at loop)
      | inl (d', e) ↦ rw e (
          let (s, full) = rw e at loop in
          let same : (d'.destination_position == length d'.output) ≡ true =
            ground (arith, s.output_size) in
          rw same s.output_size)
    ]

unpack-Delivers :
    (span : Bytes) (size : ℕ)
    → length span < 2 ^ 64
    → size < 2 ^ 64
    → header_size span ≤ length span
    → Delivers size (unpack span size)
unfolding unpack
unpack-Delivers span size f g h = elim (Bool-cases (bit_and (get_or span 0 0) 0x01 == 0)) [
  | inl stored ↦ rw stored (elim (Bool-cases (length span - header_size span == size)) [
    | inr bad ↦ rw bad ((λ e. cc), (λ e. cc), (λ e. cc))
    | inl good ↦ rw good (length-drop (header_size span) span ∙ (==_iff _ _).0 good)
  ])
  | inr packed ↦ rw packed (elim (Bool-cases (size == 0)) [
    | inl empty ↦ rw empty ((λ e. cc), (λ e. cc), (λ e. cc))
    | inr full ↦ rw full (run-Delivers span (header_size span) size f g h)
  ])
]

read_size_err :
    (span : Bytes) (long short : ℕ) {x : QuickLzError}
    → read_size span long short ≡ err x
    → x ≡ end_of_data
read_size_err span long short {x} e = ground arith

-- What a result of `Decompress` has to be.
record IsPromised (span : Bytes) (maximum : ℕ) (r : Result QuickLzError Bytes) : Type 0 where
  returns :
      (out : Bytes) → r ≡ ok out → (read_size span 5 2 ≡ ok (length out)) × (length out ≤ maximum)
  throws : (e : QuickLzError) → r ≡ err e → IsPossible e

module _ {span : Bytes} {maximum : ℕ} where
  err-IsPromised : {x : QuickLzError} → IsPossible x → IsPromised span maximum (err x)
  err-IsPromised {x} p = record { returns = λ out e. cc; throws = λ y e. subst IsPossible (cc) p }

  throw_if-IsPromised :
      {b : Bool} (e : QuickLzError) {k : Result QuickLzError Bytes}
      → IsPossible e
      → (b ≡ false → IsPromised span maximum k)
      → IsPromised span maximum (throw_if b e >> k)
  throw_if-IsPromised {b = true} e p h = err-IsPromised p
  throw_if-IsPromised {b = false} e p h = h refl

  Delivers-IsPromised :
      (size : ℕ) (r : Result QuickLzError Bytes)
      → read_size span 5 2 ≡ ok size
      → size ≤ maximum
      → Delivers size r
      → IsPromised span maximum r
  Delivers-IsPromised size (ok out) e h d = record {
    returns = λ y q. ground (arith, d);
    throws = λ y q. cc;
  }
  Delivers-IsPromised size (err x) e h d = err-IsPromised d

module _ (span : Bytes) (maximum : ℕ) (f : length span < 2 ^ 64) (g : maximum < 2 ^ 64) where
  sizes-IsPromised :
      header_size span ≤ length span
      → IsPromised span maximum (do
        compressed_size ← read_size span 1 1
        decompressed_size ← read_size span 5 2
        throw_if (not (compressed_size == length span)) size_mismatch
        throw_if (ltb maximum decompressed_size) output_too_large
        unpack span decompressed_size)
  sizes-IsPromised header = elim (Result-cases (read_size span 1 1)) [
    | inr (x, e) ↦ rw e (err-IsPromised (IsPossible-end x (read_size_err span 1 1 e)))
    | inl (packed, e) ↦ rw e (elim (Result-cases (read_size span 5 2)) [
      | inr (x, e') ↦ rw e' (err-IsPromised (IsPossible-end x (read_size_err span 5 2 e')))
      | inl (size, e') ↦ rw e' (
          throw_if-IsPromised {b = not (packed == length span)} size_mismatch
            ((λ e. cc), (λ e. cc), (λ e. cc))
            (λ _.
              throw_if-IsPromised {b = ltb maximum size} output_too_large
                ((λ e. cc), (λ e. cc), (λ e. cc))
                (λ small.
                  Delivers-IsPromised size (unpack span size) e' (ground arith)
                    (unpack-Delivers span size f (ground arith) header))))
    ])
  ]

  decompress-IsPromised : IsPromised span maximum (decompress span maximum)
  unfolding decompress
  decompress-IsPromised =
      throw_if-IsPromised {b = ltb (length span) 3} too_small ((λ e. cc), (λ e. cc), (λ e. cc))
        (λ _.
          throw_if-IsPromised {b = ltb (length span) (header_size span)} header_truncated
            ((λ e. cc), (λ e. cc), (λ e. cc))
            (λ header.
              throw_if-IsPromised {b = not (bit_and (get_or span 0 0 / 2 ^ 2) 0x03 == 1)}
                unsupported_level ((λ e. cc), (λ e. cc), (λ e. cc))
                (λ _.
                  throw_if-IsPromised {b = not (bit_and (get_or span 0 0 / 2 ^ 4) 0x03 == 0)}
                    streaming_unsupported ((λ e. cc), (λ e. cc), (λ e. cc))
                    (λ _. sizes-IsPromised (ground arith)))))

-- What decompression may give: data of the size that the header declares, within the maximum, or one of
-- the exceptions that are possible.
abbrev pub IsDelivered : Bytes → ℕ → Result QuickLzError Bytes → Type 0
IsDelivered span maximum (ok out) = (read_size span 5 2 ≡ ok (length out)) × (length out ≤ maximum)
IsDelivered span maximum (err e) = IsPossible e

-- Decompression of any bytes ends: it returns data of the size that the header declares, which is within
-- the maximum, or throws. It never throws `bad_reference_offset` or `output_mismatch`, and never runs
-- out of fuel: the tests behind the first two cannot fail.
pub decompress_sound :
    (span : Bytes) (maximum : ℕ)
    → length span < 2 ^ 64
    → maximum < 2 ^ 64
    → IsDelivered span maximum (decompress span maximum)
decompress_sound span maximum f g =
    let promised = decompress-IsPromised span maximum f g in
    elim (Result-cases (decompress span maximum)) [
      | inl (out, e) ↦ rw e (promised.returns out e)
      | inr (x, e) ↦ rw e (promised.throws x e)
    ]
