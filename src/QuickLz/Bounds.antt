-- ===== src/QuickLz/Bounds.antt =====
-- The decoder stays within its source and its output.
use ts_cli.Prelude.{
  ℕ, zero, suc, ◌+◌, ◌-◌, ◌≤◌, ◌<◌, min, true, Option, some, Result, ok, err, ltb, length,
  length-set, Bool-cases, ◌≡◌, ◌≢◌, inl, inr, refl, ap, ◌∙◌, arith,
}
use ts_cli.Binary.{Bytes}
use ts_cli.QuickLz.{
  QuickLzError, bad_reference_offset, output_mismatch, out_of_fuel, Decoder, enter_hashes,
  update_hash_upto, first_unhashed, copy_byte, copy_match,
}

-- What holds between the rounds: both positions lie within their buffers, and every valid entry of the
-- table lies before the destination position.
pub record IsSound (span : Bytes) (size : ℕ) (d : Decoder) : Type 0 where
  pub source_within : d.source_position ≤ length span
  pub destination_within : d.destination_position ≤ size
  pub output_size : length d.output ≡ size
  pub entries : (h : ℕ) → d.hash_valid h ≡ true → d.hash_table h < d.destination_position

-- `enter_hashes` changes the table alone.
enter_hashes-fields :
    (rounds position : ℕ) (d : Decoder)
    → ((enter_hashes rounds position d).output ≡ d.output)
      × ((enter_hashes rounds position d).source_position ≡ d.source_position)
      × ((enter_hashes rounds position d).destination_position ≡ d.destination_position)
unfolding enter_hashes
enter_hashes-fields zero position d = (refl, refl, refl)
enter_hashes-fields (suc rounds) position d = enter_hashes-fields rounds (position + 1) _

abbrev EntriesBelow : ℕ → Decoder → Type 0
EntriesBelow bound d = (h : ℕ) → d.hash_valid h ≡ true → d.hash_table h < bound

enter_hashes-EntriesBelow :
    (rounds position bound : ℕ) (d : Decoder)
    → position + rounds ≤ bound
    → EntriesBelow bound d
    → EntriesBelow bound (enter_hashes rounds position d)
unfolding enter_hashes
enter_hashes-EntriesBelow zero position bound d h e = e
enter_hashes-EntriesBelow (suc rounds) position bound d h e =
    enter_hashes-EntriesBelow rounds (position + 1) bound _ (omega arith)
      (λ k v. ground (arith, e k))

pub update_hash_upto-destination :
    (m : ℕ) (d : Decoder) → (update_hash_upto m d).destination_position ≡ d.destination_position
unfolding update_hash_upto
update_hash_upto-destination m d = ground (
  arith,
  enter_hashes-fields (min m (d.destination_position - 3) + 1 - first_unhashed d.last_hashed)
      (first_unhashed d.last_hashed) d,
)

pub length-copy_match :
    (rounds i reference destination : ℕ) (output : Bytes)
    → length (copy_match rounds i reference destination output) ≡ length output
unfolding copy_match
length-copy_match zero i reference destination output = refl
length-copy_match (suc rounds) i reference destination output =
    length-copy_match rounds (i + 1) reference destination _ ∙ length-set output (destination + i) _

-- The exceptions that the decoder's own state does not rule out.
abbrev pub IsPossible : QuickLzError → Type 0
IsPossible e = (e ≢ bad_reference_offset) × (e ≢ output_mismatch) × (e ≢ out_of_fuel)

-- The state behind a decoding step that began at `d`: sound, and further on. An exception is not one
-- that the step's own tests make impossible.
abbrev pub Keeps : Bytes → ℕ → Decoder → Result QuickLzError Decoder → Type 0
Keeps span size d (ok d') =
    IsSound span size d' × (d.destination_position < d'.destination_position)
Keeps span size d (err e) = IsPossible e

module _ {span : Bytes} {size : ℕ} where
  enter_hashes-IsSound :
      {d : Decoder} (rounds position : ℕ) (last : Option ℕ)
      → position + rounds ≤ d.destination_position
      → IsSound span size d
      → IsSound span size (record (enter_hashes rounds position d) { last_hashed = last })
  enter_hashes-IsSound {d} rounds position last h s =
      let (o, p, q) = enter_hashes-fields rounds position d in
      record {
        source_within = omega (arith, s.source_within);
        destination_within = omega (arith, s.destination_within);
        output_size = ap length o ∙ s.output_size;
        entries =
            rw q (enter_hashes-EntriesBelow rounds position d.destination_position d h s.entries);
      }

  pub update_hash_upto-IsSound :
      {d : Decoder} (m : ℕ) → IsSound span size d → IsSound span size (update_hash_upto m d)
  unfolding update_hash_upto
  update_hash_upto-IsSound {d} m s =
      let maximum = min m (d.destination_position - 3) in
      let position = first_unhashed d.last_hashed in
      elim (Bool-cases (ltb d.destination_position 3)) [
        | inl few ↦ rw few s
        | inr enough ↦ rw enough (elim (Bool-cases (ltb maximum position)) [
          | inl done ↦ rw done s
          | inr more ↦ rw more (
              enter_hashes-IsSound (maximum + 1 - position) position (some maximum) (ground arith)
                s)
        ])
      ]

  pub copy_byte-IsSound :
      {d : Decoder}
      → IsSound span size d
      → d.source_position < length span
      → d.destination_position < size
      → IsSound span size (copy_byte span d)
  copy_byte-IsSound {d} s p q = record {
    source_within = omega arith;
    destination_within = omega arith;
    output_size = length-set d.output d.destination_position _ ∙ s.output_size;
    entries = λ h v. omega (arith, s.entries h v);
  }
