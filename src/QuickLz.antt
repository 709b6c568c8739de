-- ===== src/QuickLz.antt =====
-- protocol/src/compression/quick_lz.cpp: the decoder for QuickLZ level 1. Its arrays of 4096 entries are
-- functions, since `Hash` and a reference's mask keep every index below 4096. `m_LastHashed` is
-- `none` for -1.
pub mod Bounds
pub mod Steps
pub mod Total
pub mod Stored
use ts_cli.Prelude.{
  ℕ, zero, suc, ◌+◌, ◌-◌, ◌*◌, ◌/◌, ◌^◌, min, Bool, true, false, not, ◌&&◌, ◌||◌, Option, none,
  some, Result, ok, err, ◌>>=◌, ◌>>◌, throw_if, ltb, leb, ◌==◌, length, get_or, drop, set,
  replicate, if◌then◌else◌,
}
use Prim.Native.Nat.{bit_and, bit_xor}
use ts_cli.Binary.{Bytes, sub64}

-- `out_of_fuel` is no exception of the decoder: the loop of `run` never ends so.
pub data QuickLzError : Type 0 where
  too_small header_truncated unsupported_level streaming_unsupported : QuickLzError
  size_mismatch output_too_large bad_stored_size empty_payload : QuickLzError
  bad_match_length bad_hash_reference bad_reference_offset reference_exceeds_output : QuickLzError
  bad_control_word end_of_data output_mismatch out_of_fuel : QuickLzError

-- The span `m_Data` is a parameter of the functions below.
pub record Decoder : Type 0 where
  pub source_position : ℕ
  pub destination_position : ℕ
  pub output : Bytes
  pub hash_table : ℕ → ℕ
  pub hash_valid : ℕ → Bool
  pub last_hashed : Option ℕ

abbrev pub update {ℓ} : {A : Type ℓ} → (ℕ → A) → ℕ → A → ℕ → A
update f k v i = if i == k then v else f i

-- `m_SourcePosition > m_Data.size() || count > m_Data.size() - m_SourcePosition`
abbrev pub beyond : Bytes → ℕ → ℕ → Bool
beyond span position count = ltb (length span) position || ltb (sub64 (length span) position) count

abbrev pub require_source : Bytes → Decoder → ℕ → Result QuickLzError (Unit {0})
require_source span d count = throw_if (beyond span d.source_position count) end_of_data

abbrev pub read_u16_little : Bytes → ℕ → Result QuickLzError ℕ
read_u16_little span offset =
    if beyond span offset 2
    then err end_of_data
    else ok (get_or span offset 0 + get_or span (offset + 1) 0 * 2 ^ 8)

abbrev pub read_u32_little : Bytes → ℕ → Result QuickLzError ℕ
read_u32_little span offset =
    if beyond span offset 4
    then err end_of_data
    else ok (
        get_or span offset 0
        + get_or span (offset + 1) 0 * 2 ^ 8
        + get_or span (offset + 2) 0 * 2 ^ 16
        + get_or span (offset + 3) 0 * 2 ^ 24)

unfoldable pub hash : ℕ → ℕ
hash value = bit_and (bit_xor (value / 2 ^ 12) value) 0x0fff

-- The rounds of the loop in `UpdateHashUpto`, from `position` on.
unfoldable pub enter_hashes : ℕ → ℕ → Decoder → Decoder
enter_hashes zero position d = d
enter_hashes (suc rounds) position d =
    let value =
      get_or d.output position 0
      + get_or d.output (position + 1) 0 * 2 ^ 8
      + get_or d.output (position + 2) 0 * 2 ^ 16 in
    enter_hashes rounds (position + 1) (record d {
      hash_table = update d.hash_table (hash value) position;
      hash_valid = update d.hash_valid (hash value) true;
    })

abbrev pub first_unhashed : Option ℕ → ℕ
first_unhashed none = 0
first_unhashed (some last) = last + 1

unfoldable pub update_hash_upto : ℕ → Decoder → Decoder
update_hash_upto maximum_position d =
    let maximum = min maximum_position (d.destination_position - 3) in
    let position = first_unhashed d.last_hashed in
    if ltb d.destination_position 3
    then d
    else if ltb maximum position
    then d
    else record (enter_hashes (maximum + 1 - position) position d) { last_hashed = some maximum }

-- The two assignments and increments that `DecodeLiteral` and `DecodeTail` share.
abbrev pub copy_byte : Bytes → Decoder → Decoder
copy_byte span d = record d {
  output = set d.output d.destination_position (get_or span d.source_position 0);
  source_position = d.source_position + 1;
  destination_position = d.destination_position + 1;
}

unfoldable pub decode_literal : Bytes → Decoder → Result QuickLzError Decoder
decode_literal span d = do
  require_source span d 1
  let d' = copy_byte span d
  ok (
      if leb 3 d'.destination_position
      then update_hash_upto (d'.destination_position - 3) d'
      else d')

unfoldable pub read_control_word : Bytes → Decoder → Result QuickLzError (ℕ × Decoder)
read_control_word span d = do
  require_source span d 4
  value ← read_u32_little span d.source_position
  throw_if (value == 0) bad_control_word
  ok (value, record d { source_position = d.source_position + 4 })

-- The loop of `DecodeTail` writes one byte a round until the output is full.
unfoldable pub decode_tail : ℕ → Bytes → ℕ → Decoder → Result QuickLzError Decoder
decode_tail zero span control d = ok d
decode_tail (suc rounds) span control d =
    let refill = control == 1 in
    let d' = if refill then record d { source_position = d.source_position + 4 } else d in
    let control' = if refill then 2 ^ 31 else control in
    let rest = decode_tail rounds span (control' / 2) (copy_byte span d') in
    throw_if (refill && beyond span d.source_position 4) end_of_data
    >> (require_source span d' 1 >> rest)

-- The byte-by-byte copy of `DecodeReference`, from round `i` on.
unfoldable pub copy_match : ℕ → ℕ → ℕ → ℕ → Bytes → Bytes
copy_match zero i reference destination output = output
copy_match (suc rounds) i reference destination output =
    copy_match rounds (i + 1) reference destination
      (set output (destination + i) (get_or output (reference + i) 0))

-- The match length of a reference, and the bytes of source that it takes.
unfoldable pub match_length : Bytes → Decoder → ℕ → Result QuickLzError (ℕ × ℕ)
match_length span d encoded =
    if not (bit_and encoded 0x0f == 0)
    then ok (bit_and encoded 0x0f + 2, 2)
    else require_source span d 3 >> ok (get_or span (d.source_position + 2) 0, 3)

-- The rest of `DecodeReference`, behind the length.
unfoldable pub copy_reference : Decoder → ℕ → ℕ → Result QuickLzError Decoder
copy_reference d h n =
    let reference = d.hash_table h in
    let start = d.destination_position in
    let copied = record d {
      output = copy_match n 0 reference start d.output;
      destination_position = start + n;
    } in
    if ltb n 3
    then err bad_match_length
    else if not (d.hash_valid h)
    then err bad_hash_reference
    else if leb start reference
    then err bad_reference_offset
    else if ltb (sub64 (length d.output) start) n
    then err reference_exceeds_output
    else ok (record (update_hash_upto start copied) { last_hashed = some (start + n - 1) })

unfoldable pub decode_reference : Bytes → Decoder → Result QuickLzError Decoder
unfolding match_length
decode_reference span d = do
  require_source span d 2
  encoded ← read_u16_little span d.source_position
  (n, taken) ← match_length span d encoded
  copy_reference (record d { source_position = d.source_position + taken })
      (bit_and (encoded / 2 ^ 4) 0x0fff) n

unfoldable pub is_tail : Decoder → Bool
is_tail d =
    if leb (length d.output) 10 then true else leb (length d.output - 10) d.destination_position

-- A round of the loop of `Run` behind the control word; `true` when the loop is left by `break`.
unfoldable pub round : Bytes → ℕ → Decoder → Result QuickLzError (Bool × ℕ × Decoder)
unfolding is_tail
round span control d =
    if not (bit_and control 0x01 == 0)
    then (decode_reference span d >>= λ d'. ok (false, control / 2, d'))
    else if is_tail d
    then (decode_tail (length d.output - d.destination_position) span control d >>= λ d'.
        ok (true, control, d'))
    else (decode_literal span d >>= λ d'. ok (false, control / 2, d'))

abbrev pub refill : Bytes → ℕ → Decoder → Result QuickLzError (ℕ × Decoder)
refill span control d = if control == 1 then read_control_word span d else ok (control, d)

unfoldable pub run_loop : ℕ → Bytes → ℕ → Decoder → Result QuickLzError Decoder
run_loop zero span control d = err out_of_fuel
run_loop (suc fuel) span control d =
    if leb (length d.output) d.destination_position
    then ok d
    else refill span control d >>= λ (c, d'). round span c d' >>= λ (left, c', d''). elim left [
      | true ↦ ok d''
      | false ↦ run_loop fuel span c' d''
    ]

-- A round writes a byte at least, so that the size of the output and one more is enough fuel.
unfoldable pub run : Bytes → Decoder → Result QuickLzError Bytes
unfolding run_loop
run span d = do
  d' ← run_loop (length d.output + 1) span 1 d
  throw_if (not (d'.destination_position == length d'.output)) output_mismatch
  ok d'.output

abbrev pub decoder : ℕ → ℕ → Decoder
decoder source_position output_size = record {
  source_position = source_position;
  destination_position = 0;
  output = replicate output_size 0;
  hash_table = λ h. 0;
  hash_valid = λ h. false;
  last_hashed = none;
}

abbrev pub header_size : Bytes → ℕ
header_size span = if not (bit_and (get_or span 0 0) 0x02 == 0) then 9 else 3

-- A size of the header: four bytes at `long` in a long header, one byte at `short` in a short one.
abbrev pub read_size : Bytes → ℕ → ℕ → Result QuickLzError ℕ
read_size span long short =
    if header_size span == 9 then read_u32_little span long else ok (get_or span short 0)

-- The end of `Decompress`, behind the tests of the sizes.
unfoldable pub unpack : Bytes → ℕ → Result QuickLzError Bytes
unpack span decompressed_size =
    if bit_and (get_or span 0 0) 0x01 == 0
    then if not (length span - header_size span == decompressed_size)
      then err bad_stored_size
      else ok (drop (header_size span) span)
    else if decompressed_size == 0
    then err empty_payload
    else run span (decoder (header_size span) decompressed_size)

unfoldable pub decompress : Bytes → ℕ → Result QuickLzError Bytes
decompress span maximum = do
  throw_if (ltb (length span) 3) too_small
  throw_if (ltb (length span) (header_size span)) header_truncated
  throw_if (not (bit_and (get_or span 0 0 / 2 ^ 2) 0x03 == 1)) unsupported_level
  throw_if (not (bit_and (get_or span 0 0 / 2 ^ 4) 0x03 == 0)) streaming_unsupported
  compressed_size ← read_size span 1 1
  decompressed_size ← read_size span 5 2
  throw_if (not (compressed_size == length span)) size_mismatch
  throw_if (ltb maximum decompressed_size) output_too_large
  unpack span decompressed_size
