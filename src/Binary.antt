-- ===== src/Binary.antt =====
-- protocol/src/binary_reader.cpp and binary_writer.cpp: big-endian reads from a byte span and
-- writes to a byte vector. A byte is a number below 256; a written vector is the list so far.
pub mod Views
use ts_cli.Prelude.{
  ℕ, ◌+◌, ◌-◌, ◌*◌, ◌/◌, ◌%◌, ◌^◌, ◌<◌, Bool, ◌||◌, List, [], ◌∷◌, ◌++◌, Result, ok, err, ltb,
  length, get_or, take, drop, replicate, if◌then◌else◌,
}

abbrev pub Bytes : Type 0
Bytes = List ℕ

abbrev pub IsByte : ℕ → Type 0
IsByte b = b < 256

abbrev pub IsU16 : ℕ → Type 0
IsU16 v = v < 2 ^ 16

abbrev pub IsU32 : ℕ → Type 0
IsU32 v = v < 2 ^ 32

abbrev pub IsU64 : ℕ → Type 0
IsU64 v = v < 2 ^ 64

-- `size_t` subtraction, which wraps round.
abbrev pub sub64 : ℕ → ℕ → ℕ
sub64 a b = (a + 2 ^ 64 - b) % 2 ^ 64

pub data ReadError : Type 0 where
  exceeds_buffer : ReadError

pub record BinaryReader : Type 0 where
  pub span : Bytes
  pub offset : ℕ

abbrev pub reader : Bytes → BinaryReader
reader bytes = record { span = bytes; offset = 0 }

-- A read returns its value and the reader behind it; one that throws has not moved the reader.
abbrev pub Read : Type 0 → Type 0
Read A = BinaryReader → Result ReadError (A × BinaryReader)

infixl 5 ◌>>=◌
abbrev pub ◌>>=◌ : {A B : Type 0} → Read A → (A → Read B) → Read B
◌>>=◌ m f r = elim (m r) [ ok (a, r') ↦ f a r' | err e ↦ err e ]

abbrev pub return : {A : Type 0} → A → Read A
return a r = ok (a, r)

-- The test of `Require`.
exceeds : BinaryReader → ℕ → Bool
exceeds r count = ltb (length r.span) r.offset || ltb (length r.span - r.offset) count

-- `Require( count )`, then a value and a step of `count` bytes.
pub advance_with : {A : Type 0} → ℕ → A → Read A
unfolding exceeds
advance_with count a r =
    if exceeds r count then err exceeds_buffer else ok (a, record r { offset = r.offset + count })

abbrev pub byte_at : BinaryReader → ℕ → ℕ
byte_at r i = get_or r.span (r.offset + i) 0

unfoldable pub read_u8 : Read ℕ
unfolding advance_with
read_u8 r = advance_with 1 (byte_at r 0) r

-- The shifted bytes have no common bit, so `|` is `+`.
unfoldable pub read_u16 : Read ℕ
unfolding advance_with
read_u16 r = advance_with 2 (byte_at r 0 * 2 ^ 8 + byte_at r 1) r

unfoldable pub read_u32 : Read ℕ
unfolding advance_with
read_u32 r =
    advance_with 4 (byte_at r 0 * 2 ^ 24 + byte_at r 1 * 2 ^ 16 + byte_at r 2 * 2 ^ 8 + byte_at r 3)
      r

unfoldable pub read_bytes : ℕ → Read Bytes
unfolding advance_with
read_bytes count r = advance_with count (take count (drop r.offset r.span)) r

unfoldable pub skip : ℕ → Read (Unit {0})
unfolding advance_with
skip count r = advance_with count tt r

-- `size_t` wraps round; the offset never passes the end (`Sees` below the reads).
unfoldable pub remaining : BinaryReader → ℕ
remaining r = (length r.span + 2 ^ 64 - r.offset) % 2 ^ 64

unfoldable pub write_u8 : ℕ → Bytes → Bytes
write_u8 v out = out ++ (v ∷ [])

unfoldable pub write_u16 : ℕ → Bytes → Bytes
write_u16 v out = (out ++ (v / 2 ^ 8 % 256 ∷ [])) ++ (v % 256 ∷ [])

unfoldable pub write_u32 : ℕ → Bytes → Bytes
write_u32 v out =
    (((out ++ (v / 2 ^ 24 % 256 ∷ [])) ++ (v / 2 ^ 16 % 256 ∷ [])) ++ (v / 2 ^ 8 % 256 ∷ []))
    ++ (v % 256 ∷ [])

-- The upper half, then the lower half, each by four `push_back`s.
unfoldable pub write_u64 : ℕ → Bytes → Bytes
write_u64 v out =
    let high =
      ((((out ++ (v / 2 ^ 56 % 256 ∷ [])) ++ (v / 2 ^ 48 % 256 ∷ [])) ++ (v / 2 ^ 40 % 256 ∷ []))
        ++ (v / 2 ^ 32 % 256 ∷ [])) in
    (((high ++ (v / 2 ^ 24 % 256 ∷ [])) ++ (v / 2 ^ 16 % 256 ∷ [])) ++ (v / 2 ^ 8 % 256 ∷ []))
    ++ (v % 256 ∷ [])

unfoldable pub write_bytes : Bytes → Bytes → Bytes
write_bytes bytes out = out ++ bytes

unfoldable pub write_zeros : ℕ → Bytes → Bytes
write_zeros count out = out ++ replicate count 0
