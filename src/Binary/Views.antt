-- ===== src/Binary/Views.antt =====
-- A reader seen as the bytes that it has not read: each read of binary_reader.cpp takes its bytes
-- from the front of these.
use ts_cli.Prelude.{
  ℕ, ◌+◌, ◌*◌, ◌^◌, ◌≤◌, ◌<◌, ◌∷◌, ok, err, length, take, drop, length-drop, drop-drop, get_or-drop,
  ◌≡◌, refl, ap, sym, ◌∙◌, arith,
}
use ts_cli.Binary.{
  Bytes, BinaryReader, reader, advance_with, byte_at, read_u8, read_u16, read_u32, read_bytes,
  remaining, exceeds_buffer,
}

pub record Sees (r : BinaryReader) (xs : Bytes) : Type 0 where
  pub within : r.offset ≤ length r.span
  pub unread : drop r.offset r.span ≡ xs

abbrev pub moved : BinaryReader → ℕ → BinaryReader
moved r n = record r { offset = r.offset + n }

pub reader-Sees : (xs : Bytes) → Sees (reader xs) xs
reader-Sees xs = record { within = omega arith; unread = refl }

pub Sees-length : {r : BinaryReader} {xs : Bytes} → Sees r xs → length r.span ≡ r.offset + length xs
Sees-length {r} {xs} s = omega (arith, length-drop r.offset r.span, ap length s.unread, s.within)

pub remaining-Sees :
    {r : BinaryReader} {xs : Bytes} → Sees r xs → length r.span < 2 ^ 64 → remaining r ≡ length xs
unfolding remaining
remaining-Sees {r} {xs} s h = omega (arith, Sees-length s, s.within)

pub Sees-moved :
    {r : BinaryReader} {xs : Bytes} (n : ℕ)
    → Sees r xs
    → n ≤ length xs
    → Sees (moved r n) (drop n xs)
Sees-moved {r} {xs} n s h = record {
  within = omega (arith, Sees-length s);
  unread = sym (drop-drop r.offset n (r.offset + n) r.span refl) ∙ ap (drop n) s.unread;
}

pub advance_with-Sees :
    {A : Type 0} {r : BinaryReader} {xs : Bytes} (n : ℕ) (a : A)
    → Sees r xs
    → n ≤ length xs
    → advance_with n a r ≡ ok (a, moved r n)
unfolding advance_with
advance_with-Sees {r = r} n a s h = ground (arith, Sees-length s)

pub advance_with_short :
    {A : Type 0} {r : BinaryReader} {xs : Bytes} (n : ℕ) (a : A)
    → Sees r xs
    → length xs < n
    → advance_with n a r ≡ err exceeds_buffer
unfolding advance_with
advance_with_short {r = r} n a s h = ground (arith, Sees-length s)

pub byte_at-Sees :
    {r : BinaryReader} {x : ℕ} (i : ℕ) {xs ys : Bytes}
    → Sees r xs
    → drop i xs ≡ x ∷ ys
    → byte_at r i ≡ x
byte_at-Sees {r} i s h =
    get_or-drop (r.offset + i) r.span 0
      (sym (drop-drop r.offset i (r.offset + i) r.span refl) ∙ ap (drop i) s.unread ∙ h)

module _ {r : BinaryReader} where
  pub read_u8-Sees : (a : ℕ) {xs : Bytes} → Sees r (a ∷ xs) → read_u8 r ≡ ok (a, moved r 1)
  unfolding read_u8
  read_u8-Sees a s = rw (advance_with-Sees 1 _ s (omega arith), byte_at-Sees 0 s refl)

  pub read_u16-Sees :
      (a b : ℕ) {xs : Bytes} → Sees r (a ∷ b ∷ xs) → read_u16 r ≡ ok (a * 2 ^ 8 + b, moved r 2)
  unfolding read_u16
  read_u16-Sees a b s =
      rw (advance_with-Sees 2 _ s (omega arith), byte_at-Sees 0 s refl, byte_at-Sees 1 s refl)

  pub read_u32-Sees :
      (a b c d : ℕ) {xs : Bytes}
      → Sees r (a ∷ b ∷ c ∷ d ∷ xs)
      → read_u32 r ≡ ok (a * 2 ^ 24 + b * 2 ^ 16 + c * 2 ^ 8 + d, moved r 4)
  unfolding read_u32
  read_u32-Sees a b c d s = rw (
    advance_with-Sees 4 _ s (omega arith),
    byte_at-Sees 0 s refl,
    byte_at-Sees 1 s refl,
    byte_at-Sees 2 s refl,
    byte_at-Sees 3 s refl,
  )

  pub read_bytes-Sees :
      (n : ℕ) {xs : Bytes} → Sees r xs → n ≤ length xs → read_bytes n r ≡ ok (take n xs, moved r n)
  unfolding read_bytes
  read_bytes-Sees n s h = rw (advance_with-Sees n _ s h, s.unread)

  pub read_bytes_short :
      (n : ℕ) {xs : Bytes} → Sees r xs → length xs < n → read_bytes n r ≡ err exceeds_buffer
  unfolding read_bytes
  read_bytes_short n s h = rw (advance_with_short n _ s h)
