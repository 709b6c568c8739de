-- ===== src/Packet/Codec/RoundTrip.antt =====
-- What the codecs read back, and where they throw.
use ts_cli.Prelude.{
  ℕ, ◌+◌, ◌*◌, ◌/◌, ◌%◌, ◌^◌, ◌≤◌, ◌<◌, [], ◌∷◌, ◌++◌, append_assoc, ok, err, ltb, length, take,
  drop, length-drop, length-append, length-take, take_all, take-append-drop, take_prefix,
  drop_prefix, Bool-cases, ◌≡◌, ◌≢◌, ◌↔◌, inl, inr, refl, ap, sym, ◌∙◌, arith,
}
use Prim.Native.Nat.{bit_and, bit_or}
use ts_cli.Binary.{
  Bytes, Read, BinaryReader, reader, ◌>>=◌, return, read_u8, read_u16, read_bytes, write_u8,
  write_u16, write_bytes, IsU16,
}
use ts_cli.Binary.Views.{
  Sees, moved, reader-Sees, Sees-moved, remaining-Sees, read_u8-Sees, read_u16-Sees,
  read_bytes-Sees,
}
use ts_cli.Packet.{ClientPacketHeader, ServerPacketHeader, ServerPacket}
use ts_cli.Packet.Limits
use ts_cli.Packet.Codec.{
  read_server_header, write_client_meta, write_client_header, ParseError, too_small,
  parse_server_packet,
}

-- The header that a server's bytes stand for.
abbrev pub header_of : Bytes → ℕ → ℕ → ℕ → ServerPacketHeader
header_of mac hi lo tf = record {
  mac = mac;
  packet_id = hi * 2 ^ 8 + lo;
  packet_type = bit_and tf 0x0f;
  flags = bit_and tf 0xf0;
}

read_server_header-Sees :
    (r : BinaryReader) (mac : Bytes) (hi lo tf : ℕ) (rest : Bytes)
    → length mac ≡ 8
    → Sees r (mac ++ (hi ∷ lo ∷ tf ∷ rest))
    → (read_server_header r ≡ ok (header_of mac hi lo tf, moved (moved (moved r 8) 2) 1))
      × Sees (moved (moved (moved r 8) 2) 1) rest
unfolding read_server_header
read_server_header-Sees r mac hi lo tf rest h s =
    let all = mac ++ (hi ∷ lo ∷ tf ∷ rest) in
    let long : 8 ≤ length all = omega (arith, length-append mac (hi ∷ lo ∷ tf ∷ rest)) in
    let s1 : Sees (moved r 8) (hi ∷ lo ∷ tf ∷ rest) =
      rw (drop_prefix 8 mac _ h) at (Sees-moved 8 s long) in
    let s2 : Sees (moved (moved r 8) 2) (tf ∷ rest) = Sees-moved 2 s1 (omega arith) in
    (
      ground (
        arith,
        read_bytes-Sees 8 s long,
        take_prefix 8 mac (hi ∷ lo ∷ tf ∷ rest) h,
        read_u16-Sees hi lo s1,
        read_u8-Sees tf s2,
      ),
      Sees-moved 1 s2 (omega arith),
    )

-- Every packet of 11 bytes at least is taken apart: MAC, packet ID, type, flags, the three bytes behind
-- the MAC, and all that follows as the payload.
pub parse_server_packet_layout :
    (mac : Bytes) (hi lo tf : ℕ) (bytes : Bytes)
    → length mac ≡ 8
    → length bytes < 2 ^ 63
    → parse_server_packet (mac ++ (hi ∷ lo ∷ tf ∷ bytes))
      ≡ ok (record { header = header_of mac hi lo tf; meta = hi ∷ lo ∷ tf ∷ []; payload = bytes })
unfolding parse_server_packet
parse_server_packet_layout mac hi lo tf bytes h fits =
    let all = mac ++ (hi ∷ lo ∷ tf ∷ bytes) in
    let (parsed, last) =
      read_server_header-Sees (reader all) mac hi lo tf bytes h (reader-Sees all) in
    ground (
      arith,
      length-append mac (hi ∷ lo ∷ tf ∷ bytes),
      drop_prefix 8 mac (hi ∷ lo ∷ tf ∷ bytes) h,
      parsed,
      remaining-Sees last,
      read_bytes-Sees (length bytes) last,
      take_all (length bytes) bytes,
    )

three_ahead :
    (xs : Bytes)
    → 3 ≤ length xs
    → (a : ℕ) × (b : ℕ) × (c : ℕ) × (rest : Bytes) × (xs ≡ a ∷ b ∷ c ∷ rest)
three_ahead [] h = absurd (omega arith)
three_ahead (a ∷ []) h = absurd (omega arith)
three_ahead (a ∷ b ∷ []) h = absurd (omega arith)
three_ahead (a ∷ b ∷ c ∷ rest) h = (a, b, c, rest, refl)

parse_server_packet_total :
    (packet : Bytes)
    → length packet < 2 ^ 63
    → 11 ≤ length packet
    → (p : ServerPacket) × (parse_server_packet packet ≡ ok p)
parse_server_packet_total packet fits h =
    let (a, b, c, rest, e) = three_ahead (drop 8 packet) (omega (arith, length-drop 8 packet)) in
    let whole : take 8 packet ++ (a ∷ b ∷ c ∷ rest) ≡ packet =
      rw (← e) (take-append-drop 8 packet) in
    let short : length rest < 2 ^ 63 = omega (arith, ap length e, length-drop 8 packet) in
    (
      _,
      ap parse_server_packet (sym whole)
          ∙ parse_server_packet_layout (take 8 packet) a b c rest
              (omega (arith, length-take 8 packet)) short,
    )

-- A packet is refused, as too small, exactly when it has fewer than 11 bytes; the reader's own
-- exception never leaves `Parse`.
pub parse_server_packet_error :
    (packet : Bytes)
    → length packet < 2 ^ 63
    → ((parse_server_packet packet ≡ err too_small) ↔ (length packet < Limits.server_header_size))
      × (parse_server_packet packet ≢ err ParseError.truncated)
unfolding parse_server_packet
parse_server_packet_error packet fits = elim (Bool-cases (ltb (length packet) 11)) [
  | inl short ↦ ground arith
  | inr long ↦ ground (arith, parse_server_packet_total packet fits (ground arith))
]

-- The bytes of a client header behind the MAC.
abbrev pub meta_bytes : ClientPacketHeader → Bytes
meta_bytes h =
    h.packet_id / 2 ^ 8 % 256
    ∷ h.packet_id % 256
    ∷ h.client_id / 2 ^ 8 % 256
    ∷ h.client_id % 256
    ∷ bit_or h.packet_type h.flags
    ∷ []

pub write_client_header-append :
    (h : ClientPacketHeader) (bytes : Bytes)
    → write_bytes bytes (write_client_header h []) ≡ h.mac ++ (meta_bytes h ++ bytes)
unfolding write_client_header write_client_meta write_bytes write_u16 write_u8
write_client_header-append h bytes = simp append_assoc

-- A client packet read field by field.
abbrev pub read_client_packet : ℕ → Read (Bytes × ℕ × ℕ × ℕ × Bytes)
read_client_packet n = do
  mac ← read_bytes 8
  id ← read_u16
  client ← read_u16
  type_and_flags ← read_u8
  bytes ← read_bytes n
  return (mac, id, client, type_and_flags, bytes)

-- A client packet reads back as MAC, packet ID, client ID, the type joined with the flags, and the
-- payload, 13 bytes and the payload in all, so that a payload within the limit fits a datagram.
pub write_client_header_layout :
    (h : ClientPacketHeader) (bytes : Bytes)
    → length h.mac ≡ 8
    → IsU16 h.packet_id
    → IsU16 h.client_id
    → length bytes ≤ Limits.max_client_payload
    → (read_client_packet (length bytes) (reader (write_bytes bytes (write_client_header h [])))
        ≡ ok (
          (h.mac, h.packet_id, h.client_id, bit_or h.packet_type h.flags, bytes),
          record {
            span = write_bytes bytes (write_client_header h []);
            offset = Limits.client_header_size + length bytes;
          },
        ))
      × (length (write_bytes bytes (write_client_header h [])) ≤ Limits.max_datagram_size)
write_client_header_layout h bytes hm i c p =
    rw write_client_header-append
      (read_back, omega (arith, length-append h.mac (meta_bytes h ++ bytes)))
  where
    r : BinaryReader
    r = reader (h.mac ++ (meta_bytes h ++ bytes))

    s1 : Sees (moved r 8) (meta_bytes h ++ bytes)
    s1 = rw (drop_prefix 8 h.mac _ hm) at (
        Sees-moved 8 (reader-Sees (h.mac ++ (meta_bytes h ++ bytes)))
          (omega (arith, length-append h.mac (meta_bytes h ++ bytes))))

    s2 : Sees (moved (moved r 8) 2) (drop 2 (meta_bytes h) ++ bytes)
    s2 = Sees-moved 2 s1 (omega arith)

    s3 : Sees (moved (moved (moved r 8) 2) 2) (bit_or h.packet_type h.flags ∷ bytes)
    s3 = Sees-moved 2 s2 (omega arith)

    s4 : Sees (moved (moved (moved (moved r 8) 2) 2) 1) bytes
    s4 = Sees-moved 1 s3 (omega arith)

    read_back :
        read_client_packet (length bytes) r
        ≡ ok (
          (h.mac, h.packet_id, h.client_id, bit_or h.packet_type h.flags, bytes),
          record r { offset = 13 + length bytes },
        )
    read_back = ground (
      arith,
      read_bytes-Sees 8 (reader-Sees (h.mac ++ (meta_bytes h ++ bytes))),
      length-append h.mac (meta_bytes h ++ bytes),
      take_prefix 8 h.mac (meta_bytes h ++ bytes) hm,
      read_u16-Sees (h.packet_id / 2 ^ 8 % 256) (h.packet_id % 256) s1,
      read_u16-Sees (h.client_id / 2 ^ 8 % 256) (h.client_id % 256) s2,
      read_u8-Sees (bit_or h.packet_type h.flags) s3,
      read_bytes-Sees (length bytes) s4,
      take_all (length bytes) bytes,
    )
