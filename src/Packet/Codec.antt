-- ===== src/Packet/Codec.antt =====
-- protocol/src/packet/codec.cpp, init_codec.cpp and server_packet.cpp: headers on the wire.
pub mod RoundTrip
use ts_cli.Prelude.{
  Bool, true, false, not, ◌&&◌, [], ◌∷◌, Result, ok, err, ltb, ◌==◌, length, take, drop,
  if◌then◌else◌,
}
use Prim.Native.Nat.{bit_and, bit_or}
use ts_cli.Binary.{
  Bytes, Read, BinaryReader, reader, ◌>>=◌, return, read_u8, read_u16, read_bytes, remaining,
  write_u8, write_u16, write_u32, write_bytes,
}
use ts_cli.Packet.{
  ClientPacketHeader, ServerPacketHeader, ClientInitHeader, ServerInitHeader, ServerPacket,
}

unfoldable pub read_server_header : Read ServerPacketHeader
read_server_header = do
  mac ← read_bytes 8
  id ← read_u16
  type_and_flags ← read_u8
  return (record {
    mac = mac;
    packet_id = id;
    packet_type = bit_and type_and_flags 0x0f;
    flags = bit_and type_and_flags 0xf0;
  })

unfoldable pub write_client_meta : ClientPacketHeader → Bytes → Bytes
write_client_meta header out =
    write_u8 (bit_or header.packet_type header.flags)
      (write_u16 header.client_id (write_u16 header.packet_id out))

unfoldable pub write_client_header : ClientPacketHeader → Bytes → Bytes
write_client_header header out = write_client_meta header (write_bytes header.mac out)

pub data ParseError : Type 0 where
  too_small : ParseError
  truncated : ParseError

-- `ServerPacket::Parse`; `truncated` is the reader's own exception.
unfoldable pub parse_server_packet : Bytes → Result ParseError ServerPacket
unfolding read_server_header
parse_server_packet packet =
    if ltb (length packet) 11 then err too_small else elim (read_server_header (reader packet)) [
      | err e ↦ err truncated
      | ok (header, r) ↦ elim (read_bytes (remaining r) r) [
        | err e ↦ err truncated
        | ok (bytes, r') ↦
            ok (record { header = header; meta = take 3 (drop 8 packet); payload = bytes })
      ]
    ]

abbrev pub init_magic : Bytes
init_magic = 0x54 ∷ 0x53 ∷ 0x33 ∷ 0x49 ∷ 0x4e ∷ 0x49 ∷ 0x54 ∷ 0x31 ∷ []

unfoldable pub write_client_init_header : ClientInitHeader → Bytes → Bytes
write_client_init_header header out = write_u8 header.command (
    write_u32 header.version (
      write_u8 header.flags
        (write_u16 header.client_id (write_u16 header.packet_id (write_bytes init_magic out)))))

-- `std::equal`
unfoldable pub equal : Bytes → Bytes → Bool
equal [] ys = true
equal (x ∷ xs) [] = false
equal (x ∷ xs) (y ∷ ys) = x == y && equal xs ys

pub data InitError : Type 0 where
  bad_magic : InitError
  truncated : InitError

-- `InitCodec::ReadServerHeader`, from the start of the bytes that a reader has left.
unfoldable pub read_server_init_header :
    BinaryReader → Result InitError (ServerInitHeader × BinaryReader)
unfolding equal
read_server_init_header r = elim (read_bytes 8 r) [
  | err e ↦ err InitError.truncated
  | ok (magic, r') ↦ if not (equal init_magic magic) then err bad_magic else elim (read_u16 r') [
    | err e ↦ err InitError.truncated
    | ok (id, r'') ↦ elim (read_u8 r'') [
      | err e ↦ err InitError.truncated
      | ok (flags, r3) ↦ elim (read_u8 r3) [
        | err e ↦ err InitError.truncated
        | ok (command, r4) ↦ ok (record { packet_id = id; flags = flags; command = command }, r4)
      ]
    ]
  ]
]
