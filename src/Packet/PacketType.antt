-- ===== src/Packet/PacketType.antt =====
-- protocol/include/protocol/packet/packet_type.hpp: `enum class PacketType`, over `uint8_t`.
use ts_cli.Prelude.{ℕ}

abbrev pub voice : ℕ
voice = 0x00

abbrev pub voice_whisper : ℕ
voice_whisper = 0x01

abbrev pub command : ℕ
command = 0x02

abbrev pub command_low : ℕ
command_low = 0x03

abbrev pub ping : ℕ
ping = 0x04

abbrev pub pong : ℕ
pong = 0x05

abbrev pub ack : ℕ
ack = 0x06

abbrev pub ack_low : ℕ
ack_low = 0x07

abbrev pub init1 : ℕ
init1 = 0x08
