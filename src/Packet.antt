-- ===== src/Packet.antt =====
-- protocol/include/protocol/packet: packet types and flags, sizes, and the headers. An enumeration
-- over `uint8_t` can hold any byte, so its values are numbers.
pub mod PacketType
pub mod PacketFlags
pub mod Limits
pub mod Codec
pub mod Sequence
pub mod SequenceState
pub mod Fragmenter
use ts_cli.Prelude.{ℕ}
use ts_cli.Binary.{Bytes}

pub record ClientPacketHeader : Type 0 where
  pub mac : Bytes
  pub packet_id : ℕ
  pub client_id : ℕ
  pub packet_type : ℕ
  pub flags : ℕ

pub record ServerPacketHeader : Type 0 where
  pub mac : Bytes
  pub packet_id : ℕ
  pub packet_type : ℕ
  pub flags : ℕ

pub record ClientInitHeader : Type 0 where
  pub packet_id : ℕ
  pub client_id : ℕ
  pub flags : ℕ
  pub version : ℕ
  pub command : ℕ

pub record ServerInitHeader : Type 0 where
  pub packet_id : ℕ
  pub flags : ℕ
  pub command : ℕ

-- `ServerPacket`: the header, the three bytes of the header behind the MAC, and the payload.
pub record ServerPacket : Type 0 where
  pub header : ServerPacketHeader
  pub meta : Bytes
  pub payload : Bytes
