-- ===== src/Packet/PacketFlags.antt =====
-- protocol/include/protocol/packet/packet_flags.hpp: `enum class PacketFlags`, over `uint8_t`, and its operators.
use Prim.Native.Nat.{bit_and, bit_or}
use ts_cli.Prelude.{ℕ, Bool, not, ◌==◌}

abbrev pub none : ℕ
none = 0x00

abbrev pub fragmented : ℕ
fragmented = 0x10

abbrev pub new_protocol : ℕ
new_protocol = 0x20

abbrev pub compressed : ℕ
compressed = 0x40

abbrev pub unencrypted : ℕ
unencrypted = 0x80

unfoldable pub has_flag : ℕ → ℕ → Bool
has_flag value flag = not (bit_and value flag == 0)

-- `operator|`
unfoldable pub join_flags : ℕ → ℕ → ℕ
join_flags left right = bit_or left right
