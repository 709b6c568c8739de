-- ===== src/Packet/Limits.antt =====
-- protocol/include/protocol/packet/limits.hpp: sizes in bytes.
use ts_cli.Prelude.{ℕ, ◌*◌}

abbrev pub max_datagram_size : ℕ
max_datagram_size = 500

abbrev pub client_header_size : ℕ
client_header_size = 13

abbrev pub server_header_size : ℕ
server_header_size = 11

abbrev pub max_client_payload : ℕ
max_client_payload = 487

abbrev pub max_command_size : ℕ
max_command_size = 64 * 1024
