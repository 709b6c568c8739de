-- ===== src/Tests/Packets.antt =====
-- The theorems on packets at concrete inputs.
use ts_cli.Prelude.{
  ◌+◌, ◌≤◌, ◌<◌, List, [], ◌∷◌, ◌++◌, ok, err, length, replicate, All, ◌≡◌, ◌≢◌, ◌↔◌, refl, arith,
}
use Prim.Native.Nat.{bit_or}
use ts_cli.Binary.{Bytes, reader, write_bytes, IsU32}
use ts_cli.Packet.{ClientPacketHeader}
use ts_cli.Packet.Limits
use ts_cli.Packet.Codec.{ParseError, too_small, parse_server_packet, write_client_header}
use ts_cli.Packet.Codec.RoundTrip.{
  header_of, read_client_packet, parse_server_packet_layout, parse_server_packet_error,
  write_client_header_layout,
}
use ts_cli.Packet.Sequence.{PacketSequence, advance, resolve_generation, sequence_key, key_of}
use ts_cli.Prelude.{set}
use ts_cli.Packet.SequenceState.{PacketSequenceState, initial_state, set_outgoing}
use ts_cli.Packet.Sequence.Keys.{IsAdvanced, IsNear, advance-key_of, resolve_generation_iff}
use ts_cli.Packet.Fragmenter.{CommandFragment, plan}
use ts_cli.Packet.Fragmenter.Cover.{joined, plan-joined}
use ts_cli.Reliability.Window.{idle}
use ts_cli.Reliability.Window.Reassembly.{process_all, process_all-plan}
use ts_cli.Tests.{two}

-- A command of 500 bytes, which takes two packets.
abbrev long_command : Bytes
long_command = replicate 500 97

process_all-plan_example :
    (fs : List CommandFragment) × (plan (length long_command) ≡ ok fs)
    × (process_all long_command fs idle [] ≡ (idle, ok (long_command ∷ [])))
process_all-plan_example = process_all-plan long_command (omega arith)

plan-joined_example :
    (fs : List CommandFragment) × (plan (length long_command) ≡ ok fs)
    × (joined long_command fs ≡ long_command)
    × All (λ f. f.size ≤ Limits.max_client_payload) fs
plan-joined_example = plan-joined long_command (omega arith)

abbrev wrapping : PacketSequence
wrapping = record { packet_id = 65535; generation_id = 4 }

resolve_generation_example :
    (resolve_generation wrapping 2 ≡ ok 5) ↔ (IsU32 5 × IsNear (sequence_key 2 5) (key_of wrapping))
resolve_generation_example =
    resolve_generation_iff wrapping 2 5
      (record { id_fits = omega arith; generation_fits = omega arith }) (omega arith)

advance-key_of_example : IsAdvanced wrapping (advance wrapping)
advance-key_of_example =
    advance-key_of wrapping (record { id_fits = omega arith; generation_fits = omega arith })

abbrev mac : Bytes
mac = replicate 8 9

parse_server_packet_layout_example :
    parse_server_packet (mac ++ (1 ∷ 2 ∷ 0x22 ∷ two))
    ≡ ok (record { header = header_of mac 1 2 0x22; meta = 1 ∷ 2 ∷ 0x22 ∷ []; payload = two })
parse_server_packet_layout_example = parse_server_packet_layout mac 1 2 0x22 two refl (omega arith)

parse_server_packet_error_example :
    ((parse_server_packet mac ≡ err too_small) ↔ (length mac < Limits.server_header_size))
    × (parse_server_packet mac ≢ err ParseError.truncated)
parse_server_packet_error_example = parse_server_packet_error mac (omega arith)

abbrev header : ClientPacketHeader
header = record { mac = mac; packet_id = 258; client_id = 3; packet_type = 2; flags = 0x20 }

write_client_header_layout_example :
    (read_client_packet (length two) (reader (write_bytes two (write_client_header header [])))
      ≡ ok (
        (mac, 258, 3, bit_or 2 0x20, two),
        record {
          span = write_bytes two (write_client_header header []);
          offset = Limits.client_header_size + length two;
        },
      ))
    × (length (write_bytes two (write_client_header header [])) ≤ Limits.max_datagram_size)
write_client_header_layout_example =
    write_client_header_layout header two refl (omega arith) (omega arith) (omega arith)

abbrev advanced_state : PacketSequenceState
advanced_state = record initial_state { outgoing = set initial_state.outgoing 2 wrapping }

command_written : set_outgoing 2 wrapping initial_state ≡ ok advanced_state
unfolding set_outgoing
command_written = refl
