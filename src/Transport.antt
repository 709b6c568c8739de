-- ===== src/Transport.antt =====
-- protocol/src/session_transport.cpp: the packets of a session, between the socket and the session's
-- commands and voice. The time is an argument of a call: the clock stands still while it runs. What
-- `Transport::Send` is given is logged; a packet that is sent for the first time with its type and
-- sequence, of which the code sends only the bytes. `RecordRtt` changes ping times only and is left out.
pub mod Sending
pub mod Receiving
pub mod Timers
pub mod Operations
pub mod Authentication
pub mod Returns
pub mod Delivery
pub mod Fresh
pub mod Runs
use ts_cli.Prelude.{ℕ, ◌+◌, Bool, false, Option, none, List, [], ◌∷◌, ok, err, length}
use ts_cli.Binary.{Bytes, ReadError}
use ts_cli.Packet.{ServerPacket}
use ts_cli.Packet.Codec.{ParseError}
use ts_cli.Packet.Fragmenter.{PlanError}
use ts_cli.Packet.Sequence.{PacketSequence, SequenceError, advance}
use ts_cli.Packet.SequenceState.{
  PacketSequenceState, StateError, outgoing_of, incoming_of, set_outgoing, set_incoming,
}
use ts_cli.Prelude.OrderedMap.{OrderedMap}
use ts_cli.Reliability.Queue.{Pending, QueueError, Acknowledgement, acknowledge}
use ts_cli.Reliability.Window.{QueuedPacket, Assembly, WindowError, idle}
use ts_cli.Statistics.Recording.{ConnectionStatistics, StatisticsError, reset, record_sent}
use ts_cli.Voice.{VoiceFrame, VoiceError}
use ts_cli.Actions.{Action, modify, call, ◌>>=◌, ◌>>◌}

-- `SessionCrypto`, as the transport calls it: a type, a packet ID, a generation, the header's bytes and
-- the payload give a MAC and the encrypted payload; decryption gives nothing where the MAC is wrong.
pub record SessionCrypto : Type 0 where
  pub encrypt_client : ℕ → ℕ → ℕ → Bytes → Bytes → Bytes × Bytes
  pub decrypt_server : ServerPacket → ℕ → Option Bytes
  pub shared_mac : Bytes

pub data TransportError : Type 0 where
  payload_too_large invalid_mac unexpected_size encrypted_packet : TransportError
  unexpected_init invalid_client_id no_command no_voice : TransportError
  queue : QueueError → TransportError
  voice : VoiceError → TransportError
  sequence : SequenceError → TransportError
  state : StateError → TransportError
  window : WindowError → TransportError
  plan : PlanError → TransportError
  parse : ParseError → TransportError
  read : ReadError → TransportError
  statistics : StatisticsError → TransportError

pub record PendingPing : Type 0 where
  pub packet_id : ℕ
  pub sent_at : ℕ

-- `fresh` is a packet that is sent for the first time, the bytes with the type and the sequence that it is
-- made from, which only the theorems read: `IsMade` of Transport/Fresh ties them to the bytes. `again` is a
-- retransmission.
pub data Transmission : Type 0 where
  fresh : ℕ → PacketSequence → Bytes → Transmission
  again : Bytes → Transmission

-- A `CommandReceiveWindow`
pub record Window : Type 0 where
  pub queued : OrderedMap QueuedPacket
  pub assembly : Assembly

-- The members, and what has been sent, the last first.
pub record SessionTransport : Type 0 where
  pub sequences : PacketSequenceState
  pub reliable_commands : Pending
  pub counters : ConnectionStatistics
  pub client_id : ℕ
  pub connected : Bool
  pub last_receive_at : ℕ
  pub pending_ping : Option PendingPing
  pub first_command_packet_id : Option ℕ
  pub command_window : Window
  pub command_low_window : Window
  pub ready_commands : List Bytes
  pub ready_voice : List VoiceFrame
  pub sent : List Transmission

abbrev pub Act : Type 0 → Type 0
Act A = Action SessionTransport TransportError A

abbrev pub empty_window : Window
empty_window = record { queued = []; assembly = idle }

-- The constructor, at a time for the statistics.
abbrev pub new_transport : PacketSequenceState → ℕ → SessionTransport
new_transport sequences now = record {
  sequences = sequences;
  reliable_commands = [];
  counters = reset now;
  client_id = 0;
  connected = false;
  last_receive_at = 0;
  pending_ping = none;
  first_command_packet_id = none;
  command_window = empty_window;
  command_low_window = empty_window;
  ready_commands = [];
  ready_voice = [];
  sent = [];
}

-- `m_Sequences.Outgoing( type )` and `Incoming( type )`, read
unfoldable pub outgoing : ℕ → Act PacketSequence
outgoing type s = call state (outgoing_of type s.sequences) s

unfoldable pub incoming : ℕ → Act PacketSequence
incoming type s = call state (incoming_of type s.sequences) s

-- The same references, written through
unfoldable pub save_outgoing : ℕ → PacketSequence → Act (Unit {0})
save_outgoing type q s = elim (set_outgoing type q s.sequences) [
  | err e ↦ (err (state e), s)
  | ok sequences' ↦ (ok tt, record s { sequences = sequences' })
]

unfoldable pub save_incoming : ℕ → PacketSequence → Act (Unit {0})
save_incoming type q s = elim (set_incoming type q s.sequences) [
  | err e ↦ (err (state e), s)
  | ok sequences' ↦ (ok tt, record s { sequences = sequences' })
]

-- `ReliableCommandQueue::Acknowledge`
unfoldable pub retire : ℕ → Act (Option Acknowledgement)
retire packet_id s = elim (acknowledge packet_id s.reliable_commands) [
  | err e ↦ (err (queue e), s)
  | ok (a, pending) ↦ (ok a, record s { reliable_commands = pending })
]

-- `Ipv4UdpOverhead`
abbrev pub ipv4_udp_overhead : ℕ
ipv4_udp_overhead = 28

-- `m_Transport.Send( packet ); m_Statistics.RecordSent( … ); sequence.Advance();`
unfoldable pub transmit : ℕ → PacketSequence → Bytes → ℕ → Act (Unit {0})
transmit type q packet now = do
  modify (λ s. record s {
    sent = fresh type q packet ∷ s.sent;
    counters = record_sent type (length packet + ipv4_udp_overhead) now s.counters;
  })
  next ← call sequence (advance q)
  save_outgoing type next
