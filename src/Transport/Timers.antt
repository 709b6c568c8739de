-- ===== src/Transport/Timers.antt =====
-- The timers of a session, and what it does while it waits: retransmissions, pings, time-outs.
use ts_cli.Prelude.{
  ℕ, ◌+◌, ◌-◌, ◌*◌, ◌/◌, min, Bool, true, false, not, ◌||◌, Option, none, some, List, [], ◌∷◌, ok,
  err, ltb, leb, length, if◌then◌else◌, ◌==◌,
}
use ts_cli.Binary.{Bytes}
use ts_cli.Packet.PacketType
use ts_cli.Reliability.Queue.{collect_due, contains_id, size, next_deadline}
use ts_cli.Statistics.Recording.{record_sent, reset}
use ts_cli.Transport.{
  SessionCrypto, SessionTransport, PendingPing, Act, again, queue, invalid_client_id, retire,
  ipv4_udp_overhead,
}
use ts_cli.Transport.Sending.{send_ping}
use ts_cli.Transport.Receiving.{process_packet, take_ready_command}
use ts_cli.Actions.{return, gets, modify, throw_when, ◌>>◌, for_each, ◌>>=◌}

-- One second
abbrev pub ping_interval : ℕ
ping_interval = 1000000000

-- 30 seconds
abbrev pub receive_timeout : ℕ
receive_timeout = 30 * 1000000000

-- `m_ReliableCommands.CollectDue( now )`
unfoldable pub collect : ℕ → Act (List Bytes)
collect now s =
    let (pending, due) = collect_due now s.reliable_commands in
    (
      elim due [ err e ↦ err (queue e) | ok packets ↦ ok packets ],
      record s { reliable_commands = pending },
    )

-- `m_Transport.Send( packet ); m_Statistics.RecordSent( … );` for a packet that is due
unfoldable pub retransmit : ℕ → Bytes → Act (Unit {0})
retransmit now packet = modify (λ s. record s {
  sent = again packet ∷ s.sent;
  counters = record_sent PacketType.command (length packet + ipv4_udp_overhead) now s.counters;
})

-- `HasPendingReliableCommands`
abbrev pub has_pending : SessionTransport → Bool
has_pending s = not (size s.reliable_commands == 0)

abbrev pub forget_ping : SessionTransport → SessionTransport
forget_ping s = record s { pending_ping = none }

-- A round of `ReceiveCommand`: a time, and the datagram that can be read then, if any.
pub record Round : Type 0 where
  pub now : ℕ
  pub datagram : Option Bytes

module _ (crypto : SessionCrypto) where
  -- `ProcessTimers` behind the retransmissions, in a session that is connected with no command pending:
  -- for the ping that waits, and the time of the last packet.
  unfoldable pub next_ping : Option PendingPing → ℕ → ℕ → Act (Unit {0})
  next_ping (some p) last_receive_at now =
      if ltb p.sent_at last_receive_at
      then modify forget_ping
      else if leb ping_interval (now - p.sent_at)
      then (modify forget_ping >> send_ping crypto now)
      else return tt
  next_ping none last_receive_at now =
      if leb ping_interval (now - last_receive_at) then send_ping crypto now else return tt

  unfoldable pub keep_alive : ℕ → Act (Unit {0})
  keep_alive now = do
    pending ← gets (λ s. s.pending_ping)
    last_receive_at ← gets (λ s. s.last_receive_at)
    next_ping pending last_receive_at now

  -- `ProcessTimers`
  unfoldable pub process_timers : ℕ → Act (Unit {0})
  process_timers now = do
    packets ← collect now
    for_each (retransmit now) packets
    quiet ← gets (λ s. not s.connected || has_pending s)
    if quiet then return tt else keep_alive now

  -- `PollTransport`
  unfoldable pub read_datagram : ℕ → Option Bytes → Act (Unit {0})
  read_datagram now none = return tt
  read_datagram now (some datagram) = process_packet crypto datagram now

  -- A round of `ReceiveCommand`, and the rounds behind it
  unfoldable pub receive_round : Round → Act (Option Bytes) → Act (Option Bytes)
  receive_round r rest = do
    ready ← gets (λ s. s.ready_commands)
    if length ready == 0
        then (process_timers r.now >> (read_datagram r.now r.datagram >> rest))
        else take_ready_command >>= λ bytes. return (some bytes)

  -- The loop of `ReceiveCommand`, for what the socket gives in some rounds: a command, or none so far.
  unfoldable pub receive_command : List Round → Act (Option Bytes)
  receive_command [] = do
    ready ← gets (λ s. s.ready_commands)
    if length ready == 0 then return none else take_ready_command >>= λ bytes. return (some bytes)
  receive_command (r ∷ rs) = receive_round r (receive_command rs)

-- `ConfirmCommand`
unfoldable pub confirm_command : ℕ → Act (Unit {0})
confirm_command packet_id = do a ← retire packet_id; return tt

-- `IsCommandPending`
unfoldable pub is_command_pending : ℕ → SessionTransport → Bool
is_command_pending packet_id s = contains_id packet_id s.reliable_commands

-- `SetClientId`
unfoldable pub set_client_id : ℕ → Act (Unit {0})
set_client_id id = do
  throw_when (id == 0) invalid_client_id
  modify (λ s. record s { client_id = id })

-- `SetConnected`
unfoldable pub set_connected : ℕ → Act (Unit {0})
set_connected now = modify (λ s. record s {
  connected = true;
  counters = reset now;
  last_receive_at = now;
  pending_ping = none;
})

-- `IsTimedOut`
unfoldable pub is_timed_out : ℕ → ℕ → Bool
is_timed_out last_receive_at now =
    if leb now last_receive_at then false else leb receive_timeout (now - last_receive_at)

-- `TimedOut`
unfoldable pub timed_out : ℕ → SessionTransport → Bool
unfolding is_timed_out
timed_out now s = if not s.connected then false else is_timed_out s.last_receive_at now

-- `WaitTimeout`, in milliseconds: what is left to the next deadline, rounded up.
unfoldable pub wait_timeout : ℕ → ℕ → SessionTransport → ℕ
wait_timeout maximum now s = elim (next_deadline s.reliable_commands) [
  | none ↦ maximum
  | some deadline ↦
      if leb deadline now then 0 else min maximum ((deadline - now + 999999) / 1000000)
]
