-- ===== src/Reliability/Queue.antt =====
-- protocol/src/reliability/reliable_command_queue.cpp: sent commands that wait for their
-- acknowledgement. Points in time are nanoseconds of the steady clock, delays are milliseconds, as their
-- C++ types have it. A packet is the list of its bytes.
pub mod Pending
pub mod Outcomes
pub mod Timing
use ts_cli.Prelude.{
  ℕ, ◌+◌, ◌*◌, min, Bool, true, false, ◌||◌, Option, none, some, List, [], ◌∷◌, Result, ok, err,
  ◌>>=◌, ◌>>◌, ltb, leb, ◌==◌, length, if◌then◌else◌,
}
use ts_cli.Binary.{Bytes}
use ts_cli.Packet.Sequence.{sequence_key}
use ts_cli.Prelude.OrderedMap.{OrderedMap, insert, erase, contains}

pub record PendingCommand : Type 0 where
  pub packet_id : ℕ
  pub generation_id : ℕ
  pub packet : Bytes
  pub first_sent : ℕ
  pub next_retry : ℕ
  pub retry_delay : ℕ
  pub retransmitted : Bool

pub record Acknowledgement : Type 0 where
  pub first_sent : ℕ
  pub retransmitted : Bool

pub data QueueError : Type 0 where
  queue_full id_still_pending sequence_still_pending ambiguous_acknowledgement timed_out :
      QueueError

abbrev pub max_pending_commands : ℕ
max_pending_commands = 1024

abbrev pub initial_retry_delay : ℕ
initial_retry_delay = 500

abbrev pub max_retry_delay : ℕ
max_retry_delay = 4000

abbrev pub milliseconds : ℕ → ℕ
milliseconds n = n * 1000000

-- 30 seconds
abbrev pub command_timeout : ℕ
command_timeout = 30 * 1000000000

-- `m_Pending`
abbrev pub Pending : Type 0
Pending = OrderedMap PendingCommand

-- `Contains`, and the loop of `Add`
unfoldable pub contains_id : ℕ → Pending → Bool
contains_id id [] = false
contains_id id ((k, p) ∷ m) = p.packet_id == id || contains_id id m

abbrev pub new_command : ℕ → ℕ → Bytes → ℕ → PendingCommand
new_command id generation packet sent_at = record {
  packet_id = id;
  generation_id = generation;
  packet = packet;
  first_sent = sent_at;
  next_retry = sent_at + milliseconds initial_retry_delay;
  retry_delay = initial_retry_delay;
  retransmitted = false;
}

unfoldable pub add : ℕ → ℕ → Bytes → ℕ → Pending → Result QueueError Pending
unfolding contains
add id generation packet sent_at m =
    if leb max_pending_commands (length m)
    then err queue_full
    else if contains_id id m
    then err id_still_pending
    else if contains (sequence_key id generation) m
    then err sequence_still_pending
    else ok (insert (sequence_key id generation) (new_command id generation packet sent_at) m)

-- The loop of `Acknowledge`, with the match so far.
unfoldable pub find_id :
    ℕ → Pending → Option (ℕ × PendingCommand) → Result QueueError (Option (ℕ × PendingCommand))
find_id id [] found = ok found
find_id id ((k, p) ∷ m) none = find_id id m (if p.packet_id == id then some (k, p) else none)
find_id id ((k, p) ∷ m) (some e) =
    let rest = find_id id m (some e) in
    if p.packet_id == id then err ambiguous_acknowledgement else rest

unfoldable pub acknowledge : ℕ → Pending → Result QueueError (Option Acknowledgement × Pending)
unfolding find_id
acknowledge id m = elim (find_id id m none) [
  | err e ↦ err e
  | ok none ↦ ok (none, m)
  | ok (some (k, p)) ↦
      ok (some (record { first_sent = p.first_sent; retransmitted = p.retransmitted }), erase k m)
]

abbrev pub retried : ℕ → PendingCommand → PendingCommand
retried now p = record p {
  retransmitted = true;
  retry_delay = min (p.retry_delay * 2) max_retry_delay;
  next_retry = now + milliseconds (min (p.retry_delay * 2) max_retry_delay);
}

-- `CollectDue`: an exception keeps the entries that have been changed before it.
unfoldable pub collect_due : ℕ → Pending → Pending × Result QueueError (List Bytes)
collect_due now [] = ([], ok [])
collect_due now ((k, p) ∷ m) =
    let rest = collect_due now m in
    if leb (p.first_sent + command_timeout) now
    then ((k, p) ∷ m, err timed_out)
    else if ltb now p.next_retry
    then ((k, p) ∷ rest.0, rest.1)
    else ((k, retried now p) ∷ rest.0, rest.1 >>= λ packets. ok (p.packet ∷ packets))

-- The loop of `NextDeadline`, with the result so far.
unfoldable pub earliest : Pending → Option ℕ → Option ℕ
earliest [] result = result
earliest ((k, p) ∷ m) none = earliest m (some (min p.next_retry (p.first_sent + command_timeout)))
earliest ((k, p) ∷ m) (some d) =
    let deadline = min p.next_retry (p.first_sent + command_timeout) in
    earliest m (some (if ltb deadline d then deadline else d))

unfoldable pub next_deadline : Pending → Option ℕ
unfolding earliest
next_deadline m = earliest m none

unfoldable pub size : Pending → ℕ
size m = length m
