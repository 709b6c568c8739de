-- ===== src/Tests/Streams.antt =====
-- The theorems on reliable streams at concrete inputs.
use ts_cli.Prelude.{
  ℕ, zero, suc, ◌+◌, ◌-◌, ◌*◌, ◌/◌, ◌%◌, ◌^◌, ◌≤◌, ◌<◌, min, Bool, true, false, not, ◌&&◌, ◌||◌,
  Option, none, some, List, [], ◌∷◌, ◌++◌, Result, ok, err, ltb, leb, ◌==◌, length, replicate, All,
  if◌then◌else◌, ◌≡◌, ◌≢◌, ◌↔◌, refl, arith, map,
}
use ts_cli.Prelude.OrderedMap.{find, erase, insert}
use ts_cli.Binary.{Bytes}
use ts_cli.Packet.PacketFlags
use ts_cli.Packet.PacketFlags.{has_flag}
use ts_cli.Packet.Sequence.{PacketSequence, advance, sequence_key, key_of}
use ts_cli.Reliability.Window.{QueuedPacket, idle, Stream, feed, out_of_fuel, max_queued_packets}
use ts_cli.Reliability.Window.Cases.{feed_total}
use ts_cli.Reliability.Window.Reference.{in_order, feed_all}
use ts_cli.Reliability.Window.InOrder.{fresh, feed_all-in_order}
use ts_cli.Reliability.Queue.{
  Pending, new_command, add, acknowledge, contains_id, collect_due, next_deadline,
}
use ts_cli.Reliability.Queue.Pending.{IsValid as IsValidQueue, acknowledge-add}
use ts_cli.Reliability.Queue.Outcomes.{IsAdded, IsAcknowledged, add_lem, acknowledge_lem}
use ts_cli.Reliability.Queue.Timing.{
  IsDeadline, HasDelays, next_deadline_exact, collect_due_twice, kept, due_packets,
}
use ts_cli.Tests.{two}

-- Packets of one byte, their own key.
abbrev sent : ℕ → QueuedPacket
sent k = record { flags = PacketFlags.new_protocol; bytes = k ∷ [] }

abbrev first : PacketSequence
first = record { packet_id = 1; generation_id = 0 }

-- The third packet before the second, and the first twice.
abbrev arrivals : List (ℕ × ℕ)
arrivals = (1, 0) ∷ (3, 0) ∷ (1, 0) ∷ (2, 0) ∷ []

abbrev behind : Stream
behind = record {
  expected = record { packet_id = 4; generation_id = 0 };
  queued = [];
  assembly = idle;
}

abbrev delivered : List Bytes
delivered = (1 ∷ []) ∷ (2 ∷ []) ∷ (3 ∷ []) ∷ []

session : feed_all sent arrivals (fresh first) [] ≡ (behind, ok delivered)
unfolding feed_all feed sequence_key key_of ts_cli.Reliability.Window.consume
    ts_cli.Reliability.Window.process_ordered has_flag ts_cli.Reliability.Window.finished advance
    ts_cli.Reliability.Window.drain find insert erase
session = refl

feed_all-in_order_example :
    (key_of first ≤ key_of behind.expected)
    × (in_order sent (key_of first) (key_of behind.expected - key_of first)
        ≡ some (behind.assembly, delivered))
    × (length behind.queued ≤ max_queued_packets)
    × ((k : ℕ) (p : QueuedPacket)
        → find k behind.queued ≡ some p
        → (p ≡ sent k) × (key_of behind.expected < k))
feed_all-in_order_example =
    feed_all-in_order sent first arrivals behind delivered
      (record { id_fits = omega arith; generation_fits = omega arith }) session

feed_total_example : (feed 3 0 0 (7 ∷ []) behind).1 ≢ err out_of_fuel
feed_total_example = feed_total 3 0 0 (7 ∷ []) behind

-- Two commands that are pending, with IDs 1 and 2.
abbrev one_pending : Pending
one_pending = (1, new_command 1 0 two 50) ∷ []

one_pending-IsValid : IsValidQueue one_pending
unfolding contains_id sequence_key
one_pending-IsValid = record {
  distinct = ((refl, omega arith, omega arith), refl, tt);
  bounded = omega arith;
}

abbrev two_pending : Pending
two_pending = (1, new_command 1 0 two 50) ∷ (2, new_command 2 0 two 70) ∷ []

second_added : add 2 0 two 70 one_pending ≡ ok two_pending
unfolding add contains_id sequence_key ts_cli.Prelude.OrderedMap.contains find insert
second_added = refl

add_lem_example : IsAdded 2 one_pending (add 2 0 two 70 one_pending)
add_lem_example = add_lem 2 0 two 70 one_pending (omega arith) (omega arith) one_pending-IsValid

acknowledge-add_example :
    acknowledge 2 two_pending
    ≡ ok (some (record { first_sent = 70; retransmitted = false }), one_pending)
acknowledge-add_example =
    acknowledge-add 2 0 two 70 one_pending two_pending (omega arith) (omega arith)
      one_pending-IsValid second_added

acknowledge_lem_example : IsAcknowledged 1 one_pending (acknowledge 1 one_pending)
acknowledge_lem_example = acknowledge_lem 1 one_pending one_pending-IsValid

next_deadline_exact_example : IsDeadline 100 two_pending (next_deadline two_pending)
next_deadline_exact_example = next_deadline_exact 100 two_pending

-- At half a second and 60 nanoseconds the first command is due, and the second is not.
first_due : (collect_due 500000060 two_pending).1 ≡ ok (two ∷ [])
unfolding collect_due
first_due = refl

collect_due_twice_example :
    (two ∷ [] ≡ due_packets 500000060 two_pending)
    × (map kept (collect_due 500000060 two_pending).0 ≡ map kept two_pending)
    × (collect_due 500000060 (collect_due 500000060 two_pending).0
        ≡ ((collect_due 500000060 two_pending).0, ok []))
    × HasDelays (collect_due 500000060 two_pending).0
collect_due_twice_example =
    collect_due_twice 500000060 two_pending (two ∷ [])
      ((omega arith, omega arith), ((omega arith, omega arith), tt)) first_due
