-- ===== src/Tests/Counters.antt =====
-- The theorems on statistics and on the ring at concrete inputs.
use ts_cli.Prelude.{
  ℕ, ◌+◌, ◌≤◌, ◌<◌, true, false, List, [], ◌∷◌, ◌++◌, length, ◌≡◌, ◌≢◌, refl, arith, if◌then◌else◌,
  ◌==◌,
}
use ts_cli.Prelude.OrderedMap.{contains, find, erase, insert}
use ts_cli.Packet.PacketType
use ts_cli.Statistics.{pos, negsuc, LossDelta}
use ts_cli.Statistics.LossTracker.{LossTracker, new_tracker, lost, observed, observe_all}
use ts_cli.Statistics.LossTracker.Loss.{observe_all-lost, observed-late}
use ts_cli.Statistics.Windows.{seconds, loss_totals}
use ts_cli.Statistics.Windows.Pruning.{add_losses, all_losses, loss_totals-add_losses}
use ts_cli.Statistics.Recording.{reset, tracks_incoming_loss}
use ts_cli.Statistics.Recording.Counts.{
  ReceivedPacket, record_all, ids_of, HasSeen, record_all-HasSeen,
}
use ts_cli.Ring.{
  Ring, Reach, new_ring, storing, taking, next, size, store, start, pushing, popping, has_room,
  emplace, publish, has_value,
}
use ts_cli.Ring.Order.{Reach-order, Reach-no_race}

abbrev later_ids : List ℕ
later_ids = 65535 ∷ 3 ∷ 1 ∷ 3 ∷ []

abbrev seen_ids : LossTracker
seen_ids = observe_all (65534 ∷ later_ids) new_tracker

observe_all-lost_example :
    (seen_ids.highest_sequence + 1 ≡ 65534 + seen_ids.expected)
    × (lost seen_ids < seen_ids.expected)
    × (length seen_ids.missing ≤ 4096)
observe_all-lost_example = observe_all-lost 65534 later_ids (omega arith) (omega arith)

-- The packet 2 of the next round of IDs is missing.
missing_two : contains 65538 seen_ids.missing ≡ true
unfolding contains observe_all find erase insert
missing_two = refl

observed-late_example :
    (lost (observed 2 seen_ids) + 1 ≡ lost seen_ids)
    × ((other : ℕ)
        → contains other (observed 2 seen_ids).missing
          ≡ (if 65538 == other then false else contains other seen_ids.missing))
    × ((observed 2 seen_ids).expected ≡ seen_ids.expected)
observed-late_example = observed-late 65534 later_ids 65538 (omega arith) (omega arith) missing_two

abbrev changes : List (ℕ × LossDelta)
changes =
    (seconds 1, record { expected = 3; lost = pos 2 })
    ∷ (seconds 2, record { expected = 0; lost = negsuc 0 })
    ∷ (seconds 4, record { expected = 1; lost = pos 0 })
    ∷ []

loss_totals-add_losses_example :
    loss_totals (seconds 4) (seconds 2) (add_losses changes [])
    ≡ loss_totals (seconds 4) (seconds 2) (all_losses changes)
loss_totals-add_losses_example =
    loss_totals-add_losses (seconds 4) (seconds 2) changes
      (omega arith, (omega arith, (omega arith, omega arith))) (omega arith)

abbrev packets : List ReceivedPacket
packets =
    (record { type = PacketType.voice; packet_id = 7; bytes = 90; time = 0 })
    ∷ (record { type = PacketType.ping; packet_id = 1; bytes = 20; time = 5 })
    ∷ (record { type = PacketType.voice; packet_id = 9; bytes = 80; time = 9 })
    ∷ []

voice_tracked : tracks_incoming_loss PacketType.voice ≡ true
unfolding tracks_incoming_loss
voice_tracked = refl

record_all-HasSeen_example :
    HasSeen PacketType.voice
      (ids_of PacketType.voice packets)
      (reset 0)
      (record_all packets (reset 0))
record_all-HasSeen_example = record_all-HasSeen PacketType.voice packets (reset 0) voice_tracked

-- One value is published; the consumer is to take it while the producer stores the next one.
abbrev one_pushed : Ring ℕ
one_pushed = record (new_ring 0) { slots = store 0 7 (λ i. 0); write = next 3 0; pushed = 7 ∷ [] }

abbrev both_busy : Ring ℕ
both_busy = record one_pushed { seen_write = 1; consumer = taking; producer = storing 8 }

one_pushed-Reach : Reach 3 0 one_pushed
unfolding next
one_pushed-Reach =
    pushing
      (pushing
        (pushing start (has_room 0 7 refl (omega arith) (omega arith) (λ e. omega (arith, e))))
        (emplace 7 refl))
      (publish 7 refl)

both_busy-Reach : Reach 3 0 both_busy
unfolding next
both_busy-Reach =
    pushing
      (popping one_pushed-Reach
        (has_value 1 refl (omega arith) (omega arith) (λ e. omega (arith, e))))
      (has_room 0 8 refl (omega arith) (omega arith) (λ e. omega (arith, e)))

Reach-order_example :
    (queued : List ℕ) × (both_busy.pushed ≡ both_busy.popped ++ queued)
    × (length queued < 3)
    × (size 3 both_busy.write both_busy.read ≡ length queued)
Reach-order_example = Reach-order 3 0 both_busy (omega arith) both_busy-Reach

Reach-no_race_example : both_busy.write ≢ both_busy.read
Reach-no_race_example = Reach-no_race 3 0 8 both_busy (omega arith) both_busy-Reach refl refl
