-- ===== src/Statistics/Recording.antt =====
-- What `ConnectionStatistics` records of packets that are sent and received. The ping times are not
-- modelled.
pub mod Counts
use ts_cli.Prelude.{
  ℕ, zero, suc, ◌+◌, ◌%◌, ◌^◌, Bool, true, false, ◌&&◌, ◌||◌, Option, none, some, List, [], Result,
  ok, err, ◌>>=◌, ◌>>◌, leb, ◌==◌, if◌then◌else◌,
}
use ts_cli.Packet.PacketType
use ts_cli.Statistics.LossTracker.{LossTracker, new_tracker, lost, observe}
use ts_cli.Statistics.Windows.{
  seconds, LossSample, TrafficSample, add_loss, loss_totals, add_traffic,
}

pub data TrafficClass : Type 0 where
  speech keepalive control : TrafficClass

unfoldable pub is_class : TrafficClass → TrafficClass → Bool
is_class speech speech = true
is_class keepalive keepalive = true
is_class control control = true
is_class _ _ = false

-- `TrafficCounters`; the two bandwidths are filled in by `GetSnapshot`.
pub record TrafficCounters : Type 0 where
  pub packets : ℕ
  pub bytes : ℕ

-- The members, with arrays as functions of their indices.
pub record ConnectionStatistics : Type 0 where
  pub sent : TrafficClass → TrafficCounters
  pub received : TrafficClass → TrafficCounters
  pub sent_windows : TrafficClass → List TrafficSample
  pub received_windows : TrafficClass → List TrafficSample
  pub loss : ℕ → LossTracker
  pub loss_windows : ℕ → List LossSample
  pub started_at : ℕ

-- `Reset`
abbrev pub reset : ℕ → ConnectionStatistics
reset now = record {
  sent = λ c. record { packets = 0; bytes = 0 };
  received = λ c. record { packets = 0; bytes = 0 };
  sent_windows = λ c. [];
  received_windows = λ c. [];
  loss = λ i. new_tracker;
  loss_windows = λ i. [];
  started_at = now;
}

-- `Classify`
unfoldable pub classify : ℕ → Option TrafficClass
classify type =
    if type == PacketType.voice || type == PacketType.voice_whisper
    then some speech
    else if type == PacketType.ping || type == PacketType.pong
    then some keepalive
    else if type == PacketType.command || type == PacketType.command_low
    then some control
    else if type == PacketType.ack || type == PacketType.ack_low
    then some control
    else none

-- `TracksIncomingLoss`
unfoldable pub tracks_incoming_loss : ℕ → Bool
tracks_incoming_loss type =
    type == PacketType.voice
    || type == PacketType.voice_whisper
    || type == PacketType.ping
    || type == PacketType.pong
    || type == PacketType.ack
    || type == PacketType.ack_low

pub data StatisticsError : Type 0 where
  invalid_packet_type : StatisticsError

abbrev pub packet_type_count : ℕ
packet_type_count = 9

-- `TypeIndex`
unfoldable pub type_index : ℕ → Result StatisticsError ℕ
type_index type = if leb packet_type_count type then err invalid_packet_type else ok type

-- `++counters.packets` and the sum of bytes
unfoldable pub counted : ℕ → TrafficCounters → TrafficCounters
counted bytes c = record { packets = (c.packets + 1) % 2 ^ 64; bytes = (c.bytes + bytes) % 2 ^ 64 }

-- An array with an element changed.
abbrev pub change_class {ℓ} :
    {A : Type ℓ} → TrafficClass → (A → A) → (TrafficClass → A) → TrafficClass → A
change_class c f array c' = if is_class c c' then f (array c') else array c'

abbrev pub change_type {ℓ} : {A : Type ℓ} → ℕ → (A → A) → (ℕ → A) → ℕ → A
change_type i f array j = if i == j then f (array j) else array j

unfoldable pub record_sent : ℕ → ℕ → ℕ → ConnectionStatistics → ConnectionStatistics
unfolding classify is_class counted add_traffic
record_sent type packet_bytes now s = elim (classify type) [
  | none ↦ s
  | some c ↦ record s {
    sent = change_class c (counted packet_bytes) s.sent;
    sent_windows = change_class c (add_traffic now packet_bytes) s.sent_windows;
  }
]

-- The last part of `RecordReceived`
unfoldable pub record_loss :
    ℕ → ℕ → ℕ → ConnectionStatistics → Result StatisticsError ConnectionStatistics
unfolding tracks_incoming_loss type_index observe add_loss
record_loss type packet_id now s =
    if tracks_incoming_loss type
    then (type_index type >>= λ i.
        let seen = observe packet_id (s.loss i) in
        ok (record s {
          loss = change_type i (λ t. seen.0) s.loss;
          loss_windows = change_type i (add_loss now seen.1) s.loss_windows;
        }))
    else ok s

unfoldable pub record_received :
    ℕ → ℕ → ℕ → ℕ → ConnectionStatistics → Result StatisticsError ConnectionStatistics
unfolding classify is_class counted add_traffic record_loss
record_received type packet_id packet_bytes now s = elim (classify type) [
  | none ↦ ok s
  | some c ↦ record_loss type packet_id now (record s {
    received = change_class c (counted packet_bytes) s.received;
    received_windows = change_class c (add_traffic now packet_bytes) s.received_windows;
  })
]

-- Whether a type of packets counts for the loss of a class.
unfoldable pub counts_for : TrafficClass → ℕ → Bool
unfolding classify is_class tracks_incoming_loss
counts_for c type = elim (classify type) [
  | none ↦ false
  | some c' ↦ is_class c' c && tracks_incoming_loss type
]

-- The loop of `LossTotals`, over the types from the given one on.
unfoldable pub sum_totals : ℕ → ℕ → TrafficClass → ℕ → ConnectionStatistics → ℕ × ℕ → ℕ × ℕ
unfolding counts_for loss_totals
sum_totals zero index c now s sums = sums
sum_totals (suc count) index c now s (lost, expected) =
    let totals = loss_totals now (seconds 1) (s.loss_windows index) in
    let skipped = sum_totals count (index + 1) c now s (lost, expected) in
    let added =
      sum_totals count (index + 1) c now s
        ((lost + totals.0) % 2 ^ 64, (expected + totals.1) % 2 ^ 64) in
    if counts_for c index then added else skipped

-- `LossTotals`
unfoldable pub class_loss_totals : TrafficClass → ℕ → ConnectionStatistics → ℕ × ℕ
unfolding sum_totals
class_loss_totals c now s = sum_totals packet_type_count 0 c now s (0, 0)
