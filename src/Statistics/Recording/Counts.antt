-- ===== src/Statistics/Recording/Counts.antt =====
-- What has been recorded of the packets that were received.
use ts_cli.Prelude.{
  ℕ, true, none, some, List, [], ◌∷◌, Result, ok, err, ◌>>=◌, ◌==◌, if◌then◌else◌, Bool-cases,
  if-cases, Option-cases, ◌≡◌, ◌≢◌, inl, inr, refl, ap, sym, ◌∙◌, arith,
}
use ts_cli.Statistics.Windows.{add_loss, add_traffic}
use ts_cli.Statistics.LossTracker.{LossTracker, observed, observe, observe_all}
use ts_cli.Statistics.Recording.{
  TrafficClass, ConnectionStatistics, StatisticsError, classify, tracks_incoming_loss, type_index,
  counted, change_class, change_type, record_loss, record_received,
}

pub record ReceivedPacket : Type 0 where
  pub type : ℕ
  pub packet_id : ℕ
  pub bytes : ℕ
  pub time : ℕ

-- `RecordReceived` for each of some packets.
unfoldable pub record_all :
    List ReceivedPacket → ConnectionStatistics → Result StatisticsError ConnectionStatistics
unfolding record_received
record_all [] s = ok s
record_all (p ∷ ps) s = record_received p.type p.packet_id p.bytes p.time s >>= record_all ps

-- The IDs of the packets of a type.
unfoldable pub ids_of : ℕ → List ReceivedPacket → List ℕ
ids_of type [] = []
ids_of type (p ∷ ps) =
    let rest = ids_of type ps in if p.type == type then (p.packet_id ∷ rest) else rest

-- A packet of a type that is tracked has a class and an index.
classify-tracked :
    (type : ℕ) → tracks_incoming_loss type ≡ true → (c : TrafficClass) × (classify type ≡ some c)
unfolding tracks_incoming_loss classify
classify-tracked type h = elim (Option-cases (classify type)) [
  | inr found ↦ found
  | inl unclassified ↦ absurd (ground (arith, h, unclassified))
]

type_index-tracked : (type : ℕ) → tracks_incoming_loss type ≡ true → type_index type ≡ ok type
unfolding tracks_incoming_loss type_index
type_index-tracked type h = ground (arith, h)

none-some : {c : TrafficClass} → none ≢ some c
none-some e = cc

-- What the next packet makes of the tracker of a type.
abbrev next_tracker : ℕ → ℕ → ℕ → ConnectionStatistics → LossTracker
next_tracker type of packet_id s =
    if of == type then observed packet_id (s.loss type) else s.loss type

observe_first : (packet_id : ℕ) (t : LossTracker) → (observe packet_id t).0 ≡ observed packet_id t
unfolding observe
observe_first packet_id t = refl

record_loss-loss :
    (type of packet_id now : ℕ) (s : ConnectionStatistics)
    → tracks_incoming_loss type ≡ true
    → (s' : ConnectionStatistics) × (record_loss of packet_id now s ≡ ok s')
      × (s'.loss type ≡ next_tracker type of packet_id s)
unfolding record_loss
record_loss-loss type of packet_id now s h = elim (Bool-cases (tracks_incoming_loss of)) [
  | inr untracked ↦ (s, ground (arith, untracked), ground (arith, h, untracked))
  | inl tracked ↦
      let seen = observe packet_id (s.loss of) in
      let s' : ConnectionStatistics = record s {
        loss = change_type of (λ t. seen.0) s.loss;
        loss_windows = change_type of (add_loss now seen.1) s.loss_windows;
      } in
      let index = type_index-tracked of tracked in
      (
        s',
        rw (tracked, index) refl,
        elim (Bool-cases (of == type)) [
          | inl same ↦
              let at : of ≡ type = ground (arith, same) in
              rw same
                (observe_first packet_id (s.loss of) ∙ ap (λ j. observed packet_id (s.loss j)) at)
          | inr other ↦ rw other refl
        ],
      )
]

record_received-loss :
    (type of packet_id bytes now : ℕ) (s : ConnectionStatistics)
    → tracks_incoming_loss type ≡ true
    → (s' : ConnectionStatistics) × (record_received of packet_id bytes now s ≡ ok s')
      × (s'.loss type ≡ next_tracker type of packet_id s)
unfolding record_received
record_received-loss type of packet_id bytes now s h = elim (Option-cases (classify of)) [
  | inl unclassified ↦ (
    s,
    rw (record_received, unclassified) refl,
    if-cases (λ t. s.loss type ≡ t) (of == type)
        (λ same.
          let at : of ≡ type = ground (arith, same) in
          let (c, found) = classify-tracked type h in
          absurd (none-some (sym unclassified ∙ ap classify at ∙ found)))
        (λ other. refl),
  )
  | inr (c, found) ↦
      rw (record_received, found)
        (record_loss-loss type of packet_id now
          (record s {
            received = change_class c (counted bytes) s.received;
            received_windows = change_class c (add_traffic now bytes) s.received_windows;
          })
          h)
]

-- The statistics, if they are returned, have a tracker of a type as it is after some packets.
abbrev pub HasSeen :
    ℕ → List ℕ → ConnectionStatistics → Result StatisticsError ConnectionStatistics → Type 0
HasSeen type ids s (ok s') = s'.loss type ≡ observe_all ids (s.loss type)
HasSeen type ids s (err e) = ⊥

HasSeen-next :
    (type : ℕ) (ids ids' : List ℕ) (s s' : ConnectionStatistics)
    (r : Result StatisticsError ConnectionStatistics)
    → observe_all ids (s'.loss type) ≡ observe_all ids' (s.loss type)
    → HasSeen type ids s' r
    → HasSeen type ids' s r
HasSeen-next type ids ids' s s' (ok s'') same h = h ∙ same
HasSeen-next type ids ids' s s' (err e) same h = h

observe_next :
    (type : ℕ) (p : ReceivedPacket) (s s' : ConnectionStatistics) (rest : List ℕ)
    → s'.loss type ≡ next_tracker type p.type p.packet_id s
    → observe_all rest (s'.loss type)
      ≡ observe_all (if p.type == type then (p.packet_id ∷ rest) else rest) (s.loss type)
unfolding observe_all
observe_next type p s s' rest seen =
    rw seen
      (elim (Bool-cases (p.type == type)) [ inl same ↦ rw same refl | inr other ↦ rw other refl ])

-- `RecordReceived` never throws, whatever packets it is called for, and the tracker of a type whose
-- loss is tracked has observed the IDs of the packets of this type, in their order, and no others.
pub record_all-HasSeen :
    (type : ℕ) (ps : List ReceivedPacket) (s : ConnectionStatistics)
    → tracks_incoming_loss type ≡ true
    → HasSeen type (ids_of type ps) s (record_all ps s)
unfolding record_all ids_of observe_all
record_all-HasSeen type [] s h = refl
record_all-HasSeen type (p ∷ ps) s h =
    let (s', returned, seen) = record_received-loss type p.type p.packet_id p.bytes p.time s h in
    let rest = ids_of type ps in
    rw returned (
      HasSeen-next type rest (ids_of type (p ∷ ps)) s s' (record_all ps s')
        (observe_next type p s s' rest seen) (record_all-HasSeen type ps s' h))
