-- ===== src/Reliability/Window/Cases.antt =====
-- The outcomes of `feed`, branch by branch, and that its loop ends.
use ts_cli.Prelude.{
  ℕ, zero, suc, ◌+◌, ◌-◌, ◌<◌, Bool, none, List, [], ◌++◌, Result, ok, err, ltb, leb, length,
  Bool-cases, Option-cases, Result-cases, ◌≡◌, ◌≢◌, inl, inr, ap, ◌∙◌, arith,
}
use ts_cli.Binary.{Bytes}
use ts_cli.Packet.Sequence.{advance, sequence_key, key_of}
use ts_cli.Packet.PacketFlags
use ts_cli.Packet.PacketFlags.{has_flag}
use ts_cli.Prelude.OrderedMap.{find, insert, erase, length-erase_found}
use ts_cli.Reliability.Window.{
  QueuedPacket, Assembly, Stream, WindowError, out_of_fuel, finished, process_ordered, consume,
  drain, feed, max_queued_packets,
}

pub consume_step :
    (p : QueuedPacket) (s s' : Stream) (commands : List Bytes)
    → consume p s ≡ (s', ok commands)
    → (process_ordered p.flags p.bytes s.assembly ≡ (s'.assembly, ok commands))
      × (advance s.expected ≡ ok s'.expected)
      × (s'.queued ≡ s.queued)
unfolding consume
consume_step p s s' commands e =
    let (a, pushed) = process_ordered p.flags p.bytes s.assembly in
    elim (Result-cases pushed) [
      | inr (x, f) ↦ ground (arith, f)
      | inl (cs, f) ↦ elim (Result-cases (advance s.expected)) [
        | inr (x, g) ↦ ground (arith, f, g)
        | inl (t, g) ↦ ground (arith, f, g)
      ]
    ]

pub ok_injective :
    {a b : List Bytes} → ◌≡◌ {A = Result WindowError (List Bytes)} (ok a) (ok b) → a ≡ b
ok_injective e = cc

-- The ways in which `feed` returns: the packet is ignored, it is queued, or it is consumed.
pub data FeedCase (key : ℕ) (p : QueuedPacket) (s s' : Stream) (commands : List Bytes)
    : Type 0 where
  ignored : s' ≡ s → commands ≡ [] → FeedCase key p s s' commands
  stored :
      s' ≡ record s { queued = insert key p s.queued }
      → commands ≡ []
      → key_of s.expected < key
      → find key s.queued ≡ none
      → length s.queued < max_queued_packets
      → FeedCase key p s s' commands
  consumed :
      (t : Stream) (cs : List Bytes)
      → key ≡ key_of s.expected
      → consume p s ≡ (t, ok cs)
      → drain (length t.queued + 1) t cs ≡ (s', ok commands)
      → FeedCase key p s s' commands

pub feed_cases :
    (id generation : ℕ) (p : QueuedPacket) (s s' : Stream) (commands : List Bytes)
    → feed id generation p.flags p.bytes s ≡ (s', ok commands)
    → FeedCase (sequence_key id generation) p s s' commands
unfolding feed
feed_cases id generation p s s' commands e =
    let key = sequence_key id generation in
    elim (Bool-cases (ltb key (key_of s.expected))) [
      | inl old ↦ ignored (ground (arith, e)) (ground (arith, e))
      | inr new ↦ elim (Bool-cases (ltb (key_of s.expected) key)) [
        | inr due ↦
            let t = (consume p s).0 in
            elim (Result-cases (consume p s).1) [
              | inr (x, f) ↦ absurd (ground (arith, e, f))
              | inl (cs, f) ↦
                  consumed t cs (ground arith) (ap (λ r. (t, r)) f)
                    (rw f at (rw (new, due, feed) at e))
            ]
        | inl early ↦ elim (Bool-cases (ltb max_queued_packets (key - key_of s.expected))) [
          | inl far ↦ absurd (ground (arith, e))
          | inr near ↦ elim (Option-cases (find key s.queued)) [
            | inr (q, found) ↦ ignored (ground (arith, e)) (ground (arith, e))
            | inl absent ↦ elim (Bool-cases (leb max_queued_packets (length s.queued))) [
              | inl full ↦ absurd (ground (arith, e))
              | inr room ↦
                  stored (ground (arith, e)) (ground (arith, e)) (ground arith) absent
                    (ground arith)
            ]
          ]
        ]
      ]
    ]

err_injective :
    {a b : WindowError} → ◌≡◌ {A = Result WindowError (List Bytes)} (err a) (err b) → a ≡ b
err_injective e = cc

finished_total : (compressed : Bool) (bytes : Bytes) → finished compressed bytes ≢ err out_of_fuel
unfolding finished
finished_total compressed bytes = ground arith

process_ordered_total :
    (flags : ℕ) (bytes : Bytes) (a : Assembly) → (process_ordered flags bytes a).1 ≢ err out_of_fuel
unfolding process_ordered
process_ordered_total flags bytes a = ground (
  arith,
  finished_total (has_flag flags PacketFlags.compressed) bytes,
  finished_total a.compressed (a.fragments ++ bytes),
)

pub consume_total : (p : QueuedPacket) (s : Stream) → (consume p s).1 ≢ err out_of_fuel
unfolding consume
consume_total p s = ground (arith, process_ordered_total p.flags p.bytes s.assembly)

-- The loop never runs out of fuel.
pub drain_total :
    (fuel : ℕ) (s : Stream) (ready : List Bytes)
    → length s.queued < fuel
    → (drain fuel s ready).1 ≢ err out_of_fuel
unfolding drain
drain_total zero s ready h = absurd (omega arith)
drain_total (suc fuel) s ready h = elim (Option-cases (find (key_of s.expected) s.queued)) [
  | inl absent ↦ rw (absent, drain) (λ e. cc)
  | inr (p, found) ↦
      let s1 = record s { queued = erase (key_of s.expected) s.queued } in
      rw (found, drain)
        (elim (Result-cases (consume p s1).1) [
          | inr (x, f) ↦ rw f (λ e. consume_total p s1 (f ∙ ap err (err_injective e)))
          | inl (cs, f) ↦ rw f (
              drain_total fuel (consume p s1).0 (ready ++ cs) (
                omega (
                  arith,
                  ap length
                      (consume_step p s1 (consume p s1).0 cs (ap (λ r. ((consume p s1).0, r)) f)).2,
                  length-erase_found (key_of s.expected) s.queued found,
                )))
        ])
]

-- Whatever is fed, the loop behind it never runs out of fuel.
pub feed_total :
    (id generation flags : ℕ) (bytes : Bytes) (s : Stream)
    → (feed id generation flags bytes s).1 ≢ err out_of_fuel
unfolding feed
feed_total id generation flags bytes s =
    let p : QueuedPacket = record { flags = flags; bytes = bytes } in
    elim (Result-cases (consume p s).1) [
      | inr (x, f) ↦ ground (arith, f, consume_total p s)
      | inl (cs, f) ↦
          ground (arith, f, drain_total (length (consume p s).0.queued + 1) (consume p s).0 cs)
    ]
