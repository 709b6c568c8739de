-- ===== src/Reliability/Window/InOrder.antt =====
-- Whatever the order of arrival, with duplicates and gaps, the window delivers the commands of the
-- packets in the order of their keys.
use ts_cli.Prelude.{
  ℕ, zero, suc, ◌+◌, ◌-◌, ◌≤◌, ◌<◌, none, some, List, [], ◌∷◌, ◌++◌, append-nil, append_assoc, ok,
  ◌==◌, length, Bool-cases, Option-cases, Result-cases, ==_iff, ◌≡◌, ◌≢◌, inl, inr, refl, ap, sym,
  ◌∙◌, arith,
}
use ts_cli.Binary.{Bytes}
use ts_cli.Packet.Sequence.{PacketSequence, sequence_key, key_of}
use ts_cli.Packet.Sequence.Keys.{IsValid, advance-key_of}
use ts_cli.Prelude.OrderedMap.{
  find, erase, find-insert, find-erase, length-erase, length-insert_new,
}
use ts_cli.Reliability.Window.Reference.{in_order, feed_all}
use ts_cli.Reliability.Window.Cases.{
  consume_step, ok_injective, FeedCase, ignored, stored, consumed, feed_cases,
}
use ts_cli.Reliability.Window.{
  QueuedPacket, Assembly, idle, Stream, process_ordered, consume, drain, feed, max_queued_packets,
}

-- The assembly and the commands behind processing the packets from `start` up to a key, in order.
pub data Delivered (sent : ℕ → QueuedPacket) (start : ℕ) : ℕ → Assembly → List Bytes → Type 0 where
  begin : Delivered sent start start idle []
  next :
      {k : ℕ} {a : Assembly} {out : List Bytes} (a' : Assembly) (commands : List Bytes)
      → Delivered sent start k a out
      → process_ordered (sent k).flags (sent k).bytes a ≡ (a', ok commands)
      → Delivered sent start (k + 1) a' (out ++ commands)

-- The stream has delivered `out`, and its queue holds packets of the sender with keys from `low` on.
pub record IsInOrder (sent : ℕ → QueuedPacket) (start low : ℕ) (s : Stream) (out : List Bytes)
    : Type 0 where
  pub expected_valid : IsValid s.expected
  pub delivered : Delivered sent start (key_of s.expected) s.assembly out
  pub ahead : (k : ℕ) (p : QueuedPacket) → find k s.queued ≡ some p → (p ≡ sent k) × (low ≤ k)
  pub bounded : length s.queued ≤ max_queued_packets

module _ {sent : ℕ → QueuedPacket} {start : ℕ} where
  consume-IsInOrder :
      (p : QueuedPacket) {low : ℕ} {s s' : Stream} {out commands : List Bytes}
      → IsInOrder sent start low s out
      → p ≡ sent (key_of s.expected)
      → consume p s ≡ (s', ok commands)
      → IsInOrder sent start low s' (out ++ commands) × (key_of s'.expected ≡ key_of s.expected + 1)
  consume-IsInOrder p {s = s} {s' = s'} {commands = commands} i e c =
      let (processed, advanced, queue) = consume_step p s s' commands c in
      let (valid, key) = (rw advanced at (advance-key_of s.expected i.expected_valid)) in
      (
        record {
          expected_valid = valid;
          delivered = rw key (next s'.assembly commands i.delivered (rw e at processed));
          ahead = rw queue i.ahead;
          bounded = rw queue i.bounded;
        },
        key,
      )

  -- With no packet of the expected key in the queue, the queue lies behind that key.
  raise-IsInOrder :
      {s : Stream} {out : List Bytes}
      → find (key_of s.expected) s.queued ≡ none
      → IsInOrder sent start (key_of s.expected) s out
      → IsInOrder sent start (key_of s.expected + 1) s out
  raise-IsInOrder {s = s} absent i = record {
    expected_valid = i.expected_valid;
    delivered = i.delivered;
    ahead = λ k p f. (
      (i.ahead k p f).0,
      above k (i.ahead k p f).1 (λ (e : key_of s.expected ≡ k). cc (rw e at absent, f)),
    );
    bounded = i.bounded;
  }
    where
      above : (k : ℕ) → key_of s.expected ≤ k → key_of s.expected ≢ k → key_of s.expected + 1 ≤ k
      above k h n = omega arith

  -- Without the packet that is taken out of the queue.
  erase-IsInOrder :
      {s : Stream} {low : ℕ} {out : List Bytes} (key : ℕ)
      → IsInOrder sent start low s out
      → IsInOrder sent start low (record s { queued = erase key s.queued }) out
  erase-IsInOrder {s = s} key i = record {
    expected_valid = i.expected_valid;
    delivered = i.delivered;
    ahead = λ k p f. i.ahead k p (ground (arith, find-erase k key s.queued));
    bounded = omega (arith, length-erase key s.queued, i.bounded);
  }

  drain-IsInOrder :
      (fuel : ℕ) {s s' : Stream} (out ready : List Bytes) {commands : List Bytes}
      → IsInOrder sent start (key_of s.expected) s (out ++ ready)
      → drain fuel s ready ≡ (s', ok commands)
      → IsInOrder sent start (key_of s'.expected + 1) s' (out ++ commands)
  unfolding drain
  drain-IsInOrder zero out ready i e = cc
  drain-IsInOrder (suc fuel) {s = s} {s' = s'} out ready {commands = commands} i e =
      elim (Option-cases (find (key_of s.expected) s.queued)) [
        | inl absent ↦
            let e' : (s, ok ready) ≡ (s', ok commands) = rw (absent, drain) at e in
            let state : s' ≡ s = ap (λ q. q.0) (sym e') in
            let same : commands ≡ ready = ok_injective (ap (λ q. q.1) (sym e')) in
            rw (state, same) (raise-IsInOrder absent i)
        | inr (p, found) ↦
            let key = key_of s.expected in
            let s1 = record s { queued = erase key s.queued } in
            let absent : find key s1.queued ≡ none = ground (arith, find-erase key key s.queued) in
            let i1 = raise-IsInOrder absent (erase-IsInOrder key i) in
            let t = (consume p s1).0 in
            elim (Result-cases (consume p s1).1) [
              | inr (x, f) ↦ ground (arith, rw (found, drain) at e, f)
              | inl (cs, f) ↦
                  let (j, up) =
                    consume-IsInOrder p i1 (i.ahead key p found).0 (ap (λ r. (t, r)) f) in
                  drain-IsInOrder fuel {s = t} out (ready ++ cs)
                    (rw (up, ← append_assoc out ready cs) j) (rw f at (rw (found, drain) at e))
            ]
      ]

  FeedCase-IsInOrder :
      {key : ℕ} {p : QueuedPacket} {s s' : Stream} {out commands : List Bytes}
      → IsInOrder sent start (key_of s.expected + 1) s out
      → p ≡ sent key
      → FeedCase key p s s' commands
      → IsInOrder sent start (key_of s'.expected + 1) s' (out ++ commands)
  FeedCase-IsInOrder v e (ignored state none_new) = rw (state, none_new, append-nil) v
  FeedCase-IsInOrder {key} {p} {s} {s'} {out} v e (stored state none_new early absent room) =
      rw (state, none_new, append-nil)
        (record {
          expected_valid = v.expected_valid;
          delivered = v.delivered;
          ahead = λ k q f. elim (Bool-cases (key == k)) [
            | inl same ↦
                let k' : key ≡ k = (==_iff key k).0 same in
                let taken : p ≡ q = ground (arith, find-insert k key p s.queued, f) in
                (sym taken ∙ e ∙ ap sent k', omega arith)
            | inr other ↦ v.ahead k q (ground (arith, find-insert k key p s.queued, f))
          ];
          bounded = omega (arith, length-insert_new key p s.queued absent);
        })
  FeedCase-IsInOrder {out = out} v e (consumed t cs due taken drained) =
      let (i, up) = consume-IsInOrder _ v (e ∙ ap sent due) taken in
      drain-IsInOrder _ out cs (rw (up) i) drained

  -- A packet of the sender keeps the stream in order, on every branch that does not throw.
  feed-IsInOrder :
      (id generation : ℕ) {s s' : Stream} {out commands : List Bytes}
      → IsInOrder sent start (key_of s.expected + 1) s out
      → (let p = sent (sequence_key id generation) in
          feed id generation p.flags p.bytes s ≡ (s', ok commands))
      → IsInOrder sent start (key_of s'.expected + 1) s' (out ++ commands)
  feed-IsInOrder id generation {s = s} {s' = s'} {out = out} {commands = commands} v e =
      FeedCase-IsInOrder v refl
        (feed_cases id generation (sent (sequence_key id generation)) s s' commands e)

module _ (sent : ℕ → QueuedPacket) {start : ℕ} where
  pub feed_all-IsInOrder :
      (arrivals : List (ℕ × ℕ)) {s s' : Stream} {out all : List Bytes}
      → IsInOrder sent start (key_of s.expected + 1) s out
      → feed_all sent arrivals s out ≡ (s', ok all)
      → IsInOrder sent start (key_of s'.expected + 1) s' all
  unfolding feed_all
  feed_all-IsInOrder [] {s} {s'} {out} {all} i e =
      let state : s' ≡ s = ap (λ q. q.0) (sym e) in
      let same : all ≡ out = ok_injective (ap (λ q. q.1) (sym e)) in rw (state, same) i
  feed_all-IsInOrder ((id, generation) ∷ arrivals) {s} {s'} {out} {all} i e =
      let p = sent (sequence_key id generation) in
      let t = (feed id generation p.flags p.bytes s).0 in
      elim (Result-cases (feed id generation p.flags p.bytes s).1) [
        | inr (x, f) ↦ absurd (ground (arith, rw (f, feed_all) at e))
        | inl (cs, f) ↦
            feed_all-IsInOrder arrivals {s = t} {out = out ++ cs}
              (feed-IsInOrder id generation i (ap (λ r. (t, r)) f)) (rw (f, feed_all) at e)
      ]

sub_self : (n : ℕ) → n - n ≡ 0
sub_self n = omega arith

sub_suc : (k n : ℕ) → n ≤ k → k + 1 - n ≡ suc (k - n)
sub_suc k n h = omega arith

in_order_step :
    (sent : ℕ → QueuedPacket) (start n : ℕ) {a a' : Assembly} {out commands : List Bytes}
    → in_order sent start n ≡ some (a, out)
    → process_ordered (sent (start + n)).flags (sent (start + n)).bytes a ≡ (a', ok commands)
    → in_order sent start (suc n) ≡ some (a', out ++ commands)
unfolding in_order
in_order_step sent start n h e = ground (arith, h, e)

none_ne : {A : Type 0} {a : A} → none ≢ some a
none_ne e = cc

-- A fresh stream.
abbrev pub fresh : PacketSequence → Stream
fresh expected = record { expected = expected; queued = []; assembly = idle }

fresh-IsInOrder :
    (sent : ℕ → QueuedPacket) (expected : PacketSequence)
    → IsValid expected
    → IsInOrder sent (key_of expected) (key_of expected + 1) (fresh expected) []
unfolding find
fresh-IsInOrder sent expected v = record {
  expected_valid = v;
  delivered = begin;
  ahead = λ k p f. absurd (none_ne f);
  bounded = omega arith;
}

pub Delivered-in_order :
    {sent : ℕ → QueuedPacket} {start k : ℕ} {a : Assembly} {out : List Bytes}
    → Delivered sent start k a out
    → (start ≤ k) × (in_order sent start (k - start) ≡ some (a, out))
unfolding in_order
Delivered-in_order {sent} {start} begin = (omega arith, rw (sub_self start) refl)
Delivered-in_order {sent} {start} (next {k} {a} {out} a' commands d e) =
    let (above, ih) = Delivered-in_order d in
    let key : start + (k - start) ≡ k = omega arith in
    (omega arith, rw (sub_suc k start above) (in_order_step sent start (k - start) ih (rw key e)))

-- Whatever packets of the sender arrive, in whatever order and however often, and if no call throws:
-- what has been delivered, and what is being assembled, is what processing the packets from the first
-- expected key up to the key that is expected now, once each and in order, gives. The queue then holds
-- 64 packets at most, each the sender's packet of its key, and all behind the expected key.
pub feed_all-in_order :
    (sent : ℕ → QueuedPacket) (expected : PacketSequence) (arrivals : List (ℕ × ℕ)) (s : Stream)
    (all : List Bytes)
    → IsValid expected
    → feed_all sent arrivals (fresh expected) [] ≡ (s, ok all)
    → (key_of expected ≤ key_of s.expected)
      × (in_order sent (key_of expected) (key_of s.expected - key_of expected)
          ≡ some (s.assembly, all))
      × (length s.queued ≤ max_queued_packets)
      × ((k : ℕ) (p : QueuedPacket)
          → find k s.queued ≡ some p
          → (p ≡ sent k) × (key_of s.expected < k))
feed_all-in_order sent expected arrivals s all v e =
    let i =
      feed_all-IsInOrder sent arrivals {s = fresh expected} (fresh-IsInOrder sent expected v) e in
    let (above, same) = Delivered-in_order i.delivered in
    (above, same, i.bounded, λ k p f. ((i.ahead k p f).0, omega (arith, (i.ahead k p f).1)))
