-- ===== src/Reliability/Window/Reference.antt =====
-- The specification of the window, packets processed in the order of their keys, and a session of calls
-- of `Feed`.
use ts_cli.Prelude.{ℕ, zero, suc, ◌+◌, Option, none, some, List, [], ◌∷◌, ◌++◌, ok, err}
use ts_cli.Binary.{Bytes}
use ts_cli.Packet.Sequence.{sequence_key}
use ts_cli.Reliability.Window.{QueuedPacket, Assembly, idle, Stream, process_ordered, Fed, feed}

-- The assembly and the commands behind `n` packets of the sender, processed in order from `start` on.
unfoldable pub in_order : (ℕ → QueuedPacket) → ℕ → ℕ → Option (Assembly × List Bytes)
in_order sent start zero = some (idle, [])
in_order sent start (suc n) = elim (in_order sent start n) [
  | none ↦ none
  | some (a, out) ↦
      let p = sent (start + n) in
      let (a', pushed) = process_ordered p.flags p.bytes a in
      elim pushed [ err e ↦ none | ok commands ↦ some (a', out ++ commands) ]
]

-- Packets of the sender that arrive, each given by its ID and its generation.
unfoldable pub feed_all : (ℕ → QueuedPacket) → List (ℕ × ℕ) → Stream → List Bytes → Fed
feed_all sent [] s out = (s, ok out)
feed_all sent ((id, generation) ∷ arrivals) s out =
    let p = sent (sequence_key id generation) in
    let (s', pushed) = feed id generation p.flags p.bytes s in
    elim pushed [ err e ↦ (s', err e) | ok commands ↦ feed_all sent arrivals s' (out ++ commands) ]
