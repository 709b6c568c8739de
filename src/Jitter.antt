-- ===== src/Jitter.antt =====
-- audio/src/voice_jitter_buffer.cpp: voice frames in the order of their IDs, which wrap round at 2^16.
-- Of a frame the buffer reads the voice ID and the talk flags; `content` is all the rest.
pub mod Bounds
pub mod Playback
use ts_cli.Prelude.{
  ℕ, zero, suc, ◌+◌, ◌-◌, ◌%◌, Bool, true, false, not, ◌&&◌, ◌||◌, Option, none, some, [], ◌∷◌, ltb,
  leb, ◌==◌, length, if◌then◌else◌,
}
use ts_cli.Prelude.OrderedMap.{OrderedMap, find, insert, erase, contains}

-- `IncomingEncodedFrame`
pub record EncodedFrame {ℓ} (A : Type ℓ) : Type ℓ where
  pub voice_id : ℕ
  pub talk_start : Bool
  pub talk_end : Bool
  pub content : A

pub record JitterBuffer {ℓ} (A : Type ℓ) : Type ℓ where
  pub expected_voice_id : Option ℕ
  pub end_voice_id : Option ℕ
  pub pending : OrderedMap (EncodedFrame A)
  pub consecutive_losses : ℕ
  pub started : Bool
  pub first_output : Bool

-- `JitterPullResult` by its kinds, with the fields that each sets.
pub data PullResult {ℓ} (A : Type ℓ) : Type ℓ where
  wait : PullResult A
  frame : EncodedFrame A → Bool → PullResult A
  packet_loss : Option (EncodedFrame A) → PullResult A
  end : PullResult A

abbrev pub prebuffer_frames : ℕ
prebuffer_frames = 3

abbrev pub max_pending_frames : ℕ
max_pending_frames = 32

abbrev pub max_reorder_distance : ℕ
max_reorder_distance = 64

abbrev pub max_consecutive_losses : ℕ
max_consecutive_losses = 3

-- `static_cast<std::uint16_t>( to - from )`
abbrev pub distance : ℕ → ℕ → ℕ
distance from to = (to + 65536 - from) % 65536

abbrev pub next_id : ℕ → ℕ
next_id id = (id + 1) % 65536

abbrev pub is_id : Option ℕ → ℕ → Bool
is_id none id = false
is_id (some e) id = e == id

abbrev pub is_ahead : ℕ → ℕ → Bool
is_ahead expected id = ltb 0 (distance expected id) && ltb (distance expected id) 0x8000

abbrev pub end_ahead : ℕ → Option ℕ → Bool
end_ahead expected none = false
end_ahead expected (some e) = is_ahead expected e

abbrev pub has_end : Option ℕ → Bool
has_end none = false
has_end (some e) = true

module _ {ℓ} {A : Type ℓ} where
  -- `Reset`, and the state of a new buffer
  abbrev pub empty : JitterBuffer A
  empty = record {
    expected_voice_id = none;
    end_voice_id = none;
    pending = [];
    consecutive_losses = 0;
    started = false;
    first_output = false;
  }

  -- The loop that looks for the furthest frame ahead, with the key and the distance so far.
  unfoldable pub furthest : ℕ → OrderedMap (EncodedFrame A) → ℕ → ℕ → ℕ
  furthest expected [] key far = key
  furthest expected ((k, f) ∷ m) key far =
      let d = distance expected k in
      let further = ltb d 0x8000 && leb far d in
      furthest expected m (if further then k else key) (if further then d else far)

  abbrev pub first_key : OrderedMap (EncodedFrame A) → ℕ
  first_key [] = 0
  first_key ((k, f) ∷ m) = k

  -- `while ( m_Pending.size() > MaxPendingFrames )`
  unfoldable pub shrink : ℕ → ℕ → OrderedMap (EncodedFrame A) → OrderedMap (EncodedFrame A)
  unfolding furthest
  shrink zero expected m = m
  shrink (suc fuel) expected m =
      let rest = shrink fuel expected (erase (furthest expected m (first_key m) 0) m) in
      if ltb max_pending_frames (length m) then rest else m

  -- `try_emplace`
  unfoldable pub try_emplace :
      EncodedFrame A → OrderedMap (EncodedFrame A) → OrderedMap (EncodedFrame A)
  unfolding contains
  try_emplace f m = if contains f.voice_id m then m else insert f.voice_id f m

  -- The end of `Push`: the frame is kept, and the furthest frames are dropped. A round drops a frame, so
  -- that the size is enough fuel.
  unfoldable pub keep : ℕ → EncodedFrame A → JitterBuffer A → JitterBuffer A
  unfolding try_emplace shrink
  keep expected f b =
      let m = try_emplace f b.pending in record b { pending = shrink (length m) expected m }

  abbrev pub begin_at : ℕ → JitterBuffer A → JitterBuffer A
  begin_at id b = record b { expected_voice_id = some id; first_output = true }

  -- `Push` of a frame that ends a talk.
  unfoldable pub push_end : Option ℕ → EncodedFrame A → JitterBuffer A → JitterBuffer A
  push_end none f b = record (begin_at f.voice_id b) { end_voice_id = some f.voice_id }
  push_end (some expected) f b =
      if ltb (distance expected f.voice_id) 0x8000
      then record b { end_voice_id = some f.voice_id }
      else b

  -- `Push` of any other frame.
  unfoldable pub push_frame : Option ℕ → EncodedFrame A → JitterBuffer A → JitterBuffer A
  unfolding keep
  push_frame none f b = keep f.voice_id f (begin_at f.voice_id b)
  push_frame (some expected) f b =
      let forward = distance expected f.voice_id in
      let backward = distance f.voice_id expected in
      if leb 0x8000 forward
      then if not b.started && f.talk_start && leb backward max_reorder_distance
        then keep f.voice_id f (record b { expected_voice_id = some f.voice_id })
        else b
      else if ltb max_reorder_distance forward
      then keep f.voice_id f (begin_at f.voice_id empty)
      else keep expected f b

  unfoldable pub push : EncodedFrame A → JitterBuffer A → JitterBuffer A
  unfolding push_end push_frame
  push f b =
      if f.talk_end then push_end b.expected_voice_id f b else push_frame b.expected_voice_id f b

  abbrev pub any_ahead : ℕ → OrderedMap (EncodedFrame A) → Bool
  any_ahead expected [] = false
  any_ahead expected ((k, f) ∷ m) = is_ahead expected k || any_ahead expected m

  -- `HasFutureData`, where a frame is expected
  unfoldable pub has_future_data : ℕ → JitterBuffer A → Bool
  has_future_data expected b = end_ahead expected b.end_voice_id || any_ahead expected b.pending

  -- `Pull` behind the prebuffer.
  unfoldable pub pull_started : ℕ → JitterBuffer A → JitterBuffer A × PullResult A
  unfolding has_future_data
  pull_started expected b =
      if is_id b.end_voice_id expected then (empty, end) else elim (find expected b.pending) [
        | some f ↦ (
          record b {
            pending = erase expected b.pending;
            consecutive_losses = 0;
            first_output = false;
            expected_voice_id = some (next_id expected);
          },
          frame f b.first_output,
        )
        | none ↦
            if not (has_future_data expected b)
            then (b, wait)
            else if ltb b.consecutive_losses max_consecutive_losses
            then (
              record b {
                consecutive_losses = b.consecutive_losses + 1;
                first_output = false;
                expected_voice_id = some (next_id expected);
              },
              packet_loss (find (next_id expected) b.pending),
            )
            else (empty, end)
      ]

  -- `Pull` where a frame is expected.
  unfoldable pub pull_expected : ℕ → JitterBuffer A → JitterBuffer A × PullResult A
  unfolding pull_started
  pull_expected expected b =
      if b.started
      then pull_started expected b
      else if is_id b.end_voice_id expected
      then (empty, end)
      else if ltb (length b.pending) prebuffer_frames && not (has_end b.end_voice_id)
      then (b, wait)
      else pull_started expected (record b { started = true })

  unfoldable pub pull : JitterBuffer A → JitterBuffer A × PullResult A
  unfolding pull_expected
  pull b = elim b.expected_voice_id [ none ↦ (b, wait) | some expected ↦ pull_expected expected b ]
