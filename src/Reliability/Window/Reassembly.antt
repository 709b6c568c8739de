-- ===== src/Reliability/Window/Reassembly.antt =====
-- Fragments of a command, fed in order, come back as the command.
use ts_cli.Prelude.{
  ℕ, ◌+◌, ◌≤◌, ◌<◌, true, false, List, [], ◌∷◌, ◌++◌, Result, ok, err, leb, ◌==◌, length, take,
  length-append, length-take, take_all, take-append-take, Bool-cases, ==_iff, ◌≡◌, inl, inr, refl,
  ap, ◌∙◌, arith,
}
use ts_cli.Binary.{Bytes}
use ts_cli.Packet.Limits
use ts_cli.Packet.PacketFlags
use ts_cli.Packet.PacketFlags.{has_flag, join_flags}
use ts_cli.Packet.Fragmenter.{CommandFragment, plan}
use ts_cli.Packet.Fragmenter.Cover.{Covers, end, piece, slice, plan-Covers}
use ts_cli.Reliability.Window.{Assembly, idle, WindowError, finished, process_ordered}

-- The packets of a command, one behind the other, through `ProcessOrdered`.
unfoldable pub process_all :
    Bytes
    → List CommandFragment
    → Assembly
    → List Bytes
    → Assembly × Result WindowError (List Bytes)
process_all command [] a out = (a, ok out)
process_all command (f ∷ fs) a out =
    let (a', pushed) = process_ordered f.flags (slice command f) a in
    elim pushed [ err e ↦ (a', err e) | ok commands ↦ process_all command fs a' (out ++ commands) ]

abbrev underway : Bytes → Assembly
underway bytes = record { assembling = true; compressed = false; fragments = bytes }

module _ (bytes : Bytes) where
  single_step :
      length bytes ≤ Limits.max_command_size
      → process_ordered PacketFlags.new_protocol bytes idle ≡ (idle, ok (bytes ∷ []))
  unfolding process_ordered has_flag finished
  single_step h = ground arith

  first_step :
      length bytes ≤ Limits.max_command_size
      → process_ordered (join_flags PacketFlags.new_protocol PacketFlags.fragmented) bytes idle
        ≡ (underway bytes, ok [])
  unfolding process_ordered has_flag join_flags
  first_step h = ground arith

  middle_step :
      (front : Bytes)
      → length front + length bytes ≤ Limits.max_command_size
      → process_ordered PacketFlags.new_protocol bytes (underway front)
        ≡ (underway (front ++ bytes), ok [])
  unfolding process_ordered has_flag
  middle_step front h = ground arith

  last_step :
      (front : Bytes)
      → length front + length bytes ≤ Limits.max_command_size
      → process_ordered
          (join_flags PacketFlags.new_protocol PacketFlags.fragmented)
          bytes
          (underway front)
        ≡ (idle, ok ((front ++ bytes) ∷ []))
  unfolding process_ordered has_flag join_flags finished
  last_step front h = ground arith

process_all-cons :
    (command : Bytes) (f : CommandFragment) (fs : List CommandFragment) (a : Assembly)
    (out : List Bytes) {a' : Assembly} {commands : List Bytes}
    → process_ordered f.flags (slice command f) a ≡ (a', ok commands)
    → process_all command (f ∷ fs) a out ≡ process_all command fs a' (out ++ commands)
unfolding process_all
process_all-cons command f fs a out e = ground (arith, e)

process_all_done :
    (command : Bytes) → process_all command [] idle (command ∷ []) ≡ (idle, ok (command ∷ []))
unfolding process_all
process_all_done command = refl

Covers-done :
    {size offset : ℕ} {fs : List CommandFragment} → Covers size offset fs → offset ≡ size → fs ≡ []
Covers-done (end e) h = refl
Covers-done (piece f o p q w g c) h = absurd (omega arith)

module _ (command : Bytes) (fits : length command ≤ Limits.max_command_size) where
  -- In the middle of a command, the fragments are what has come so far.
  middle-process_all :
      {offset : ℕ} {fs : List CommandFragment}
      → 0 < offset
      → offset < length command
      → Covers (length command) offset fs
      → process_all command fs (underway (take offset command)) [] ≡ (idle, ok (command ∷ []))
  middle-process_all pos more (end e) = absurd (omega arith)
  middle-process_all pos more (piece {offset} {fs} f o p q w g c) =
      let grown : take offset command ++ slice command f ≡ take (offset + f.size) command =
        rw o (take-append-take offset f.size (offset + f.size) command refl) in
      let room : length (take offset command) + length (slice command f) ≤ Limits.max_command_size =
        omega (
          arith,
          length-append (take offset command) (slice command f),
          ap length grown,
          length-take (offset + f.size) command,
        ) in
      let step =
        λ (flags : ℕ). process_ordered flags (slice command f) (underway (take offset command)) in
      elim (Bool-cases (offset + f.size == length command)) [
        | inl last ↦
            let flags : f.flags ≡ join_flags PacketFlags.new_protocol PacketFlags.fragmented =
              ground (arith, g) in
            process_all-cons command f fs (underway (take offset command)) []
              (ap step flags ∙ last_step (slice command f) (take offset command) room)
            ∙ rw
                (
                  Covers-done c ((==_iff (offset + f.size) (length command)).0 last),
                  grown,
                  take_all (offset + f.size) command (ground arith),
                )
                (process_all_done command)
        | inr further ↦
            let flags : f.flags ≡ PacketFlags.new_protocol = ground (arith, g) in
            process_all-cons command f fs (underway (take offset command)) []
              (ap step flags ∙ middle_step (slice command f) (take offset command) room)
            ∙ rw grown (middle-process_all (omega arith) (ground arith) c)
      ]

  -- The plan of a command of several packets, from its first fragment on.
  many-process_all :
      {fs : List CommandFragment}
      → Limits.max_client_payload < length command
      → Covers (length command) 0 fs
      → process_all command fs idle [] ≡ (idle, ok (command ∷ []))
  many-process_all large (end e) = absurd (omega arith)
  many-process_all large (piece {fs = fs} f o p q w g c) =
      let flags : f.flags ≡ join_flags PacketFlags.new_protocol PacketFlags.fragmented =
        ground (arith, g) in
      let front : slice command f ≡ take (0 + f.size) command =
        rw o (ap (λ k. take k command) {y = 0 + f.size} (omega arith)) in
      let room : length (slice command f) ≤ Limits.max_command_size =
        omega (arith, ap length front, length-take (0 + f.size) command) in
      process_all-cons command f fs idle [] (
        ap (λ k. process_ordered k (slice command f) idle) flags
        ∙ first_step (slice command f) room)
      ∙ rw front (middle-process_all (omega arith) (omega arith) c)

-- The packets that a command is sent in, processed in order by a window that is idle, give the command
-- back once, and leave the window idle.
pub process_all-plan :
    (command : Bytes)
    → length command ≤ Limits.max_command_size
    → (fs : List CommandFragment) × (plan (length command) ≡ ok fs)
      × (process_all command fs idle [] ≡ (idle, ok (command ∷ [])))
unfolding plan
process_all-plan command fits = elim (Bool-cases (leb (length command) Limits.max_client_payload)) [
  | inl one ↦
      let f : CommandFragment = record {
        offset = 0;
        size = length command;
        flags = PacketFlags.new_protocol;
      } in
      let whole : take (length command) command ≡ command =
        take_all (length command) command (omega arith) in
      (
        f ∷ [],
        ground arith,
        process_all-cons command f [] idle [] (rw whole (single_step command fits))
            ∙ process_all_done command,
      )
  | inr many ↦
      let (fs, e, c) = plan-Covers (length command) (ground arith) fits in
      (fs, e, many-process_all command fits (ground arith) c)
]
