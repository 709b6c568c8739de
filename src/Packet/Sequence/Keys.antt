-- ===== src/Packet/Sequence/Keys.antt =====
-- Sequence keys order the packets of a stream.
use ts_cli.Prelude.{if-cases, ◌==◌, ℕ, ◌+◌, ◌-◌, ◌^◌, ◌<◌, Result, ok, err, ◌≡◌, refl, ◌↔◌, arith}
use ts_cli.Binary.{IsU16, IsU32}
use ts_cli.Packet.Sequence.{
  PacketSequence, SequenceError, generation_overflow, advance, resolve_generation, sequence_key,
  key_of,
}

pub record IsValid (s : PacketSequence) : Type 0 where
  pub id_fits : IsU16 s.packet_id
  pub generation_fits : IsU32 s.generation_id

-- A key determines the packet ID and the generation.
pub sequence_key-injective :
    (i g j h : ℕ)
    → IsU16 i
    → IsU32 g
    → IsU16 j
    → IsU32 h
    → sequence_key i g ≡ sequence_key j h
    → (i ≡ j) × (g ≡ h)
unfolding sequence_key
sequence_key-injective i g j h p q p' q' e = omega arith

-- What `Advance` may give: the sequence of the next key, or an overflow at the last key of all.
abbrev pub IsAdvanced : PacketSequence → Result SequenceError PacketSequence → Type 0
IsAdvanced s (ok t) = IsValid t × (key_of t ≡ key_of s + 1)
IsAdvanced s (err e) = (e ≡ generation_overflow) × (key_of s ≡ 2 ^ 48 - 1)

-- `Advance` of a valid sequence gives the valid sequence whose key is the next one, or throws, and then
-- the key is the last of all.
pub advance-key_of : (s : PacketSequence) → IsValid s → IsAdvanced s (advance s)
unfolding advance key_of
advance-key_of s v =
    if-cases (IsAdvanced s) (s.packet_id == 65535)
      (λ last.
        if-cases (IsAdvanced s) (s.generation_id == 2 ^ 32 - 1) (λ none_left. (refl, ground arith))
          (λ more. (
            record { id_fits = omega arith; generation_fits = ground (arith, v) },
            ground (arith, v),
          )))
      (λ inner.
        (record { id_fits = ground (arith, v); generation_fits = v.generation_fits }, omega arith))

-- Nearer than half of the packet ID space.
abbrev pub IsNear : ℕ → ℕ → Type 0
IsNear k expected = (k < expected + 32768) × (expected < k + 32768)

-- The generation that is found is exactly the one whose key lies near the expected key.
pub resolve_generation_iff :
    (s : PacketSequence) (id g : ℕ)
    → IsValid s
    → IsU16 id
    → (resolve_generation s id ≡ ok g) ↔ (IsU32 g × IsNear (sequence_key id g) (key_of s))
unfolding resolve_generation key_of
resolve_generation_iff s id g v h = (λ e. ground arith, λ e. ground arith)
