-- ===== src/Packet/Fragmenter/Cover.antt =====
-- The fragments of a command cover it.
use ts_cli.Prelude.{
  ℕ, zero, suc, ◌+◌, ◌-◌, ◌≤◌, ◌<◌, min, List, [], ◌∷◌, ◌++◌, append-nil, append_assoc, ok, ltb,
  leb, length, take, drop, All, drop-drop, drop_all, take_all, take-append-drop, Bool-cases, ◌≡◌,
  inl, inr, refl, ap, sym, ◌∙◌, arith,
}
use ts_cli.Binary.{Bytes}
use ts_cli.Packet.Limits
use ts_cli.Packet.PacketFlags.{new_protocol}
use ts_cli.Packet.Fragmenter.{CommandFragment, fragment_flags, plan_loop, plan}

-- `data.subspan( fragment.offset, fragment.size )`
abbrev pub slice : Bytes → CommandFragment → Bytes
slice command f = take f.size (drop f.offset command)

-- The fragments that the loop adds from `offset` on, of a command of `size` bytes: each begins where
-- the one before ends, is not empty, fits a packet, and has the flags of its place.
pub data Covers (size : ℕ) : ℕ → List CommandFragment → Type 0 where
  end : {offset : ℕ} → offset ≡ size → Covers size offset []
  piece :
      {offset : ℕ} {fs : List CommandFragment} (f : CommandFragment)
      → f.offset ≡ offset
      → 0 < f.size
      → f.size ≤ Limits.max_client_payload
      → offset + f.size ≤ size
      → f.flags ≡ fragment_flags offset f.size size
      → Covers size (offset + f.size) fs
      → Covers size offset (f ∷ fs)

plan_loop-Covers :
    (fuel size offset : ℕ) (fragments : List CommandFragment)
    → offset ≤ size
    → size - offset < fuel
    → (fs : List CommandFragment) × (plan_loop fuel size offset fragments ≡ ok (fragments ++ fs))
      × Covers size offset fs
unfolding plan_loop
plan_loop-Covers zero size offset fragments h hf = absurd (omega arith)
plan_loop-Covers (suc fuel) size offset fragments h hf = elim (Bool-cases (ltb offset size)) [
  | inl more ↦
      let n = min Limits.max_client_payload (size - offset) in
      let f : CommandFragment = record {
        offset = offset;
        size = n;
        flags = fragment_flags offset n size;
      } in
      let (fs, e, c) =
        plan_loop-Covers fuel size (offset + n) (fragments ++ (f ∷ [])) (ground arith)
          (ground arith) in
      (
        f ∷ fs,
        rw more (e ∙ ap ok (append_assoc fragments (f ∷ []) fs)),
        piece f refl (ground arith) (omega arith) (ground arith) refl c,
      )
  | inr done ↦ ([], rw (done, append-nil), end (ground arith))
]

-- The slices of a cover, one after the other, are the command from `offset` on.
abbrev pub joined : Bytes → List CommandFragment → Bytes
joined command [] = []
joined command (f ∷ fs) = slice command f ++ joined command fs

pub joined-Covers :
    (command : Bytes) {offset : ℕ} {fs : List CommandFragment}
    → Covers (length command) offset fs
    → joined command fs ≡ drop offset command
joined-Covers command (end {offset} e) = sym (drop_all offset command (omega arith))
joined-Covers command (piece {offset} {fs} f o p q w g c) =
    rw (o, joined-Covers command c, ← drop-drop offset f.size (offset + f.size) command refl)
      (take-append-drop f.size (drop offset command))

Covers-sizes :
    {size offset : ℕ} {fs : List CommandFragment}
    → Covers size offset fs
    → All (λ f. f.size ≤ Limits.max_client_payload) fs
Covers-sizes (end e) = tt
Covers-sizes (piece f o p q w g c) = (q, Covers-sizes c)

-- The plan of a command that needs several packets.
pub plan-Covers :
    (size : ℕ)
    → Limits.max_client_payload < size
    → size ≤ Limits.max_command_size
    → (fs : List CommandFragment) × (plan size ≡ ok fs) × Covers size 0 fs
unfolding plan
plan-Covers size many fits =
    let (fs, e, c) = plan_loop-Covers (size + 1) size 0 [] (omega arith) (omega arith) in
    (fs, ground (arith, e), c)

-- Every command within the limit has a plan, the slices of the plan one after the other are the
-- command, and none is larger than the payload of a packet.
pub plan-joined :
    (command : Bytes)
    → length command ≤ Limits.max_command_size
    → (fs : List CommandFragment) × (plan (length command) ≡ ok fs)
      × (joined command fs ≡ command)
      × All (λ f. f.size ≤ Limits.max_client_payload) fs
unfolding plan
plan-joined command h = elim (Bool-cases (leb (length command) Limits.max_client_payload)) [
  | inl one ↦ (
    record { offset = 0; size = length command; flags = new_protocol } ∷ [],
    ground arith,
    append-nil (take (length command) command) ∙ take_all (length command) command (omega arith),
    (ground arith, tt),
  )
  | inr many ↦
      let (fs, e, c) = plan-Covers (length command) (ground arith) h in
      (fs, e, joined-Covers command c, Covers-sizes c)
]
