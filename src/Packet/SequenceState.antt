-- ===== src/Packet/SequenceState.antt =====
-- protocol/src/packet/sequence_state.cpp: the sequences of a session, one in each direction for each of
-- the first eight packet types. A C++ reference into the arrays is a pair of a read and a write here.
use ts_cli.Prelude.{
  ℕ, suc, zero, List, [], ◌∷◌, Result, ok, err, ◌>>=◌, leb, ◌==◌, length, length-set, get_or, set,
  replicate, if◌then◌else◌, Bool-cases, inl, inr, ◌≡◌, ◌<◌, refl, arith,
}
use ts_cli.Packet.Sequence.{PacketSequence}

pub record PacketSequenceState : Type 0 where
  pub outgoing : List PacketSequence
  pub incoming : List PacketSequence

pub data StateError : Type 0 where
  untracked_type : StateError

abbrev pub tracked_packet_type_count : ℕ
tracked_packet_type_count = 8

abbrev pub initial_sequence : PacketSequence
initial_sequence = record { packet_id = 1; generation_id = 0 }

abbrev pub initial_state : PacketSequenceState
initial_state = record {
  outgoing = replicate tracked_packet_type_count initial_sequence;
  incoming = replicate tracked_packet_type_count initial_sequence;
}

unfoldable pub index : ℕ → Result StateError ℕ
index packet_type =
    if leb tracked_packet_type_count packet_type then err untracked_type else ok packet_type

-- `Outgoing` and `Incoming`, read.
unfoldable pub outgoing_of : ℕ → PacketSequenceState → Result StateError PacketSequence
unfolding index
outgoing_of packet_type s = index packet_type >>= λ i. ok (get_or s.outgoing i initial_sequence)

unfoldable pub incoming_of : ℕ → PacketSequenceState → Result StateError PacketSequence
unfolding index
incoming_of packet_type s = index packet_type >>= λ i. ok (get_or s.incoming i initial_sequence)

-- `Outgoing` and `Incoming`, written through.
unfoldable pub set_outgoing :
    ℕ → PacketSequence → PacketSequenceState → Result StateError PacketSequenceState
unfolding index
set_outgoing packet_type sequence s =
    index packet_type >>= λ i. ok (record s { outgoing = set s.outgoing i sequence })

unfoldable pub set_incoming :
    ℕ → PacketSequence → PacketSequenceState → Result StateError PacketSequenceState
unfolding index
set_incoming packet_type sequence s =
    index packet_type >>= λ i. ok (record s { incoming = set s.incoming i sequence })

get_or-set :
    {A : Type 0} (xs : List A) (i j : ℕ) (x d : A)
    → i < length xs
    → get_or (set xs i x) j d ≡ (if i == j then x else get_or xs j d)
get_or-set [] i j x d h = absurd (omega arith)
get_or-set (y ∷ xs) zero zero x d h = ground arith
get_or-set (y ∷ xs) zero (suc j) x d h = ground arith
get_or-set (y ∷ xs) (suc i) zero x d h = ground arith
get_or-set (y ∷ xs) (suc i) (suc j) x d h = ground (arith, get_or-set xs i j x d (omega arith))

-- With eight outgoing sequences, a write to that of one type is what is read for this type, and leaves
-- the others, the number of them, and all incoming ones as they were.
pub outgoing_of-set_outgoing :
    (written read : ℕ) (sequence : PacketSequence) (s s' : PacketSequenceState)
    → length s.outgoing ≡ tracked_packet_type_count
    → set_outgoing written sequence s ≡ ok s'
    → (outgoing_of read s' ≡ (if written == read then ok sequence else outgoing_of read s))
      × (incoming_of read s' ≡ incoming_of read s)
      × (length s'.outgoing ≡ tracked_packet_type_count)
unfolding set_outgoing outgoing_of incoming_of
outgoing_of-set_outgoing written read sequence s s' h e =
    elim (Bool-cases (leb tracked_packet_type_count written)) [
      | inl refused ↦ absurd (ground (arith, refused, e))
      | inr tracked ↦
          let s'' : PacketSequenceState = record s { outgoing = set s.outgoing written sequence } in
          let same : s'' ≡ s' = ground (arith, tracked, e) in
          rw (← same) (
            ground
                (arith, tracked, h, get_or-set s.outgoing written read sequence initial_sequence),
            refl,
            omega (arith, h, length-set s.outgoing written sequence),
          )
    ]
