-- ===== src/Reliability/Queue/Pending.antt =====
-- The pending commands have different packet IDs, so that an acknowledgement is never ambiguous.
use ts_cli.Prelude.{
  ℕ, ◌+◌, ◌≤◌, ◌<◌, true, false, none, some, [], ◌∷◌, ok, err, ◌==◌, length, Bool-cases, ==_iff,
  ◌≡◌, ◌≢◌, inl, inr, refl, sym, ◌∙◌, arith,
}
use ts_cli.Binary.{Bytes, IsU16, IsU32}
use ts_cli.Packet.Sequence.{sequence_key}
use ts_cli.Packet.Sequence.Keys.{sequence_key-injective}
use ts_cli.Prelude.OrderedMap.{
  find, insert, erase, erase-insert, length-erase_found, length-insert_new, length-erase,
}
use ts_cli.Reliability.Queue.{
  PendingCommand, queue_full, id_still_pending, Pending, max_pending_commands, contains_id,
  new_command, add, find_id, acknowledge,
}

-- An entry stands under its own key.
abbrev Fits : ℕ × PendingCommand → Type 0
Fits (k, p) =
    (k ≡ sequence_key p.packet_id p.generation_id) × IsU16 p.packet_id × IsU32 p.generation_id

-- Each entry fits, and no later one has its packet ID.
abbrev pub AreDistinct : Pending → Type 0
AreDistinct [] = Unit
AreDistinct ((k, p) ∷ m) = Fits (k, p) × (contains_id p.packet_id m ≡ false) × AreDistinct m

pub record IsValid (m : Pending) : Type 0 where
  pub distinct : AreDistinct m
  pub bounded : length m ≤ max_pending_commands

contains_id-insert :
    (id k : ℕ) (p : PendingCommand) (m : Pending)
    → contains_id id m ≡ false
    → p.packet_id ≢ id
    → contains_id id (insert k p m) ≡ false
unfolding contains_id insert
contains_id-insert id k p [] h n = ground arith
contains_id-insert id k p ((j, q) ∷ m) h n = ground (arith, contains_id-insert id k p m)

-- A packet ID that is not pending stands under none of the keys.
find-fresh :
    (id generation : ℕ) (m : Pending)
    → IsU16 id
    → IsU32 generation
    → AreDistinct m
    → contains_id id m ≡ false
    → find (sequence_key id generation) m ≡ none
unfolding contains_id find
find-fresh id generation [] i g d h = refl
find-fresh id generation ((j, q) ∷ m) i g (f, n, d) h = ground (
  arith,
  find-fresh id generation m i g d,
  sequence_key-injective q.packet_id q.generation_id id generation f.1 f.2 i g,
)

insert-AreDistinct :
    (id generation : ℕ) (p : PendingCommand) (m : Pending)
    → p.packet_id ≡ id
    → p.generation_id ≡ generation
    → IsU16 id
    → IsU32 generation
    → AreDistinct m
    → contains_id id m ≡ false
    → find (sequence_key id generation) m ≡ none
    → AreDistinct (insert (sequence_key id generation) p m)
unfolding contains_id insert find
insert-AreDistinct id generation p [] e e' i g d h f = ground arith
insert-AreDistinct id generation p ((j, q) ∷ m) e e' i g d h f = ground (
  arith,
  insert-AreDistinct id generation p m,
  contains_id-insert q.packet_id (sequence_key id generation) p m,
)

contains_id-erase :
    (id k : ℕ) (m : Pending) → contains_id id m ≡ false → contains_id id (erase k m) ≡ false
unfolding contains_id erase
contains_id-erase id k [] h = refl
contains_id-erase id k ((j, q) ∷ m) h = ground (arith, contains_id-erase id k m)

erase-AreDistinct : (k : ℕ) (m : Pending) → AreDistinct m → AreDistinct (erase k m)
unfolding erase
erase-AreDistinct k [] d = tt
erase-AreDistinct k ((j, q) ∷ m) (f, n, d) =
    ground (arith, erase-AreDistinct k m d, contains_id-erase q.packet_id k m n)

contains_id-insert_self :
    (k : ℕ) (p : PendingCommand) (m : Pending) → contains_id p.packet_id (insert k p m) ≡ true
unfolding contains_id insert
contains_id-insert_self k p [] = ground arith
contains_id-insert_self k p ((j, q) ∷ m) = ground (arith, contains_id-insert_self k p m)

pub add_branches :
    (id generation : ℕ) (packet : Bytes) (sent_at : ℕ) (m : Pending)
    → IsU16 id
    → IsU32 generation
    → IsValid m
    → (max_pending_commands ≤ length m → add id generation packet sent_at m ≡ err queue_full)
      × (length m < max_pending_commands
          → contains_id id m ≡ true
          → add id generation packet sent_at m ≡ err id_still_pending)
      × (length m < max_pending_commands
          → contains_id id m ≡ false
          → (m' : Pending) × (add id generation packet sent_at m ≡ ok m')
            × IsValid m'
            × (contains_id id m' ≡ true)
            × (length m' ≡ length m + 1))
unfolding add
add_branches id generation packet sent_at m i g v = (
  λ full. ground arith,
  λ room old. ground arith,
  λ room new.
      let p = new_command id generation packet sent_at in
      let absent = find-fresh id generation m i g v.distinct new in
      let longer = length-insert_new (sequence_key id generation) p m absent in
      (
        insert (sequence_key id generation) p m,
        ground (arith, absent),
        record {
          distinct = insert-AreDistinct id generation p m refl refl i g v.distinct new absent;
          bounded = omega (arith, longer);
        },
        contains_id-insert_self (sequence_key id generation) p m,
        longer,
      ),
)

add_ok :
    (id generation : ℕ) (packet : Bytes) (sent_at : ℕ) (m m' : Pending)
    → add id generation packet sent_at m ≡ ok m'
    → (contains_id id m ≡ false)
      × (m' ≡ insert (sequence_key id generation) (new_command id generation packet sent_at) m)
unfolding add
add_ok id generation packet sent_at m m' e = (ground arith, ground arith)

find_id_found :
    (id : ℕ) (m : Pending) (e : ℕ × PendingCommand)
    → contains_id id m ≡ false
    → find_id id m (some e) ≡ ok (some e)
unfolding find_id contains_id
find_id_found id [] e h = refl
find_id_found id ((k, p) ∷ m) e h = ground (arith, find_id_found id m e)

find_id_absent : (id : ℕ) (m : Pending) → contains_id id m ≡ false → find_id id m none ≡ ok none
unfolding find_id contains_id
find_id_absent id [] h = refl
find_id_absent id ((k, p) ∷ m) h = ground (arith, find_id_absent id m)

find_id-insert :
    (k : ℕ) (p : PendingCommand) (m : Pending)
    → contains_id p.packet_id m ≡ false
    → find_id p.packet_id (insert k p m) none ≡ ok (some (k, p))
unfolding find_id contains_id insert
find_id-insert k p [] h = ground arith
find_id-insert k p ((j, q) ∷ m) h = ground (
  arith,
  find_id-insert k p m,
  find_id_found p.packet_id m (k, p),
  find_id_found p.packet_id ((j, q) ∷ m) (k, p) h,
)

-- An acknowledgement of the command just added gives its time of sending, marked as not retransmitted,
-- and the queue as it was before.
pub acknowledge-add :
    (id generation : ℕ) (packet : Bytes) (sent_at : ℕ) (m m' : Pending)
    → IsU16 id
    → IsU32 generation
    → IsValid m
    → add id generation packet sent_at m ≡ ok m'
    → acknowledge id m' ≡ ok (some (record { first_sent = sent_at; retransmitted = false }), m)
unfolding acknowledge
acknowledge-add id generation packet sent_at m m' i g v e =
    let p = new_command id generation packet sent_at in
    let key = sequence_key id generation in
    let (new, added) = add_ok id generation packet sent_at m m' e in
    let absent = find-fresh id generation m i g v.distinct new in
    ground (arith, added, find_id-insert key p m new, erase-insert key p m absent)

find_id_present :
    (id : ℕ) (m : Pending)
    → AreDistinct m
    → contains_id id m ≡ true
    → (k : ℕ) × (p : PendingCommand) × (find_id id m none ≡ ok (some (k, p)))
      × (find k m ≡ some p)
      × (contains_id id (erase k m) ≡ false)
      × (p.packet_id ≡ id)
      × Fits (k, p)
unfolding find_id contains_id find erase
find_id_present id [] d h = absurd (ground (arith, h))
find_id_present id ((j, q) ∷ m) (f, n, d) h = elim (Bool-cases (q.packet_id == id)) [
  | inl this ↦ (
    j,
    q,
    ground (arith, find_id_found id m (j, q)),
    ground arith,
    ground (arith, contains_id-erase id j m),
    (==_iff q.packet_id id).0 this,
    f,
  )
  | inr other ↦
      let (k, p, e, g, c, same, fits) = find_id_present id m d (ground arith) in
      let apart : j ≢ k = λ h. cc (
        other,
        (==_iff q.packet_id id).1 (
            (sequence_key-injective q.packet_id q.generation_id p.packet_id p.generation_id f.1 f.2
              fits.1 fits.2 (sym f.0 ∙ h ∙ fits.0)).0
            ∙ same),
      ) in
      (k, p, ground (arith, e), ground (arith, apart, g), ground (arith, c), same, fits)
]

pub acknowledge_branches :
    (id : ℕ) (m : Pending)
    → IsValid m
    → (contains_id id m ≡ false → acknowledge id m ≡ ok (none, m))
      × (contains_id id m ≡ true
          → (k : ℕ) × (p : PendingCommand) × (find k m ≡ some p)
            × (acknowledge id m
                ≡ ok (
                  some (record { first_sent = p.first_sent; retransmitted = p.retransmitted }),
                  erase k m,
                ))
            × IsValid (erase k m)
            × (contains_id id (erase k m) ≡ false)
            × (length (erase k m) < length m))
unfolding acknowledge
acknowledge_branches id m v = (
  λ absent. ground (arith, find_id_absent id m absent),
  λ present.
      let (k, p, e, f, gone, same, fits) = find_id_present id m v.distinct present in
      (
        k,
        p,
        f,
        ground (arith, e),
        record {
          distinct = erase-AreDistinct k m v.distinct;
          bounded = omega (arith, length-erase k m, v.bounded);
        },
        gone,
        length-erase_found k m f,
      ),
)
