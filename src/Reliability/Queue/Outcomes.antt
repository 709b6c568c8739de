-- ===== src/Reliability/Queue/Outcomes.antt =====
-- All that `Add` and `Acknowledge` may give.
use ts_cli.Prelude.{
  ℕ, ◌+◌, ◌≤◌, ◌<◌, true, false, Option, none, some, Result, ok, err, leb, length, Bool-cases, ◌≡◌,
  inl, inr, refl, arith,
}
use ts_cli.Binary.{Bytes, IsU16, IsU32}
use ts_cli.Prelude.OrderedMap.{find, erase}
use ts_cli.Reliability.Queue.{
  PendingCommand, Acknowledgement, QueueError, queue_full, id_still_pending,
  ambiguous_acknowledgement, sequence_still_pending, timed_out, Pending, max_pending_commands,
  contains_id, add, acknowledge,
}
use ts_cli.Reliability.Queue.Pending.{IsValid, add_branches, acknowledge_branches}

-- What `Add` may give for an ID: a valid queue with one command more, in which the ID is pending, or an
-- exception with its reason.
abbrev pub IsAdded : ℕ → Pending → Result QueueError Pending → Type 0
IsAdded id m (ok m') = IsValid m' × (contains_id id m' ≡ true) × (length m' ≡ length m + 1)
IsAdded id m (err queue_full) = max_pending_commands ≤ length m
IsAdded id m (err id_still_pending) = contains_id id m ≡ true
IsAdded id m (err sequence_still_pending) = ⊥
IsAdded id m (err ambiguous_acknowledgement) = ⊥
IsAdded id m (err timed_out) = ⊥

-- `Add` to a valid queue gives a valid queue with one command more, in which the ID is pending, or
-- throws: that the queue is full, and it has 1024 commands, or that the ID is still pending, and it is.
-- It never finds the sequence itself to be still pending.
pub add_lem :
    (id generation : ℕ) (packet : Bytes) (sent_at : ℕ) (m : Pending)
    → IsU16 id
    → IsU32 generation
    → IsValid m
    → IsAdded id m (add id generation packet sent_at m)
add_lem id generation packet sent_at m i g v =
    let (full, old, new) = add_branches id generation packet sent_at m i g v in
    elim (Bool-cases (leb max_pending_commands (length m))) [
      | inl e ↦ rw (full (ground (arith, e))) (ground (arith, e))
      | inr e ↦ elim (Bool-cases (contains_id id m)) [
        | inl h ↦ rw (old (ground (arith, e)) h) h
        | inr h ↦
            let (m', added, valid, pending, longer) = new (ground (arith, e)) h in
            rw added (valid, pending, longer)
      ]
    ]

-- What `Acknowledge` may give for an ID.
abbrev pub IsAcknowledged :
    ℕ → Pending → Result QueueError (Option Acknowledgement × Pending) → Type 0
IsAcknowledged id m (ok (none, m')) = (contains_id id m ≡ false) × (m' ≡ m)
IsAcknowledged id m (ok (some a, m')) =
    (k : ℕ) × (p : PendingCommand) × (find k m ≡ some p)
    × (a ≡ record { first_sent = p.first_sent; retransmitted = p.retransmitted })
    × (m' ≡ erase k m)
    × IsValid m'
    × (contains_id id m' ≡ false)
    × (length m' < length m)
IsAcknowledged id m (err e) = ⊥

-- `Acknowledge` on a valid queue never throws. It returns nothing, and then the ID is not pending and
-- the queue is as before, or the times of a pending command, which is taken from the queue: the queue
-- gets shorter and stays valid, and the ID is no longer pending.
pub acknowledge_lem : (id : ℕ) (m : Pending) → IsValid m → IsAcknowledged id m (acknowledge id m)
acknowledge_lem id m v =
    let (without, within) = acknowledge_branches id m v in
    elim (Bool-cases (contains_id id m)) [
      | inl e ↦
          let (k, p, found, done, valid, gone, shorter) = within e in
          rw done (k, p, found, refl, refl, valid, gone, shorter)
      | inr e ↦ rw (without e) (e, refl)
    ]
