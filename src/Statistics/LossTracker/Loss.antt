-- ===== src/Statistics/LossTracker/Loss.antt =====
-- What a tracker holds to be lost, after any sequence of packets.
use ts_cli.Prelude.{
  ℕ, ◌+◌, ◌-◌, ◌*◌, ◌%◌, ◌^◌, ◌≤◌, ◌<◌, min, true, false, not, List, [], ◌∷◌, ltb, ◌==◌, length,
  false, if◌then◌else◌, if-cases, ◌≡◌, refl, arith,
}
use mathlib.Core.Path.{subst}
use ts_cli.Prelude.OrderedMap.{erase, contains, find-erase, length-erase}
use ts_cli.Statistics.LossTracker.{
  reorder_retention, LossTracker, new_tracker, lost, insert_gap, count_old, drop_old, advance,
  distance, observed, observe_all,
}
use ts_cli.Statistics.LossTracker.Bounds.{
  IsWithin, length-erase_once, IsWithin-weaken, length-IsWithin, erase-IsWithin, find-IsWithin,
  insert_gap-IsWithin, length-insert_gap, drop_old-IsWithin, count_old-drop_old,
}

-- What holds after a first packet and `n` more: `expected` counts the sequences from the first to the
-- highest, fewer are lost, and those that may still come are among the last 4096.
pub record IsTracking (first n : ℕ) (t : LossTracker) : Type 0 where
  pub running : t.initialized ≡ true
  pub span : t.highest_sequence + 1 ≡ first + t.expected
  pub fewer : t.confirmed_lost + length t.missing < t.expected
  pub recent : IsWithin (t.highest_sequence - 4096) t.highest_sequence t.missing
  pub slow : t.expected ≤ 1 + n * 32768

-- `advance` where no number wraps around
abbrev advanced : ℕ → ℕ → LossTracker → LossTracker
advanced forward retained t =
    let highest = t.highest_sequence + forward in
    let missing' = insert_gap retained (highest - retained) t.highest_sequence t.missing in
    record {
      initialized = true;
      highest_sequence = highest;
      expected = t.expected + forward;
      confirmed_lost =
          count_old (highest - 4096) missing' (t.confirmed_lost + (forward - 1 - retained));
      missing = drop_old (highest - 4096) missing';
    }

advanced-IsTracking :
    (first n forward retained : ℕ) (t : LossTracker)
    → first < 2 ^ 16
    → n < 2 ^ 47
    → 0 < forward
    → forward < 32768
    → retained ≤ forward - 1
    → retained ≤ 4096
    → IsTracking first n t
    → IsTracking first (n + 1) (advanced forward retained t)
advanced-IsTracking first n forward retained t f few ahead near r r' i =
    let span = i.span in
    let slow = i.slow in
    let fewer = i.fewer in
    let highest = t.highest_sequence + forward in
    let missing' = insert_gap retained (highest - retained) t.highest_sequence t.missing in
    let more = length-insert_gap retained (highest - retained) t.highest_sequence t.missing in
    let within : IsWithin (t.highest_sequence - 4096) highest missing' =
      insert_gap-IsWithin retained (highest - retained) t.highest_sequence
        (t.highest_sequence - 4096) highest t.missing (omega arith) (omega arith)
        (IsWithin-weaken (t.highest_sequence - 4096) (t.highest_sequence - 4096) t.highest_sequence
          highest t.missing (omega arith) (omega arith) i.recent) in
    record {
      running = refl;
      span = omega arith;
      fewer = omega (
        arith,
        more,
        count_old-drop_old (highest - 4096) (t.confirmed_lost + (forward - 1 - retained)) missing'
            (omega (arith, more)),
      );
      recent =
          drop_old-IsWithin (highest - 4096) (t.highest_sequence - 4096) highest missing'
            (omega arith) within;
      slow = omega arith;
    }

advance-IsTracking :
    (first n forward : ℕ) (t : LossTracker)
    → first < 2 ^ 16
    → n < 2 ^ 47
    → 0 < forward
    → forward < 32768
    → IsTracking first n t
    → IsTracking first (n + 1) (advance forward t)
unfolding advance
advance-IsTracking first n forward t f few ahead near i =
    let span = i.span in
    let slow = i.slow in
    let fewer = i.fewer in
    let highest : (t.highest_sequence + forward) % 2 ^ 64 ≡ t.highest_sequence + forward =
      omega arith in
    let expected : (t.expected + forward) % 2 ^ 64 ≡ t.expected + forward = omega arith in
    let gap = forward - 1 in
    let retained = min gap reorder_retention in
    let confirmed : (t.confirmed_lost + (gap - retained)) % 2 ^ 64
        ≡ t.confirmed_lost + (gap - retained) =
      omega arith in
    let first_retained : (t.highest_sequence + forward + 2 ^ 64 - retained) % 2 ^ 64
        ≡ t.highest_sequence + forward - retained =
      omega arith in
    let count : t.highest_sequence + forward - (t.highest_sequence + forward - retained)
        ≡ retained =
      omega arith in
    rw (highest, expected, confirmed, first_retained, count)
      (advanced-IsTracking first n forward retained t f few ahead near (omega arith) (omega arith)
        i)

observed-IsTracking :
    (first n packet_id : ℕ) (t : LossTracker)
    → first < 2 ^ 16
    → n < 2 ^ 47
    → IsTracking first n t
    → IsTracking first (n + 1) (observed packet_id t)
unfolding observed
observed-IsTracking first n packet_id t f few i =
    let span = i.span in
    let slow = i.slow in
    let fewer = i.fewer in
    let highest_id = t.highest_sequence % 2 ^ 16 in
    let forward = distance packet_id highest_id in
    let backward = distance highest_id packet_id in
    let later : IsTracking first (n + 1) t = record {
      running = i.running;
      span = i.span;
      fewer = i.fewer;
      recent = i.recent;
      slow = omega arith;
    } in
    if-cases (IsTracking first (n + 1)) (not t.initialized)
      (λ stopped. absurd (ground (arith, stopped, i.running)))
      (λ running.
        if-cases (IsTracking first (n + 1)) (forward == 0) (λ same. later)
          (λ other.
            if-cases (IsTracking first (n + 1)) (ltb forward 32768)
              (λ near.
                advance-IsTracking first n forward t f few (ground (arith, other))
                  (ground (arith, near)) i)
              (λ behind.
                if-cases (IsTracking first (n + 1)) (ltb t.highest_sequence backward)
                  (λ before. later)
                  (λ after. record {
                    running = i.running;
                    span = i.span;
                    fewer = omega (arith, length-erase (t.highest_sequence - backward) t.missing);
                    recent =
                        erase-IsWithin (t.highest_sequence - backward) (t.highest_sequence - 4096)
                          t.highest_sequence t.missing i.recent;
                    slow = omega arith;
                  }))))

observe_all-IsTracking :
    (first n : ℕ) (packet_ids : List ℕ) (t : LossTracker)
    → first < 2 ^ 16
    → n + length packet_ids < 2 ^ 47
    → IsTracking first n t
    → IsTracking first (n + length packet_ids) (observe_all packet_ids t)
unfolding observe_all
observe_all-IsTracking first n [] t f few i = subst (λ k. IsTracking first k t) (omega arith) i
observe_all-IsTracking first n (p ∷ ps) t f few i =
    subst (λ k. IsTracking first k (observe_all ps (observed p t))) (omega arith)
      (observe_all-IsTracking first (n + 1) ps (observed p t) f (omega arith)
        (observed-IsTracking first n p t f (omega arith) i))

all-IsTracking :
    (first : ℕ) (packet_ids : List ℕ)
    → first < 2 ^ 16
    → length packet_ids < 2 ^ 47
    → IsTracking first (length packet_ids) (observe_all (first ∷ packet_ids) new_tracker)
unfolding observe_all observed
all-IsTracking first packet_ids f few =
    let t : LossTracker = record new_tracker {
      initialized = true;
      highest_sequence = first;
      expected = 1;
    } in
    let i : IsTracking first 0 t = record {
      running = refl;
      span = refl;
      fewer = omega arith;
      recent = omega arith;
      slow = omega arith;
    } in
    subst (λ k. IsTracking first k (observe_all packet_ids t)) (omega arith)
      (observe_all-IsTracking first 0 packet_ids t f (omega arith) i)

-- After a first packet and fewer than 2 ^ 47 more, whatever their order, repeats and gaps: `expected`
-- is the number of sequences from the first to the highest, the sequences that are lost are fewer than
-- `expected`, and at most 4096 are kept as missing.
pub observe_all-lost :
    (first : ℕ) (packet_ids : List ℕ)
    → first < 2 ^ 16
    → length packet_ids < 2 ^ 47
    → (let t = observe_all (first ∷ packet_ids) new_tracker in
        (t.highest_sequence + 1 ≡ first + t.expected)
        × (lost t < t.expected)
        × (length t.missing ≤ 4096))
unfolding lost
observe_all-lost first packet_ids f few =
    let t = observe_all (first ∷ packet_ids) new_tracker in
    let i = all-IsTracking first packet_ids f few in
    let slow = i.slow in
    let fewer = i.fewer in
    (
      i.span,
      omega arith,
      omega (
        arith,
        length-IsWithin (t.highest_sequence - 4096) t.highest_sequence t.missing i.recent,
      ),
    )

distance_forward :
    (highest sequence : ℕ)
    → sequence < highest
    → highest ≤ sequence + 4096
    → distance (sequence % 2 ^ 16) (highest % 2 ^ 16) ≡ 2 ^ 16 - (highest - sequence)
unfolding distance
distance_forward highest sequence l r = omega arith

distance_backward :
    (highest sequence : ℕ)
    → sequence < highest
    → highest ≤ sequence + 4096
    → distance (highest % 2 ^ 16) (sequence % 2 ^ 16) ≡ highest - sequence
unfolding distance
distance_backward highest sequence l r = omega arith

observed_missing :
    (first n sequence : ℕ) (t : LossTracker)
    → IsTracking first n t
    → contains sequence t.missing ≡ true
    → observed (sequence % 2 ^ 16) t ≡ record t { missing = erase sequence t.missing }
unfolding observed
observed_missing first n sequence t i missed =
    let (low, high) =
      find-IsWithin sequence (t.highest_sequence - 4096) t.highest_sequence t.missing i.recent
        missed in
    let back : t.highest_sequence - (t.highest_sequence - sequence) ≡ sequence = omega arith in
    let forward = distance_forward t.highest_sequence sequence high (omega arith) in
    let backward = distance_backward t.highest_sequence sequence high (omega arith) in
    rw (forward, backward, back) (ground (arith, i.running, low, high))

-- After such packets, a missing packet that comes late makes one fewer lost: it is missing no more, and every
-- other packet that was missing still is, and no other.
pub observed-late :
    (first : ℕ) (packet_ids : List ℕ) (sequence : ℕ)
    → first < 2 ^ 16
    → length packet_ids < 2 ^ 47
    → contains sequence (observe_all (first ∷ packet_ids) new_tracker).missing ≡ true
    → (let t = observe_all (first ∷ packet_ids) new_tracker in
        let t' = observed (sequence % 2 ^ 16) t in
        (lost t' + 1 ≡ lost t)
        × ((other : ℕ)
            → contains other t'.missing
              ≡ (if sequence == other then false else contains other t.missing))
        × (t'.expected ≡ t.expected))
unfolding lost contains
observed-late first packet_ids sequence f few missed =
    let t = observe_all (first ∷ packet_ids) new_tracker in
    let i = all-IsTracking first packet_ids f few in
    let same = observed_missing first (length packet_ids) sequence t i missed in
    let fewer = i.fewer in
    let slow = i.slow in
    let once =
      length-erase_once sequence (t.highest_sequence - 4096) t.highest_sequence t.missing i.recent
        missed in
    rw same
      (omega (arith, once), λ other. ground (arith, find-erase other sequence t.missing), refl)
