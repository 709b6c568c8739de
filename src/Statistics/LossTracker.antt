-- ===== src/Statistics/LossTracker.antt =====
-- `LossTracker`: which packets of a type are missing, from the 16-bit IDs of those that come.
pub mod Bounds
pub mod Loss
use ts_cli.Prelude.{
  ℕ, zero, suc, ◌+◌, ◌-◌, ◌%◌, ◌^◌, min, Bool, true, false, not, List, [], ◌∷◌, ltb, ◌==◌, length,
  if◌then◌else◌,
}
use ts_cli.Prelude.OrderedMap.{OrderedMap, insert, erase}
use ts_cli.Statistics.{difference, LossDelta}

abbrev pub reorder_retention : ℕ
reorder_retention = 4096

-- `missing` is a set.
pub record LossTracker : Type 0 where
  pub initialized : Bool
  pub highest_sequence : ℕ
  pub expected : ℕ
  pub confirmed_lost : ℕ
  pub missing : OrderedMap (Unit {0})

-- The initial values of the members
abbrev pub new_tracker : LossTracker
new_tracker = record {
  initialized = false;
  highest_sequence = 0;
  expected = 0;
  confirmed_lost = 0;
  missing = [];
}

-- `Lost`
unfoldable pub lost : LossTracker → ℕ
lost t = (t.confirmed_lost + length t.missing) % 2 ^ 64

-- The loop over the retained part of a gap: so many sequences from a first one.
unfoldable pub insert_gap : ℕ → ℕ → ℕ → OrderedMap (Unit {0}) → OrderedMap (Unit {0})
insert_gap zero sequence previous m = m
insert_gap (suc count) sequence previous m =
    insert_gap count (sequence + 1) previous
      (if ltb previous sequence then insert sequence tt m else m)

-- `++confirmedLost` for each sequence that the next loop erases
unfoldable pub count_old : ℕ → OrderedMap (Unit {0}) → ℕ → ℕ
count_old oldest [] confirmed = confirmed
count_old oldest ((s, u) ∷ m) confirmed =
    let next = count_old oldest m ((confirmed + 1) % 2 ^ 64) in
    if ltb s oldest then next else confirmed

-- `while ( !missing.empty() && *missing.begin() < oldestRetained )`
unfoldable pub drop_old : ℕ → OrderedMap (Unit {0}) → OrderedMap (Unit {0})
drop_old oldest [] = []
drop_old oldest ((s, u) ∷ m) =
    let rest = drop_old oldest m in if ltb s oldest then rest else ((s, u) ∷ m)

-- The branch of `Observe` for a packet that is ahead of all others.
unfoldable pub advance : ℕ → LossTracker → LossTracker
unfolding insert_gap count_old drop_old
advance forward t =
    let highest = (t.highest_sequence + forward) % 2 ^ 64 in
    let gap = forward - 1 in
    let retained = min gap reorder_retention in
    let confirmed = (t.confirmed_lost + (gap - retained)) % 2 ^ 64 in
    let first_retained = (highest + 2 ^ 64 - retained) % 2 ^ 64 in
    let missing' =
      insert_gap (highest - first_retained) first_retained t.highest_sequence t.missing in
    let oldest = highest - reorder_retention in
    record {
      initialized = true;
      highest_sequence = highest;
      expected = (t.expected + forward) % 2 ^ 64;
      confirmed_lost = count_old oldest missing' confirmed;
      missing = drop_old oldest missing';
    }

-- The 16-bit difference of two IDs
unfoldable pub distance : ℕ → ℕ → ℕ
distance to from = (to + 2 ^ 16 - from) % 2 ^ 16

-- What `Observe` makes of the tracker.
unfoldable pub observed : ℕ → LossTracker → LossTracker
unfolding advance distance
observed packet_id t =
    let highest_id = t.highest_sequence % 2 ^ 16 in
    let forward = distance packet_id highest_id in
    let backward = distance highest_id packet_id in
    if not t.initialized
    then record t { initialized = true; highest_sequence = packet_id; expected = 1 }
    else if forward == 0
    then t
    else if ltb forward 32768
    then advance forward t
    else if ltb t.highest_sequence backward
    then t
    else record t { missing = erase (t.highest_sequence - backward) t.missing }

-- `result`: how the counts have changed. The differences of `lost` are below 2 ^ 63.
unfoldable pub delta : LossTracker → LossTracker → LossDelta
unfolding lost difference
delta before after = record {
  expected = (after.expected + 2 ^ 64 - before.expected) % 2 ^ 64;
  lost = difference (lost after) (lost before);
}

-- `Observe`
unfoldable pub observe : ℕ → LossTracker → LossTracker × LossDelta
unfolding observed delta
observe packet_id t = (observed packet_id t, delta t (observed packet_id t))

unfoldable pub observe_all : List ℕ → LossTracker → LossTracker
unfolding observed
observe_all [] t = t
observe_all (p ∷ ps) t = observe_all ps (observed p t)
