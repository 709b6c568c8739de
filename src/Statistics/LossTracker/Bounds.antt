-- ===== src/Statistics/LossTracker/Bounds.antt =====
-- How many sequences a tracker holds to be missing.
use ts_cli.Prelude.{
  ℕ, zero, suc, ◌+◌, ◌%◌, ◌^◌, ◌≤◌, ◌<◌, true, [], ◌∷◌, ltb, length, if◌then◌else◌, Bool-cases,
  if-cases, ◌==◌, false, ap, ◌≡◌, inl, inr, refl, arith,
}
use ts_cli.Prelude.OrderedMap.{OrderedMap, find, insert, erase, contains}
use ts_cli.Statistics.LossTracker.{insert_gap, count_old, drop_old}

-- Ascending keys, from the first number up to below the second.
abbrev pub IsWithin : ℕ → ℕ → OrderedMap (Unit {0}) → Type 0
IsWithin low high [] = low ≤ high
IsWithin low high ((k, u) ∷ m) = (low ≤ k) × IsWithin (k + 1) high m

IsWithin-nonempty : (low high : ℕ) (m : OrderedMap (Unit {0})) → IsWithin low high m → low ≤ high
IsWithin-nonempty low high [] h = h
IsWithin-nonempty low high ((k, u) ∷ m) (a, h) =
    omega (arith, a, IsWithin-nonempty (k + 1) high m h)

pub length-IsWithin :
    (low high : ℕ) (m : OrderedMap (Unit {0})) → IsWithin low high m → low + length m ≤ high
length-IsWithin low high [] h = omega arith
length-IsWithin low high ((k, u) ∷ m) (a, h) = omega (arith, a, length-IsWithin (k + 1) high m h)

pub IsWithin-weaken :
    (low low' high high' : ℕ) (m : OrderedMap (Unit {0}))
    → low' ≤ low
    → high ≤ high'
    → IsWithin low high m
    → IsWithin low' high' m
IsWithin-weaken low low' high high' [] l r h = omega arith
IsWithin-weaken low low' high high' ((k, u) ∷ m) l r (a, h) =
    (omega arith, IsWithin-weaken (k + 1) (k + 1) high high' m (omega arith) r h)

insert-IsWithin :
    (k low high : ℕ) (m : OrderedMap (Unit {0}))
    → low ≤ k
    → k < high
    → IsWithin low high m
    → IsWithin low high (insert k tt m)
unfolding insert
insert-IsWithin k low high [] l r h = (l, omega arith)
insert-IsWithin k low high ((j, u) ∷ m) l r (a, h) =
    ground (arith, l, r, a, h, insert-IsWithin k (j + 1) high m)

pub erase-IsWithin :
    (k low high : ℕ) (m : OrderedMap (Unit {0}))
    → IsWithin low high m
    → IsWithin low high (erase k m)
unfolding erase
erase-IsWithin k low high [] h = h
erase-IsWithin k low high ((j, u) ∷ m) (a, h) =
    ground (
      arith,
      a,
      erase-IsWithin k (j + 1) high m h,
      IsWithin-weaken (j + 1) low high high (erase k m),
    )

erase-IsWithin_absent :
    (k low high : ℕ) (m : OrderedMap (Unit {0})) → IsWithin low high m → k < low → erase k m ≡ m
unfolding erase
erase-IsWithin_absent k low high [] h l = refl
erase-IsWithin_absent k low high ((j, u) ∷ m) (a, h) l =
    let other : (j == k) ≡ false = ground (arith, a, l) in
    rw other
      (ap (λ xs. (j, u) ∷ xs) (erase-IsWithin_absent k (j + 1) high m h (omega (arith, a, l))))

-- Each sequence is there once.
pub length-erase_once :
    (k low high : ℕ) (m : OrderedMap (Unit {0}))
    → IsWithin low high m
    → contains k m ≡ true
    → length (erase k m) + 1 ≡ length m
unfolding contains find erase
length-erase_once k low high [] h e = cc
length-erase_once k low high ((j, u) ∷ m) (a, h) e = elim (Bool-cases (j == k)) [
  | inl same ↦
      let at : j ≡ k = ground (arith, same) in
      rw (same, erase-IsWithin_absent k (j + 1) high m h (omega (arith, at))) (omega arith)
  | inr other ↦
      let more : contains k m ≡ true = rw other at e in
      rw other (omega (arith, length-erase_once k (j + 1) high m h more))
]

pub find-IsWithin :
    (k low high : ℕ) (m : OrderedMap (Unit {0}))
    → IsWithin low high m
    → contains k m ≡ true
    → (low ≤ k) × (k < high)
unfolding contains find
find-IsWithin k low high [] h e = cc
find-IsWithin k low high ((j, u) ∷ m) (a, h) e =
    ground (arith, a, e, IsWithin-nonempty (j + 1) high m h, find-IsWithin k (j + 1) high m h)

length-insert : (k : ℕ) (m : OrderedMap (Unit {0})) → length (insert k tt m) ≤ length m + 1
unfolding insert
length-insert k [] = omega arith
length-insert k ((j, u) ∷ m) = ground (arith, length-insert k m)

pub insert_gap-IsWithin :
    (count sequence previous low high : ℕ) (m : OrderedMap (Unit {0}))
    → low ≤ sequence
    → sequence + count ≤ high
    → IsWithin low high m
    → IsWithin low high (insert_gap count sequence previous m)
unfolding insert_gap
insert_gap-IsWithin zero sequence previous low high m l r h = h
insert_gap-IsWithin (suc count) sequence previous low high m l r h =
    insert_gap-IsWithin count (sequence + 1) previous low high
      (if ltb previous sequence then insert sequence tt m else m) (omega arith) (omega arith)
      (if-cases (IsWithin low high) (ltb previous sequence)
        (λ new. insert-IsWithin sequence low high m l (omega arith) h) (λ old. h))

pub length-insert_gap :
    (count sequence previous : ℕ) (m : OrderedMap (Unit {0}))
    → length (insert_gap count sequence previous m) ≤ length m + count
unfolding insert_gap
length-insert_gap zero sequence previous m = omega arith
length-insert_gap (suc count) sequence previous m = ground (
  arith,
  length-insert_gap count (sequence + 1) previous (insert sequence tt m),
  length-insert_gap count (sequence + 1) previous m,
  length-insert sequence m,
)

pub drop_old-IsWithin :
    (oldest low high : ℕ) (m : OrderedMap (Unit {0}))
    → oldest ≤ high
    → IsWithin low high m
    → IsWithin oldest high (drop_old oldest m)
unfolding drop_old
drop_old-IsWithin oldest low high [] r h = r
drop_old-IsWithin oldest low high ((k, u) ∷ m) r (a, h) =
    ground (arith, a, h, drop_old-IsWithin oldest (k + 1) high m r h)

-- A sequence that is dropped is counted instead.
pub count_old-drop_old :
    (oldest confirmed : ℕ) (m : OrderedMap (Unit {0}))
    → confirmed + length m < 2 ^ 64
    → count_old oldest m confirmed + length (drop_old oldest m) ≡ confirmed + length m
unfolding count_old drop_old
count_old-drop_old oldest confirmed [] h = refl
count_old-drop_old oldest confirmed ((k, u) ∷ m) h =
    let one : (confirmed + 1) % 2 ^ 64 ≡ confirmed + 1 = omega arith in
    elim (Bool-cases (ltb k oldest)) [
      | inl old ↦
          rw (old, one) (omega (arith, count_old-drop_old oldest (confirmed + 1) m (omega arith)))
      | inr recent ↦ rw recent refl
    ]
