-- ===== src/Statistics/Windows/Pruning.antt =====
-- That old samples are dropped changes no sum over the window of a reader.
use ts_cli.Prelude.{
  ℕ, ◌+◌, ◌-◌, ◌%◌, ◌^◌, ◌≤◌, ◌<◌, true, ◌&&◌, List, [], ◌∷◌, ◌++◌, append-nil, append_assoc, ◌==◌,
  if-cases, ◌≡◌, refl, ap, sym, ◌∙◌, arith,
}
use ts_cli.Statistics.{ℤ, pos, negsuc, ◌+ℤ◌, difference, LossDelta}
use ts_cli.Statistics.Windows.{
  seconds, LossSample, drop_old_losses, add_loss, is_zero, sum_losses, limited, loss_totals,
}

-- `Add` at each of some times.
unfoldable pub add_losses : List (ℕ × LossDelta) → List LossSample → List LossSample
unfolding add_loss
add_losses [] ss = ss
add_losses ((time, d) ∷ ds) ss = add_losses ds (add_loss time d ss)

-- All samples ever added.
abbrev pub all_losses : List (ℕ × LossDelta) → List LossSample
all_losses [] = []
all_losses ((time, d) ∷ ds) =
    record { time = time; expected = d.expected; lost = d.lost } ∷ all_losses ds

-- Times that do not go back, up to the last one.
abbrev pub IsAscending {ℓ} : {A : Type ℓ} → ℕ → ℕ → List (ℕ × A) → Type 0
IsAscending from to [] = from ≤ to
IsAscending from to ((time, a) ∷ xs) = (from ≤ time) × IsAscending time to xs

sum_losses-append :
    (start now : ℕ) (ss ss' : List LossSample) (sums : ℕ × ℤ)
    → sum_losses start now (ss ++ ss') sums
      ≡ sum_losses start now ss' (sum_losses start now ss sums)
unfolding sum_losses
sum_losses-append start now [] ss' sums = refl
sum_losses-append start now (s ∷ ss) ss' (expected, lost) = ground (
  arith,
  sum_losses-append start now ss ss' (expected, lost),
  sum_losses-append start now ss ss' ((expected + s.expected) % 2 ^ 64, lost +ℤ s.lost),
)

sum_losses-drop_old_losses :
    (start time now : ℕ) (ss : List LossSample) (sums : ℕ × ℤ)
    → time ≤ now
    → now ≤ start + seconds 2
    → sum_losses start now (drop_old_losses time ss) sums ≡ sum_losses start now ss sums
unfolding sum_losses drop_old_losses
sum_losses-drop_old_losses start time now [] sums l r = refl
sum_losses-drop_old_losses start time now (s ∷ ss) (expected, lost) l r =
    let rec = sum_losses-drop_old_losses start time now ss (expected, lost) l r in
    ground (arith, rec, l, r)

sum_losses-bound :
    (start now : ℕ) (ss : List LossSample) (sums : ℕ × ℤ)
    → sums.0 < 2 ^ 64
    → (sum_losses start now ss sums).0 < 2 ^ 64
unfolding sum_losses
sum_losses-bound start now [] sums h = h
sum_losses-bound start now (s ∷ ss) (expected, lost) h = ground (
  arith,
  sum_losses-bound start now ss (expected, lost) h,
  sum_losses-bound start now ss ((expected + s.expected) % 2 ^ 64, lost +ℤ s.lost) (omega arith),
)

+ℤ-zero : (m n : ℤ) → is_zero n ≡ true → m +ℤ n ≡ m
unfolding ◌+ℤ◌ difference
+ℤ-zero (pos m) (pos n) h = ap pos (ground (arith, h))
+ℤ-zero (negsuc m) (pos n) h = let zero_n : n ≡ 0 = ground (arith, h) in rw zero_n (ground arith)
+ℤ-zero (pos m) (negsuc n) h = cc
+ℤ-zero (negsuc m) (negsuc n) h = cc

-- A sample without a change adds nothing.
sum_losses_zero :
    (start now : ℕ) (s : LossSample) (sums : ℕ × ℤ)
    → s.expected ≡ 0
    → is_zero s.lost ≡ true
    → sums.0 < 2 ^ 64
    → sum_losses start now (s ∷ []) sums ≡ sums
unfolding sum_losses
sum_losses_zero start now s (expected, lost) none_expected none_lost h =
    let same : (expected + s.expected) % 2 ^ 64 ≡ expected = omega arith in
    rw (same, +ℤ-zero lost s.lost none_lost) (ground arith)

-- The sums of two lists of samples agree for all readers from a time on.
abbrev Agree : ℕ → List LossSample → List LossSample → Type 0
Agree from ss full =
    (start now : ℕ)
    → from ≤ now
    → now ≤ start + seconds 2
    → (sums : ℕ × ℤ) → sums.0 < 2 ^ 64
    → sum_losses start now ss sums ≡ sum_losses start now full sums

add_loss-Agree :
    (from time : ℕ) (d : LossDelta) (ss full : List LossSample)
    → from ≤ time
    → Agree from ss full
    → Agree time (add_loss time d ss) (full ++ all_losses ((time, d) ∷ []))
unfolding add_loss
add_loss-Agree from time d ss full later agree start now l r sums h =
    let sample : LossSample = record { time = time; expected = d.expected; lost = d.lost } in
    let kept = drop_old_losses time ss in
    let same : sum_losses start now kept sums ≡ sum_losses start now full sums =
      sum_losses-drop_old_losses start time now ss sums l r
      ∙ agree start now (omega arith) r sums h in
    rw (sum_losses-append start now full (sample ∷ []) sums) (
      if-cases
        (λ x.
          sum_losses start now x sums
          ≡ sum_losses start now (sample ∷ []) (sum_losses start now full sums))
        (d.expected == 0 && is_zero d.lost)
        (λ zero_delta.
          same
          ∙ sym (
              sum_losses_zero start now sample (sum_losses start now full sums)
                (ground (arith, zero_delta)) (ground (arith, zero_delta))
                (sum_losses-bound start now full sums h)))
        (λ change.
          sum_losses-append start now kept (sample ∷ []) sums
          ∙ ap (sum_losses start now (sample ∷ [])) same))

add_losses-Agree :
    (from to : ℕ) (ds : List (ℕ × LossDelta)) (ss full : List LossSample)
    → IsAscending from to ds
    → Agree from ss full
    → Agree to (add_losses ds ss) (full ++ all_losses ds)
unfolding add_losses
add_losses-Agree from to [] ss full later agree =
    λ start now l r sums h. rw (append-nil full) (agree start now (omega arith) r sums h)
add_losses-Agree from to ((time, d) ∷ ds) ss full (later, ascending) agree =
    rw⁻¹ (append_assoc full (all_losses ((time, d) ∷ [])) (all_losses ds)) (
      add_losses-Agree time to ds (add_loss time d ss) (full ++ all_losses ((time, d) ∷ []))
        ascending (add_loss-Agree from time d ss full later agree))

-- With samples added at times that do not go back, the totals of a window of at most 2 seconds are
-- those over all samples ever added: what `Add` drops or leaves out changes no result.
pub loss_totals-add_losses :
    (now window : ℕ) (ds : List (ℕ × LossDelta))
    → IsAscending 0 now ds
    → window ≤ seconds 2
    → loss_totals now window (add_losses ds []) ≡ loss_totals now window (all_losses ds)
unfolding loss_totals
loss_totals-add_losses now window ds ascending short = ap limited (
    add_losses-Agree 0 now ds [] [] ascending (λ start n l r sums h. refl) (now - window) now
      (omega arith) (omega arith) (0, pos 0) (omega arith))
