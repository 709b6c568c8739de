-- ===== src/Statistics/Windows.antt =====
-- `LossWindow` and `TrafficWindow`: samples of the last seconds. A time is a number of nanoseconds.
pub mod Pruning
use ts_cli.Prelude.{
  ℕ, ◌+◌, ◌-◌, ◌*◌, ◌%◌, ◌^◌, min, Bool, false, ◌&&◌, ◌||◌, List, [], ◌∷◌, ◌++◌, ltb, leb, ◌==◌,
  if◌then◌else◌,
}
use ts_cli.Statistics.{ℤ, pos, negsuc, ◌+ℤ◌, LossDelta}

abbrev pub seconds : ℕ → ℕ
seconds n = n * 1000000000

-- `LossWindow::Sample`
pub record LossSample : Type 0 where
  pub time : ℕ
  pub expected : ℕ
  pub lost : ℤ

-- `TrafficWindow::Sample`
pub record TrafficSample : Type 0 where
  pub time : ℕ
  pub bytes : ℕ

-- `while ( !samples.empty() && now - samples.front().time > Retention )`, of `LossWindow::Add`
unfoldable pub drop_old_losses : ℕ → List LossSample → List LossSample
drop_old_losses now [] = []
drop_old_losses now (s ∷ ss) =
    let rest = drop_old_losses now ss in if ltb (seconds 2) (now - s.time) then rest else (s ∷ ss)

abbrev pub is_zero : ℤ → Bool
is_zero (pos n) = n == 0
is_zero (negsuc n) = false

-- `LossWindow::Add`
unfoldable pub add_loss : ℕ → LossDelta → List LossSample → List LossSample
unfolding drop_old_losses
add_loss now d ss =
    let kept = drop_old_losses now ss in
    let sample : LossSample = record { time = now; expected = d.expected; lost = d.lost } in
    if d.expected == 0 && is_zero d.lost then kept else (kept ++ (sample ∷ []))

-- The loop of `LossWindow::Totals`. The sum of `lost` is taken to stay within `int64_t`.
unfoldable pub sum_losses : ℕ → ℕ → List LossSample → ℕ × ℤ → ℕ × ℤ
unfolding ◌+ℤ◌
sum_losses start now [] sums = sums
sum_losses start now (s ∷ ss) (expected, lost) =
    let skipped = sum_losses start now ss (expected, lost) in
    let added = sum_losses start now ss ((expected + s.expected) % 2 ^ 64, lost +ℤ s.lost) in
    if ltb s.time start || ltb now s.time then skipped else added

-- The results of `LossWindow::Totals`, from the sums
unfoldable pub limited : ℕ × ℤ → ℕ × ℕ
limited (expected, negsuc n) = (0, expected)
limited (expected, pos n) =
    if n == 0 || expected == 0 then (0, expected) else (min n expected, expected)

-- `LossWindow::Totals`
unfoldable pub loss_totals : ℕ → ℕ → List LossSample → ℕ × ℕ
unfolding sum_losses limited
loss_totals now window ss = limited (sum_losses (now - window) now ss (0, pos 0))

-- The same loop of `TrafficWindow::Add`
unfoldable pub drop_old_traffic : ℕ → List TrafficSample → List TrafficSample
drop_old_traffic now [] = []
drop_old_traffic now (s ∷ ss) =
    let rest = drop_old_traffic now ss in if ltb (seconds 60) (now - s.time) then rest else (s ∷ ss)

-- `TrafficWindow::Add`
unfoldable pub add_traffic : ℕ → ℕ → List TrafficSample → List TrafficSample
unfolding drop_old_traffic
add_traffic now bytes ss = drop_old_traffic now ss ++ (record { time = now; bytes = bytes } ∷ [])

-- The loop of `TrafficWindow::Rate`
unfoldable pub sum_traffic : ℕ → ℕ → List TrafficSample → ℕ → ℕ
sum_traffic start now [] bytes = bytes
sum_traffic start now (s ∷ ss) bytes =
    let skipped = sum_traffic start now ss bytes in
    let added = sum_traffic start now ss ((bytes + s.bytes) % 2 ^ 64) in
    if leb start s.time && leb s.time now then added else skipped
