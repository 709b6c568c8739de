-- ===== src/Prelude/OrderedMap.antt =====
-- `std::map` with unsigned keys: the entries in the order of their keys, which is the order of
-- iteration.
use Prim.Native.Nat.{ℕ, ◌+◌, ◌≤◌, ◌<◌}
use mathlib.Core.Path.{◌≡◌, refl}
use mathlib.Core.Bool.{Bool, true, false}
use mathlib.Core.Option.{Option, none, some}
use mathlib.Core.List.{List, [], ◌∷◌}
use native.Mathlib.Omega.{arith}
use ts_cli.Prelude.Tests.{ltb, ◌==◌, if◌then◌else◌}
use ts_cli.Prelude.Lists.{length}

abbrev pub OrderedMap {ℓ} : Type ℓ → Type ℓ
OrderedMap V = List (ℕ × V)

module _ {ℓ} {V : Type ℓ} where
  unfoldable pub find : ℕ → OrderedMap V → Option V
  find k [] = none
  find k ((j, v) ∷ m) = if j == k then some v else find k m

  -- `insert_or_assign`
  unfoldable pub insert : ℕ → V → OrderedMap V → OrderedMap V
  insert k v [] = (k, v) ∷ []
  insert k v ((j, w) ∷ m) =
      if ltb k j then (k, v) ∷ (j, w) ∷ m else if j == k then (k, v) ∷ m else (j, w) ∷ insert k v m

  unfoldable pub erase : ℕ → OrderedMap V → OrderedMap V
  erase k [] = []
  erase k ((j, w) ∷ m) = if j == k then erase k m else (j, w) ∷ erase k m

  abbrev pub is_some : Option V → Bool
  is_some none = false
  is_some (some v) = true

  unfoldable pub contains : ℕ → OrderedMap V → Bool
  contains k m = is_some (find k m)

  pub find-insert :
      (i k : ℕ) (v : V) (m : OrderedMap V)
      → find i (insert k v m) ≡ (if k == i then some v else find i m)
  unfolding find insert
  find-insert i k v [] = refl
  find-insert i k v ((j, w) ∷ m) = ground (arith, find-insert i k v m)

  pub find-erase :
      (i k : ℕ) (m : OrderedMap V) → find i (erase k m) ≡ (if k == i then none else find i m)
  unfolding find erase
  find-erase i k [] = ground arith
  find-erase i k ((j, w) ∷ m) = ground (arith, find-erase i k m)

  pub length-erase : (k : ℕ) (m : OrderedMap V) → length (erase k m) ≤ length m
  unfolding erase
  length-erase k [] = omega arith
  length-erase k ((j, w) ∷ m) = ground (arith, length-erase k m)

  pub length-erase_found :
      (k : ℕ) (m : OrderedMap V) {v : V} → find k m ≡ some v → length (erase k m) < length m
  unfolding erase find
  length-erase_found k [] h = cc
  length-erase_found k ((j, w) ∷ m) {v} h =
      ground (arith, length-erase k m, length-erase_found k m {v = v})

  pub length-insert_new :
      (k : ℕ) (v : V) (m : OrderedMap V) → find k m ≡ none → length (insert k v m) ≡ length m + 1
  unfolding insert find
  length-insert_new k v [] h = omega arith
  length-insert_new k v ((j, w) ∷ m) h = ground (arith, length-insert_new k v m)

  pub erase_absent : (k : ℕ) (m : OrderedMap V) → find k m ≡ none → erase k m ≡ m
  unfolding find erase
  erase_absent k [] h = refl
  erase_absent k ((j, w) ∷ m) h = ground (arith, erase_absent k m)

  pub erase-insert :
      (k : ℕ) (v : V) (m : OrderedMap V) → find k m ≡ none → erase k (insert k v m) ≡ m
  unfolding find erase insert
  erase-insert k v [] h = ground arith
  erase-insert k v ((j, w) ∷ m) h = ground (arith, erase-insert k v m, erase_absent k m)

  pub insert-insert :
      (k : ℕ) (v w : V) (m : OrderedMap V) → insert k v (insert k w m) ≡ insert k v m
  unfolding insert
  insert-insert k v w [] = ground arith
  insert-insert k v w ((j, x) ∷ m) = ground (arith, insert-insert k v w m)

  pub find-insert_self : (k : ℕ) (v : V) (m : OrderedMap V) → find k (insert k v m) ≡ some v
  find-insert_self k v m = ground (arith, find-insert k k v m)
