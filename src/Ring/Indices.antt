-- ===== src/Ring/Indices.antt =====
-- Indices of a ring: the numbers of pushes and pops, modulo the capacity.
use ts_cli.Prelude.{
  ℕ, ◌+◌, ◌-◌, ◌/◌, ◌%◌, ◌≤◌, ◌<◌, ltb, leb, Bool-cases, ◌≡◌, ◌≢◌, ◌⊎◌, inl, inr, ap, sym, ◌∙◌,
  arith,
}
use native.Mathlib.Nat.{
  mod-add-div, mod-add-mod, mod-lt, mod-eq_of_lt, mod-eq-sub-mod, add-mod_right, mul-le-mul_left,
  mul-suc,
}
use ts_cli.Ring.{next, size}

le_or_lt : (m n : ℕ) → (m ≤ n) ⊎ (n < m)
le_or_lt m n = elim (Bool-cases (leb m n)) [
  | inl e ↦ inl (ground (arith, e))
  | inr e ↦ inr (ground (arith, e))
]

-- Two counts that are less than the capacity apart do not have the same index.
pub index_distinct : (capacity i j : ℕ) → i < j → j < i + capacity → i % capacity ≢ j % capacity
index_distinct capacity i j l r same =
    let low = mod-add-div i capacity in
    let high = mod-add-div j capacity in
    elim (le_or_lt (j / capacity) (i / capacity)) [
      | inl few ↦ omega (arith, l, low, high, same, mul-le-mul_left capacity few)
      | inr more ↦
          let farther = mul-le-mul_left capacity more in
          omega (arith, r, low, high, same, farther, mul-suc capacity (i / capacity))
    ]

pub next-index : (capacity i : ℕ) → next capacity (i % capacity) ≡ (i + 1) % capacity
unfolding next
next-index capacity i = mod-add-mod i capacity 1

-- The difference of two counts from their indices.
pub size-index :
    (capacity i j : ℕ)
    → i ≤ j
    → j < i + capacity
    → size capacity (j % capacity) (i % capacity) ≡ j - i
unfolding size
size-index capacity i j l r =
    let k = j - i in
    let low = mod-lt i {m = capacity} (omega arith) in
    let sum : (i % capacity + k) % capacity ≡ j % capacity =
      mod-add-mod i capacity k ∙ ap (λ n. n % capacity) (omega arith) in
    let whole = mod-eq_of_lt {n = k} {m = capacity} (omega arith) in
    elim (le_or_lt capacity (i % capacity + k)) [
      | inr inside ↦
          let same : j % capacity ≡ i % capacity + k = sym sum ∙ mod-eq_of_lt inside in
          let moved : j % capacity + capacity - i % capacity ≡ k + capacity = omega (arith, same) in
          rw moved (add-mod_right k capacity ∙ whole)
      | inl around ↦
          let same : j % capacity ≡ i % capacity + k - capacity =
            sym sum ∙ mod-eq-sub-mod around ∙ mod-eq_of_lt (omega (arith, low)) in
          let moved : j % capacity + capacity - i % capacity ≡ k =
            omega (arith, same, around, low) in
          rw moved whole
    ]

-- Another index ahead is room.
pub room_found :
    (capacity seen pushed : ℕ)
    → pushed < seen + capacity
    → next capacity (pushed % capacity) ≢ seen % capacity
    → pushed + 1 < seen + capacity
room_found capacity seen pushed near free = elim (Bool-cases (ltb (pushed + 1) (seen + capacity))) [
  | inl below ↦ ground (arith, below)
  | inr above ↦
      let round : pushed + 1 ≡ seen + capacity = ground (arith, above, near) in
      absurd (
        free
          (next-index capacity pushed ∙ ap (λ n. n % capacity) round ∙ add-mod_right seen capacity))
]

-- Another index behind is a value.
pub value_found :
    (capacity seen popped : ℕ) → popped ≤ seen → popped % capacity ≢ seen % capacity → popped < seen
value_found capacity seen popped l other = elim (Bool-cases (ltb popped seen)) [
  | inl below ↦ ground (arith, below)
  | inr above ↦
      let level : popped ≡ seen = ground (arith, above, l) in
      absurd (other (ap (λ n. n % capacity) level))
]
