-- ===== src/Ring/Slots.antt =====
-- The slots that hold the values of a ring, and what a thread knows within its call.
use ts_cli.Prelude.{
  ℕ, ◌+◌, ◌%◌, ◌≤◌, ◌<◌, false, List, [], ◌∷◌, ◌++◌, ◌==◌, length, length-append, ◌≡◌, ◌≢◌, ap, ◌∙◌,
  arith,
}
use mathlib.Core.Path.{subst}
use ts_cli.Ring.{Producer, idle, storing, publishing, Consumer, waiting, taking, releasing, store}
use ts_cli.Ring.Indices.{index_distinct}

module _ {ℓ} {A : Type ℓ} where
  -- The slots from an index on hold some values.
  abbrev pub Holds : ℕ → (ℕ → A) → ℕ → List A → Type ℓ
  Holds capacity slots from [] = Unit
  Holds capacity slots from (a ∷ rest) =
      (slots (from % capacity) ≡ a) × Holds capacity slots (from + 1) rest

  -- A store behind the values, less than a round away, leaves them as they are.
  pub Holds-store :
      (capacity : ℕ) (slots : ℕ → A) (from to : ℕ) (a : A) (queue : List A)
      → from + length queue ≤ to
      → to < from + capacity
      → Holds capacity slots from queue
      → Holds capacity (store (to % capacity) a slots) from queue
  Holds-store capacity slots from to a [] l r h = tt
  Holds-store capacity slots from to a (b ∷ rest) l r (e, h) =
      let other : (to % capacity == from % capacity) ≡ false =
        ground (arith, index_distinct capacity from to (omega arith) r) in
      (rw other e, Holds-store capacity slots (from + 1) to a rest (omega arith) (omega arith) h)

  pub Holds-append :
      (capacity : ℕ) (slots : ℕ → A) (from : ℕ) (a : A) (queue : List A)
      → Holds capacity slots from queue
      → slots ((from + length queue) % capacity) ≡ a
      → Holds capacity slots from (queue ++ (a ∷ []))
  Holds-append capacity slots from a [] h e =
      (subst (λ n. slots (n % capacity) ≡ a) (omega arith) e, tt)
  Holds-append capacity slots from a (b ∷ rest) (e', h) e = (
    e',
    Holds-append capacity slots (from + 1) a rest h
        (subst (λ n. slots (n % capacity) ≡ a) (omega arith) e),
  )

  -- A producer that has found room is less than a round ahead, and a value in its slot is there.
  abbrev pub IsRoom : ℕ → ℕ → ℕ → (ℕ → A) → ℕ → Producer A → Type ℓ
  IsRoom capacity pushed seen slots write idle = Unit
  IsRoom capacity pushed seen slots write (storing a) = (pushed + 1 < seen + capacity) × Unit {ℓ}
  IsRoom capacity pushed seen slots write (publishing a) =
      (pushed + 1 < seen + capacity) × (slots write ≡ a)

  -- A consumer that has found a value is behind, and the value that it has taken is that of its slot.
  abbrev pub IsValue : ℕ → ℕ → (ℕ → A) → ℕ → Consumer A → Type ℓ
  IsValue popped seen slots read waiting = Unit
  IsValue popped seen slots read taking = (popped < seen) × Unit {ℓ}
  IsValue popped seen slots read (releasing a) = (popped < seen) × (slots read ≡ a)

  pub length_queued :
      (pushed popped queued : List A)
      → pushed ≡ popped ++ queued
      → length pushed ≡ length popped + length queued
  length_queued pushed popped queued e = ap length e ∙ length-append popped queued

  pub store_at : (i : ℕ) (a : A) (slots : ℕ → A) → store i a slots i ≡ a
  store_at i a slots = ground arith

  store_off : (i j : ℕ) (a : A) (slots : ℕ → A) → i ≢ j → store i a slots j ≡ slots j
  store_off i j a slots other = ground (arith, other)

  -- A slot that the consumer reads is not the one that is stored into.
  pub IsValue-store :
      (popped seen i j : ℕ) (a : A) (slots : ℕ → A) (c : Consumer A)
      → (popped < seen → i ≢ j)
      → IsValue popped seen slots j c
      → IsValue popped seen (store i a slots) j c
  IsValue-store popped seen i j a slots waiting other h = tt
  IsValue-store popped seen i j a slots taking other h = h
  IsValue-store popped seen i j a slots (releasing b) other (l, e) =
      (l, store_off i j a slots (other l) ∙ e)
