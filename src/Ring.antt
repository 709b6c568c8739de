-- ===== src/Ring.antt =====
-- audio/include/audio/spsc_ring.hpp: the ring between two threads, one that pushes and one that pops.
-- The two threads go on by the atomic steps of their calls, in any order. A thread knows its own index.
-- An acquire load of the other index may be stale: it gives a value stored since this thread's last
-- load. `pushed` and `popped` say what has been published and taken so far, `seen_read` and
-- `seen_write` how many of the pops and pushes a thread has seen; the code does not have these four.
pub mod Indices
pub mod Slots
pub mod Order
use ts_cli.Prelude.{
  ℕ, ◌+◌, ◌-◌, ◌%◌, ◌≤◌, List, [], ◌∷◌, ◌++◌, ◌==◌, length, if◌then◌else◌, ◌≡◌, ◌≢◌,
}

-- `Next`
unfoldable pub next : ℕ → ℕ → ℕ
next capacity index = (index + 1) % capacity

-- `Size`, of the two indices that it loads
unfoldable pub size : ℕ → ℕ → ℕ → ℕ
size capacity write read = (write + capacity - read) % capacity

-- A thread in `TryEmplace`: not in it; with room found for a value; with the value in its slot.
pub data Producer {ℓ} (A : Type ℓ) : Type ℓ where
  idle : Producer A
  storing : A → Producer A
  publishing : A → Producer A

-- A thread in `TryPop`: not in it; with a value to take; with the value taken.
pub data Consumer {ℓ} (A : Type ℓ) : Type ℓ where
  waiting : Consumer A
  taking : Consumer A
  releasing : A → Consumer A

pub record Ring {ℓ} (A : Type ℓ) : Type ℓ where
  pub slots : ℕ → A
  pub write : ℕ
  pub read : ℕ
  pub producer : Producer A
  pub consumer : Consumer A
  pub pushed : List A
  pub popped : List A
  pub seen_read : ℕ
  pub seen_write : ℕ

module _ {ℓ} {A : Type ℓ} where
  abbrev pub store : ℕ → A → (ℕ → A) → ℕ → A
  store i a slots j = if i == j then a else slots j

  -- `TryEmplace`, with `seen` pops known from its acquire load of `m_Read`.
  pub data Push (capacity : ℕ) (s : Ring A) : Ring A → Type ℓ where
    full :
        (seen : ℕ)
        → s.producer ≡ idle
        → s.seen_read ≤ seen
        → seen ≤ length s.popped
        → next capacity s.write ≡ seen % capacity
        → Push capacity s (record s { seen_read = seen })
    has_room :
        (seen : ℕ) (a : A)
        → s.producer ≡ idle
        → s.seen_read ≤ seen
        → seen ≤ length s.popped
        → next capacity s.write ≢ seen % capacity
        → Push capacity s (record s { seen_read = seen; producer = storing a })
    emplace :
        (a : A)
        → s.producer ≡ storing a
        → Push capacity s (record s { slots = store s.write a s.slots; producer = publishing a })
    publish :
        (a : A)
        → s.producer ≡ publishing a
        → Push capacity s (record s {
          write = next capacity s.write;
          producer = idle;
          pushed = s.pushed ++ (a ∷ []);
        })

  -- `TryPop`, with `seen` pushes known from its acquire load of `m_Write`.
  pub data Pop (capacity : ℕ) (s : Ring A) : Ring A → Type ℓ where
    empty :
        (seen : ℕ)
        → s.consumer ≡ waiting
        → s.seen_write ≤ seen
        → seen ≤ length s.pushed
        → s.read ≡ seen % capacity
        → Pop capacity s (record s { seen_write = seen })
    has_value :
        (seen : ℕ)
        → s.consumer ≡ waiting
        → s.seen_write ≤ seen
        → seen ≤ length s.pushed
        → s.read ≢ seen % capacity
        → Pop capacity s (record s { seen_write = seen; consumer = taking })
    take_value :
        s.consumer ≡ taking → Pop capacity s (record s { consumer = releasing (s.slots s.read) })
    release :
        (a : A)
        → s.consumer ≡ releasing a
        → Pop capacity s (record s {
          read = next capacity s.read;
          consumer = waiting;
          popped = s.popped ++ (a ∷ []);
        })

  -- The members' initial values
  abbrev pub new_ring : A → Ring A
  new_ring a = record {
    slots = λ i. a;
    write = 0;
    read = 0;
    producer = idle;
    consumer = waiting;
    pushed = [];
    popped = [];
    seen_read = 0;
    seen_write = 0;
  }

  -- The states that any interleaving of the two threads leads to.
  pub data Reach (capacity : ℕ) (initial : A) : Ring A → Type ℓ where
    start : Reach capacity initial (new_ring initial)
    pushing :
        {s t : Ring A} → Reach capacity initial s → Push capacity s t → Reach capacity initial t
    popping :
        {s t : Ring A} → Reach capacity initial s → Pop capacity s t → Reach capacity initial t
