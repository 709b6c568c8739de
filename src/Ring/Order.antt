-- ===== src/Ring/Order.antt =====
-- What is popped is what was pushed, in its order, and no slot is read and written at once.
use ts_cli.Prelude.{
  ℕ, ◌+◌, ◌%◌, ◌≤◌, ◌<◌, List, [], ◌∷◌, ◌++◌, append_assoc, length, length-append, ◌≡◌, ◌≢◌, refl,
  ap, sym, ◌∙◌, arith,
}
use mathlib.Core.Path.{subst}
use native.Mathlib.Nat.{mod-eq_of_lt}
use ts_cli.Ring.{
  storing, waiting, taking, releasing, Ring, next, size, Push, full, has_room, emplace, publish,
  Pop, empty, has_value, take_value, release, new_ring, Reach, start, pushing, popping,
}
use ts_cli.Ring.Indices.{index_distinct, next-index, size-index, room_found, value_found}
use ts_cli.Ring.Slots.{
  Holds, Holds-store, Holds-append, IsRoom, IsValue, IsValue-store, length_queued, store_at,
}

module _ {ℓ} {A : Type ℓ} where
  pub record IsOrdered (capacity : ℕ) (s : Ring A) : Type ℓ where
    pub queued : List A
    pub order : s.pushed ≡ s.popped ++ queued
    pub holds : Holds capacity s.slots (length s.popped) queued
    pub write_at : s.write ≡ length s.pushed % capacity
    pub read_at : s.read ≡ length s.popped % capacity
    pub pops_seen : s.seen_read ≤ length s.popped
    pub pushes_left : length s.popped ≤ s.seen_write
    pub pushes_seen : s.seen_write ≤ length s.pushed
    pub near : length s.pushed < s.seen_read + capacity
    pub room : IsRoom capacity (length s.pushed) s.seen_read s.slots s.write s.producer
    pub value : IsValue (length s.popped) s.seen_write s.slots s.read s.consumer

  start-IsOrdered :
      (capacity : ℕ) (initial : A) → 2 ≤ capacity → IsOrdered capacity (new_ring initial)
  start-IsOrdered capacity initial h = record {
    queued = [];
    order = refl;
    holds = tt;
    write_at = sym (mod-eq_of_lt (omega arith));
    read_at = sym (mod-eq_of_lt (omega arith));
    pops_seen = omega arith;
    pushes_left = omega arith;
    pushes_seen = omega arith;
    near = omega arith;
    room = tt;
    value = tt;
  }

  Push-IsOrdered :
      (capacity : ℕ) {s t : Ring A}
      → Push capacity s t
      → IsOrdered capacity s
      → IsOrdered capacity t
  Push-IsOrdered capacity {s} (full seen e later known no_room) i =
      let near = i.near in
      record {
        queued = i.queued;
        order = i.order;
        holds = i.holds;
        write_at = i.write_at;
        read_at = i.read_at;
        pops_seen = known;
        pushes_left = i.pushes_left;
        pushes_seen = i.pushes_seen;
        near = omega arith;
        room = rw e tt;
        value = i.value;
      }
  Push-IsOrdered capacity {s} (has_room seen a e later known free) i =
      let near = i.near in
      let near' : length s.pushed < seen + capacity = omega arith in
      record {
        queued = i.queued;
        order = i.order;
        holds = i.holds;
        write_at = i.write_at;
        read_at = i.read_at;
        pops_seen = known;
        pushes_left = i.pushes_left;
        pushes_seen = i.pushes_seen;
        near = near';
        room = (room_found capacity seen (length s.pushed) near' (rw i.write_at at free), tt);
        value = i.value;
      }
  Push-IsOrdered capacity {s} (emplace a e) i =
      let (below, u) = (rw e at i.room) in
      let seen = i.pops_seen in
      let behind = i.pushes_seen in
      let long = length_queued s.pushed s.popped i.queued i.order in
      let apart : length s.popped < s.seen_write → s.write ≢ s.read = λ some_value same.
        index_distinct capacity (length s.popped) (length s.pushed) (omega arith) (omega arith)
          (sym i.read_at ∙ sym same ∙ i.write_at) in
      record {
        queued = i.queued;
        order = i.order;
        holds = rw i.write_at (
            Holds-store capacity s.slots (length s.popped) (length s.pushed) a i.queued
              (omega arith) (omega arith) i.holds);
        write_at = i.write_at;
        read_at = i.read_at;
        pops_seen = i.pops_seen;
        pushes_left = i.pushes_left;
        pushes_seen = i.pushes_seen;
        near = i.near;
        room = (below, store_at s.write a s.slots);
        value =
            IsValue-store (length s.popped) s.seen_write s.write s.read a s.slots s.consumer apart
              i.value;
      }
  Push-IsOrdered capacity {s} (publish a e) i =
      let (below, here) = (rw e at i.room) in
      let behind = i.pushes_seen in
      let more = length-append s.pushed (a ∷ []) in
      let long = length_queued s.pushed s.popped i.queued i.order in
      let stored : s.slots ((length s.popped + length i.queued) % capacity) ≡ a =
        subst (λ n. s.slots (n % capacity) ≡ a) long (subst (λ n. s.slots n ≡ a) i.write_at here) in
      record {
        queued = i.queued ++ (a ∷ []);
        order = ap (λ q. q ++ (a ∷ [])) i.order ∙ append_assoc s.popped i.queued (a ∷ []);
        holds = Holds-append capacity s.slots (length s.popped) a i.queued i.holds stored;
        write_at =
            ap (next capacity) i.write_at
            ∙ next-index capacity (length s.pushed)
            ∙ ap (λ n. n % capacity) (sym more);
        read_at = i.read_at;
        pops_seen = i.pops_seen;
        pushes_left = i.pushes_left;
        pushes_seen = omega (arith, more);
        near = omega (arith, more);
        room = tt;
        value = i.value;
      }

  release-IsOrdered :
      (capacity : ℕ) (s : Ring A) (a : A) (queued : List A)
      → s.consumer ≡ releasing a
      → IsOrdered capacity s
      → s.pushed ≡ s.popped ++ queued
      → Holds capacity s.slots (length s.popped) queued
      → IsOrdered capacity (record s {
        read = next capacity s.read;
        consumer = waiting;
        popped = s.popped ++ (a ∷ []);
      })
  release-IsOrdered capacity s a [] e i order h =
      let (below, here) = (rw e at i.value) in
      let behind = i.pushes_seen in absurd (omega (arith, length_queued s.pushed s.popped [] order))
  release-IsOrdered capacity s a (b ∷ rest) e i order (first, h) =
      let (below, here) = (rw e at i.value) in
      let same : b ≡ a = sym first ∙ ap s.slots (sym i.read_at) ∙ here in
      let more = length-append s.popped (a ∷ []) in
      let seen = i.pops_seen in
      record {
        queued = rest;
        order = order ∙ rw same (sym (append_assoc s.popped (a ∷ []) rest));
        holds = subst (λ n. Holds capacity s.slots n rest) (sym more) h;
        write_at = i.write_at;
        read_at =
            ap (next capacity) i.read_at
            ∙ next-index capacity (length s.popped)
            ∙ ap (λ n. n % capacity) (sym more);
        pops_seen = omega (arith, more);
        pushes_left = omega (arith, more);
        pushes_seen = i.pushes_seen;
        near = i.near;
        room = i.room;
        value = tt;
      }

  Pop-IsOrdered :
      (capacity : ℕ) {s t : Ring A} → Pop capacity s t → IsOrdered capacity s → IsOrdered capacity t
  Pop-IsOrdered capacity {s} (empty seen e later known no_value) i =
      let left = i.pushes_left in
      record {
        queued = i.queued;
        order = i.order;
        holds = i.holds;
        write_at = i.write_at;
        read_at = i.read_at;
        pops_seen = i.pops_seen;
        pushes_left = omega arith;
        pushes_seen = known;
        near = i.near;
        room = i.room;
        value = rw e tt;
      }
  Pop-IsOrdered capacity {s} (has_value seen e later known other) i =
      let left = i.pushes_left in
      record {
        queued = i.queued;
        order = i.order;
        holds = i.holds;
        write_at = i.write_at;
        read_at = i.read_at;
        pops_seen = i.pops_seen;
        pushes_left = omega arith;
        pushes_seen = known;
        near = i.near;
        room = i.room;
        value =
            (value_found capacity seen (length s.popped) (omega arith) (rw i.read_at at other), tt);
      }
  Pop-IsOrdered capacity {s} (take_value e) i =
      let (below, u) = (rw e at i.value) in
      record {
        queued = i.queued;
        order = i.order;
        holds = i.holds;
        write_at = i.write_at;
        read_at = i.read_at;
        pops_seen = i.pops_seen;
        pushes_left = i.pushes_left;
        pushes_seen = i.pushes_seen;
        near = i.near;
        room = i.room;
        value = (below, refl);
      }
  Pop-IsOrdered capacity {s} (release a e) i =
      release-IsOrdered capacity s a i.queued e i i.order i.holds

  Reach-IsOrdered :
      (capacity : ℕ) (initial : A) {s : Ring A}
      → 2 ≤ capacity
      → Reach capacity initial s
      → IsOrdered capacity s
  Reach-IsOrdered capacity initial h start = start-IsOrdered capacity initial h
  Reach-IsOrdered capacity initial h (pushing r p) =
      Push-IsOrdered capacity p (Reach-IsOrdered capacity initial h r)
  Reach-IsOrdered capacity initial h (popping r p) =
      Pop-IsOrdered capacity p (Reach-IsOrdered capacity initial h r)

  -- In any interleaving of a thread that pushes and one that pops, each acquiring an index that may be
  -- stale: what has been popped and then what the queue holds is what has been pushed, in its order; the
  -- queue has at most one value fewer than the capacity; and `Size` of the two indices is its length.
  pub Reach-order :
      (capacity : ℕ) (initial : A) (s : Ring A)
      → 2 ≤ capacity
      → Reach capacity initial s
      → (queued : List A) × (s.pushed ≡ s.popped ++ queued)
        × (length queued < capacity)
        × (size capacity s.write s.read ≡ length queued)
  Reach-order capacity initial s h r =
      let i = Reach-IsOrdered capacity initial h r in
      let long = length_queued s.pushed s.popped i.queued i.order in
      let near = i.near in
      let seen = i.pops_seen in
      (
        i.queued,
        i.order,
        omega (arith, long),
        ap (λ w. size capacity w s.read) i.write_at
            ∙ ap (size capacity (length s.pushed % capacity)) i.read_at
            ∙ size-index capacity (length s.popped) (length s.pushed) (omega (arith, long))
                (omega arith)
            ∙ omega (arith, long),
      )

  -- Whenever a value is to be stored into a slot and another one to be taken from a slot, in any such
  -- interleaving, these are two different slots.
  pub Reach-no_race :
      (capacity : ℕ) (initial a : A) (s : Ring A)
      → 2 ≤ capacity
      → Reach capacity initial s
      → s.producer ≡ storing a
      → s.consumer ≡ taking
      → s.write ≢ s.read
  Reach-no_race capacity initial a s h r p c same =
      let i = Reach-IsOrdered capacity initial h r in
      let (below, u) = (rw p at i.room) in
      let (behind, v) = (rw c at i.value) in
      let seen = i.pops_seen in
      let most = i.pushes_seen in
      index_distinct capacity (length s.popped) (length s.pushed) (omega arith) (omega arith)
        (sym i.read_at ∙ sym same ∙ i.write_at)
