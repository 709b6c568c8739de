-- ===== src/State/Channels/Tree/Members.antt =====
-- The tree has every channel once, and its recursion ends.
use ts_cli.Prelude.{
  ℕ, zero, suc, ◌+◌, ◌≤◌, ◌<◌, true, false, List, [], ◌∷◌, ◌++◌, Result, ok, err, ◌==◌, length, All,
  length-append, Bool-cases, if-cases, Option-cases, Result-cases, ◌≡◌, ◌≢◌, inl, inr, refl, ap,
  sym, ◌∙◌, arith,
}
use ts_cli.Prelude.OrderedMap.{OrderedMap, find, erase, contains, find-erase, length-erase_found}
use ts_cli.State.Channels.{Channel, ChannelStore}
use ts_cli.State.Channels.Tree.{
  ChannelTreeEntry, TreeError, out_of_fuel, children_of, member, ordered_children, Walk,
  append_children, append_tree, has_parents, tree,
}
use ts_cli.State.Channels.Tree.Order.{Among, ordered_children-IsOrdered}

abbrev pub AreKeyed : OrderedMap Channel → Type 0
AreKeyed [] = Unit
AreKeyed ((k, c) ∷ m) = (k ≡ c.id) × AreKeyed m

-- No ID twice.
abbrev pub AreDistinct : List ℕ → Type 0
AreDistinct [] = Unit
AreDistinct (i ∷ ids) = (member i ids ≡ false) × AreDistinct ids

abbrev pub AreIn : OrderedMap Channel → List ℕ → Type 0
AreIn m = All λ i. contains i m ≡ true

-- IDs that are all different from another are still in a map without that one.
AreIn-erase :
    (i : ℕ) (ids : List ℕ) (m : OrderedMap Channel)
    → member i ids ≡ false
    → AreIn m ids
    → AreIn (erase i m) ids
unfolding member contains
AreIn-erase i [] m h a = tt
AreIn-erase i (j ∷ ids) m h (p, a) =
    (ground (arith, h, p, find-erase j i m), AreIn-erase i ids m (ground (arith, h)) a)

-- So many different IDs need so many channels.
length-AreDistinct :
    (ids : List ℕ) (m : OrderedMap Channel) → AreDistinct ids → AreIn m ids → length ids ≤ length m
unfolding contains
length-AreDistinct [] m d a = omega arith
length-AreDistinct (i ∷ ids) m (f, d) (p, a) = elim (Option-cases (find i m)) [
  | inl absent ↦ absurd (ground (arith, absent, p))
  | inr (c, found) ↦ omega (
    arith,
    length-erase_found i m found,
    length-AreDistinct ids (erase i m) d (AreIn-erase i ids m f a),
  )
]

-- The IDs of the entries, the last one first, before those given.
unfoldable pub reverse_ids : List ChannelTreeEntry → List ℕ → List ℕ
reverse_ids [] ids = ids
reverse_ids (e ∷ es) ids = reverse_ids es (e.channel.id ∷ ids)

reverse_ids-append :
    (es : List ChannelTreeEntry) (e : ChannelTreeEntry) (ids : List ℕ)
    → reverse_ids (es ++ (e ∷ [])) ids ≡ e.channel.id ∷ reverse_ids es ids
unfolding reverse_ids
reverse_ids-append [] e ids = refl
reverse_ids-append (x ∷ es) e ids = reverse_ids-append es e (x.channel.id ∷ ids)

-- A walk has visited the channels of its entries, each once, and they are in the map.
pub record IsWalk (m : OrderedMap Channel) (w : Walk) : Type 0 where
  pub listed : w.visited ≡ reverse_ids w.entries []
  pub distinct : AreDistinct w.visited
  pub inside : AreIn m w.visited
  pub counted : length w.entries ≡ length w.visited

-- What walking on from a walk may give.
abbrev IsWalked : OrderedMap Channel → Walk → Result TreeError Walk → Type 0
IsWalked m w (ok w') = IsWalk m w' × (length w.visited ≤ length w'.visited)
IsWalked m w (err e) = e ≢ out_of_fuel

Among-contains :
    (parent : ℕ) (c : Channel) (m : OrderedMap Channel)
    → AreKeyed m
    → Among c (children_of parent m)
    → contains c.id m ≡ true
unfolding children_of contains find
Among-contains parent c [] k a = absurd a
Among-contains parent c ((j, d) ∷ m) (e, k) a =
    let rec : Among c (children_of parent m) → contains c.id m ≡ true =
      λ b. Among-contains parent c m k b in
    elim (Bool-cases (d.parent_id == parent)) [
      | inr elsewhere ↦ ground (arith, rec (rw elsewhere at a))
      | inl here ↦ elim (rw here at a) [
        | inl same ↦ rw same (ground (arith, e))
        | inr other ↦ ground (arith, rec other)
      ]
    ]

abbrev IsIn : OrderedMap Channel → Channel → Type 0
IsIn m c = contains c.id m ≡ true

append_children-IsWalked :
    (m : OrderedMap Channel) (recur : ℕ → ℕ → Walk → Result TreeError Walk) (bound depth : ℕ)
    (cs : List Channel) (w : Walk)
    → ((id d : ℕ) (v : Walk) → bound < length v.visited → IsWalk m v → IsWalked m v (recur id d v))
    → All (IsIn m) cs
    → bound ≤ length w.visited
    → IsWalk m w
    → IsWalked m w (append_children recur depth cs w)
unfolding append_children
append_children-IsWalked m recur bound depth [] w h a b i = (i, omega arith)
append_children-IsWalked m recur bound depth (c ∷ cs) w h (p, a) b i =
    let entry : ChannelTreeEntry = record { channel = c; depth = depth } in
    let w' : Walk = record { visited = c.id ∷ w.visited; entries = w.entries ++ (entry ∷ []) } in
    if-cases (IsWalked m w) (member c.id w.visited) (λ old. λ x. cc)
      (λ new.
        let i' : IsWalk m w' = record {
          listed = ap (λ ids. c.id ∷ ids) i.listed ∙ sym (reverse_ids-append w.entries entry []);
          distinct = (new, i.distinct);
          inside = (p, i.inside);
          counted = omega (arith, length-append w.entries (entry ∷ []), i.counted);
        } in
        elim (Result-cases (recur c.id (depth + 1) w')) [
          | inr (e, failed) ↦ rw failed (rw failed at (h c.id (depth + 1) w' (omega arith) i'))
          | inl (v, gone) ↦
              let (iv, more) = (rw gone at (h c.id (depth + 1) w' (omega arith) i')) in
              rw gone (elim (Result-cases (append_children recur depth cs v)) [
                | inr (e, failed) ↦ rw failed (
                    rw failed at
                      (append_children-IsWalked m recur bound depth cs v h a (omega arith) iv))
                | inl (u, done) ↦ rw done (
                    let (iu, further) =
                      (rw done at
                        (append_children-IsWalked m recur bound depth cs v h a (omega arith) iv)) in
                    (iu, omega (arith, more, further)))
              ])
        ])

children-IsIn :
    (parent : ℕ) (m : OrderedMap Channel) (cs : List Channel)
    → AreKeyed m
    → All (λ c. Among c (children_of parent m)) cs
    → All (IsIn m) cs
children-IsIn parent m [] k a = tt
children-IsIn parent m (c ∷ cs) k (p, a) =
    (Among-contains parent c m k p, children-IsIn parent m cs k a)

-- With more fuel than channels that are not visited yet, the recursion ends.
append_tree-IsWalked :
    (fuel : ℕ) (m : OrderedMap Channel) (parent depth : ℕ) (w : Walk)
    → length m < fuel + length w.visited
    → AreKeyed m
    → IsWalk m w
    → IsWalked m w (append_tree fuel m parent depth w)
unfolding append_tree
append_tree-IsWalked zero m parent depth w h k i =
    absurd (omega (arith, h, length-AreDistinct w.visited m i.distinct i.inside))
append_tree-IsWalked (suc fuel) m parent depth w h k i =
    elim (Result-cases (ordered_children parent m)) [
      | inr (e, failed) ↦ rw (IsWalked, failed) (rw failed at (ordered_children-IsOrdered parent m))
      | inl (cs, given) ↦
          let (chain, fresh, all, size) = (rw given at (ordered_children-IsOrdered parent m)) in
          rw given (
            append_children-IsWalked m (append_tree fuel m) (length w.visited) depth cs w
              (λ id d v more j. append_tree-IsWalked fuel m id d v (omega arith) k j)
              (children-IsIn parent m cs k all) (omega arith) i)
    ]

-- What `Tree` may give.
abbrev pub IsTree : ChannelStore → Result TreeError (List ChannelTreeEntry) → Type 0
IsTree s (ok entries) =
    AreDistinct (reverse_ids entries [])
    × AreIn s.channels (reverse_ids entries [])
    × (length entries ≡ length s.channels)
IsTree s (err e) = e ≢ out_of_fuel

-- Where every channel is stored under its ID, `Tree` returns as many entries as there are channels, of
-- channels of the store and of no channel twice, or throws one of its exceptions: its recursion ends.
pub tree-IsTree : (s : ChannelStore) → AreKeyed s.channels → IsTree s (tree s)
unfolding tree reverse_ids
tree-IsTree s k =
    let w : Walk = record { visited = []; entries = [] } in
    let i : IsWalk s.channels w = record {
      listed = refl;
      distinct = tt;
      inside = tt;
      counted = refl;
    } in
    let walked : IsWalked s.channels w (append_tree (length s.channels + 1) s.channels 0 0 w) =
      append_tree-IsWalked (length s.channels + 1) s.channels 0 0 w (omega arith) k i in
    elim (Bool-cases (has_parents s.channels s.channels)) [
      | inr orphans ↦ rw (IsTree, orphans) (λ x. cc)
      | inl parents ↦ elim (Result-cases (append_tree (length s.channels + 1) s.channels 0 0 w)) [
        | inr (e, failed) ↦ rw (IsTree, parents, failed) (rw failed at walked)
        | inl (v, done) ↦
            let (j, more) = (rw done at walked) in
            rw (IsTree, parents, done)
              (elim (Bool-cases (length v.entries == length s.channels)) [
                | inr fewer ↦ rw (IsTree, fewer) (λ x. cc)
                | inl as_many ↦
                    rw (IsTree, as_many)
                      (
                        rw (sym j.listed) j.distinct,
                        rw (sym j.listed) j.inside,
                        ground (arith, as_many),
                      )
              ])
      ]
    ]
