-- ===== src/State/Channels/Tree.antt =====
-- The tree of channels: `Tree`, `OrderedChildren` and `AppendTree`.
pub mod Order
pub mod Members
use ts_cli.Prelude.{
  ℕ, zero, suc, ◌+◌, Bool, true, false, not, ◌&&◌, ◌||◌, Option, none, some, List, [], ◌∷◌, ◌++◌,
  Result, ok, err, ◌>>=◌, ◌>>◌, throw_if, ◌==◌, length, if◌then◌else◌,
}
use ts_cli.Prelude.OrderedMap.{OrderedMap, contains}
use ts_cli.State.Channels.{Channel, ChannelStore}

-- `ChannelTreeEntry`, with the channel that it points to
pub record ChannelTreeEntry : Type 0 where
  pub channel : Channel
  pub depth : ℕ

-- `out_of_fuel` is no exception of the store: the recursion of `tree` never ends so.
pub data TreeError : Type 0 where
  unknown_parent same_position broken_order cycle out_of_fuel : TreeError

unfoldable pub children_of : ℕ → OrderedMap Channel → List Channel
children_of parent [] = []
children_of parent ((k, c) ∷ m) =
    let rest = children_of parent m in if c.parent_id == parent then (c ∷ rest) else rest

-- A set of IDs by its members.
unfoldable pub member : ℕ → List ℕ → Bool
member id [] = false
member id (i ∷ is) = i == id || member id is

-- The loop over the candidates for the place behind `previous`, with the one found so far.
unfoldable pub next_child :
    List ℕ → ℕ → List Channel → Option Channel → Result TreeError (Option Channel)
unfolding member
next_child emitted previous [] found = ok found
next_child emitted previous (c ∷ cs) found =
    let rest = next_child emitted previous cs found in
    let chosen = next_child emitted previous cs (some c) in
    if member c.id emitted
    then rest
    else if not (c.order_after_id == previous)
    then rest
    else elim found [ some d ↦ err same_position | none ↦ chosen ]

-- `while ( ordered.size() < children.size() )`, by the number of channels that are left.
unfoldable pub order_children : ℕ → List ℕ → ℕ → List Channel → Result TreeError (List Channel)
unfolding next_child
order_children zero emitted previous children = ok []
order_children (suc left) emitted previous children =
    elim (next_child emitted previous children none) [
      | err e ↦ err e
      | ok none ↦ err broken_order
      | ok (some c) ↦ order_children left (c.id ∷ emitted) c.id children >>= λ cs. ok (c ∷ cs)
    ]

-- `OrderedChildren`
unfoldable pub ordered_children : ℕ → OrderedMap Channel → Result TreeError (List Channel)
unfolding children_of order_children
ordered_children parent m =
    order_children (length (children_of parent m)) [] 0 (children_of parent m)

-- `visited` and `result`
pub record Walk : Type 0 where
  pub visited : List ℕ
  pub entries : List ChannelTreeEntry

-- The loop of `AppendTree` over the children, with the recursive call as an argument.
unfoldable pub append_children :
    (ℕ → ℕ → Walk → Result TreeError Walk) → ℕ → List Channel → Walk → Result TreeError Walk
append_children recur depth [] w = ok w
append_children recur depth (c ∷ cs) w =
    let entry : ChannelTreeEntry = record { channel = c; depth = depth } in
    let w' : Walk = record { visited = c.id ∷ w.visited; entries = w.entries ++ (entry ∷ []) } in
    if member c.id w.visited
    then err cycle
    else (recur c.id (depth + 1) w' >>= append_children recur depth cs)

-- `AppendTree`. Each level of the recursion has visited one more channel.
unfoldable pub append_tree : ℕ → OrderedMap Channel → ℕ → ℕ → Walk → Result TreeError Walk
unfolding append_children ordered_children
append_tree zero m parent depth w = err out_of_fuel
append_tree (suc fuel) m parent depth w =
    ordered_children parent m >>= λ children. append_children (append_tree fuel m) depth children w

-- The first loop of `Tree`
unfoldable pub has_parents : OrderedMap Channel → OrderedMap Channel → Bool
has_parents all [] = true
has_parents all ((k, c) ∷ m) = (c.parent_id == 0 || contains c.parent_id all) && has_parents all m

-- `Tree`; `Validate` is the same without its result. The number of channels and one more is enough fuel.
unfoldable pub tree : ChannelStore → Result TreeError (List ChannelTreeEntry)
unfolding has_parents append_tree
tree s = do
  throw_if (not (has_parents s.channels s.channels)) unknown_parent
  w ← append_tree (length s.channels + 1) s.channels 0 0 (record { visited = []; entries = [] })
  throw_if (not (length w.entries == length s.channels)) cycle
  ok w.entries
