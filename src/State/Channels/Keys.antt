-- ===== src/State/Channels/Keys.antt =====
-- Each channel stands under its own ID, whatever notifications have been applied, so that the tree
-- of channels ends.
use ts_cli.Prelude.{
  ℕ, Bool, ◌||◌, some, List, [], ◌∷◌, Result, ok, err, ◌>>=◌, if◌then◌else◌, Bool-cases, if-cases,
  Option-cases, ◌≡◌, inl, inr, refl, sym, ◌∙◌, arith,
}
use ts_cli.Message.Channels.{
  ChannelEntry, ChannelEditedEntry, ChannelMovedEntry, ChannelSubscription,
}
use ts_cli.Message.{value_or}
use ts_cli.Prelude.OrderedMap.{OrderedMap, find, insert, erase, contains}
use ts_cli.State.Channels.{
  is_given, Channel, ChannelStore, StoreError, empty_store, channel_of, upsert, apply_list,
  reorder_first, apply_created, relink, move, edited, change, apply_edited, apply_moved,
  set_subscribed, set_all_subscribed, apply_subscription, reorder_all, remove,
}
use ts_cli.State.Channels.Tree.{tree}
use ts_cli.State.Channels.Tree.Members.{AreKeyed, IsTree, tree-IsTree}

-- The operations that change a store.
pub data Notification : Type 0 where
  channels_listed : List ChannelEntry → Notification
  channel_created : ChannelEntry → Notification
  channel_edited : ChannelEditedEntry → Notification
  channel_moved : ChannelMovedEntry → Notification
  subscriptions_changed : ChannelSubscription → Notification
  channel_removed : ℕ → Notification
  store_cleared : Notification

-- The exceptions come before any change.
abbrev pub kept : ChannelStore → Result StoreError ChannelStore → ChannelStore
kept s (ok s') = s'
kept s (err e) = s

unfoldable pub apply : Notification → ChannelStore → ChannelStore
apply (channels_listed es) s = apply_list es s
apply (channel_created e) s = apply_created e s
apply (channel_edited e) s = kept s (apply_edited e s)
apply (channel_moved e) s = kept s (apply_moved e s)
apply (subscriptions_changed e) s = apply_subscription e s
apply (channel_removed id) s = remove id s
apply store_cleared s = empty_store

unfoldable pub apply_all : List Notification → ChannelStore → ChannelStore
unfolding apply
apply_all [] s = s
apply_all (n ∷ ns) s = apply_all ns (apply n s)

insert-AreKeyed :
    (c : Channel) (m : OrderedMap Channel) (k : ℕ) → k ≡ c.id → AreKeyed m → AreKeyed (insert k c m)
unfolding insert
insert-AreKeyed c [] k e h = (e, tt)
insert-AreKeyed c ((j, d) ∷ m) k e h = ground (arith, insert-AreKeyed c m k e h.1)

erase-AreKeyed : (k : ℕ) (m : OrderedMap Channel) → AreKeyed m → AreKeyed (erase k m)
unfolding erase
erase-AreKeyed k [] h = tt
erase-AreKeyed k ((j, d) ∷ m) h = ground (arith, erase-AreKeyed k m h.1)

find-AreKeyed :
    (id : ℕ) (m : OrderedMap Channel) {c : Channel} → AreKeyed m → find id m ≡ some c → id ≡ c.id
unfolding find
find-AreKeyed id [] h e = cc
find-AreKeyed id ((k, d) ∷ m) {c} h e = ground (arith, find-AreKeyed id m {c = c} h.1)

reorder_first-AreKeyed :
    (self parent after new_after : ℕ) (m : OrderedMap Channel)
    → AreKeyed m
    → AreKeyed (reorder_first self parent after new_after m)
unfolding reorder_first
reorder_first-AreKeyed self parent after new_after [] h = tt
reorder_first-AreKeyed self parent after new_after ((k, c) ∷ m) h =
    ground (arith, reorder_first-AreKeyed self parent after new_after m h.1)

reorder_all-AreKeyed :
    (parent after new_after : ℕ) (m : OrderedMap Channel)
    → AreKeyed m
    → AreKeyed (reorder_all parent after new_after m)
unfolding reorder_all
reorder_all-AreKeyed parent after new_after [] h = tt
reorder_all-AreKeyed parent after new_after ((k, c) ∷ m) h =
    ground (arith, reorder_all-AreKeyed parent after new_after m h.1)

upsert-AreKeyed :
    (c : Channel) (s : ChannelStore) → AreKeyed s.channels → AreKeyed (upsert c s).channels
unfolding upsert
upsert-AreKeyed c s h =
    insert-AreKeyed (record c { subscribed = contains c.id s.subscriptions }) s.channels c.id refl h

apply_list-AreKeyed :
    (es : List ChannelEntry) (s : ChannelStore)
    → AreKeyed s.channels
    → AreKeyed (apply_list es s).channels
unfolding apply_list
apply_list-AreKeyed [] s h = h
apply_list-AreKeyed (e ∷ es) s h =
    apply_list-AreKeyed es (upsert (channel_of e) s) (upsert-AreKeyed (channel_of e) s h)

apply_created-AreKeyed :
    (e : ChannelEntry) (s : ChannelStore)
    → AreKeyed s.channels
    → AreKeyed (apply_created e s).channels
unfolding apply_created
apply_created-AreKeyed e s h = elim (Bool-cases (contains e.id s.channels)) [
  | inl present ↦ rw present (upsert-AreKeyed (channel_of e) s h)
  | inr absent ↦ rw absent (
      upsert-AreKeyed (channel_of e)
        (record s { channels = reorder_first e.id e.parent_id e.order_after_id e.id s.channels })
        (reorder_first-AreKeyed e.id e.parent_id e.order_after_id e.id s.channels h))
]

relink-AreKeyed :
    (c : Channel) (id parent after : ℕ) (m : OrderedMap Channel)
    → id ≡ c.id
    → AreKeyed m
    → AreKeyed (relink c id parent after m)
unfolding relink
relink-AreKeyed c id parent after m e h =
    let closed = reorder_first id c.parent_id id c.order_after_id m in
    insert-AreKeyed (record c { parent_id = parent; order_after_id = after })
      (reorder_first id parent after id closed) id e
      (reorder_first-AreKeyed id parent after id closed
        (reorder_first-AreKeyed id c.parent_id id c.order_after_id m h))

-- A store, if one is returned.
abbrev IsKeyed : Result StoreError ChannelStore → Type 0
IsKeyed (ok s) = AreKeyed s.channels
IsKeyed (err e) = Unit

move-IsKeyed :
    (id parent after : ℕ) (s : ChannelStore)
    → AreKeyed s.channels
    → IsKeyed (move id parent after s)
unfolding move
move-IsKeyed id parent after s h = elim (Option-cases (find id s.channels)) [
  | inl absent ↦ rw (IsKeyed, absent) h
  | inr (c, found) ↦
      rw (IsKeyed, found)
        (ground (
          arith,
          relink-AreKeyed c id parent after s.channels (find-AreKeyed id s.channels {c = c} h found)
              h,
        ))
]

change-AreKeyed :
    (id : ℕ) (f : Channel → Channel) (s : ChannelStore)
    → ((c : Channel) → (f c).id ≡ c.id)
    → AreKeyed s.channels
    → AreKeyed (change id f s).channels
unfolding change
change-AreKeyed id f s same h = elim (Option-cases (find id s.channels)) [
  | inl absent ↦ ground (arith, absent, h)
  | inr (c, found) ↦ ground (
    arith,
    found,
    insert-AreKeyed (f c) s.channels id (find-AreKeyed id s.channels {c = c} h found ∙ sym (same c))
        h,
  )
]

bind-IsKeyed :
    (r : Result StoreError ChannelStore) (f : ChannelStore → ChannelStore)
    → IsKeyed r
    → ((s : ChannelStore) → AreKeyed s.channels → AreKeyed (f s).channels)
    → IsKeyed (r >>= λ s. ok (f s))
bind-IsKeyed (ok s) f h keeps = keeps s h
bind-IsKeyed (err e) f h keeps = tt

apply_edited-IsKeyed :
    (e : ChannelEditedEntry) (s : ChannelStore) → AreKeyed s.channels → IsKeyed (apply_edited e s)
unfolding apply_edited edited
apply_edited-IsKeyed e s h = elim (Option-cases (find e.id s.channels)) [
  | inl absent ↦ rw (IsKeyed, absent) h
  | inr (c, found) ↦
      let moved =
        if is_given e.parent_id || is_given e.order_after_id
        then move e.id (value_or e.parent_id c.parent_id)
            (value_or e.order_after_id c.order_after_id) s
        else ok s in
      let keyed : IsKeyed moved =
        if-cases IsKeyed (is_given e.parent_id || is_given e.order_after_id)
          (λ placed.
            move-IsKeyed e.id (value_or e.parent_id c.parent_id)
              (value_or e.order_after_id c.order_after_id) s h)
          (λ unplaced. h) in
      rw (IsKeyed, found)
        (bind-IsKeyed moved (change e.id (edited e)) keyed
          (λ s'. change-AreKeyed e.id (edited e) s' (λ d. refl)))
]

set_subscribed-AreKeyed :
    (id : ℕ) (on : Bool) (s : ChannelStore)
    → AreKeyed s.channels
    → AreKeyed (set_subscribed id on s).channels
unfolding set_subscribed
set_subscribed-AreKeyed id on s h =
    let subscriptions' = if on then insert id tt s.subscriptions else erase id s.subscriptions in
    let changed =
      change-AreKeyed id (λ c. record c { subscribed = on })
        (record s { subscriptions = subscriptions' }) (λ c. refl) h in
    ground (arith, changed, h)

set_all_subscribed-AreKeyed :
    (ids : List ℕ) (on : Bool) (s : ChannelStore)
    → AreKeyed s.channels
    → AreKeyed (set_all_subscribed ids on s).channels
unfolding set_all_subscribed
set_all_subscribed-AreKeyed [] on s h = h
set_all_subscribed-AreKeyed (id ∷ ids) on s h =
    set_all_subscribed-AreKeyed ids on (set_subscribed id on s) (set_subscribed-AreKeyed id on s h)

remove-AreKeyed :
    (id : ℕ) (s : ChannelStore) → AreKeyed s.channels → AreKeyed (remove id s).channels
unfolding remove
remove-AreKeyed id s h = elim (Option-cases (find id s.channels)) [
  | inl absent ↦ ground (arith, absent, h)
  | inr (c, found) ↦ ground (
    arith,
    found,
    erase-AreKeyed id (reorder_all c.parent_id id c.order_after_id s.channels)
        (reorder_all-AreKeyed c.parent_id id c.order_after_id s.channels h),
  )
]

kept-AreKeyed :
    (s : ChannelStore) (r : Result StoreError ChannelStore)
    → AreKeyed s.channels
    → IsKeyed r
    → AreKeyed (kept s r).channels
kept-AreKeyed s (ok s') h k = k
kept-AreKeyed s (err e) h k = h

apply-AreKeyed :
    (n : Notification) (s : ChannelStore) → AreKeyed s.channels → AreKeyed (apply n s).channels
unfolding apply apply_moved apply_subscription
apply-AreKeyed (channels_listed es) s h = apply_list-AreKeyed es s h
apply-AreKeyed (channel_created e) s h = apply_created-AreKeyed e s h
apply-AreKeyed (channel_edited e) s h =
    kept-AreKeyed s (apply_edited e s) h (apply_edited-IsKeyed e s h)
apply-AreKeyed (channel_moved e) s h =
    kept-AreKeyed s (apply_moved e s) h (move-IsKeyed e.id e.parent_id e.order_after_id s h)
apply-AreKeyed (subscriptions_changed e) s h =
    set_all_subscribed-AreKeyed e.channel_ids e.subscribed s h
apply-AreKeyed (channel_removed id) s h = remove-AreKeyed id s h
apply-AreKeyed store_cleared s h = tt

apply_all-AreKeyed :
    (ns : List Notification) (s : ChannelStore)
    → AreKeyed s.channels
    → AreKeyed (apply_all ns s).channels
unfolding apply_all
apply_all-AreKeyed [] s h = h
apply_all-AreKeyed (n ∷ ns) s h = apply_all-AreKeyed ns (apply n s) (apply-AreKeyed n s h)

-- Whatever has been applied to an empty store: `Tree` returns as many entries as there are channels,
-- of channels of the store and of no channel twice, or throws one of its exceptions, so that its
-- recursion ends.
pub tree-apply_all :
    (ns : List Notification) → IsTree (apply_all ns empty_store) (tree (apply_all ns empty_store))
tree-apply_all ns = tree-IsTree (apply_all ns empty_store) (apply_all-AreKeyed ns empty_store tt)
