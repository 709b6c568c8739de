-- ===== src/State/Channels.antt =====
-- protocol/src/state/channel_store.cpp: the channels of a server, and the tree that they form.
pub mod Tree
pub mod Keys
use ts_cli.Prelude.{
  ℕ, Bool, true, false, not, ◌&&◌, ◌||◌, Option, none, some, List, [], ◌∷◌, Result, ok, err, ◌>>=◌,
  ◌>>◌, ◌==◌, if◌then◌else◌,
}
use ts_cli.Binary.{Bytes}
use ts_cli.Message.{value_or}
use ts_cli.Message.Channels.{
  ChannelEntry, ChannelEditedEntry, ChannelMovedEntry, ChannelSubscription,
}
use ts_cli.Prelude.OrderedMap.{OrderedMap, find, insert, erase, contains}

pub record Channel : Type 0 where
  pub id : ℕ
  pub parent_id : ℕ
  pub order_after_id : ℕ
  pub name : Bytes
  pub permanent : Bool
  pub semi_permanent : Bool
  pub default_channel : Bool
  pub password_protected : Bool
  pub codec : ℕ
  pub codec_is_unencrypted : Bool
  pub subscribed : Bool

-- `m_Channels`, and `m_SubscribedChannels`, a set. `Clear` empties both.
pub record ChannelStore : Type 0 where
  pub channels : OrderedMap Channel
  pub subscriptions : OrderedMap (Unit {0})

abbrev pub empty_store : ChannelStore
empty_store = record { channels = []; subscriptions = [] }

pub data StoreError : Type 0 where
  after_itself unknown_parent invalid_predecessor : StoreError

-- `Channel { .id = entry.id, … }`
abbrev pub channel_of : ChannelEntry → Channel
channel_of e = record {
  id = e.id;
  parent_id = e.parent_id;
  order_after_id = e.order_after_id;
  name = e.name;
  permanent = e.permanent;
  semi_permanent = e.semi_permanent;
  default_channel = e.default_channel;
  password_protected = e.password_protected;
  codec = e.codec;
  codec_is_unencrypted = e.codec_is_unencrypted;
  subscribed = false;
}

unfoldable pub upsert : Channel → ChannelStore → ChannelStore
unfolding contains
upsert c s = record s {
  channels = insert c.id (record c { subscribed = contains c.id s.subscriptions }) s.channels;
}

-- `Apply( const ChannelList& )`
unfoldable pub apply_list : List ChannelEntry → ChannelStore → ChannelStore
unfolding upsert
apply_list [] s = s
apply_list (e ∷ es) s = apply_list es (upsert (channel_of e) s)

-- A loop that gives the first channel, other than `self`, of a place a new predecessor: `break` ends it.
unfoldable pub reorder_first : ℕ → ℕ → ℕ → ℕ → OrderedMap Channel → OrderedMap Channel
reorder_first self parent after new_after [] = []
reorder_first self parent after new_after ((k, c) ∷ m) =
    let rest = reorder_first self parent after new_after m in
    if not (k == self) && (c.parent_id == parent && c.order_after_id == after)
    then ((k, record c { order_after_id = new_after }) ∷ m)
    else ((k, c) ∷ rest)

-- `Apply( const ChannelCreated& )`
unfoldable pub apply_created : ChannelEntry → ChannelStore → ChannelStore
unfolding reorder_first upsert
apply_created e s =
    let shifted = if contains e.id s.channels then s else record s {
      channels = reorder_first e.id e.parent_id e.order_after_id e.id s.channels;
    } in
    upsert (channel_of e) shifted

-- Whether `order_after_id` is zero or a channel with that parent.
unfoldable pub is_predecessor : ℕ → ℕ → OrderedMap Channel → Bool
is_predecessor parent after m =
    if after == 0
    then true
    else elim (find after m) [ none ↦ false | some c ↦ c.parent_id == parent ]

-- The three changes of `Move`, of a channel that is found.
unfoldable pub relink : Channel → ℕ → ℕ → ℕ → OrderedMap Channel → OrderedMap Channel
unfolding reorder_first
relink moved id parent after m =
    let closed = reorder_first id moved.parent_id id moved.order_after_id m in
    let opened = reorder_first id parent after id closed in
    insert id (record moved { parent_id = parent; order_after_id = after }) opened

unfoldable pub move : ℕ → ℕ → ℕ → ChannelStore → Result StoreError ChannelStore
unfolding contains is_predecessor relink
move id parent after s = elim (find id s.channels) [
  | none ↦ ok s
  | some moved ↦
      if after == id
      then err after_itself
      else if not (parent == 0) && not (contains parent s.channels)
      then err unknown_parent
      else if not (is_predecessor parent after s.channels)
      then err invalid_predecessor
      else ok (record s { channels = relink moved id parent after s.channels })
]

-- The assignments of `Apply( const ChannelEdited& )`.
unfoldable pub edited : ChannelEditedEntry → Channel → Channel
edited e c = record c {
  name = value_or e.name c.name;
  permanent = value_or e.permanent c.permanent;
  semi_permanent = value_or e.semi_permanent c.semi_permanent;
  default_channel = value_or e.default_channel c.default_channel;
  password_protected = value_or e.password_protected c.password_protected;
  codec = value_or e.codec c.codec;
  codec_is_unencrypted = value_or e.codec_is_unencrypted c.codec_is_unencrypted;
}

-- Assignments through `channel->second`, where the channel is found.
unfoldable pub change : ℕ → (Channel → Channel) → ChannelStore → ChannelStore
change id f s = elim (find id s.channels) [
  | none ↦ s
  | some c ↦ record s { channels = insert id (f c) s.channels }
]

abbrev pub is_given : Option ℕ → Bool
is_given none = false
is_given (some n) = true

-- `Apply( const ChannelEdited& )`
unfoldable pub apply_edited : ChannelEditedEntry → ChannelStore → Result StoreError ChannelStore
unfolding edited change
apply_edited e s = elim (find e.id s.channels) [
  | none ↦ ok s
  | some c ↦
      let moved =
        if is_given e.parent_id || is_given e.order_after_id
        then move e.id (value_or e.parent_id c.parent_id)
            (value_or e.order_after_id c.order_after_id) s
        else ok s in
      moved >>= λ s'. ok (change e.id (edited e) s')
]

-- `Apply( const ChannelMoved& )`
unfoldable pub apply_moved : ChannelMovedEntry → ChannelStore → Result StoreError ChannelStore
apply_moved e = move e.id e.parent_id e.order_after_id

unfoldable pub set_subscribed : ℕ → Bool → ChannelStore → ChannelStore
unfolding change
set_subscribed id on s =
    let subscriptions' = if on then insert id tt s.subscriptions else erase id s.subscriptions in
    if id == 0
    then s
    else change id (λ c. record c { subscribed = on }) (record s { subscriptions = subscriptions' })

unfoldable pub set_all_subscribed : List ℕ → Bool → ChannelStore → ChannelStore
unfolding set_subscribed
set_all_subscribed [] on s = s
set_all_subscribed (id ∷ ids) on s = set_all_subscribed ids on (set_subscribed id on s)

-- `Apply( const ChannelSubscriptionState& )`
unfoldable pub apply_subscription : ChannelSubscription → ChannelStore → ChannelStore
unfolding set_all_subscribed
apply_subscription e s = set_all_subscribed e.channel_ids e.subscribed s

-- The loop of `Remove`: all channels behind the removed one get its predecessor.
unfoldable pub reorder_all : ℕ → ℕ → ℕ → OrderedMap Channel → OrderedMap Channel
reorder_all parent after new_after [] = []
reorder_all parent after new_after ((k, c) ∷ m) =
    let c' =
      if c.parent_id == parent && c.order_after_id == after
      then record c { order_after_id = new_after }
      else c in
    (k, c') ∷ reorder_all parent after new_after m

-- `Remove`
unfoldable pub remove : ℕ → ChannelStore → ChannelStore
unfolding reorder_all
remove id s = elim (find id s.channels) [
  | none ↦ record s { subscriptions = erase id s.subscriptions }
  | some c ↦ record {
    channels = erase id (reorder_all c.parent_id id c.order_after_id s.channels);
    subscriptions = erase id s.subscriptions;
  }
]

unfoldable pub is_subscribed : ℕ → ChannelStore → Bool
unfolding contains
is_subscribed id s = contains id s.subscriptions
