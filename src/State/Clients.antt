-- ===== src/State/Clients.antt =====
-- protocol/src/state/client_store.cpp: the clients that are seen, by their IDs.
pub mod Placement
pub mod Keys
use ts_cli.Prelude.{
  ℕ, Bool, true, false, not, ◌&&◌, ◌||◌, Option, none, some, List, [], ◌∷◌, Result, ok, err, ltb,
  ◌==◌, if◌then◌else◌, bytes_eq,
}
use ts_cli.Binary.{Bytes}
use ts_cli.Message.{value_or}
use ts_cli.Message.Clients.{
  ClientEnterViewEntry, ClientLeftViewEntry, ClientMovedEntry, ClientUpdatedEntry,
}
use ts_cli.Prelude.OrderedMap.{OrderedMap, find, insert, erase, contains}
use ts_cli.State.Channels.{ChannelStore}

pub record Client : Type 0 where
  pub id : ℕ
  pub channel_id : ℕ
  pub nickname : Bytes
  pub unique_id : Bytes
  pub away : Bool
  pub input_muted : Bool
  pub output_muted : Bool
  pub input_hardware : Bool
  pub output_hardware : Bool
  pub recording : Bool
  pub priority_speaker : Bool
  pub channel_commander : Bool
  pub server_query : Bool
  pub details_known : Bool

-- A `Client` as it is constructed.
abbrev pub new_client : Client
new_client = record {
  id = 0;
  channel_id = 0;
  nickname = [];
  unique_id = [];
  away = false;
  input_muted = false;
  output_muted = false;
  input_hardware = true;
  output_hardware = true;
  recording = false;
  priority_speaker = false;
  channel_commander = false;
  server_query = false;
  details_known = false;
}

-- `m_Clients`; `Clear` gives the empty map.
abbrev pub ClientStore : Type 0
ClientStore = OrderedMap Client

-- The channel of a client that enters: that of the client known before, where it is the newer one.
unfoldable pub entered_channel : ℕ → Option Client → ℕ
entered_channel channel none = channel
entered_channel channel (some c) =
    if not (c.channel_id == 0) && (channel == 0 || not c.details_known)
    then c.channel_id
    else channel

unfoldable pub entered_unique_id : Bytes → Option Client → Bytes
entered_unique_id [] none = []
entered_unique_id [] (some c) = c.unique_id
entered_unique_id (b ∷ bs) existing = b ∷ bs

-- The client that an entry makes, given the one that is known.
unfoldable pub entered : ClientEnterViewEntry → Option Client → Client
unfolding entered_channel entered_unique_id
entered e existing = record {
  id = e.id;
  channel_id = entered_channel e.channel_id existing;
  nickname = e.nickname;
  unique_id = entered_unique_id e.unique_id existing;
  away = e.away;
  input_muted = e.input_muted;
  output_muted = e.output_muted;
  input_hardware = e.input_hardware;
  output_hardware = e.output_hardware;
  recording = e.recording;
  priority_speaker = e.priority_speaker;
  channel_commander = e.channel_commander;
  server_query = e.server_query;
  details_known = true;
}

-- The body of the loop of `Apply( const ClientEnterView& )`
unfoldable pub enter : ClientEnterViewEntry → ClientStore → ClientStore
enter e m = insert e.id (entered e (find e.id m)) m

-- `for ( const Entry& entry : message.Entries() )`
abbrev pub for_each {ℓ} :
    {A : Type ℓ} → (A → ClientStore → ClientStore) → List A → ClientStore → ClientStore
for_each f [] m = m
for_each f (x ∷ xs) m = for_each f xs (f x m)

unfoldable pub apply_enter_view : List ClientEnterViewEntry → ClientStore → ClientStore
unfolding enter
apply_enter_view = for_each enter

-- `Move`
unfoldable pub moved : ℕ → ℕ → Option Client → Client
moved id channel existing = record (value_or existing new_client) { id = id; channel_id = channel }

unfoldable pub move : ℕ → ℕ → ClientStore → ClientStore
move id channel m = insert id (moved id channel (find id m)) m

unfoldable pub apply_moved : List ClientMovedEntry → ClientStore → ClientStore
unfolding move
apply_moved = for_each λ e. move e.id e.channel_id

unfoldable pub apply_left_view : List ClientLeftViewEntry → ClientStore → ClientStore
apply_left_view = for_each λ e. erase e.id

-- The assignments of `Apply( const ClientUpdated& )`, each where the entry has the field.
unfoldable pub updated : ClientUpdatedEntry → Client → Client
updated e c = record c {
  id = e.id;
  nickname = value_or e.nickname c.nickname;
  away = value_or e.away c.away;
  input_muted = value_or e.input_muted c.input_muted;
  output_muted = value_or e.output_muted c.output_muted;
  input_hardware = value_or e.input_hardware c.input_hardware;
  output_hardware = value_or e.output_hardware c.output_hardware;
  recording = value_or e.recording c.recording;
  priority_speaker = value_or e.priority_speaker c.priority_speaker;
  channel_commander = value_or e.channel_commander c.channel_commander;
}

unfoldable pub update : ClientUpdatedEntry → ClientStore → ClientStore
unfolding updated
update e m = insert e.id (updated e (value_or (find e.id m) new_client)) m

unfoldable pub apply_updated : List ClientUpdatedEntry → ClientStore → ClientStore
unfolding update
apply_updated = for_each update

-- `Remove`
unfoldable pub remove : ℕ → ClientStore → ClientStore
remove = erase

-- `RemoveInChannel`
unfoldable pub remove_in_channel : ℕ → ℕ → ClientStore → ClientStore
remove_in_channel channel preserved [] = []
remove_in_channel channel preserved ((k, c) ∷ m) =
    let rest = remove_in_channel channel preserved m in
    if c.channel_id == channel && not (c.id == preserved) then rest else ((k, c) ∷ rest)

-- `operator<` of strings
unfoldable pub bytes_lt : Bytes → Bytes → Bool
bytes_lt xs [] = false
bytes_lt [] (d ∷ ds) = true
bytes_lt (c ∷ cs) (d ∷ ds) = ltb c d || (c == d && bytes_lt cs ds)

-- The order of `InChannel`: known clients first, then by nickname, then by ID.
unfoldable pub before : Client → Client → Bool
unfolding bytes_lt
before a b =
    if not a.details_known && b.details_known
    then false
    else if a.details_known && not b.details_known
    then true
    else if not (bytes_eq a.nickname b.nickname)
    then bytes_lt a.nickname b.nickname
    else ltb a.id b.id

unfoldable pub sort_in : Client → List Client → List Client
unfolding before
sort_in c [] = c ∷ []
sort_in c (d ∷ ds) = let rest = sort_in c ds in if before c d then (c ∷ d ∷ ds) else (d ∷ rest)

unfoldable pub members : ℕ → ClientStore → List Client
members channel [] = []
members channel ((k, c) ∷ m) =
    let rest = members channel m in if c.channel_id == channel then (c ∷ rest) else rest

-- `std::sort` with that order
unfoldable pub sorted : List Client → List Client
unfolding sort_in
sorted [] = []
sorted (c ∷ cs) = sort_in c (sorted cs)

-- `InChannel`
unfoldable pub in_channel : ℕ → ClientStore → List Client
unfolding members sorted
in_channel channel m = sorted (members channel m)

-- The exception of `Validate`
pub data ClientError : Type 0 where
  unknown_channel : ClientError

-- `Validate`
unfoldable pub validate : ChannelStore → ClientStore → Result ClientError (Unit {0})
unfolding contains
validate channels [] = ok tt
validate channels ((k, c) ∷ m) =
    let rest = validate channels m in
    if c.channel_id == 0
    then rest
    else if not (contains c.channel_id channels.channels)
    then err unknown_channel
    else rest
