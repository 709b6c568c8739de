-- ===== src/Tests/Stores.antt =====
-- The theorems on the stores at concrete inputs.
use ts_cli.Prelude.{ℕ, true, false, none, some, List, [], ◌∷◌, length, ◌≡◌, refl, codes, arith}
use ts_cli.Prelude.OrderedMap.{OrderedMap, find, erase, insert}
use ts_cli.Message.Clients.{ClientEnterViewEntry}
use ts_cli.Message.Channels.{ChannelEntry}
use ts_cli.State.Clients.{Client, enter, entered, move, moved, remove, apply_enter_view}
use ts_cli.State.Clients.Placement.{enter-move}
use ts_cli.State.Clients.Keys as ClientKeys
use ts_cli.State.Clients.Keys.{find-apply_all}
use ts_cli.State.Channels.{Channel, empty_store, channel_of}
use ts_cli.State.Channels.Tree.{children_of, ordered_children, tree}
use ts_cli.State.Channels.Tree.Order.{IsOrdered, ordered_children-IsOrdered}
use ts_cli.State.Channels.Tree.Members.{IsTree}
use ts_cli.State.Channels.Keys as ChannelKeys
use ts_cli.State.Channels.Keys.{tree-apply_all}

abbrev arrival : ClientEnterViewEntry
arrival = record {
  id = 5;
  channel_id = 1;
  nickname = codes "ann";
  unique_id = codes "u";
  away = false;
  input_muted = false;
  output_muted = false;
  input_hardware = true;
  output_hardware = true;
  recording = false;
  priority_speaker = false;
  channel_commander = false;
  server_query = false;
}

enter-move_example :
    (enter arrival (move 5 2 []) ≡ move 5 2 (enter arrival []))
    × (find 5 (enter arrival (move 5 2 [])) ≡ some (moved 5 2 (some (entered arrival none))))
unfolding find
enter-move_example = enter-move arrival 2 [] refl (omega arith)

abbrev events : List ClientKeys.Notification
events =
    ClientKeys.clients_entered (arrival ∷ [])
    ∷ ClientKeys.client_moved 9 3
    ∷ ClientKeys.client_removed 5
    ∷ []

abbrev unnamed : Client
unnamed = moved 9 3 none

events-found : find 9 (ClientKeys.apply_all events []) ≡ some unnamed
unfolding find ClientKeys.apply_all remove erase move insert apply_enter_view
events-found = refl

abbrev listed : ℕ → ℕ → ℕ → ChannelEntry
listed id parent after = record {
  id = id;
  parent_id = parent;
  order_after_id = after;
  name = codes "c";
  permanent = true;
  semi_permanent = false;
  default_channel = false;
  password_protected = false;
  codec = 4;
  codec_is_unencrypted = true;
}

abbrev three_channels : OrderedMap Channel
three_channels =
    (1, channel_of (listed 1 0 2))
    ∷ (2, channel_of (listed 2 0 0))
    ∷ (3, channel_of (listed 3 1 0))
    ∷ []

ordered_children-IsOrdered_example :
    IsOrdered
      (length (children_of 0 three_channels))
      []
      0
      (children_of 0 three_channels)
      (ordered_children 0 three_channels)
ordered_children-IsOrdered_example = ordered_children-IsOrdered 0 three_channels

abbrev channel_events : List ChannelKeys.Notification
channel_events =
    ChannelKeys.channels_listed (listed 1 0 2 ∷ listed 2 0 0 ∷ listed 3 1 0 ∷ [])
    ∷ ChannelKeys.channel_created (listed 4 0 2)
    ∷ ChannelKeys.channel_moved (record { id = 3; parent_id = 0; order_after_id = 4 })
    ∷ ChannelKeys.channel_removed 2
    ∷ []

tree-apply_all_example :
    IsTree
      (ChannelKeys.apply_all channel_events empty_store)
      (tree (ChannelKeys.apply_all channel_events empty_store))
tree-apply_all_example = tree-apply_all channel_events
