-- ===== src/Message/Channels.antt =====
-- protocol/src/message/channel_*.cpp: what the server says of channels.
use ts_cli.Prelude.{
  ℕ, Bool, true, false, not, ◌&&◌, Option, List, Result, ok, err, ◌>>=◌, ◌>>◌, throw_if, ltb, ◌==◌,
  if◌then◌else◌, codes, bytes_eq,
}
use ts_cli.Binary.{Bytes}
use ts_cli.Command.{CommandRow, Command}
use ts_cli.Message.{
  MessageError, unexpected_command, not_single, out_of_range, find_value, require, parse_unsigned,
  require_number, find_number, find_boolean, boolean_or, value_or, some_rows, parse_rows_of,
  single_row,
}

-- `ChannelListEntry`, and `ChannelCreatedEntry`, which has the same fields.
pub record ChannelEntry : Type 0 where
  pub id : ℕ
  pub parent_id : ℕ
  pub order_after_id : ℕ
  pub name : Bytes
  pub permanent : Bool
  pub semi_permanent : Bool
  pub default_channel : Bool
  pub password_protected : Bool
  pub codec : ℕ
  pub codec_is_unencrypted : Bool

pub record ChannelEditedEntry : Type 0 where
  pub id : ℕ
  pub parent_id : Option ℕ
  pub order_after_id : Option ℕ
  pub name : Option Bytes
  pub permanent : Option Bool
  pub semi_permanent : Option Bool
  pub default_channel : Option Bool
  pub password_protected : Option Bool
  pub codec : Option ℕ
  pub codec_is_unencrypted : Option Bool

pub record ChannelMovedEntry : Type 0 where
  pub id : ℕ
  pub parent_id : ℕ
  pub order_after_id : ℕ

pub record ChannelSubscription : Type 0 where
  pub subscribed : Bool
  pub channel_ids : List ℕ

-- `cid`, which must not be zero.
unfoldable pub channel_id : CommandRow → Result MessageError ℕ
channel_id row = do
  id ← require_number parse_unsigned (codes "cid") row
  throw_if (id == 0) (out_of_range (codes "cid"))
  ok id

-- `channel_codec`, of which there are six.
unfoldable pub codec_of : CommandRow → Result MessageError (Option ℕ)
codec_of row = do
  codec ← find_number parse_unsigned (codes "channel_codec") row
  throw_if (ltb 5 (value_or codec 0)) (out_of_range (codes "channel_codec"))
  ok codec

unfoldable pub channel_flag : Bytes → CommandRow → Result MessageError Bool
channel_flag name = boolean_or parse_unsigned name false

-- The body of the loop of `ChannelList::Parse`, and the statements of `ChannelCreated::Parse`.
unfoldable pub channel_entry : CommandRow → Result MessageError ChannelEntry
unfolding channel_id codec_of channel_flag
channel_entry row = do
  id ← channel_id row
  parent ← require_number parse_unsigned (codes "cpid") row
  order ← require_number parse_unsigned (codes "channel_order") row
  name ← require (codes "channel_name") row
  permanent ← channel_flag (codes "channel_flag_permanent") row
  semi_permanent ← channel_flag (codes "channel_flag_semi_permanent") row
  default_channel ← channel_flag (codes "channel_flag_default") row
  password_protected ← channel_flag (codes "channel_flag_password") row
  codec ← codec_of row
  unencrypted ← boolean_or parse_unsigned (codes "channel_codec_is_unencrypted") true row
  ok (record {
    id = id;
    parent_id = parent;
    order_after_id = order;
    name = name;
    permanent = permanent;
    semi_permanent = semi_permanent;
    default_channel = default_channel;
    password_protected = password_protected;
    codec = value_or codec 4;
    codec_is_unencrypted = unencrypted;
  })

-- `ChannelList::Parse`
unfoldable pub parse_channel_list : Command → Result MessageError (List ChannelEntry)
parse_channel_list = parse_rows_of (codes "channellist") channel_entry

-- `ChannelCreated::Parse`
unfoldable pub parse_channel_created : Command → Result MessageError ChannelEntry
parse_channel_created command =
    single_row (codes "notifychannelcreated") not_single command >>= channel_entry

-- `ChannelEdited::Parse`
unfoldable pub parse_channel_edited : Command → Result MessageError ChannelEditedEntry
unfolding channel_id codec_of
parse_channel_edited command = do
  row ← single_row (codes "notifychanneledited") unexpected_command command
  id ← channel_id row
  parent ← find_number parse_unsigned (codes "cpid") row
  order ← find_number parse_unsigned (codes "channel_order") row
  let name = find_value (codes "channel_name") row
  permanent ← find_boolean parse_unsigned (codes "channel_flag_permanent") row
  semi_permanent ← find_boolean parse_unsigned (codes "channel_flag_semi_permanent") row
  default_channel ← find_boolean parse_unsigned (codes "channel_flag_default") row
  password_protected ← find_boolean parse_unsigned (codes "channel_flag_password") row
  unencrypted ← find_boolean parse_unsigned (codes "channel_codec_is_unencrypted") row
  codec ← codec_of row
  ok (record {
    id = id;
    parent_id = parent;
    order_after_id = order;
    name = name;
    permanent = permanent;
    semi_permanent = semi_permanent;
    default_channel = default_channel;
    password_protected = password_protected;
    codec = codec;
    codec_is_unencrypted = unencrypted;
  })

-- `ChannelMoved::Parse`: the ID is tested behind the other parameters.
unfoldable pub parse_channel_moved : Command → Result MessageError ChannelMovedEntry
parse_channel_moved command = do
  row ← single_row (codes "notifychannelmoved") unexpected_command command
  id ← require_number parse_unsigned (codes "cid") row
  parent ← require_number parse_unsigned (codes "cpid") row
  order ← require_number parse_unsigned (codes "order") row
  throw_if (id == 0) (out_of_range (codes "cid"))
  ok (record { id = id; parent_id = parent; order_after_id = order })

-- A number that is not zero, with one exception for all that is wrong: `ParseChannelId`, and the test
-- of `ChannelDeleted::Parse`.
unfoldable pub parse_channel_id : Bytes → Result MessageError ℕ
parse_channel_id value = elim (parse_unsigned value (codes "cid")) [
  | err e ↦ err (out_of_range (codes "cid"))
  | ok id ↦ if id == 0 then err (out_of_range (codes "cid")) else ok id
]

-- `ChannelDeleted::Parse`
unfoldable pub parse_channel_deleted : Command → Result MessageError ℕ
unfolding parse_channel_id
parse_channel_deleted command = do
  row ← single_row (codes "notifychanneldeleted") unexpected_command command
  value ← require (codes "cid") row
  parse_channel_id value

-- `ChannelSubscriptionState::Parse`
unfoldable pub parse_channel_subscription : Command → Result MessageError ChannelSubscription
unfolding parse_channel_id
parse_channel_subscription command =
    let subscribed = bytes_eq command.name (codes "notifychannelsubscribed") in
    let entry = λ (row : CommandRow). require (codes "cid") row >>= parse_channel_id in
    if not subscribed && not (bytes_eq command.name (codes "notifychannelunsubscribed"))
    then err unexpected_command
    else some_rows entry command.rows >>= λ ids.
        ok (record { subscribed = subscribed; channel_ids = ids })
