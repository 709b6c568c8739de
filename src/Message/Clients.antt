-- ===== src/Message/Clients.antt =====
-- protocol/src/message/client_*.cpp: what the server says of clients.
use ts_cli.Prelude.{
  ℕ, Bool, true, false, ◌||◌, Option, List, [], ◌∷◌, Result, ok, err, ◌>>=◌, ◌>>◌, throw_if, ltb,
  ◌==◌, codes,
}
use ts_cli.Binary.{Bytes}
use ts_cli.Command.{CommandRow, Command}
use ts_cli.Message.{
  MessageError, empty_nickname, out_of_range, find_value, require, parse_nonempty_unsigned,
  require_number, find_number, find_boolean, boolean_or, value_or, parse_rows_of,
}

pub record ClientEnterViewEntry : Type 0 where
  pub id : ℕ
  pub channel_id : ℕ
  pub nickname : Bytes
  pub unique_id : Bytes
  pub away : Bool
  pub input_muted : Bool
  pub output_muted : Bool
  pub input_hardware : Bool
  pub output_hardware : Bool
  pub recording : Bool
  pub priority_speaker : Bool
  pub channel_commander : Bool
  pub server_query : Bool

pub record ClientLeftViewEntry : Type 0 where
  pub id : ℕ
  pub from_channel_id : ℕ
  pub to_channel_id : ℕ
  pub reason_id : ℕ
  pub reason_message : Bytes

pub record ClientMovedEntry : Type 0 where
  pub id : ℕ
  pub channel_id : ℕ
  pub reason_id : ℕ
  pub reason_message : Bytes

pub record ClientUpdatedEntry : Type 0 where
  pub id : ℕ
  pub nickname : Option Bytes
  pub away : Option Bool
  pub input_muted : Option Bool
  pub output_muted : Option Bool
  pub input_hardware : Option Bool
  pub output_hardware : Option Bool
  pub recording : Option Bool
  pub priority_speaker : Option Bool
  pub channel_commander : Option Bool

-- `clid`, a number of 16 bits that is not zero.
unfoldable pub client_id : CommandRow → Result MessageError ℕ
client_id row = do
  id ← require_number parse_nonempty_unsigned (codes "clid") row
  throw_if (id == 0 || ltb 65535 id) (out_of_range (codes "clid"))
  ok id

unfoldable pub client_flag : Bytes → Bool → CommandRow → Result MessageError Bool
client_flag name = boolean_or parse_nonempty_unsigned name

-- `client_nickname`, which must not be empty.
unfoldable pub nickname_of : CommandRow → Result MessageError Bytes
nickname_of row = do
  nickname ← require (codes "client_nickname") row
  elim nickname [ [] ↦ err empty_nickname | c ∷ cs ↦ ok (c ∷ cs) ]

-- The body of the loop of `ClientEnterView::Parse`
unfoldable pub client_enter_view_entry : CommandRow → Result MessageError ClientEnterViewEntry
unfolding client_id client_flag nickname_of
client_enter_view_entry row = do
  id ← client_id row
  channel ← find_number parse_nonempty_unsigned (codes "ctid") row
  nickname ← nickname_of row
  away ← client_flag (codes "client_away") false row
  input_muted ← client_flag (codes "client_input_muted") false row
  output_muted ← client_flag (codes "client_output_muted") false row
  input_hardware ← client_flag (codes "client_input_hardware") true row
  output_hardware ← client_flag (codes "client_output_hardware") true row
  recording ← client_flag (codes "client_is_recording") false row
  priority_speaker ← client_flag (codes "client_is_priority_speaker") false row
  channel_commander ← client_flag (codes "client_is_channel_commander") false row
  server_query ← client_flag (codes "client_type") false row
  ok (record {
    id = id;
    channel_id = value_or channel 0;
    nickname = nickname;
    unique_id = value_or (find_value (codes "client_unique_identifier") row) [];
    away = away;
    input_muted = input_muted;
    output_muted = output_muted;
    input_hardware = input_hardware;
    output_hardware = output_hardware;
    recording = recording;
    priority_speaker = priority_speaker;
    channel_commander = channel_commander;
    server_query = server_query;
  })

-- `ClientEnterView::Parse`
unfoldable pub parse_client_enter_view : Command → Result MessageError (List ClientEnterViewEntry)
parse_client_enter_view = parse_rows_of (codes "notifycliententerview") client_enter_view_entry

unfoldable pub client_left_view_entry : CommandRow → Result MessageError ClientLeftViewEntry
unfolding client_id
client_left_view_entry row = do
  id ← client_id row
  from ← find_number parse_nonempty_unsigned (codes "cfid") row
  to ← find_number parse_nonempty_unsigned (codes "ctid") row
  reason ← find_number parse_nonempty_unsigned (codes "reasonid") row
  ok (record {
    id = id;
    from_channel_id = value_or from 0;
    to_channel_id = value_or to 0;
    reason_id = value_or reason 0;
    reason_message = value_or (find_value (codes "reasonmsg") row) [];
  })

-- `ClientLeftView::Parse`
unfoldable pub parse_client_left_view : Command → Result MessageError (List ClientLeftViewEntry)
parse_client_left_view = parse_rows_of (codes "notifyclientleftview") client_left_view_entry

unfoldable pub client_moved_entry : CommandRow → Result MessageError ClientMovedEntry
unfolding client_id
client_moved_entry row = do
  id ← client_id row
  channel ← require_number parse_nonempty_unsigned (codes "ctid") row
  reason ← require_number parse_nonempty_unsigned (codes "reasonid") row
  ok (record {
    id = id;
    channel_id = channel;
    reason_id = reason;
    reason_message = value_or (find_value (codes "reasonmsg") row) [];
  })

-- `ClientMoved::Parse`
unfoldable pub parse_client_moved : Command → Result MessageError (List ClientMovedEntry)
parse_client_moved = parse_rows_of (codes "notifyclientmoved") client_moved_entry

-- The body of the loop of `ClientUpdated::Parse`; the ID may be zero.
unfoldable pub client_updated_entry : CommandRow → Result MessageError ClientUpdatedEntry
client_updated_entry row = do
  id ← require_number parse_nonempty_unsigned (codes "clid") row
  throw_if (ltb 65535 id) (out_of_range (codes "clid"))
  away ← find_boolean parse_nonempty_unsigned (codes "client_away") row
  input_muted ← find_boolean parse_nonempty_unsigned (codes "client_input_muted") row
  output_muted ← find_boolean parse_nonempty_unsigned (codes "client_output_muted") row
  input_hardware ← find_boolean parse_nonempty_unsigned (codes "client_input_hardware") row
  output_hardware ← find_boolean parse_nonempty_unsigned (codes "client_output_hardware") row
  recording ← find_boolean parse_nonempty_unsigned (codes "client_is_recording") row
  priority_speaker ← find_boolean parse_nonempty_unsigned (codes "client_is_priority_speaker") row
  channel_commander ← find_boolean parse_nonempty_unsigned (codes "client_is_channel_commander") row
  ok (record {
    id = id;
    nickname = find_value (codes "client_nickname") row;
    away = away;
    input_muted = input_muted;
    output_muted = output_muted;
    input_hardware = input_hardware;
    output_hardware = output_hardware;
    recording = recording;
    priority_speaker = priority_speaker;
    channel_commander = channel_commander;
  })

-- `ClientUpdated::Parse`
unfoldable pub parse_client_updated : Command → Result MessageError (List ClientUpdatedEntry)
parse_client_updated = parse_rows_of (codes "notifyclientupdated") client_updated_entry
