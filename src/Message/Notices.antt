-- ===== src/Message/Notices.antt =====
-- protocol/src/message/text_message.cpp, client_poke.cpp, command_result.cpp: what the server says to
-- the user.
use ts_cli.Prelude.{
  ℕ, ◌-◌, ◌^◌, Option, List, [], Result, ok, err, ◌>>=◌, ◌>>◌, throw_if, ltb, ◌==◌, if◌then◌else◌,
  codes,
}
use ts_cli.Binary.{Bytes}
use ts_cli.Command.{CommandRow, Command}
use ts_cli.Message.{
  MessageError, not_single, out_of_range, find_value, require, parse_unsigned,
  parse_nonempty_unsigned, require_number, find_number, value_or, parse_rows_of, single_row,
}

pub data TextMessageTargetMode : Type 0 where
  to_client to_channel to_server : TextMessageTargetMode

pub record TextMessageEntry : Type 0 where
  pub target_mode : TextMessageTargetMode
  pub target_id : Option ℕ
  pub invoker_id : ℕ
  pub invoker_name : Bytes
  pub invoker_unique_id : Bytes
  pub text : Bytes

pub record ClientPokeEntry : Type 0 where
  pub invoker_id : ℕ
  pub invoker_name : Bytes
  pub invoker_unique_id : Bytes
  pub message : Bytes

pub record CommandResultEntry : Type 0 where
  pub id : ℕ
  pub message : Bytes
  pub return_code : Option Bytes

unfoldable pub parse_target_mode : Bytes → Result MessageError TextMessageTargetMode
parse_target_mode value = do
  n ← parse_nonempty_unsigned value (codes "targetmode")
  if n == 1
      then ok to_client
      else if n == 2
      then ok to_channel
      else if n == 3
      then ok to_server
      else err (out_of_range (codes "targetmode"))

-- The body of the loop of `TextMessage::Parse`
unfoldable pub text_message_entry : CommandRow → Result MessageError TextMessageEntry
unfolding parse_target_mode
text_message_entry row = do
  mode_text ← require (codes "targetmode") row
  mode ← parse_target_mode mode_text
  text ← require (codes "msg") row
  target ← find_number parse_nonempty_unsigned (codes "target") row
  invoker ← find_number parse_nonempty_unsigned (codes "invokerid") row
  throw_if (ltb 65535 (value_or invoker 0)) (out_of_range (codes "invokerid"))
  ok (record {
    target_mode = mode;
    target_id = target;
    invoker_id = value_or invoker 0;
    invoker_name = value_or (find_value (codes "invokername") row) [];
    invoker_unique_id = value_or (find_value (codes "invokeruid") row) [];
    text = text;
  })

-- `TextMessage::Parse`
unfoldable pub parse_text_message : Command → Result MessageError (List TextMessageEntry)
parse_text_message = parse_rows_of (codes "notifytextmessage") text_message_entry

-- `ClientPoke::Parse`
unfoldable pub parse_client_poke : Command → Result MessageError ClientPokeEntry
parse_client_poke command = do
  row ← single_row (codes "notifyclientpoke") not_single command
  invoker ← require_number parse_unsigned (codes "invokerid") row
  throw_if (ltb 65535 invoker) (out_of_range (codes "invokerid"))
  name ← require (codes "invokername") row
  unique_id ← require (codes "invokeruid") row
  message ← require (codes "msg") row
  ok (record {
    invoker_id = invoker;
    invoker_name = name;
    invoker_unique_id = unique_id;
    message = message;
  })

-- The body of the loop of `CommandResult::Parse`
unfoldable pub command_result_entry : CommandRow → Result MessageError CommandResultEntry
command_result_entry row = do
  id ← require_number parse_nonempty_unsigned (codes "id") row
  throw_if (ltb (2 ^ 32 - 1) id) (out_of_range (codes "id"))
  message ← require (codes "msg") row
  ok (record { id = id; message = message; return_code = find_value (codes "return_code") row })

-- `CommandResult::Parse`
unfoldable pub parse_command_result : Command → Result MessageError (List CommandResultEntry)
parse_command_result = parse_rows_of (codes "error") command_result_entry
