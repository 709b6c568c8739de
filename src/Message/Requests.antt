-- ===== src/Message/Requests.antt =====
-- protocol/src/message: the commands that the client sends. A constructor's test and `Serialize` are one
-- function.
use ts_cli.Prelude.{
  ℕ, zero, suc, ◌+◌, ◌/◌, ◌%◌, not, ◌&&◌, List, [], ◌∷◌, Result, ok, err, ◌>>=◌, ◌==◌,
  if◌then◌else◌, codes,
}
use ts_cli.Binary.{Bytes}
use ts_cli.Command.{CommandError}
use ts_cli.Command.Writer.{CommandWriter, command_writer, write_value, taken}
use ts_cli.Message.Notices.{TextMessageTargetMode, to_client, to_channel, to_server}

-- The exceptions of the constructors, and those of the writer.
pub data RequestError : Type 0 where
  zero_channel zero_client empty_nickname empty_text zero_target : RequestError
  unwritable : CommandError → RequestError

-- `std::to_string` of an unsigned number: its last digit, in front of what is written, and those before it.
unfoldable pub decimal_from : ℕ → ℕ → Bytes → Bytes
decimal_from zero n out = out
decimal_from (suc fuel) n out =
    let out' = (b'0' + n % 10) ∷ out in
    let more = decimal_from fuel (n / 10) out' in if n / 10 == 0 then out' else more

-- 64 bits have 20 digits at most.
unfoldable pub decimal : ℕ → Bytes
unfolding decimal_from
decimal n = decimal_from 20 n []

-- A command of one row, whose parameters all have values.
unfoldable pub write_values :
    List (Bytes × Bytes) → CommandWriter → Result CommandError CommandWriter
write_values [] w = ok w
write_values ((name, value) ∷ ps) w = write_value name value w >>= write_values ps

unfoldable pub serialize : Bytes → List (Bytes × Bytes) → Result RequestError Bytes
unfolding write_values
serialize name parameters =
    elim (do w ← command_writer name; w' ← write_values parameters w; taken w') [
      | err e ↦ err (unwritable e)
      | ok text ↦ ok text
    ]

-- `ChannelSubscribeAll`
unfoldable pub channel_subscribe_all : Result RequestError Bytes
channel_subscribe_all = serialize (codes "channelsubscribeall") []

-- `ChannelSubscribe`
unfoldable pub channel_subscribe : ℕ → Result RequestError Bytes
channel_subscribe channel_id =
    if channel_id == 0
    then err zero_channel
    else serialize (codes "channelsubscribe") ((codes "cid", decimal channel_id) ∷ [])

-- `ClientDisconnect`
unfoldable pub client_disconnect : Bytes → Result RequestError Bytes
client_disconnect reason =
    serialize (codes "clientdisconnect")
      ((codes "reasonid", decimal 8) ∷ (codes "reasonmsg", reason) ∷ [])

-- `ClientMove`
unfoldable pub client_move : ℕ → ℕ → Result RequestError Bytes
client_move client_id channel_id =
    if client_id == 0
    then err zero_client
    else if channel_id == 0
    then err zero_channel
    else serialize (codes "clientmove")
        ((codes "clid", decimal client_id) ∷ (codes "cid", decimal channel_id) ∷ [])

-- `ClientUpdate`
unfoldable pub client_update : Bytes → Result RequestError Bytes
client_update [] = err empty_nickname
client_update (c ∷ cs) = serialize (codes "clientupdate") ((codes "client_nickname", c ∷ cs) ∷ [])

-- The numbers of the enumeration.
abbrev pub mode_number : TextMessageTargetMode → ℕ
mode_number to_client = 1
mode_number to_channel = 2
mode_number to_server = 3

-- `SendTextMessage`
unfoldable pub send_text_message : TextMessageTargetMode → ℕ → Bytes → Result RequestError Bytes
send_text_message mode target_id [] = err empty_text
send_text_message mode target_id (c ∷ cs) =
    if not (mode_number mode == 3) && target_id == 0
    then err zero_target
    else serialize (codes "sendtextmessage") (
        (codes "targetmode", decimal (mode_number mode))
        ∷ (codes "target", decimal target_id)
        ∷ (codes "msg", c ∷ cs)
        ∷ [])
