-- ===== src/Tests/Messages.antt =====
-- The theorems on messages at concrete inputs.
use ts_cli.Prelude.{true, false, [], ◌∷◌, ok, ◌≡◌, refl, codes, bytes_eq, ◌⊎◌, err}
use ts_cli.Command.{Command}
use ts_cli.Message
use ts_cli.Message.Clients
use ts_cli.Message.{parse_unsigned}
use ts_cli.Message.Clients.{ClientEnterViewEntry, parse_client_enter_view}
use ts_cli.Message.Numbers.{IsNumber, number_of, parse_unsigned_lem}

parse_unsigned_lem_example :
    (IsNumber (codes "12a")
      × (parse_unsigned (codes "12a") (codes "cid") ≡ ok (number_of (codes "12a"))))
    ⊎ ((¬ IsNumber (codes "12a"))
        × (parse_unsigned (codes "12a") (codes "cid")
            ≡ err (Message.invalid_unsigned (codes "cid"))))
parse_unsigned_lem_example = parse_unsigned_lem (codes "12a") (codes "cid")

abbrev entering : Command
entering = record {
  name = codes "notifycliententerview";
  rows =
      ((record { name = codes "clid"; value = codes "5" })
        ∷ (record { name = codes "client_nickname"; value = codes "ann" })
        ∷ (record { name = codes "client_away"; value = codes "1" })
        ∷ [])
      ∷ [];
}

abbrev visitor : ClientEnterViewEntry
visitor = record {
  id = 5;
  channel_id = 0;
  nickname = codes "ann";
  unique_id = [];
  away = true;
  input_muted = false;
  output_muted = false;
  input_hardware = true;
  output_hardware = true;
  recording = false;
  priority_speaker = false;
  channel_commander = false;
  server_query = false;
}

entering-parsed : parse_client_enter_view entering ≡ ok (visitor ∷ [])
unfolding parse_client_enter_view Message.parse_rows_of bytes_eq codes
    Clients.client_enter_view_entry Message.require_number Message.require
    Message.parse_nonempty_unsigned parse_unsigned Message.find_number Message.boolean_or
    Message.find_value Message.find_boolean Message.map_rows Message.from_chars Message.digits
entering-parsed = refl
