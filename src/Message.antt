-- ===== src/Message.antt =====
-- protocol/src/message: the typed messages that commands stand for. The parsers of all messages look
-- parameters up in rows, and read their values as numbers and Booleans, in the ways that stand here.
pub mod Channels
pub mod Clients
pub mod Notices
pub mod Requests
pub mod Numbers
pub mod Entries
use ts_cli.Prelude.{
  ℕ, ◌+◌, ◌-◌, ◌*◌, ◌^◌, Bool, not, ◌&&◌, Option, none, some, List, [], ◌∷◌, Result, ok, err, ◌>>=◌,
  ◌>>◌, ltb, leb, ◌==◌, if◌then◌else◌, bytes_eq,
}
use ts_cli.Binary.{Bytes}
use ts_cli.Command.{CommandRow, Command}

-- The exceptions, with the parameter that they name.
pub data MessageError : Type 0 where
  unexpected_command no_entries not_single empty_nickname : MessageError
  missing_parameter empty_unsigned invalid_unsigned invalid_boolean out_of_range :
      Bytes → MessageError

-- `CommandRow::Find`
unfoldable pub find_value : Bytes → CommandRow → Option Bytes
find_value name [] = none
find_value name (p ∷ ps) = if bytes_eq p.name name then some p.value else find_value name ps

-- `CommandRow::Require`
unfoldable pub require : Bytes → CommandRow → Result MessageError Bytes
unfolding find_value
require name row = elim (find_value name row) [
  | none ↦ err (missing_parameter name)
  | some value ↦ ok value
]

abbrev pub is_digit : ℕ → Bool
is_digit c = leb b'0' c && leb c b'9'

-- The value of a text of decimal digits behind what has been read.
unfoldable pub digits : ℕ → Bytes → Option ℕ
digits value [] = some value
digits value (c ∷ cs) =
    let rest = digits (value * 10 + (c - b'0')) cs in if is_digit c then rest else none

-- `std::from_chars` into `uint64_t` that must read the whole text: `none` where it fails, where it leaves
-- a character, and where the number does not fit.
unfoldable pub from_chars : Bytes → Option ℕ
unfolding digits
from_chars [] = none
from_chars (c ∷ cs) = elim (digits 0 (c ∷ cs)) [
  | none ↦ none
  | some n ↦ if ltb n (2 ^ 64) then some n else none
]

-- `ParseUnsigned`
unfoldable pub parse_unsigned : Bytes → Bytes → Result MessageError ℕ
unfolding from_chars
parse_unsigned value name = elim (from_chars value) [
  | none ↦ err (invalid_unsigned name)
  | some n ↦ ok n
]

-- `ParseUnsigned` of the messages that refuse an empty text with a message of its own.
unfoldable pub parse_nonempty_unsigned : Bytes → Bytes → Result MessageError ℕ
parse_nonempty_unsigned [] name = err (empty_unsigned name)
parse_nonempty_unsigned (c ∷ cs) name = parse_unsigned (c ∷ cs) name

-- A way to read a number.
abbrev pub Reader : Type 0
Reader = Bytes → Bytes → Result MessageError ℕ

-- `parse( row.Require( name ), name )`
unfoldable pub require_number : Reader → Bytes → CommandRow → Result MessageError ℕ
require_number read name row = require name row >>= λ value. read value name

-- `if ( const auto value = row.Find( name ) ) … = parse( *value, name )`
unfoldable pub find_number : Reader → Bytes → CommandRow → Result MessageError (Option ℕ)
find_number read name row = elim (find_value name row) [
  | none ↦ ok none
  | some value ↦ read value name >>= λ n. ok (some n)
]

-- `ParseBoolean` and `ParseOptionalBoolean` with an optional result
unfoldable pub find_boolean : Reader → Bytes → CommandRow → Result MessageError (Option Bool)
unfolding find_number
find_boolean read name row = do
  found ← find_number read name row
  elim found [
    | none ↦ ok none
    | some n ↦ if ltb 1 n then err (invalid_boolean name) else ok (some (not (n == 0)))
  ]

abbrev pub value_or {ℓ} : {A : Type ℓ} → Option A → A → A
value_or none d = d
value_or (some a) d = a

-- The same with a default.
unfoldable pub boolean_or : Reader → Bytes → Bool → CommandRow → Result MessageError Bool
unfolding find_boolean
boolean_or read name default row =
    find_boolean read name row >>= λ found. ok (value_or found default)

-- The loop over the rows of a command.
unfoldable pub map_rows {ℓ} :
    {A : Type ℓ}
    → (CommandRow → Result MessageError A)
    → List CommandRow
    → Result MessageError (List A)
map_rows f [] = ok []
map_rows f (row ∷ rows) = do entry ← f row; entries ← map_rows f rows; ok (entry ∷ entries)

-- The rows of a message that must have one.
unfoldable pub some_rows {ℓ} :
    {A : Type ℓ}
    → (CommandRow → Result MessageError A)
    → List CommandRow
    → Result MessageError (List A)
unfolding map_rows
some_rows f [] = err no_entries
some_rows f (row ∷ rows) = map_rows f (row ∷ rows)

-- A message with an entry for each row.
unfoldable pub parse_rows_of {ℓ} :
    {A : Type ℓ}
    → Bytes
    → (CommandRow → Result MessageError A)
    → Command
    → Result MessageError (List A)
unfolding some_rows
parse_rows_of name f command =
    if not (bytes_eq command.name name) then err unexpected_command else some_rows f command.rows

-- The only row of a command that must have one; the exceptions for a wrong name and a wrong number.
unfoldable pub single_row : Bytes → MessageError → Command → Result MessageError CommandRow
single_row name wrong_number command =
    if not (bytes_eq command.name name) then err unexpected_command else elim command.rows [
      | [] ↦ err wrong_number
      | row ∷ [] ↦ ok row
      | row ∷ other ∷ rows ↦ err wrong_number
    ]
