-- ===== src/Command/Parser.antt =====
-- protocol/src/command/parser.cpp: the text of a command to its name and its rows of parameters.
use ts_cli.Prelude.{
  ℕ, Bool, true, false, ◌||◌, Option, none, some, List, [], ◌∷◌, Result, ok, err, ◌>>=◌, ◌==◌,
  if◌then◌else◌,
}
use ts_cli.Binary.{Bytes}
use ts_cli.Command.{
  CommandParameter, CommandRow, Command, CommandError, empty_command, no_name, empty_row,
  parameter_without_name, incomplete_escape, unknown_escape, until, split,
}

-- The `switch` of `DecodeValue`.
unfoldable pub unescape : ℕ → Result CommandError ℕ
unescape c =
    if c == b'\\'
    then ok b'\\'
    else if c == b'/'
    then ok b'/'
    else if c == b's'
    then ok b' '
    else if c == b'p'
    then ok b'|'
    else if c == b'a'
    then ok 0x07
    else if c == b'b'
    then ok 0x08
    else if c == b'f'
    then ok 0x0c
    else if c == b'n'
    then ok b'\n'
    else if c == b'r'
    then ok b'\r'
    else if c == b't'
    then ok b'\t'
    else if c == b'v'
    then ok 0x0b
    else err unknown_escape

-- The loop of `DecodeValue`; the flag says that a backslash has been read.
unfoldable pub decode_from : Bool → Bytes → Result CommandError Bytes
decode_from false [] = ok []
decode_from true [] = err incomplete_escape
decode_from true (c ∷ cs) = do d ← unescape c; rest ← decode_from false cs; ok (d ∷ rest)
decode_from false (c ∷ cs) =
    let rest = decode_from (c == b'\\') cs in
    if c == b'\\' then rest else (rest >>= λ r. ok (c ∷ r))

unfoldable pub decode_value : Bytes → Result CommandError Bytes
unfolding decode_from
decode_value = decode_from false

-- One parameter of `ParseRow`.
unfoldable pub parse_parameter : Bytes → Result CommandError CommandParameter
parse_parameter text = elim (until b'=' text).1 [
  | none ↦ ok (record { name = text; value = [] })
  | some value ↦ elim (until b'=' text).0 [
    | [] ↦ err parameter_without_name
    | c ∷ cs ↦ decode_value value >>= λ v. ok (record { name = c ∷ cs; value = v })
  ]
]

-- The parameters are the pieces between spaces that are not empty.
unfoldable pub parse_parameters : List Bytes → Result CommandError CommandRow
parse_parameters [] = ok []
parse_parameters ([] ∷ pieces) = parse_parameters pieces
parse_parameters ((c ∷ cs) ∷ pieces) = do
  parameter ← parse_parameter (c ∷ cs)
  parameters ← parse_parameters pieces
  ok (parameter ∷ parameters)

unfoldable pub parse_row : Bytes → Result CommandError CommandRow
unfolding parse_parameters
parse_row text = parse_parameters (split b' ' text)

unfoldable pub parse_rows : List Bytes → Result CommandError (List CommandRow)
parse_rows [] = ok []
parse_rows ([] ∷ pieces) = err empty_row
parse_rows ((c ∷ cs) ∷ pieces) = do
  row ← parse_row (c ∷ cs)
  rows ← parse_rows pieces
  ok (row ∷ rows)

abbrev pub is_newline : ℕ → Bool
is_newline c = c == b'\r' || c == b'\n'

-- `text.remove_suffix( 1 )` as long as the text ends in a newline
unfoldable pub trim_end : Bytes → Bytes
trim_end [] = []
trim_end (c ∷ cs) = elim (trim_end cs) [
  | [] ↦ if is_newline c then [] else (c ∷ [])
  | d ∷ ds ↦ c ∷ d ∷ ds
]

unfoldable pub skip_spaces : Bytes → Bytes
skip_spaces [] = []
skip_spaces (c ∷ cs) = let rest = skip_spaces cs in if c == b' ' then rest else (c ∷ cs)

-- Behind the name and the spaces.
unfoldable pub parse_data : Bytes → Bytes → Result CommandError Command
parse_data name [] = ok (record { name = name; rows = [] })
parse_data name (c ∷ cs) =
    parse_rows (split b'|' (c ∷ cs)) >>= λ rows. ok (record { name = name; rows = rows })

-- `nameEnd` and what follows it.
unfoldable pub parse_named : Bytes → Option Bytes → Result CommandError Command
parse_named name none = ok (record { name = name; rows = [] })
parse_named [] (some rest) = err no_name
parse_named (c ∷ cs) (some rest) = parse_data (c ∷ cs) (skip_spaces rest)

unfoldable pub parse_trimmed : Bytes → Result CommandError Command
parse_trimmed [] = err empty_command
parse_trimmed (c ∷ cs) = let (name, rest) = until b' ' (c ∷ cs) in parse_named name rest

-- `Parse`
unfoldable pub parse : Bytes → Result CommandError Command
parse text = parse_trimmed (trim_end text)
