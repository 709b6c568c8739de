-- ===== src/Command/Writer.antt =====
-- protocol/src/command/writer.cpp: the text of a command, written call by call.
use ts_cli.Prelude.{
  ℕ, Bool, true, false, not, ◌&&◌, ◌||◌, [], ◌∷◌, ◌++◌, Result, ok, err, ◌>>=◌, ◌>>◌, ◌==◌,
  if◌then◌else◌,
}
use ts_cli.Binary.{Bytes}
use ts_cli.Command.{
  CommandError, empty_name, invalid_name, empty_row_written, trailing_empty_row, null_byte,
}

-- `m_Data`, `m_FirstRow` and `m_RowHasParameter`
pub record CommandWriter : Type 0 where
  pub text : Bytes
  pub first_row : Bool
  pub row_has_parameter : Bool

-- The `switch` of `ValidateName`.
abbrev pub is_forbidden : ℕ → Bool
is_forbidden c = c == 0 || c == b' ' || c == b'=' || c == b'|'

unfoldable pub validate_characters : Bytes → Result CommandError (Unit {0})
validate_characters [] = ok tt
validate_characters (c ∷ cs) =
    let rest = validate_characters cs in if is_forbidden c then err invalid_name else rest

unfoldable pub validate_name : Bytes → Result CommandError (Unit {0})
unfolding validate_characters
validate_name [] = err empty_name
validate_name (c ∷ cs) = validate_characters (c ∷ cs)

-- The `switch` of `EncodeValue`.
unfoldable pub encode_character : ℕ → Result CommandError Bytes
encode_character c =
    if c == b'\\'
    then ok (b'\\' ∷ b'\\' ∷ [])
    else if c == b'/'
    then ok (b'\\' ∷ b'/' ∷ [])
    else if c == b' '
    then ok (b'\\' ∷ b's' ∷ [])
    else if c == b'|'
    then ok (b'\\' ∷ b'p' ∷ [])
    else if c == 0x07
    then ok (b'\\' ∷ b'a' ∷ [])
    else if c == 0x08
    then ok (b'\\' ∷ b'b' ∷ [])
    else if c == 0x0c
    then ok (b'\\' ∷ b'f' ∷ [])
    else if c == b'\n'
    then ok (b'\\' ∷ b'n' ∷ [])
    else if c == b'\r'
    then ok (b'\\' ∷ b'r' ∷ [])
    else if c == b'\t'
    then ok (b'\\' ∷ b't' ∷ [])
    else if c == 0x0b
    then ok (b'\\' ∷ b'v' ∷ [])
    else if c == 0
    then err null_byte
    else ok (c ∷ [])

unfoldable pub encode_value : Bytes → Result CommandError Bytes
encode_value [] = ok []
encode_value (c ∷ cs) = do e ← encode_character c; rest ← encode_value cs; ok (e ++ rest)

-- The constructor.
unfoldable pub command_writer : Bytes → Result CommandError CommandWriter
command_writer name =
    validate_name name >> ok (record { text = name; first_row = true; row_has_parameter = false })

unfoldable pub write_prefix : Bytes → CommandWriter → Result CommandError CommandWriter
write_prefix name w =
    let spaced = if w.first_row || w.row_has_parameter then w.text ++ (b' ' ∷ []) else w.text in
    validate_name name >> ok (record w { text = spaced ++ name })

-- `Write( name )`
unfoldable pub write : Bytes → CommandWriter → Result CommandError CommandWriter
unfolding write_prefix
write name w = do w' ← write_prefix name w; ok (record w' { row_has_parameter = true })

-- `Write( name, value )`: the prefix, then the value. A value that is refused leaves the writer with
-- the prefix, which no caller reads.
unfoldable pub write_value : Bytes → Bytes → CommandWriter → Result CommandError CommandWriter
unfolding write_prefix
write_value name value w = do
  w' ← write_prefix name w
  e ← encode_value value
  ok (record w' { text = w'.text ++ (b'=' ∷ e); row_has_parameter = true })

unfoldable pub next_row : CommandWriter → Result CommandError CommandWriter
next_row w =
    if not w.row_has_parameter
    then err empty_row_written
    else ok (record { text = w.text ++ (b'|' ∷ []); first_row = false; row_has_parameter = false })

unfoldable pub taken : CommandWriter → Result CommandError Bytes
taken w = if not w.first_row && not w.row_has_parameter then err trailing_empty_row else ok w.text
