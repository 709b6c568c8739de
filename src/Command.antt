-- ===== src/Command.antt =====
-- protocol/include/protocol/command/command.hpp: a parsed command. A text is the list of its bytes.
pub mod Parser
pub mod Writer
pub mod Escapes
use ts_cli.Prelude.{ℕ, Option, none, some, List, [], ◌∷◌, ◌==◌, if◌then◌else◌}
use ts_cli.Binary.{Bytes}

pub record CommandParameter : Type 0 where
  pub name : Bytes
  pub value : Bytes

-- `CommandRow`
abbrev pub CommandRow : Type 0
CommandRow = List CommandParameter

pub record Command : Type 0 where
  pub name : Bytes
  pub rows : List CommandRow

pub data CommandError : Type 0 where
  empty_command no_name empty_row parameter_without_name : CommandError
  incomplete_escape unknown_escape : CommandError
  empty_name invalid_name empty_row_written trailing_empty_row null_byte : CommandError

-- The places of the text at which `find( separator )` splits it: what stands before, and behind, the
-- first separator.
unfoldable pub until : ℕ → Bytes → Bytes × Option Bytes
until separator [] = ([], none)
until separator (c ∷ cs) =
    let rest = until separator cs in if c == separator then ([], some cs) else (c ∷ rest.0, rest.1)

-- The pieces that repeated `find`s of a separator give, empty ones included.
unfoldable pub split : ℕ → Bytes → List Bytes
split separator [] = [] ∷ []
split separator (c ∷ cs) =
    let rest = split separator cs in
    if c == separator
    then [] ∷ rest
    else elim rest [ [] ↦ (c ∷ []) ∷ [] | piece ∷ pieces ↦ (c ∷ piece) ∷ pieces ]
