-- ===== src/Targets.antt =====
-- client/src/cli/target_resolver.cpp: the client or channel that a name stands for.
pub mod Resolved
use ts_cli.Prelude.{
  ℕ, ◌+◌, Bool, true, false, ◌&&◌, Option, none, some, List, [], ◌∷◌, leb, ◌==◌, if◌then◌else◌,
  bytes_eq,
}
use ts_cli.Binary.{Bytes}
use ts_cli.Message.{from_chars}

pub data TargetKind : Type 0 where
  client channel : TargetKind

-- `TargetCandidate`, and `ResolvedTarget`, which has the same fields.
pub record TargetCandidate : Type 0 where
  pub kind : TargetKind
  pub id : ℕ
  pub name : Bytes

-- `std::tolower` of the locale "C"
abbrev pub to_lower : ℕ → ℕ
to_lower c = if leb b'A' c && leb c b'Z' then c + 32 else c

-- `EqualAsciiInsensitive`: texts of different lengths differ.
unfoldable pub equal_insensitive : Bytes → Bytes → Bool
equal_insensitive [] [] = true
equal_insensitive [] (d ∷ ds) = false
equal_insensitive (c ∷ cs) [] = false
equal_insensitive (c ∷ cs) (d ∷ ds) = to_lower c == to_lower d && equal_insensitive cs ds

-- A loop that returns the first candidate that passes a test.
unfoldable pub first_match :
    (TargetCandidate → Bool) → List TargetCandidate → Option TargetCandidate
first_match test [] = none
first_match test (c ∷ cs) = let rest = first_match test cs in if test c then some c else rest

-- `allowed`
abbrev pub is_allowed : Bool → Bool → TargetKind → Bool
is_allowed clients channels client = clients
is_allowed clients channels channel = channels

-- `Resolve`
unfoldable pub resolve : List TargetCandidate → Bytes → Bool → Bool → Option TargetCandidate
unfolding first_match equal_insensitive
resolve cs name clients channels =
    elim (first_match (λ c. is_allowed clients channels c.kind && bytes_eq c.name name) cs) [
      | some c ↦ some c
      | none ↦
          first_match (λ c. is_allowed clients channels c.kind && equal_insensitive c.name name) cs
    ]

-- `ResolvePrivate` and `ResolveChannel`
unfoldable pub resolve_private : List TargetCandidate → Bytes → Option TargetCandidate
resolve_private cs name = resolve cs name true false

unfoldable pub resolve_channel : List TargetCandidate → Bytes → Option TargetCandidate
resolve_channel cs name = resolve cs name false true

-- `UniqueTargetResolution`, with the target of a match.
pub data UniqueTargetResolution : Type 0 where
  no_match ambiguous : UniqueTargetResolution
  matched : TargetCandidate → UniqueTargetResolution

abbrev pub is_client : TargetKind → Bool
is_client client = true
is_client channel = false

-- `findMatches`, with the test of a name.
unfoldable pub find_matches : (Bytes → Bool) → List TargetCandidate → List TargetCandidate
find_matches test [] = []
find_matches test (c ∷ cs) =
    let rest = find_matches test cs in if is_client c.kind && test c.name then (c ∷ rest) else rest

-- The result of the matches that are left.
abbrev pub unique : List TargetCandidate → UniqueTargetResolution
unique [] = no_match
unique (c ∷ []) = matched c
unique (c ∷ d ∷ cs) = ambiguous

-- The matches of the exact name, or, where there are none, of the name without regard to case.
unfoldable pub resolve_name : List TargetCandidate → Bytes → UniqueTargetResolution
unfolding find_matches
resolve_name cs name = elim (find_matches (λ n. bytes_eq n name) cs) [
  | [] ↦ unique (find_matches (λ n. equal_insensitive n name) cs)
  | c ∷ others ↦ unique (c ∷ others)
]

-- The number behind a `#`, with a digit at least.
abbrev pub requested_id : Bytes → Option ℕ
requested_id [] = none
requested_id (c ∷ cs) = if c == b'#' then from_chars cs else none

-- `ResolveUniqueClient`
unfoldable pub resolve_unique_client : List TargetCandidate → Bytes → UniqueTargetResolution
unfolding resolve_name
resolve_unique_client cs name = elim (requested_id name) [
  | none ↦ resolve_name cs name
  | some id ↦ elim (first_match (λ c. is_client c.kind && c.id == id) cs) [
    | none ↦ no_match
    | some c ↦ matched c
  ]
]
