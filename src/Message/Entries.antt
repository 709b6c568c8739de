-- ===== src/Message/Entries.antt =====
-- What the entries of parsed messages keep to.
use ts_cli.Prelude.{
  ℕ, suc, ◌^◌, ◌<◌, List, [], ◌∷◌, Result, ok, >>=-returns, length, All, Bool-cases, ◌≡◌, inl, inr,
  refl, ap, codes, bytes_eq, bytes_eq_iff, arith,
}
use ts_cli.Binary.{Bytes}
use ts_cli.Command.{CommandRow, Command}
use ts_cli.Message.{
  MessageError, map_rows, some_rows, parse_rows_of, require, require_number, find_number,
  parse_nonempty_unsigned,
}
use ts_cli.Message.Clients.{
  ClientEnterViewEntry, client_id, nickname_of, client_enter_view_entry, parse_client_enter_view,
}

map_rows-All :
    {A : Type 0} (P : A → Type 0) (f : CommandRow → Result MessageError A) (rows : List CommandRow)
    {entries : List A}
    → ((row : CommandRow) (a : A) → f row ≡ ok a → P a)
    → map_rows f rows ≡ ok entries
    → All P entries × (length entries ≡ length rows)
unfolding map_rows
map_rows-All P f [] {entries} h e = let none_left : entries ≡ [] = cc in rw none_left (tt, refl)
map_rows-All P f (row ∷ rows) {entries} h e =
    let (a, first, e') = >>=-returns (f row) _ e in
    let (more, others, e'') = >>=-returns (map_rows f rows) _ e' in
    let same : entries ≡ a ∷ more = cc in
    let (good, size) = map_rows-All P f rows h others in
    rw same ((h row a first, good), ap suc size)

some_rows-All :
    {A : Type 0} (P : A → Type 0) (f : CommandRow → Result MessageError A) (rows : List CommandRow)
    {entries : List A}
    → ((row : CommandRow) (a : A) → f row ≡ ok a → P a)
    → some_rows f rows ≡ ok entries
    → All P entries × (length entries ≡ length rows)
unfolding some_rows
some_rows-All P f [] h e = cc
some_rows-All P f (row ∷ rows) h e = map_rows-All P f (row ∷ rows) h e

-- What holds of the entries of every message that `parse_rows_of` returns, and how many there are.
pub parse_rows_of-All :
    {A : Type 0} (P : A → Type 0) (name : Bytes) (f : CommandRow → Result MessageError A)
    (command : Command) {entries : List A}
    → ((row : CommandRow) (a : A) → f row ≡ ok a → P a)
    → parse_rows_of name f command ≡ ok entries
    → All P entries × (length entries ≡ length command.rows) × (command.name ≡ name)
unfolding parse_rows_of
parse_rows_of-All P name f command {entries} h e = elim (Bool-cases (bytes_eq command.name name)) [
  | inr other ↦ absurd (ground (arith, other, e))
  | inl named ↦
      let rows : some_rows f command.rows ≡ ok entries = ground (arith, named, e) in
      let (good, size) = some_rows-All P f command.rows h rows in
      (good, size, (bytes_eq_iff command.name name).0 named)
]

-- An ID of 16 bits that is not zero, and a nickname.
abbrev pub IsVisible : ClientEnterViewEntry → Type 0
IsVisible c = (0 < c.id) × (c.id < 2 ^ 16) × (0 < length c.nickname)

client_id_bounds : (row : CommandRow) {id : ℕ} → client_id row ≡ ok id → (0 < id) × (id < 2 ^ 16)
unfolding client_id
client_id_bounds row {id} e =
    let (n, read, e') =
      >>=-returns (require_number parse_nonempty_unsigned (codes "clid") row) _ e in
    ground (arith, e')

nickname_of_some :
    (row : CommandRow) {nickname : Bytes} → nickname_of row ≡ ok nickname → 0 < length nickname
unfolding nickname_of
nickname_of_some row {nickname} e =
    let (n, read, e') = >>=-returns (require (codes "client_nickname") row) _ e in
    ground (arith, e')

client_enter_view_entry-IsVisible :
    (row : CommandRow) (c : ClientEnterViewEntry) → client_enter_view_entry row ≡ ok c → IsVisible c
unfolding client_enter_view_entry
client_enter_view_entry-IsVisible row c e =
    let (id, e1, f1) = >>=-returns (client_id row) _ e in
    let (channel, e2, f2) =
      >>=-returns (find_number parse_nonempty_unsigned (codes "ctid") row) _ f1 in
    let (nickname, e3, f3) = >>=-returns (nickname_of row) _ f2 in
    let (low, high) = client_id_bounds row e1 in
    let some_name = nickname_of_some row e3 in ground (arith, f3, low, high, some_name)

-- The entries of every `notifycliententerview` that is parsed have an ID of 16 bits that is not zero and
-- a nickname, and there is one for each row.
pub parse_client_enter_view-IsVisible :
    (command : Command) (entries : List ClientEnterViewEntry)
    → parse_client_enter_view command ≡ ok entries
    → All IsVisible entries
      × (length entries ≡ length command.rows)
      × (command.name ≡ codes "notifycliententerview")
unfolding parse_client_enter_view
parse_client_enter_view-IsVisible command entries e =
    parse_rows_of-All IsVisible (codes "notifycliententerview") client_enter_view_entry command
      client_enter_view_entry-IsVisible e
