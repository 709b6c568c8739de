-- ===== src/State/Clients/Placement.antt =====
-- Where clients are placed, whatever the order in which notifications arrive.
use ts_cli.Prelude.{ℕ, none, some, [], ◌∷◌, ◌≡◌, ◌≢◌, refl, sym, arith}
use ts_cli.Binary.{Bytes}
use ts_cli.Message.Clients.{ClientEnterViewEntry}
use ts_cli.Prelude.OrderedMap.{find, find-insert_self, insert-insert}
use ts_cli.State.Clients.{
  Client, new_client, ClientStore, entered_channel, entered_unique_id, entered, moved, enter, move,
}

entered_unique_id_unknown :
    (unique_id : Bytes) (c : Client)
    → c.unique_id ≡ []
    → entered_unique_id unique_id (some c) ≡ unique_id
unfolding entered_unique_id
entered_unique_id_unknown [] c h = h
entered_unique_id_unknown (b ∷ bs) c h = refl

entered_unique_id-none : (unique_id : Bytes) → entered_unique_id unique_id none ≡ unique_id
unfolding entered_unique_id
entered_unique_id-none [] = refl
entered_unique_id-none (b ∷ bs) = refl

entered-moved :
    (e : ClientEnterViewEntry) (channel : ℕ)
    → channel ≢ 0
    → entered e (some (moved e.id channel none)) ≡ moved e.id channel (some (entered e none))
unfolding entered moved entered_channel
entered-moved e channel h = ground (
  arith,
  entered_unique_id_unknown e.unique_id (record new_client { id = e.id; channel_id = channel })
      refl,
  entered_unique_id-none e.unique_id,
)

-- A notification that a client has moved, to a channel that is not 0, may come before or behind that of its
-- entering: for a client that is not known before, both orders give the same store, in which it stands in
-- the channel of the move.
pub enter-move :
    (e : ClientEnterViewEntry) (channel : ℕ) (m : ClientStore)
    → find e.id m ≡ none
    → channel ≢ 0
    → (enter e (move e.id channel m) ≡ move e.id channel (enter e m))
      × (find e.id (enter e (move e.id channel m))
          ≡ some (moved e.id channel (some (entered e none))))
unfolding enter move
enter-move e channel m absent h =
    let c = moved e.id channel none in
    let d = entered e none in
    rw
      (
        absent,
        find-insert_self e.id c m,
        find-insert_self e.id d m,
        insert-insert,
        entered-moved e channel h,
      )
      (
        sym (insert-insert e.id (moved e.id channel (some d)) d m),
        find-insert_self e.id (moved e.id channel (some d)) m,
      )
