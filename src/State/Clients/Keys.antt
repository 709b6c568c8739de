-- ===== src/State/Clients/Keys.antt =====
-- Each client stands under its own ID, whatever notifications have been applied.
use ts_cli.Prelude.{ℕ, some, List, [], ◌∷◌, ◌≡◌, refl, arith}
use ts_cli.Message.{value_or}
use ts_cli.Message.Clients.{
  ClientEnterViewEntry, ClientLeftViewEntry, ClientMovedEntry, ClientUpdatedEntry,
}
use ts_cli.Prelude.OrderedMap.{find, insert, erase}
use ts_cli.State.Clients.{
  Client, new_client, ClientStore, entered, moved, enter, for_each, apply_enter_view, move,
  apply_moved, updated, update, apply_updated, remove_in_channel, apply_left_view, remove,
}

-- The operations that change a store.
pub data Notification : Type 0 where
  clients_entered : List ClientEnterViewEntry → Notification
  clients_moved : List ClientMovedEntry → Notification
  clients_left : List ClientLeftViewEntry → Notification
  clients_updated : List ClientUpdatedEntry → Notification
  client_moved : ℕ → ℕ → Notification
  client_removed : ℕ → Notification
  channel_emptied : ℕ → ℕ → Notification
  store_cleared : Notification

unfoldable pub apply : Notification → ClientStore → ClientStore
apply (clients_entered es) m = apply_enter_view es m
apply (clients_moved es) m = apply_moved es m
apply (clients_left es) m = apply_left_view es m
apply (clients_updated es) m = apply_updated es m
apply (client_moved id channel) m = move id channel m
apply (client_removed id) m = remove id m
apply (channel_emptied channel preserved) m = remove_in_channel channel preserved m
apply store_cleared m = []

unfoldable pub apply_all : List Notification → ClientStore → ClientStore
unfolding apply
apply_all [] m = m
apply_all (n ∷ ns) m = apply_all ns (apply n m)

-- An entry under its own ID.
abbrev pub AreKeyed : ClientStore → Type 0
AreKeyed [] = Unit
AreKeyed ((k, c) ∷ m) = (k ≡ c.id) × AreKeyed m

insert-AreKeyed :
    (c : Client) (m : ClientStore) (k : ℕ) → k ≡ c.id → AreKeyed m → AreKeyed (insert k c m)
unfolding insert
insert-AreKeyed c [] k e h = (e, tt)
insert-AreKeyed c ((j, d) ∷ m) k e h = ground (arith, insert-AreKeyed c m k e h.1)

erase-AreKeyed : (k : ℕ) (m : ClientStore) → AreKeyed m → AreKeyed (erase k m)
unfolding erase
erase-AreKeyed k [] h = tt
erase-AreKeyed k ((j, d) ∷ m) h = ground (arith, erase-AreKeyed k m h.1)

for_each-AreKeyed :
    {A : Type 0} (f : A → ClientStore → ClientStore) (xs : List A) (m : ClientStore)
    → ((x : A) (n : ClientStore) → AreKeyed n → AreKeyed (f x n))
    → AreKeyed m
    → AreKeyed (for_each f xs m)
for_each-AreKeyed f [] m keeps h = h
for_each-AreKeyed f (x ∷ xs) m keeps h = for_each-AreKeyed f xs (f x m) keeps (keeps x m h)

remove_in_channel-AreKeyed :
    (channel preserved : ℕ) (m : ClientStore)
    → AreKeyed m
    → AreKeyed (remove_in_channel channel preserved m)
unfolding remove_in_channel
remove_in_channel-AreKeyed channel preserved [] h = tt
remove_in_channel-AreKeyed channel preserved ((k, c) ∷ m) h =
    ground (arith, remove_in_channel-AreKeyed channel preserved m h.1)

apply-AreKeyed : (n : Notification) (m : ClientStore) → AreKeyed m → AreKeyed (apply n m)
unfolding apply apply_enter_view apply_moved apply_left_view apply_updated enter move update updated
    entered moved remove
apply-AreKeyed (clients_entered es) m h =
    for_each-AreKeyed enter es m (λ e n k. insert-AreKeyed (entered e (find e.id n)) n e.id refl k)
      h
apply-AreKeyed (clients_moved es) m h =
    for_each-AreKeyed (λ e. move e.id e.channel_id) es m
      (λ e n k. insert-AreKeyed (moved e.id e.channel_id (find e.id n)) n e.id refl k) h
apply-AreKeyed (clients_left es) m h =
    for_each-AreKeyed (λ e. erase e.id) es m (λ e n k. erase-AreKeyed e.id n k) h
apply-AreKeyed (clients_updated es) m h =
    for_each-AreKeyed update es m
      (λ e n k. insert-AreKeyed (updated e (value_or (find e.id n) new_client)) n e.id refl k) h
apply-AreKeyed (client_moved id channel) m h =
    insert-AreKeyed (moved id channel (find id m)) m id refl h
apply-AreKeyed (client_removed id) m h = erase-AreKeyed id m h
apply-AreKeyed (channel_emptied channel preserved) m h =
    remove_in_channel-AreKeyed channel preserved m h
apply-AreKeyed store_cleared m h = tt

apply_all-AreKeyed :
    (ns : List Notification) (m : ClientStore) → AreKeyed m → AreKeyed (apply_all ns m)
unfolding apply_all
apply_all-AreKeyed [] m h = h
apply_all-AreKeyed (n ∷ ns) m h = apply_all-AreKeyed ns (apply n m) (apply-AreKeyed n m h)

find-AreKeyed :
    (id : ℕ) (m : ClientStore) {c : Client} → AreKeyed m → find id m ≡ some c → c.id ≡ id
unfolding find
find-AreKeyed id [] h e = cc
find-AreKeyed id ((k, d) ∷ m) {c} h e = ground (arith, find-AreKeyed id m {c = c} h.1)

-- Whatever has been applied to an empty store: the client that is found for an ID has that ID.
pub find-apply_all :
    (ns : List Notification) (id : ℕ) (c : Client) → find id (apply_all ns []) ≡ some c → c.id ≡ id
find-apply_all ns id c e = find-AreKeyed id (apply_all ns []) (apply_all-AreKeyed ns [] tt) e
