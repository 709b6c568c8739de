-- ===== src/Talkers.antt =====
-- client/src/runtime/talker_activity.cpp: which clients are talking, by the time of their last packet in
-- nanoseconds.
pub mod Changes
use ts_cli.Prelude.{ℕ, ◌-◌, Bool, true, false, not, List, [], ◌∷◌, ltb, if◌then◌else◌}
use ts_cli.Prelude.OrderedMap.{OrderedMap, insert, erase, contains}

-- `Timeout`
abbrev pub timeout : ℕ
timeout = 500000000

-- `Observe`: the map, and whether the set of talking clients has changed.
unfoldable pub observe : ℕ → Bool → ℕ → OrderedMap ℕ → OrderedMap ℕ × Bool
unfolding contains
observe client_id talk_end now m =
    if talk_end
    then (erase client_id m, contains client_id m)
    else (insert client_id now m, not (contains client_id m))

-- `Expire`
unfoldable pub expire : ℕ → OrderedMap ℕ → OrderedMap ℕ × Bool
expire now [] = ([], false)
expire now ((id, last) ∷ m) =
    let rest = expire now m in
    if ltb (now - last) timeout then ((id, last) ∷ rest.0, rest.1) else (rest.0, true)

-- `Talking`
abbrev pub talking : OrderedMap ℕ → List ℕ
talking [] = []
talking ((id, last) ∷ m) = id ∷ talking m
