-- ===== src/Tests/Clients.antt =====
-- The theorems on the talking clients and on targets at concrete inputs.
use ts_cli.Prelude.{ℕ, ◌≤◌, true, false, List, [], ◌∷◌, ltb, length, ◌≡◌, codes, ◌↔◌}
use ts_cli.Targets.{client, channel, TargetCandidate, resolve}
use ts_cli.Targets.Resolved.{IsResolved, resolve-IsResolved}
use ts_cli.Prelude.OrderedMap.{OrderedMap}
use mathlib.Core.List.{Memᴰ}
use ts_cli.Talkers.{expire}
use ts_cli.Talkers.Changes.{IsRecent, expire-IsRecent}

abbrev talkers : OrderedMap ℕ
talkers = (3, 100) ∷ (7, 800000000) ∷ []

expire-IsRecent_example :
    ((e : ℕ × ℕ) → Memᴰ e (expire 900000000 talkers).0 ↔ (Memᴰ e talkers × IsRecent 900000000 e))
    × (length (expire 900000000 talkers).0 ≤ length talkers)
    × ((expire 900000000 talkers).1 ≡ ltb (length (expire 900000000 talkers).0) (length talkers))
expire-IsRecent_example = expire-IsRecent 900000000 talkers

abbrev candidates : List TargetCandidate
candidates =
    (record { kind = channel; id = 1; name = codes "ann" })
    ∷ (record { kind = client; id = 5; name = codes "Ann" })
    ∷ (record { kind = client; id = 6; name = codes "ann" })
    ∷ []

resolve-IsResolved_example :
    IsResolved candidates (codes "ANN") true false (resolve candidates (codes "ANN") true false)
resolve-IsResolved_example = resolve-IsResolved candidates (codes "ANN") true false
