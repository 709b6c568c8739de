-- ===== src/Talkers/Changes.antt =====
-- The changes that the operations report are those of the set of talking clients.
use ts_cli.Prelude.{
  ℕ, ◌-◌, ◌≤◌, ◌<◌, Bool, true, false, not, ◌&&◌, [], ◌∷◌, ltb, ◌==◌, length, if◌then◌else◌,
  Bool-cases, ◌≡◌, inl, inr, sym, ◌∙◌, arith,
}
use mathlib.Core.List.{Memᴰ}
use mathlib.Core.List.Memᴰ
use mathlib.Core.Path.{subst}
use mathlib.Core.Logic.{◌↔◌}
use ts_cli.Prelude.OrderedMap.{OrderedMap, contains, find-insert, find-erase}
use ts_cli.Talkers.{timeout, observe, expire}

-- Where a packet is said to change nothing, the same clients talk before and behind it; where it is said
-- to change something, the talking of the packet's client changes, and that of no other.
pub observe-contains :
    (client_id : ℕ) (talk_end : Bool) (now : ℕ) (m : OrderedMap ℕ) (id : ℕ)
    → (let after = observe client_id talk_end now m in
        contains id after.0
        ≡ (if after.1 && client_id == id then not (contains id m) else contains id m))
unfolding observe contains
observe-contains client_id true now m id = elim (Bool-cases (client_id == id)) [
  | inl same ↦
      let at : client_id ≡ id = ground (arith, same) in
      rw (find-erase id client_id m, at) (ground arith)
  | inr other ↦ rw (find-erase id client_id m, other) (ground arith)
]
observe-contains client_id false now m id = elim (Bool-cases (client_id == id)) [
  | inl same ↦
      let at : client_id ≡ id = ground (arith, same) in
      rw (find-insert id client_id now m, at) (ground arith)
  | inr other ↦ rw (find-insert id client_id now m, other) (ground arith)
]

-- No time-out.
abbrev pub IsRecent : ℕ → (ℕ × ℕ) → Type 0
IsRecent now e = now - e.1 < timeout

-- The recent clients of a list, and one more client
module _ (now : ℕ) (x : ℕ × ℕ) (m recent : OrderedMap ℕ) where
  Memᴰ-kept :
      IsRecent now x
      → ((e : ℕ × ℕ) → Memᴰ e recent ↔ (Memᴰ e m × IsRecent now e))
      → (e : ℕ × ℕ) → Memᴰ e (x ∷ recent) ↔ (Memᴰ e (x ∷ m) × IsRecent now e)
  Memᴰ-kept new h e = (
    λ a. elim (Memᴰ.cases_cons a) [
      | inl same ↦ (Memᴰ.head same, subst (IsRecent now) (sym same) new)
      | inr more ↦ let (b, late) = (h e).0 more in (Memᴰ.tail b, late)
    ],
    λ a. elim (Memᴰ.cases_cons (a.0)) [
      | inl same ↦ Memᴰ.head same
      | inr more ↦ Memᴰ.tail ((h e).1 (more, a.1))
    ],
  )

  Memᴰ-dropped :
      ¬ IsRecent now x
      → ((e : ℕ × ℕ) → Memᴰ e recent ↔ (Memᴰ e m × IsRecent now e))
      → (e : ℕ × ℕ) → Memᴰ e recent ↔ (Memᴰ e (x ∷ m) × IsRecent now e)
  Memᴰ-dropped old h e = (
    λ a. let (b, late) = (h e).0 a in (Memᴰ.tail b, late),
    λ a. elim (Memᴰ.cases_cons (a.0)) [
      | inl same ↦ absurd (old (subst (IsRecent now) same (a.1)))
      | inr more ↦ (h e).1 (more, a.1)
    ],
  )

-- After `Expire`, exactly those clients talk, each with the time of its last packet, that talked before and
-- whose last packet has not timed out, and a change is reported exactly where fewer clients talk than before.
pub expire-IsRecent :
    (now : ℕ) (m : OrderedMap ℕ)
    → ((e : ℕ × ℕ) → Memᴰ e (expire now m).0 ↔ (Memᴰ e m × IsRecent now e))
      × (length (expire now m).0 ≤ length m)
      × ((expire now m).1 ≡ ltb (length (expire now m).0) (length m))
unfolding expire
expire-IsRecent now [] = (
  λ e. (λ h. absurd (Memᴰ.not-nil h), λ h. absurd (Memᴰ.not-nil (h.0))),
  omega arith,
  ground arith,
)
expire-IsRecent now ((id, last) ∷ m) =
    let (recent, fewer, changed) = expire-IsRecent now m in
    elim (Bool-cases (ltb (now - last) timeout)) [
      | inl new ↦ rw new (
        Memᴰ-kept now (id, last) m (expire now m).0 (ground (arith, new)) recent,
        omega (arith, fewer),
        changed ∙ ground arith,
      )
      | inr old ↦ rw old (
        Memᴰ-dropped now (id, last) m (expire now m).0 (ground (arith, old)) recent,
        omega (arith, fewer),
        ground (arith, fewer),
      )
    ]
