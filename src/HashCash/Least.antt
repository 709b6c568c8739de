-- ===== src/HashCash/Least.antt =====
-- The search for an offset gives the least one that is valid.
use ts_cli.Prelude.{
  ℕ, zero, suc, ◌+◌, ◌-◌, ◌%◌, ◌^◌, ◌≤◌, ◌<◌, Bool, true, false, ◌&&◌, ◌==◌, Bool-cases, if-cases,
  ◌≡◌, inl, inr, arith,
}
use ts_cli.Binary.{Bytes}
use ts_cli.HashCash.{
  validate_offset, Search, found, stopped, exhausted, out_of_fuel, progress_interval, find_from,
  find_offset,
}

-- No offset from the first one up to below the second is valid.
abbrev pub NoneValid : (Bytes → Bytes) → Bytes → ℕ → ℕ → ℕ → Type 0
NoneValid sha1 key target from to =
    (i : ℕ) → from ≤ i → i < to → validate_offset sha1 key target i ≡ false

-- What a search from an offset gives.
abbrev pub IsLeast : (Bytes → Bytes) → Bytes → ℕ → (ℕ → Bool) → ℕ → Search → Type 0
IsLeast sha1 key target stop from (found o) =
    (from ≤ o)
    × (o < 2 ^ 64)
    × (validate_offset sha1 key target o ≡ true)
    × NoneValid sha1 key target from o
IsLeast sha1 key target stop from stopped =
    (o : ℕ) × (from ≤ o) × (stop o ≡ true) × NoneValid sha1 key target from (o + 1)
IsLeast sha1 key target stop from exhausted = NoneValid sha1 key target from (2 ^ 64)
IsLeast sha1 key target stop from out_of_fuel = ⊥

NoneValid-step :
    (sha1 : Bytes → Bytes) (key : Bytes) (target from to : ℕ)
    → validate_offset sha1 key target from ≡ false
    → NoneValid sha1 key target (from + 1) to
    → NoneValid sha1 key target from to
NoneValid-step sha1 key target from to invalid none_valid i l r = elim (Bool-cases (i == from)) [
  | inl same ↦ let here : i ≡ from = ground (arith, same) in rw here invalid
  | inr other ↦ none_valid i (ground (arith, other, l)) r
]

IsLeast-step :
    (sha1 : Bytes → Bytes) (key : Bytes) (target : ℕ) (stop : ℕ → Bool) (from : ℕ) (s : Search)
    → validate_offset sha1 key target from ≡ false
    → IsLeast sha1 key target stop (from + 1) s
    → IsLeast sha1 key target stop from s
IsLeast-step sha1 key target stop from (found o) invalid (l, r, valid, least) =
    (omega arith, r, valid, NoneValid-step sha1 key target from o invalid least)
IsLeast-step sha1 key target stop from stopped invalid (o, l, s, none_valid) =
    (o, omega arith, s, NoneValid-step sha1 key target from (o + 1) invalid none_valid)
IsLeast-step sha1 key target stop from exhausted invalid h =
    NoneValid-step sha1 key target from (2 ^ 64) invalid h
IsLeast-step sha1 key target stop from out_of_fuel invalid h = h

find_from-IsLeast :
    (fuel : ℕ) (sha1 : Bytes → Bytes) (key : Bytes) (target start : ℕ) (stop : ℕ → Bool)
    (offset : ℕ)
    → offset < 2 ^ 64
    → 2 ^ 64 ≤ fuel + offset
    → IsLeast sha1 key target stop offset (find_from fuel sha1 key target start stop offset)
unfolding find_from
find_from-IsLeast zero sha1 key target start stop offset r enough = absurd (omega arith)
find_from-IsLeast (suc fuel) sha1 key target start stop offset r enough =
    if-cases (IsLeast sha1 key target stop offset) (validate_offset sha1 key target offset)
      (λ valid. (omega arith, r, valid, (λ i l m. absurd (omega (arith, l, m)))))
      (λ invalid.
        if-cases (IsLeast sha1 key target stop offset) (offset == 2 ^ 64 - 1)
          (λ last.
            NoneValid-step sha1 key target offset (2 ^ 64) invalid
              (λ i l m. absurd (ground (arith, last, l, m))))
          (λ more.
            if-cases (IsLeast sha1 key target stop offset)
              ((offset - start + 1) % progress_interval == 0 && stop offset)
              (λ asked. (
                offset,
                omega arith,
                ground (arith, asked),
                NoneValid-step sha1 key target offset (offset + 1) invalid
                    (λ i l m. absurd (omega (arith, l, m))),
              ))
              (λ unasked.
                IsLeast-step sha1 key target stop offset
                  (find_from fuel sha1 key target start stop (offset + 1)) invalid
                  (find_from-IsLeast fuel sha1 key target start stop (offset + 1)
                    (ground (arith, more, r)) (omega arith)))))

-- From every 64-bit start, whatever the hash is and whenever a stop is requested, `FindOffset` ends: it
-- finds the least valid offset from the start on, or it is stopped at an offset where a stop is requested
-- and up to which none is valid, or it throws where no 64-bit offset from the start on is valid.
pub find_offset-IsLeast :
    (sha1 : Bytes → Bytes) (key : Bytes) (target start : ℕ) (stop : ℕ → Bool)
    → start < 2 ^ 64
    → IsLeast sha1 key target stop start (find_offset sha1 key target start stop)
unfolding find_offset
find_offset-IsLeast sha1 key target start stop r =
    find_from-IsLeast (2 ^ 64 - start) sha1 key target start stop start r (omega arith)
