-- ===== src/Targets/Resolved.antt =====
-- What a name resolves to.
use ts_cli.Prelude.{
  Bool, true, false, ◌&&◌, Option, none, some, List, [], ◌∷◌, All, if-cases, Option-cases, ◌≡◌, ◌⊎◌,
  inl, inr, refl, bytes_eq, bytes_eq_iff, arith,
}
use ts_cli.Binary.{Bytes}
use ts_cli.Targets.{TargetCandidate, equal_insensitive, first_match, is_allowed, resolve}

abbrev pub Among : TargetCandidate → List TargetCandidate → Type 0
Among c [] = ⊥
Among c (d ∷ ds) = (c ≡ d) ⊎ Among c ds

-- The first candidate that passes a test passes it; without one, none passes it.
abbrev IsMatch : (TargetCandidate → Bool) → List TargetCandidate → Option TargetCandidate → Type 0
IsMatch test cs (some c) = Among c cs × (test c ≡ true)
IsMatch test cs none = All (λ c. test c ≡ false) cs

IsMatch-there :
    (test : TargetCandidate → Bool) (d : TargetCandidate) (cs : List TargetCandidate)
    (o : Option TargetCandidate)
    → test d ≡ false
    → IsMatch test cs o
    → IsMatch test (d ∷ cs) o
IsMatch-there test d cs (some c) e (a, t) = (inr a, t)
IsMatch-there test d cs none e h = (e, h)

first_match-IsMatch :
    (test : TargetCandidate → Bool) (cs : List TargetCandidate)
    → IsMatch test cs (first_match test cs)
unfolding first_match
first_match-IsMatch test [] = tt
first_match-IsMatch test (c ∷ cs) =
    if-cases (IsMatch test (c ∷ cs)) (test c) (λ passed. (inl refl, passed))
      (λ failed. IsMatch-there test c cs (first_match test cs) failed (first_match-IsMatch test cs))

equal_insensitive_refl : (name : Bytes) → equal_insensitive name name ≡ true
unfolding equal_insensitive
equal_insensitive_refl [] = refl
equal_insensitive_refl (c ∷ cs) = ground (arith, equal_insensitive_refl cs)

-- Whether a candidate may be meant by a name: the case of letters does not matter.
abbrev pub may_mean : Bytes → Bool → Bool → TargetCandidate → Bool
may_mean name clients channels c =
    is_allowed clients channels c.kind && equal_insensitive c.name name

-- A target is an allowed candidate with the name, but for the case of its letters, and where no candidate
-- has the exact name; without a target, no allowed candidate has the name.
abbrev pub IsResolved : List TargetCandidate → Bytes → Bool → Bool → Option TargetCandidate → Type 0
IsResolved cs name clients channels none = All (λ c. may_mean name clients channels c ≡ false) cs
IsResolved cs name clients channels (some c) =
    Among c cs
    × (may_mean name clients channels c ≡ true)
    × ((c.name ≡ name)
        ⊎ All (λ d. is_allowed clients channels d.kind && bytes_eq d.name name ≡ false) cs)

-- What `Resolve` returns is one of the candidates of the wanted kinds, with the name but for the case of
-- its letters, and with the exact name if any has it; it returns none only where no candidate of the wanted
-- kinds has the name, not even in another case.
pub resolve-IsResolved :
    (cs : List TargetCandidate) (name : Bytes) (clients channels : Bool)
    → IsResolved cs name clients channels (resolve cs name clients channels)
unfolding resolve
resolve-IsResolved cs name clients channels =
    let exact =
      λ (c : TargetCandidate). is_allowed clients channels c.kind && bytes_eq c.name name in
    let similar = may_mean name clients channels in
    elim (Option-cases (first_match exact cs)) [
      | inr (c, one) ↦
          let (among, passed) = (rw one at (first_match-IsMatch exact cs)) in
          let allowed : is_allowed clients channels c.kind ≡ true = ground (arith, passed) in
          let same : c.name ≡ name = (bytes_eq_iff c.name name).0 (ground (arith, passed)) in
          rw (IsResolved, one) (among, rw (allowed, same) (equal_insensitive_refl name), inl same)
      | inl nobody ↦
          let none_exact = (rw nobody at (first_match-IsMatch exact cs)) in
          elim (Option-cases (first_match similar cs)) [
            | inr (c, one) ↦
                let (among, passed) = (rw one at (first_match-IsMatch similar cs)) in
                rw (IsResolved, nobody, one) (among, passed, inr none_exact)
            | inl nobody' ↦
                rw (IsResolved, nobody, nobody') (rw nobody' at (first_match-IsMatch similar cs))
          ]
    ]
