-- ===== src/Prelude/Outcomes.antt =====
-- The outcome of code that may throw: a value, or the exception.
use mathlib.Core.Path.{◌≡◌, refl}
use mathlib.Core.Bool.{Bool}
use mathlib.Core.Logic.{◌⊎◌, inl, inr}
use ts_cli.Prelude.Tests.{if◌then◌else◌}

pub data Result {ℓ} (E : Type 0) (V : Type ℓ) : Type ℓ where
  err : E → Result E V
  ok : V → Result E V

module _ {E : Type 0} where
  infixl 5 ◌>>=◌ ◌>>◌
  -- What follows a call: it runs if the call has returned.
  abbrev pub ◌>>=◌ {κ ℓ} : {V : Type κ} {W : Type ℓ} → Result E V → (V → Result E W) → Result E W
  call >>= next = elim call [ err thrown ↦ err thrown | ok v ↦ next v ]

  -- `if (bad) throw e;`
  abbrev pub throw_if : Bool → E → Result E (Unit {0})
  throw_if bad e = if bad then err e else ok tt

  abbrev pub ◌>>◌ {κ} : {W : Type κ} → Result E (Unit {0}) → Result E W → Result E W
  test >> next = elim test [ err thrown ↦ err thrown | ok done ↦ next ]

  pub Result-cases {ℓ} :
      {V : Type ℓ} (call : Result E V) → ((v : V) × (call ≡ ok v)) ⊎ ((e : E) × (call ≡ err e))
  Result-cases (err e) = inr (e, refl)
  Result-cases (ok v) = inl (v, refl)

  -- A sequence returns only if its first call does.
  pub >>=-returns {κ ℓ} :
      {V : Type κ} {W : Type ℓ} (call : Result E V) (next : V → Result E W) {w : W}
      → (call >>= next) ≡ ok w
      → (v : V) × (call ≡ ok v) × (next v ≡ ok w)
  >>=-returns (err thrown) next returned = cc
  >>=-returns (ok v) next returned = (v, refl, returned)
