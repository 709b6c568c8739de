-- ===== src/Actions.antt =====
-- Code that changes an object and may throw: a member function is a function from the object to the
-- outcome and the object as it is left, also where it throws.
pub mod Keeps
pub mod Rejects
pub mod Returns
use ts_cli.Prelude.{Bool, Option, none, some, List, [], ◌∷◌, Result, ok, err, if◌then◌else◌}

abbrev pub Action {ℓ} : Type 0 → Type 0 → Type ℓ → Type ℓ
Action S E A = S → Result E A × S

module _ {S E : Type 0} where
  unfoldable pub return {ℓ} : {A : Type ℓ} → A → Action S E A
  return a s = (ok a, s)

  unfoldable pub throw {ℓ} : {A : Type ℓ} → E → Action S E A
  throw e s = (err e, s)

  -- A member is read.
  unfoldable pub gets {ℓ} : {A : Type ℓ} → (S → A) → Action S E A
  gets read s = (ok (read s), s)

  unfoldable pub modify : (S → S) → Action S E (Unit {0})
  modify change s = (ok tt, change s)

  -- `if (bad) throw e;`
  unfoldable pub throw_when : Bool → E → Action S E (Unit {0})
  throw_when bad e s = (if bad then err e else ok tt, s)

  -- A call that changes nothing of the object; its exceptions are among those of the object.
  unfoldable pub call {ℓ} : {F : Type 0} {A : Type ℓ} → (F → E) → Result F A → Action S E A
  call wrap (ok a) s = (ok a, s)
  call wrap (err e) s = (err (wrap e), s)

  unfoldable pub or_throw {ℓ} : {A : Type ℓ} → E → Option A → Action S E A
  or_throw e none s = (err e, s)
  or_throw e (some a) s = (ok a, s)

  abbrev pub continue {κ ℓ} :
      {A : Type κ} {B : Type ℓ} → Result E A × S → (A → Action S E B) → Result E B × S
  continue (err e, s) next = (err e, s)
  continue (ok a, s) next = next a s

  infixl 5 ◌>>=◌ ◌>>◌
  unfoldable pub ◌>>=◌ {κ ℓ} :
      {A : Type κ} {B : Type ℓ} → Action S E A → (A → Action S E B) → Action S E B
  ◌>>=◌ first next s = continue (first s) next

  unfoldable pub ◌>>◌ {ℓ} : {B : Type ℓ} → Action S E (Unit {0}) → Action S E B → Action S E B
  unfolding ◌>>=◌
  first >> next = first >>= λ done. next

  -- `for ( … ) body`
  unfoldable pub for_each {ℓ} :
      {A : Type ℓ} → (A → Action S E (Unit {0})) → List A → Action S E (Unit {0})
  unfolding return ◌>>=◌ ◌>>◌
  for_each body [] = return tt
  for_each body (a ∷ rest) = body a >> for_each body rest
