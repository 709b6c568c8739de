-- ===== src/Actions/Returns.antt =====
-- Member functions that return, one call after the other.
use ts_cli.Prelude.{Bool, false, Option, some, Result, ok, ◌≡◌, refl}
use ts_cli.Actions.{Action, throw_when, call, or_throw, ◌>>=◌, ◌>>◌}

module _ {ℓ κ} {S E : Type 0} {A : Type ℓ} {B : Type κ} where
  pub after :
      (m : Action S E A) (f : A → Action S E B) (s s' : S) (a : A)
      → m s ≡ (ok a, s')
      → (m >>= f) s ≡ f a s'
  unfolding ◌>>=◌
  after m f s s' a e = rw e refl

module _ {κ} {S E : Type 0} {B : Type κ} where
  pub then_after :
      (m : Action S E (Unit {0})) (n : Action S E B) (s s' : S)
      → m s ≡ (ok tt, s')
      → (m >> n) s ≡ n s'
  unfolding ◌>>◌
  then_after m n s s' e = after m (λ done. n) s s' tt e

module _ {ℓ} {S E F : Type 0} {A : Type ℓ} where
  pub call-returns :
      (wrap : F → E) (r : Result F A) (a : A) (s : S) → r ≡ ok a → call wrap r s ≡ (ok a, s)
  unfolding call
  call-returns wrap r a s e = rw e refl

pub throw_when-returns :
    {S E : Type 0} (bad : Bool) (e : E) (s : S) → bad ≡ false → throw_when bad e s ≡ (ok tt, s)
unfolding throw_when
throw_when-returns bad e s good = rw good refl

module _ {ℓ} {S E : Type 0} {A : Type ℓ} where
  pub or_throw-returns :
      (e : E) (o : Option A) (a : A) (s : S) → o ≡ some a → or_throw e o s ≡ (ok a, s)
  unfolding or_throw
  or_throw-returns e o a s given = rw given refl
