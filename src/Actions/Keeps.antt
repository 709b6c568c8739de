-- ===== src/Actions/Keeps.antt =====
-- What a member function keeps, whether it returns or throws.
use ts_cli.Prelude.{
  Bool, true, false, Option, none, some, List, [], ◌∷◌, Result, ok, err, if◌then◌else◌,
}
use ts_cli.Actions.{
  Action, return, throw, gets, throw_when, call, or_throw, continue, ◌>>=◌, ◌>>◌, for_each,
}

pub record Keeps {ℓ κ} {S E : Type 0} {A : Type ℓ} (P : S → Type κ) (m : Action S E A)
    : Type κ where
  pub at : (s : S) → P s → P (m s).1

module _ {ℓ κ} {S E : Type 0} {A : Type ℓ} {P : S → Type κ} where
  pub Keeps-return : (a : A) → Keeps {E = E} P (return a)
  unfolding return
  Keeps-return a = record { at = λ s h. h }

  pub Keeps-throw : (e : E) → Keeps P (throw {A = A} e)
  unfolding throw
  Keeps-throw e = record { at = λ s h. h }

  pub Keeps-gets : (read : S → A) → Keeps {E = E} P (gets read)
  unfolding gets
  Keeps-gets read = record { at = λ s h. h }

  pub Keeps-call : {F : Type 0} (wrap : F → E) (r : Result F A) → Keeps P (call wrap r)
  unfolding call
  Keeps-call wrap (ok a) = record { at = λ s h. h }
  Keeps-call wrap (err e) = record { at = λ s h. h }

  pub Keeps-or_throw : (e : E) (o : Option A) → Keeps P (or_throw e o)
  unfolding or_throw
  Keeps-or_throw e none = record { at = λ s h. h }
  Keeps-or_throw e (some a) = record { at = λ s h. h }

  pub Keeps-if :
      (t : Bool) (m n : Action S E A) → Keeps P m → Keeps P n → Keeps P (if t then m else n)
  Keeps-if true m n first second = first
  Keeps-if false m n first second = second

module _ {κ} {S E : Type 0} {P : S → Type κ} where
  pub Keeps-throw_when : (bad : Bool) (e : E) → Keeps P (throw_when bad e)
  unfolding throw_when
  Keeps-throw_when bad e = record { at = λ s h. h }

module _ {ℓ ι κ} {S E : Type 0} {A : Type ℓ} {B : Type ι} {P : S → Type κ} where
  Keeps-continue :
      (o : Result E A × S) (f : A → Action S E B)
      → P o.1
      → ((a : A) → Keeps P (f a))
      → P (continue o f).1
  Keeps-continue (ok a, s) f h keeps = (keeps a).at s h
  Keeps-continue (err e, s) f h keeps = h

  pub Keeps-bind :
      (m : Action S E A) (f : A → Action S E B)
      → Keeps P m
      → ((a : A) → Keeps P (f a))
      → Keeps P (m >>= f)
  unfolding ◌>>=◌
  Keeps-bind m f first rest = record { at = λ s h. Keeps-continue (m s) f (first.at s h) rest }

module _ {ι κ} {S E : Type 0} {B : Type ι} {P : S → Type κ} where
  pub Keeps-then :
      (m : Action S E (Unit {0})) (n : Action S E B) → Keeps P m → Keeps P n → Keeps P (m >> n)
  unfolding ◌>>◌
  Keeps-then m n first rest = Keeps-bind m (λ done. n) first (λ done. rest)

module _ {ℓ κ} {S E : Type 0} {A : Type ℓ} {P : S → Type κ} where
  pub Keeps-for_each :
      (body : A → Action S E (Unit {0})) (xs : List A)
      → ((a : A) → Keeps P (body a))
      → Keeps P (for_each body xs)
  unfolding for_each
  Keeps-for_each body [] keeps = Keeps-return tt
  Keeps-for_each body (a ∷ rest) keeps =
      Keeps-then (body a) (for_each body rest) (keeps a) (Keeps-for_each body rest keeps)

pub ruleset keeps_rules = (
  Keeps-return, Keeps-throw, Keeps-gets, Keeps-call, Keeps-or_throw, Keeps-if, Keeps-throw_when,
  Keeps-bind, Keeps-then, Keeps-for_each,
)
