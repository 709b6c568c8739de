-- ===== src/Actions/Rejects.antt =====
-- Member functions that only read, and such as throw and leave the object as it was.
use ts_cli.Prelude.{Bool, true, false, Option, none, Result, ok, err, if◌then◌else◌, ◌≡◌, refl}
use ts_cli.Actions.{Action, throw, gets, throw_when, call, or_throw, continue, ◌>>=◌, ◌>>◌}

pub record Rejects {ℓ} {S E : Type 0} {A : Type ℓ} (m : Action S E A) : Type ℓ where
  pub rejected : (s : S) → (e : E) × (m s ≡ (err e, s))

pub record Reads {ℓ} {S E : Type 0} {A : Type ℓ} (m : Action S E A) : Type ℓ where
  pub unchanged : (s : S) → (r : Result E A) × (m s ≡ (r, s))

module _ {ℓ} {S E : Type 0} {A : Type ℓ} where
  pub Rejects-throw : (e : E) → Rejects {S = S} (throw {A = A} e)
  unfolding throw
  Rejects-throw e = record { rejected = λ s. (e, refl) }

  pub Rejects-or_throw : (e : E) (o : Option A) → o ≡ none → Rejects {S = S} (or_throw e o)
  unfolding or_throw
  Rejects-or_throw e o absent = record { rejected = λ s. (e, rw absent refl) }

  pub Rejects-if :
      (t : Bool) (m n : Action S E A) → Rejects m → Rejects n → Rejects (if t then m else n)
  Rejects-if true m n first second = first
  Rejects-if false m n first second = second

  pub Rejects-test :
      (t : Bool) (m n : Action S E A)
      → (t ≡ true → Rejects m)
      → (t ≡ false → Rejects n)
      → Rejects (if t then m else n)
  Rejects-test true m n first second = first refl
  Rejects-test false m n first second = second refl

  pub Reads-gets : (read : S → A) → Reads {E = E} (gets read)
  unfolding gets
  Reads-gets read = record { unchanged = λ s. (ok (read s), refl) }

  pub Reads-call : {F : Type 0} (wrap : F → E) (r : Result F A) → Reads {S = S} (call wrap r)
  unfolding call
  Reads-call wrap (ok a) = record { unchanged = λ s. (ok a, refl) }
  Reads-call wrap (err e) = record { unchanged = λ s. (err (wrap e), refl) }

module _ {S E : Type 0} where
  pub Rejects-throw_when : (bad : Bool) (e : E) → bad ≡ true → Rejects {S = S} (throw_when bad e)
  unfolding throw_when
  Rejects-throw_when bad e h = record { rejected = λ s. (e, rw h refl) }

  pub Reads-throw_when : (bad : Bool) (e : E) → Reads {S = S} (throw_when bad e)
  unfolding throw_when
  Reads-throw_when bad e = record { unchanged = λ s. ((if bad then err e else ok tt), refl) }

module _ {ℓ κ} {S E : Type 0} {A : Type ℓ} {B : Type κ} where
  -- What follows an exception is not reached.
  pub Rejects-first : (m : Action S E A) (f : A → Action S E B) → Rejects m → Rejects (m >>= f)
  unfolding ◌>>=◌
  Rejects-first m f h = record { rejected = λ s. let (e, same) = h.rejected s in (e, rw same refl) }

  Rejects-continue :
      (r : Result E A) (f : A → Action S E B) (s : S)
      → ((a : A) → Rejects (f a))
      → (e : E) × (continue (r, s) f ≡ (err e, s))
  Rejects-continue (ok a) f s h = (h a).rejected s
  Rejects-continue (err e) f s h = (e, refl)

  pub Rejects-after :
      (m : Action S E A) (f : A → Action S E B)
      → Reads m
      → ((a : A) → Rejects (f a))
      → Rejects (m >>= f)
  unfolding ◌>>=◌
  Rejects-after m f reads h = record {
    rejected = λ s. let (r, same) = reads.unchanged s in rw same (Rejects-continue r f s h);
  }

  Reads-continue :
      (r : Result E A) (f : A → Action S E B) (s : S)
      → ((a : A) → Reads (f a))
      → (r' : Result E B) × (continue (r, s) f ≡ (r', s))
  Reads-continue (ok a) f s h = (h a).unchanged s
  Reads-continue (err e) f s h = (err e, refl)

  pub Reads-bind :
      (m : Action S E A) (f : A → Action S E B)
      → Reads m
      → ((a : A) → Reads (f a))
      → Reads (m >>= f)
  unfolding ◌>>=◌
  Reads-bind m f reads h = record {
    unchanged = λ s. let (r, same) = reads.unchanged s in rw same (Reads-continue r f s h);
  }

module _ {κ} {S E : Type 0} {B : Type κ} where
  pub Rejects-first_then :
      (m : Action S E (Unit {0})) (n : Action S E B) → Rejects m → Rejects (m >> n)
  unfolding ◌>>◌
  Rejects-first_then m n h = Rejects-first m (λ done. n) h

  pub Rejects-then :
      (m : Action S E (Unit {0})) (n : Action S E B) → Reads m → Rejects n → Rejects (m >> n)
  unfolding ◌>>◌
  Rejects-then m n reads h = Rejects-after m (λ done. n) reads (λ done. h)

pub ruleset rejects_rules = (
  Rejects-throw, Rejects-or_throw, Rejects-if, Rejects-throw_when, Rejects-first, Rejects-after,
  Rejects-first_then, Rejects-then, Reads-gets, Reads-call, Reads-throw_when, Reads-bind,
)
