-- ===== src/Exec.antt =====
-- Asynchronous methods that change the stored data and may throw. What was written before a throw
-- stays written, except in a transaction, so the state comes back beside the exception too. An
-- `await` is the bind.
use secondhand_api.Prelude.{Bool, true, false, Option, none, some, ◌≡◌, refl, ap}
use secondhand_api.Http.{Exception, Result, ok, err}

abbrev pub Exec {ℓ} : Type ℓ → Type ℓ → Type ℓ
Exec S A = S → Result A × S

module _ {ℓ} {S A : Type ℓ} where
  abbrev pub pure : A → Exec S A
  pure a s = (ok a, s)

  abbrev pub throw : Exception → Exec S A
  throw e s = (err e, s)

  -- `if (!found) throw e;`, and `found` from there on
  abbrev pub or_throw : Exception → Option A → Exec S A
  or_throw e none s = (err e, s)
  or_throw e (some a) s = (ok a, s)

  -- `await m.catch(() => {})`
  abbrev pub ignore_failure : Exec S A → Exec S (Unit {ℓ})
  ignore_failure m s = (ok tt, (m s).1)

  abbrev settle : Result A → S → S → Result A × S
  settle (ok a) new old = (ok a, new)
  settle (err e) new old = (err e, old)

  -- `$transaction`: an exception undoes what was written.
  abbrev pub transaction : Exec S A → Exec S A
  transaction m s = let (r, s') = m s in settle r s' s

module _ {S : Type 0} where
  -- `if (existing) throw e;`
  abbrev pub throw_if_found {ℓ} : {A : Type ℓ} → Exception → Option A → Exec S (Unit {0})
  throw_if_found e none s = (ok tt, s)
  throw_if_found e (some a) s = (err e, s)

  -- `if (test) throw e;`
  abbrev pub throw_if : Bool → Exception → Exec S (Unit {0})
  throw_if true e s = (err e, s)
  throw_if false e s = (ok tt, s)

module _ {ℓ} {S A B : Type ℓ} where
  abbrev pub continue : Result A → (A → Exec S B) → Exec S B
  continue (ok a) f s = f a s
  continue (err e) f s = (err e, s)

  infixl 10 ◌>>=◌ ◌>>◌
  abbrev pub ◌>>=◌ : Exec S A → (A → Exec S B) → Exec S B
  ◌>>=◌ m f s = let (r, s') = m s in continue r f s'

  abbrev pub ◌>>◌ : Exec S A → Exec S B → Exec S B
  m >> n = m >>= λ _. n

module _ {ℓ} {S A B : Type ℓ} where
  continue-eq-ok :
      (r : Result A) (f : A → Exec S B) (s : S) {b : B} {s' : S}
      → continue r f s ≡ (ok b, s')
      → (a : A) × (r ≡ ok a) × (f a s ≡ (ok b, s'))
  continue-eq-ok (ok a) f s h = (a, refl, h)
  continue-eq-ok (err e) f s h = cc

  -- A bind that returns: so did its parts.
  pub >>=-eq-ok :
      (m : Exec S A) (f : A → Exec S B) (s : S) {b : B} {s' : S}
      → (m >>= f) s ≡ (ok b, s')
      → (a : A) × (s1 : S) × (m s ≡ (ok a, s1)) × (f a s1 ≡ (ok b, s'))
  >>=-eq-ok m f s h =
      let (r, s1) = m s in
      let (a, returned, rest) = continue-eq-ok r f s1 h in
      (a, s1, ap (λ (x : Result A). (x, s1)) returned, rest)

-- What holds before an action holds after it, also if it throws.
abbrev pub Keeps {ℓ} : {S A : Type ℓ} → (S → Type 0) → Exec S A → Type ℓ
Keeps {S} P m = (s : S) → P s → P (m s).1
