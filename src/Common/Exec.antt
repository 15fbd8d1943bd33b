-- ===== src/Common/Exec.antt =====
-- A method on `&mut self` that may fail. What was written before an error stays written, so the
-- object comes back beside the error too.
use mathlib.Core.Path.{◌≡◌, refl, ap}
use native.Mathlib.Omega.{arith}
use cubic.Common.Result.{Result, ok, err}

abbrev pub Exec {ℓ κ μ} : Type ℓ → Type κ → Type μ → Type (ℓ ⊔ κ ⊔ μ)
Exec S E A = S → Result A E × S

module _ {ℓ κ μ} {S : Type ℓ} {E : Type κ} {A : Type μ} where
  abbrev pub pure : A → Exec S E A
  pure a s = (ok a, s)

  abbrev pub raise : E → Exec S E A
  raise e s = (err e, s)

  -- the `?` operator on a value that does not touch the object
  abbrev pub lift : Result A E → Exec S E A
  lift r s = (r, s)

  abbrev pub gets : (S → A) → Exec S E A
  gets f s = (ok (f s), s)

module _ {ℓ κ μ ν} {S : Type ℓ} {E : Type κ} {A : Type μ} {B : Type ν} where
  abbrev pub go_on : (A → Exec S E B) → Result A E → Exec S E B
  go_on f (ok a) s = f a s
  go_on f (err e) s = (err e, s)

  infixl 10 ◌>>=◌
  abbrev pub ◌>>=◌ : Exec S E A → (A → Exec S E B) → Exec S E B
  ◌>>=◌ m f s = go_on f (m s).0 (m s).1

module _ {ℓ κ ν} {S : Type ℓ} {E : Type κ} {B : Type ν} where
  infixl 10 ◌>>◌
  abbrev pub ◌>>◌ : Exec S E (Unit {0}) → Exec S E B → Exec S E B
  m >> k = m >>= λ _. k

module _ {S E A B : Type 0} where
  -- what comes before a step that ended well has ended well itself
  pub go_on-ok :
      (r : Result A E) (f : A → Exec S E B) (s t : S) (b : B)
      → go_on f r s ≡ (ok b, t)
      → (a : A) × (r ≡ ok a) × (f a s ≡ (ok b, t))
  go_on-ok (ok a) f s t b e = (a, refl, e)
  go_on-ok (err x) f s t b e = ground (arith, e)

  pub bind-ok :
      (m : Exec S E A) (f : A → Exec S E B) (s t : S) (b : B)
      → (m >>= f) s ≡ (ok b, t)
      → (a : A) × (between : S) × (m s ≡ (ok a, between)) × (f a between ≡ (ok b, t))
  bind-ok m f s t b e =
      let (a, p, q) = go_on-ok (m s).0 f (m s).1 t b e in (a, (m s).1, ap (λ x. (x, (m s).1)) p, q)
