-- ===== src/Prelude/Results.antt =====
-- Computations that may raise and touch no state, in `do` blocks.
use mathlib.Core.Path.{◌≡◌, refl, subst}
use mathlib.Core.Bool.{Bool, true, false}
use runbook_platform.Prelude.Effects.{Result, ok, err, Error}

module _ {ℓ κ} {A : Type ℓ} {B : Type κ} where
  infixl 5 ◌>>=◌ ◌>>◌
  unfoldable pub ◌>>=◌ : Result A → (A → Result B) → Result B
  ◌>>=◌ (ok a) f = f a
  ◌>>=◌ (err e) f = err e

  unfoldable pub ◌>>◌ : Result A → Result B → Result B
  unfolding ◌>>=◌
  m >> n = m >>= λ _. n

-- `if not test: raise e`
unfoldable pub ensure : Bool → Error → Result (Unit {0})
ensure true e = ok tt
ensure false e = err e

-- `P` holds of what a computation returns, if it returns.
unfoldable pub Gives {ℓ κ} : {A : Type ℓ} → (A → Type κ) → Result A → Type κ
Gives P (ok a) = P a
Gives P (err e) = Unit

module _ {ℓ κ μ} {A : Type ℓ} {B : Type κ} (P : B → Type μ) where
  pub Gives-bind :
      (r : Result A) (f : A → Result B) → ((a : A) → r ≡ ok a → Gives P (f a)) → Gives P (r >>= f)
  unfolding Gives ◌>>=◌
  Gives-bind (ok a) f h = h a refl
  Gives-bind (err e) f h = tt

pub Gives-ensure {ℓ κ} :
    {A : Type ℓ} (P : A → Type κ) (b : Bool) (e : Error) (r : Result A)
    → (b ≡ true → Gives P r)
    → Gives P (ensure b e >> r)
unfolding Gives ◌>>=◌ ◌>>◌ ensure
Gives-ensure P true e r h = h refl
Gives-ensure P false e r h = tt

pub Gives-then {ℓ κ μ} :
    {A : Type ℓ} {B : Type κ} (P : B → Type μ) (m : Result A) (r : Result B)
    → ((a : A) → m ≡ ok a → Gives P r)
    → Gives P (m >> r)
unfolding Gives ◌>>=◌ ◌>>◌
Gives-then P (ok a) r h = h a refl
Gives-then P (err e) r h = tt

pub Gives-ok {ℓ κ} : {A : Type ℓ} (P : A → Type κ) (a : A) → P a → Gives P (ok a)
unfolding Gives
Gives-ok P a h = h

pub Gives-mono {ℓ κ μ} :
    {A : Type ℓ} {P : A → Type κ} {Q : A → Type μ} (r : Result A)
    → ((a : A) → P a → Q a)
    → Gives P r
    → Gives Q r
unfolding Gives
Gives-mono (ok a) f h = f a h
Gives-mono (err e) f h = tt

pub Gives-any {ℓ κ} : {A : Type ℓ} (P : A → Type κ) (r : Result A) → ((a : A) → P a) → Gives P r
unfolding Gives
Gives-any P (ok a) h = h a
Gives-any P (err e) h = tt

-- What a computation that returned has given.
pub Gives-given {ℓ κ} :
    {A : Type ℓ} (P : A → Type κ) (r : Result A) (a : A) → Gives P r → r ≡ ok a → P a
unfolding Gives
Gives-given P r a h e = subst (Gives P) e h
