-- ===== src/Prelude/Effects.antt =====
-- Service calls: an action reads and writes a state and returns a value or raises. What was
-- written before a raise stays written unless `atomic` rolls it back.
use Prim.Native.String.{String}
use mathlib.Core.Path.{◌≡◌, refl}
use mathlib.Core.Logic.{◌⊎◌, inl, inr}
use mathlib.Core.Bool.{Bool, true, false}
use runbook_platform.Prelude.Tests.{if◌then◌else◌}
use mathlib.Core.Option.{Option, none, some}

-- apps/common/exceptions.py: each class with its `code`; `not_found` is `Model.DoesNotExist`,
-- `integrity_error` a unique column's second use, `type_error` a value that `int` refuses, and
-- `validation_error` Django's `ValidationError`.
pub data Error : Type 0 where
  invalid_state_transition domain_validation domain_conflict : String → Error
  invalid_workflow_definition payload_too_large external_dependency : String → Error
  not_found integrity_error type_error validation_error : Error

pub data Result {ℓ} (A : Type ℓ) : Type ℓ where
  ok : A → Result A
  err : Error → Result A

abbrev pub Action {ℓ} : Type ℓ → Type ℓ → Type ℓ
Action S A = S → Result A × S

module _ {ℓ} {S A : Type ℓ} where
  abbrev pub pure : A → Action S A
  pure a s = (ok a, s)

  abbrev pub raise : Error → Action S A
  raise e s = (err e, s)

  abbrev pub gets : (S → A) → Action S A
  gets f s = (ok (f s), s)

  abbrev pub commit_or_rollback : S → Result A → S → Result A × S
  commit_or_rollback before (ok a) after = (ok a, after)
  commit_or_rollback before (err e) after = (err e, before)

  -- `with transaction.atomic():`
  abbrev pub atomic : Action S A → Action S A
  atomic m s = let (r, s') = m s in commit_or_rollback s r s'

  -- The row that a lookup found, or a raise.
  abbrev pub require : Error → Option A → Action S A
  require e none s = (err e, s)
  require e (some a) s = (ok a, s)

-- A check that names the error to raise.
abbrev pub raise_if {ℓ} : {S : Type ℓ} → Option Error → Action S (Unit {ℓ})
raise_if none s = (ok tt, s)
raise_if (some e) s = (err e, s)

abbrev pub modify {ℓ} : {S : Type ℓ} → (S → S) → Action S (Unit {ℓ})
modify f s = (ok tt, f s)

-- `if not test: raise e`
abbrev pub guard {ℓ} : {S : Type ℓ} → Bool → Error → Action S (Unit {ℓ})
guard true e s = (ok tt, s)
guard false e s = (err e, s)

module _ {ℓ} {S A B : Type ℓ} where
  abbrev pub continue : Result A → (A → Action S B) → S → Result B × S
  continue (ok a) f s = f a s
  continue (err e) f s = (err e, s)

  infixl 5 ◌>>=◌ ◌>>◌
  abbrev pub ◌>>=◌ : Action S A → (A → Action S B) → Action S B
  ◌>>=◌ m f s = let (r, s') = m s in continue r f s'

  abbrev pub ◌>>◌ : Action S A → Action S B → Action S B
  m >> n = m >>= λ _. n

-- `P` holds of the state that a call leaves, whether it returns or raises.
pub record Leaves {ℓ} {S A : Type ℓ} (P : S → Type ℓ) (r : Result A × S) : Type ℓ where
  pub leaves : P r.1

module _ {ℓ} {S A : Type ℓ} {P : S → Type ℓ} where
  pub Leaves-result : (r : Result A) (s : S) → P s → Leaves P (r, s)
  Leaves-result r s h = record { leaves = h }

  pub Leaves-if :
      (b : Bool) (x y : Result A × S)
      → (b ≡ true → Leaves P x)
      → (b ≡ false → Leaves P y)
      → Leaves P (if b then x else y)
  Leaves-if true x y f g = f refl
  Leaves-if false x y f g = g refl

  pub Leaves-rollback :
      (s : S) (r : Result A × S) → P s → Leaves P r → Leaves P (commit_or_rollback s r.0 r.1)
  Leaves-rollback s (ok a, t) h k = record { leaves = k.leaves }
  Leaves-rollback s (err e, t) h k = record { leaves = h }

pub ruleset leaves_rules = (Leaves-result, Leaves-if, Leaves-rollback)

pub Result-cases {ℓ} :
    {A : Type ℓ} (r : Result A) → ((a : A) × (r ≡ ok a)) ⊎ ((e : Error) × (r ≡ err e))
Result-cases (ok a) = inl (a, refl)
Result-cases (err e) = inr (e, refl)
