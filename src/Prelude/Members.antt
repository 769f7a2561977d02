-- ===== src/Prelude/Members.antt =====
-- Which rows a table holds.
use Prim.Native.Nat.{ℕ}
use mathlib.Core.Path.{◌≡◌, refl, sym, ap, subst, ◌∙◌}
use mathlib.Core.Logic.{inl, inr}
use mathlib.Core.Bool.{Bool, true}
use mathlib.Core.Option.{some}
use mathlib.Core.List.{List, [], ◌∷◌}
use mathlib.Core.List.Memᴰ
use mathlib.Core.List.{Memᴰ}
use native.Mathlib.Omega.{arith}
use runbook_platform.Prelude.Tests.{leb, nat_eq, eq_refl, Bool-cases, Option-cases}
use runbook_platform.Prelude.Tables.{
  Row, key_of, earliest, nearer, update_row, find_where, All, All-mono, select,
}

module _ {ℓ} {A : Type ℓ} where
  pub Memᴰ-earliest :
      (key : A → ℕ) (p : A → Bool) (xs : List A) (x : A) → earliest key p xs ≡ some x → Memᴰ x xs
  unfolding earliest nearer
  Memᴰ-earliest key p [] x h = absurd (ground (arith, h))
  Memᴰ-earliest key p (y ∷ ys) x h = elim (Bool-cases (p y)) [
    | inr e ↦ Memᴰ.tail (Memᴰ-earliest key p ys x (ground (arith, h, e)))
    | inl e ↦ elim (Option-cases (earliest key p ys)) [
      | inl n ↦ Memᴰ.head (ground (arith, h, e, n))
      | inr (z, n) ↦ elim (Bool-cases (leb (key y) (key z))) [
        | inl t ↦ Memᴰ.head (ground (arith, h, e, n, t))
        | inr t ↦ Memᴰ.tail (Memᴰ-earliest key p ys x (ground (arith, h, e, n, t)))
      ]
    ]
  ]

  pub Memᴰ-update_row :
      ⦃r : Row A⦄ (k : ℕ) (f : A → A) (xs : List A) (x : A)
      → key_of x ≡ k
      → Memᴰ x xs
      → Memᴰ (f x) (update_row k f xs)
  unfolding update_row
  Memᴰ-update_row k f [] x same m = elim m [ ]
  Memᴰ-update_row k f (y ∷ ys) x same (Memᴰ.head e) = Memᴰ.head (rw (sym e, same, eq_refl k) refl)
  Memᴰ-update_row k f (y ∷ ys) x same (Memᴰ.tail m) = Memᴰ.tail (Memᴰ-update_row k f ys x same m)

  pub Memᴰ-find_where : (p : A → Bool) (xs : List A) (x : A) → find_where p xs ≡ some x → Memᴰ x xs
  unfolding find_where
  Memᴰ-find_where p [] x h = absurd (ground (arith, h))
  Memᴰ-find_where p (y ∷ ys) x h = elim (Bool-cases (p y)) [
    | inl e ↦ Memᴰ.head (ground (arith, h, e))
    | inr e ↦ Memᴰ.tail (Memᴰ-find_where p ys x (ground (arith, h, e)))
  ]

  pub All-Memᴰ {κ} : (P : A → Type κ) (xs : List A) (x : A) → All P xs → Memᴰ x xs → P x
  All-Memᴰ P [] x h m = elim m [ ]
  All-Memᴰ P (y ∷ ys) x h (Memᴰ.head e) = subst P (sym e) h.0
  All-Memᴰ P (y ∷ ys) x h (Memᴰ.tail m) = All-Memᴰ P ys x h.1 m

  pub Memᴰ-All : (xs : List A) → All (λ x. Memᴰ x xs) xs
  Memᴰ-All [] = tt
  Memᴰ-All (x ∷ xs) = (Memᴰ.head refl, All-mono xs (λ y m. Memᴰ.tail m) (Memᴰ-All xs))

  pub Memᴰ-select :
      (p : A → Bool) (xs : List A) (x : A) → p x ≡ true → Memᴰ x xs → Memᴰ x (select p xs)
  unfolding select
  Memᴰ-select p [] x t m = elim m [ ]
  Memᴰ-select p (y ∷ ys) x t (Memᴰ.head e) = rw (ap p (sym e) ∙ t) (Memᴰ.head e)
  Memᴰ-select p (y ∷ ys) x t (Memᴰ.tail m) = elim (Bool-cases (p y)) [
    | inl e ↦ rw e (Memᴰ.tail (Memᴰ-select p ys x t m))
    | inr e ↦ rw e (Memᴰ-select p ys x t m)
  ]

  pub select-Memᴰ :
      (p : A → Bool) (xs : List A) (x : A) → Memᴰ x (select p xs) → (p x ≡ true) × Memᴰ x xs
  unfolding select
  select-Memᴰ p [] x m = elim m [ ]
  select-Memᴰ p (y ∷ ys) x m = elim (Bool-cases (p y)) [
    | inl e ↦ elim (Memᴰ.cases_cons (rw e at m)) [
      | inl same ↦ (ap p same ∙ e, Memᴰ.head same)
      | inr n ↦ let (t, k) = select-Memᴰ p ys x n in (t, Memᴰ.tail k)
    ]
    | inr e ↦ let (t, k) = select-Memᴰ p ys x (rw e at m) in (t, Memᴰ.tail k)
  ]
