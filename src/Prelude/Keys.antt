-- ===== src/Prelude/Keys.antt =====
-- Tables whose rows have different keys.
use Prim.Native.Nat.{ℕ}
use mathlib.Core.Path.{◌≡◌, refl, sym, ap, subst, ◌∙◌}
use mathlib.Core.Logic.{inl, inr}
use mathlib.Core.Option.{none, some}
use mathlib.Core.List.{List, [], ◌∷◌, ◌++◌, Memᴰ}
use native.Mathlib.Omega.{arith}
use runbook_platform.Prelude.Tests.{◌==◌, nat_eq, eq_iff, eq_refl, Bool-cases, if◌then◌else◌}
use runbook_platform.Prelude.Tables.{
  Row, key_of, All, find_row, update_row, find_row-update_row, find_row-append_fresh,
}

module _ {ℓ} {A : Type ℓ} ⦃r : Row A⦄ where
  -- No two rows have the same key.
  unfoldable pub HasKeys : List A → Type ℓ
  HasKeys [] = Unit
  HasKeys (x ∷ xs) = (find_row (key_of x) xs ≡ none) × HasKeys xs

  update_row-absent :
      (k : ℕ) (f : A → A) (xs : List A) → find_row k xs ≡ none → update_row k f xs ≡ xs
  unfolding find_row update_row
  update_row-absent k f [] h = refl
  update_row-absent k f (x ∷ xs) h = ground (arith, h, update_row-absent k f xs)

  pub update_row-HasKeys :
      (k : ℕ) (f : A → A) (xs : List A)
      → ((x : A) → key_of (f x) ≡ key_of x)
      → HasKeys xs
      → HasKeys (update_row k f xs)
  unfolding HasKeys update_row
  update_row-HasKeys k f [] keeps h = tt
  update_row-HasKeys k f (x ∷ xs) keeps h = (head, update_row-HasKeys k f xs keeps h.1)
    where
      kept : key_of (if key_of x == k then f x else x) ≡ key_of x
      kept = elim (Bool-cases (key_of x == k)) [ inl e ↦ rw e (keeps x) | inr e ↦ rw e refl ]

      head : find_row (key_of (if key_of x == k then f x else x)) (update_row k f xs) ≡ none
      head =
          rw (kept, find_row-update_row (key_of x) k f xs keeps, h.0)
            (elim (Bool-cases (k == key_of x)) [ inl e ↦ rw e refl | inr e ↦ rw e refl ])

  pub append-HasKeys :
      (xs : List A) (x : A) → find_row (key_of x) xs ≡ none → HasKeys xs → HasKeys (xs ++ x ∷ [])
  unfolding HasKeys find_row
  append-HasKeys [] x h k = (refl, tt)
  append-HasKeys (y ∷ xs) x h k = elim (Bool-cases (key_of y == key_of x)) [
    | inl e ↦ absurd (ground (arith, h, e))
    | inr e ↦ (
      rw (find_row-append_fresh (key_of y) xs x (ground (arith, h, e)), k.0)
          (elim (Bool-cases (key_of x == key_of y)) [
            | inl d ↦ absurd (ground (arith, d, e))
            | inr d ↦ rw d refl
          ]),
      append-HasKeys xs x (ground (arith, h, e)) k.1,
    )
  ]

  pub All-append_one {κ} :
      (P : A → Type κ) (xs : List A) (x : A) → P x → All P xs → All P (xs ++ x ∷ [])
  All-append_one P [] x h k = (h, tt)
  All-append_one P (y ∷ xs) x h k = (k.0, All-append_one P xs x h k.1)

  -- A write to a row that is found keeps what all rows have, if the new row has it.
  pub All-update_row {κ} :
      (P : A → Type κ) (k : ℕ) (f : A → A) (xs : List A) (x : A)
      → HasKeys xs
      → find_row k xs ≡ some x
      → P (f x)
      → All P xs
      → All P (update_row k f xs)
  unfolding HasKeys find_row update_row
  All-update_row P k f [] x keys found new h = tt
  All-update_row P k f (y ∷ ys) x keys found new h = elim (Bool-cases (key_of y == k)) [
    | inl e ↦
        rw (e, update_row-absent k f ys (rw (sym ((eq_iff (key_of y) k).0 e)) keys.0))
          (subst (λ z. P (f z)) (sym (ground (arith, found, e))) new, h.1)
    | inr e ↦ rw e (h.0, All-update_row P k f ys x keys.1 (ground (arith, found, e)) new h.1)
  ]

  pub All-find_row {κ} :
      (P : A → Type κ) (k : ℕ) (xs : List A) (x : A) → find_row k xs ≡ some x → All P xs → P x
  unfolding find_row
  All-find_row P k [] x found h = absurd (ground (arith, found))
  All-find_row P k (y ∷ ys) x found h = elim (Bool-cases (key_of y == k)) [
    | inl e ↦ subst P (ground (arith, found, e)) h.0
    | inr e ↦ All-find_row P k ys x (ground (arith, found, e)) h.1
  ]

  -- A row of the table is what its key finds.
  pub find_row-Memᴰ :
      (xs : List A) (x : A) → HasKeys xs → Memᴰ x xs → find_row (key_of x) xs ≡ some x
  unfolding HasKeys find_row
  find_row-Memᴰ [] x h m = elim m [ ]
  find_row-Memᴰ (y ∷ ys) x h (Memᴰ.head e) = rw (e, eq_refl (key_of y)) refl
  find_row-Memᴰ (y ∷ ys) x h (Memᴰ.tail m) =
      let found = find_row-Memᴰ ys x h.1 m in
      elim (Bool-cases (key_of y == key_of x)) [
        | inl e ↦
            let lost : find_row (key_of x) ys ≡ none =
              ap (λ k. find_row k ys) (sym ((eq_iff (key_of y) (key_of x)).0 e)) ∙ h.0 in
            absurd (ground (arith, found, lost))
        | inr e ↦ rw (e, found) refl
      ]
