-- ===== src/Prelude/Tables.antt =====
-- Tables of rows with a primary key: `get`, `filter(...).exists()`, `count()`,
-- `order_by(...).first()`, `filter(pk=...).update(...)` and `save(update_fields=[...])`.
use mathlib.Core.Option
use Prim.Native.Nat.{ℕ, suc, ◌+◌, ◌≤◌}
use mathlib.Core.Logic.{inl, inr}
use native.Mathlib.Nat.{le_trans}
use mathlib.Core.Path.{◌≡◌, refl, ap, sym, ◌∙◌}
use mathlib.Core.Bool.{Bool, true, false}
use mathlib.Core.Option.{Option, none, some}
use mathlib.Core.List.{List, [], ◌∷◌, ◌++◌}
use native.Mathlib.Omega.{arith}
use runbook_platform.Prelude.Tests.{
  leb, Option-cases, Bool-cases, eq_iff, eq_refl, ◌==◌, nat_eq, if◌then◌else◌,
}

pub record Row {ℓ} (A : Type ℓ) : Type ℓ where
  pub row_id : A → ℕ

abbrev pub key_of {ℓ} : {A : Type ℓ} ⦃r : Row A⦄ → A → ℕ
key_of ⦃r⦄ = r.row_id

-- `P` of every row of the table.
abbrev pub All {ℓ κ} : {A : Type ℓ} → (A → Type κ) → List A → Type κ
All P [] = Unit
All P (x ∷ xs) = P x × All P xs

module _ {ℓ} {A : Type ℓ} where
  unfoldable pub any_row : (A → Bool) → List A → Bool
  any_row p [] = false
  any_row p (x ∷ xs) = let rest = any_row p xs in if p x then true else rest

  unfoldable pub all_rows : (A → Bool) → List A → Bool
  all_rows p [] = true
  all_rows p (x ∷ xs) = let rest = all_rows p xs in if p x then rest else false

  unfoldable pub count_rows : (A → Bool) → List A → ℕ
  count_rows p [] = 0
  count_rows p (x ∷ xs) = let rest = count_rows p xs in if p x then suc rest else rest

  pub count_rows-append :
      (p : A → Bool) (xs : List A) (x : A)
      → count_rows p (xs ++ x ∷ []) ≡ count_rows p xs + (if p x then 1 else 0)
  unfolding count_rows
  count_rows-append p [] x = ground arith
  count_rows-append p (y ∷ ys) x = ground (arith, count_rows-append p ys x)

  unfoldable pub select : (A → Bool) → List A → List A
  select p [] = []
  select p (x ∷ xs) = let rest = select p xs in if p x then x ∷ rest else rest

  -- The one row that a `get(...)` on a unique column finds.
  unfoldable pub find_where : (A → Bool) → List A → Option A
  find_where p [] = none
  find_where p (x ∷ xs) = let rest = find_where p xs in if p x then some x else rest

  -- `filter(p).update(f)`.
  unfoldable pub update_where : (A → Bool) → (A → A) → List A → List A
  update_where p f [] = []
  update_where p f (x ∷ xs) = (if p x then f x else x) ∷ update_where p f xs

  unfoldable pub nearer : (A → ℕ) → A → Option A → A
  nearer key x none = x
  nearer key x (some y) = if leb (key x) (key y) then x else y

  -- `filter(p).order_by(key).first()`: among equal keys the row that stands first in the table.
  unfoldable pub earliest : (A → ℕ) → (A → Bool) → List A → Option A
  unfolding nearer
  earliest key p [] = none
  earliest key p (x ∷ xs) =
      let rest = earliest key p xs in if p x then some (nearer key x rest) else rest

  pub earliest_satisfies :
      (key : A → ℕ) (p : A → Bool) (xs : List A) (x : A) → earliest key p xs ≡ some x → p x ≡ true
  unfolding earliest
  earliest_satisfies key p [] x h = cc
  earliest_satisfies key p (y ∷ ys) x h = ground (arith, earliest_satisfies key p ys x)

  pub All-mono {κ μ} :
      {P : A → Type κ} {Q : A → Type μ} (xs : List A) → ((x : A) → P x → Q x) → All P xs → All Q xs
  All-mono [] f h = tt
  All-mono (x ∷ xs) f h = (f x h.0, All-mono xs f h.1)

  pub All-append {κ} : (P : A → Type κ) (xs ys : List A) → All P xs → All P ys → All P (xs ++ ys)
  All-append P [] ys h k = k
  All-append P (x ∷ xs) ys h k = (h.0, All-append P xs ys h.1 k)

  earliest-none :
      (key : A → ℕ) (p : A → Bool) (xs : List A)
      → earliest key p xs ≡ none
      → All (λ y. p y ≡ true → ⊥) xs
  unfolding earliest
  earliest-none key p [] h = tt
  earliest-none key p (y ∷ ys) h = (λ e. ground arith, earliest-none key p ys (ground arith))

  pub earliest_least :
      (key : A → ℕ) (p : A → Bool) (xs : List A) (x : A)
      → earliest key p xs ≡ some x
      → All (λ y. p y ≡ true → key x ≤ key y) xs
  unfolding earliest
  earliest_least key p [] x h = tt
  earliest_least key p (y ∷ ys) x h = elim (Option-cases (earliest key p ys)) [
    | inl e ↦
        (λ t. ground (arith, e), All-mono ys (λ z f t. absurd (f t)) (earliest-none key p ys e))
    | inr (z, e) ↦ (
      λ t. ground (arith, e),
      All-mono ys (λ w f t. le_trans (ground (arith, e, earliest_satisfies key p ys z e)) (f t))
          (earliest_least key p ys z e),
    )
  ]

module _ {ℓ} {A : Type ℓ} ⦃r : Row A⦄ where
  -- `objects.get(pk=k)`.
  unfoldable pub find_row : ℕ → List A → Option A
  find_row k [] = none
  find_row k (x ∷ xs) = let rest = find_row k xs in if key_of x == k then some x else rest

  -- Writes to the row with key `k`.
  unfoldable pub update_row : ℕ → (A → A) → List A → List A
  update_row k f [] = []
  update_row k f (x ∷ xs) = (if key_of x == k then f x else x) ∷ update_row k f xs

  pub find_row-update_row :
      (j k : ℕ) (f : A → A) (xs : List A)
      → ((x : A) → key_of (f x) ≡ key_of x)
      → find_row j (update_row k f xs)
        ≡ (if k == j then Option.map f (find_row j xs) else find_row j xs)
  unfolding find_row update_row
  find_row-update_row j k f [] keeps = ground arith
  find_row-update_row j k f (x ∷ xs) keeps =
      ground (arith, keeps x, find_row-update_row j k f xs keeps)

  -- A write to another row, or one that leaves the row as it is, is not seen.
  pub find_row-update_row_same :
      (j k : ℕ) (f : A → A) (xs : List A) (x : A)
      → ((y : A) → key_of (f y) ≡ key_of y)
      → find_row j xs ≡ some x
      → (k ≡ j → f x ≡ x)
      → find_row j (update_row k f xs) ≡ some x
  find_row-update_row_same j k f xs x keeps found same =
      rw (find_row-update_row j k f xs keeps, found)
        (elim (Bool-cases (k == j)) [
          | inl e ↦ rw e (ap some (same ((eq_iff k j).0 e)))
          | inr e ↦ rw e refl
        ])

  pub find_row-update_where :
      (j : ℕ) (p : A → Bool) (f : A → A) (xs : List A)
      → ((y : A) → key_of (f y) ≡ key_of y)
      → find_row j (update_where p f xs) ≡ Option.map (λ x. if p x then f x else x) (find_row j xs)
  unfolding find_row update_where
  find_row-update_where j p f [] keeps = ground arith
  find_row-update_where j p f (x ∷ xs) keeps =
      ground (arith, keeps x, find_row-update_where j p f xs keeps)

  pub find_row_key : (k : ℕ) (xs : List A) (x : A) → find_row k xs ≡ some x → key_of x ≡ k
  unfolding find_row
  find_row_key k [] x h = ground arith
  find_row_key k (y ∷ ys) x h = ground (arith, find_row_key k ys x)

  -- A row that is found and satisfies the test is among the selected ones.
  pub any_row-select :
      (k : ℕ) (p : A → Bool) (xs : List A) (x : A)
      → find_row k xs ≡ some x
      → p x ≡ true
      → any_row (λ y. key_of y == k) (select p xs) ≡ true
  unfolding find_row select any_row
  any_row-select k p [] x h t = ground arith
  any_row-select k p (y ∷ ys) x h t = ground (arith, any_row-select k p ys x)

  -- A row that is found is found after more rows are appended.
  pub find_row-append :
      (k : ℕ) (xs ys : List A) (x : A) → find_row k xs ≡ some x → find_row k (xs ++ ys) ≡ some x
  unfolding find_row
  find_row-append k [] ys x h = ground arith
  find_row-append k (y ∷ xs) ys x h = ground (arith, find_row-append k xs ys x)

  -- A row appended under a key that no row has is the one found.
  pub find_row-append_new :
      (xs : List A) (x : A)
      → find_row (key_of x) xs ≡ none
      → find_row (key_of x) (xs ++ x ∷ []) ≡ some x
  unfolding find_row
  find_row-append_new [] x h = ground (arith, eq_refl (key_of x))
  find_row-append_new (y ∷ xs) x h = ground (arith, find_row-append_new xs x)

  -- After a row with a new key is appended, that key finds it and every other key what it found.
  pub find_row-append_fresh :
      (j : ℕ) (xs : List A) (x : A)
      → find_row (key_of x) xs ≡ none
      → find_row j (xs ++ x ∷ []) ≡ (if key_of x == j then some x else find_row j xs)
  unfolding find_row
  find_row-append_fresh j [] x h = refl
  find_row-append_fresh j (y ∷ xs) x h = ground (arith, find_row-append_fresh j xs x)

  -- A test that no row passes fails on a row that is found.
  pub any_row-find_row :
      (p : A → Bool) (k : ℕ) (xs : List A) (x : A)
      → any_row p xs ≡ false
      → find_row k xs ≡ some x
      → p x ≡ false
  unfolding find_row any_row
  any_row-find_row p k [] x h t = ground arith
  any_row-find_row p k (y ∷ ys) x h t = ground (arith, any_row-find_row p k ys x)

  -- After a write to a row that is there, its key finds the new row and every other key what it
  -- found.
  pub find_row-update_row_put :
      (j k : ℕ) (f : A → A) (xs : List A) (x : A)
      → ((y : A) → key_of (f y) ≡ key_of y)
      → find_row k xs ≡ some x
      → find_row j (update_row k f xs) ≡ (if k == j then some (f x) else find_row j xs)
  find_row-update_row_put j k f xs x keeps found =
      rw (find_row-update_row j k f xs keeps) (elim (Bool-cases (k == j)) [
        | inl e ↦
            rw e (ap (Option.map f) (ap (λ i. find_row i xs) (sym ((eq_iff k j).0 e)) ∙ found))
        | inr e ↦ rw e refl
      ])
