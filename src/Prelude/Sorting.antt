-- ===== src/Prelude/Sorting.antt =====
-- Python's `list.sort(key=...)`, which keeps equal elements in their order.
use mathlib.Core.Path.{◌≡◌}
use mathlib.Core.Logic.{inl, inr}
use mathlib.Core.Bool.{Bool, true, false}
use mathlib.Core.List.{List, [], ◌∷◌}
use runbook_platform.Prelude.Tests.{Bool-cases, if◌then◌else◌}
use runbook_platform.Prelude.Tables.{All, All-mono}

module _ {ℓ} {A : Type ℓ} (precedes : A → A → Bool) where
  unfoldable pub insert_by : A → List A → List A
  insert_by a [] = a ∷ []
  insert_by a (b ∷ bs) =
      let rest = insert_by a bs in if precedes a b then a ∷ (b ∷ bs) else b ∷ rest

  unfoldable pub sort_by : List A → List A
  sort_by [] = []
  sort_by (a ∷ rest) = insert_by a (sort_by rest)

unfoldable pub IsSorted {ℓ} : {A : Type ℓ} → (A → A → Bool) → List A → Type ℓ
IsSorted precedes [] = Unit
IsSorted precedes (a ∷ rest) = All (λ b. precedes a b ≡ true) rest × IsSorted precedes rest

module _ {ℓ} {A : Type ℓ} (precedes : A → A → Bool) where
  All-insert_by {κ} :
      (P : A → Type κ) (a : A) (s : List A) → P a → All P s → All P (insert_by precedes a s)
  unfolding insert_by
  All-insert_by P a [] h k = (h, tt)
  All-insert_by P a (b ∷ bs) h k = elim (Bool-cases (precedes a b)) [
    | inl e ↦ rw e (h, k)
    | inr e ↦ rw e (k.0, All-insert_by P a bs h k.1)
  ]

  -- Sorting keeps what all elements have.
  pub All-sort_by {κ} : (P : A → Type κ) (s : List A) → All P s → All P (sort_by precedes s)
  unfolding sort_by
  All-sort_by P [] h = tt
  All-sort_by P (a ∷ rest) h =
      All-insert_by P a (sort_by precedes rest) h.0 (All-sort_by P rest h.1)

  insert_by-All {κ} :
      (P : A → Type κ) (a : A) (s : List A) → All P (insert_by precedes a s) → P a × All P s
  unfolding insert_by
  insert_by-All P a [] h = h
  insert_by-All P a (b ∷ bs) h = elim (Bool-cases (precedes a b)) [
    | inl e ↦ rw e at h
    | inr e ↦ let k = rw e at h in let r = insert_by-All P a bs k.1 in (r.0, (k.0, r.1))
  ]

  -- Sorting drops nothing.
  pub sort_by-All {κ} : (P : A → Type κ) (s : List A) → All P (sort_by precedes s) → All P s
  unfolding sort_by
  sort_by-All P [] h = tt
  sort_by-All P (a ∷ rest) h =
      let r = insert_by-All P a (sort_by precedes rest) h in (r.0, sort_by-All P rest r.1)

module _ {ℓ} {A : Type ℓ} (precedes : A → A → Bool)
    (total : (a b : A) → precedes a b ≡ false → precedes b a ≡ true)
    (trans : (a b c : A) → precedes a b ≡ true → precedes b c ≡ true → precedes a c ≡ true) where
  insert_by-IsSorted :
      (a : A) (s : List A) → IsSorted precedes s → IsSorted precedes (insert_by precedes a s)
  unfolding insert_by IsSorted
  insert_by-IsSorted a [] h = (tt, tt)
  insert_by-IsSorted a (b ∷ bs) h = elim (Bool-cases (precedes a b)) [
    | inl e ↦ rw e ((e, All-mono bs (λ c k. trans a b c e k) h.0), h)
    | inr e ↦ rw e (All-insert_by precedes _ a bs (total a b e) h.0, insert_by-IsSorted a bs h.1)
  ]

  pub sort_by-IsSorted : (s : List A) → IsSorted precedes (sort_by precedes s)
  unfolding sort_by IsSorted
  sort_by-IsSorted [] = tt
  sort_by-IsSorted (a ∷ rest) = insert_by-IsSorted a (sort_by precedes rest) (sort_by-IsSorted rest)
