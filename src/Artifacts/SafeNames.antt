-- ===== src/Artifacts/SafeNames.antt =====
-- The names that `_sanitize_filename` of apps/api/apps/artifacts/services.py gives.
use Prim.Native.Nat.{ℕ, zero, suc, ◌≤◌}
use mathlib.Core.Path.{◌≡◌, refl, ap, sym, ◌∙◌}
use mathlib.Core.Logic.{inl, inr}
use native.Mathlib.Omega.{arith}
use mathlib.Core.Bool.{Bool, true, false, true≢false, not}
use mathlib.Core.List.{List, [], ◌∷◌}
use runbook_platform.Prelude.Tests.{◌==◌, nat_eq, eq_iff, Bool-cases}
use runbook_platform.Prelude.Tables.{All, All-mono, select}
use runbook_platform.Artifacts.Names.{
  contains_code, plain_name, after_last, replace_code, is_control, drop_leading, take_codes,
  is_name_code, replace_unsafe, max_safe_name_length, sanitize_filename, or_default, is_path_code,
}

unfoldable pub length : List ℕ → ℕ
length [] = 0
length (x ∷ xs) = suc (length xs)

-- The first character is another than `c`, and there is one.
unfoldable pub starts_otherwise : ℕ → List ℕ → Bool
starts_otherwise c [] = false
starts_otherwise c (x ∷ xs) = not (x == c)

length-take_codes : (n : ℕ) (xs : List ℕ) → length (take_codes n xs) ≤ n
unfolding length take_codes
length-take_codes zero xs = omega arith
length-take_codes (suc n) [] = omega arith
length-take_codes (suc n) (x ∷ xs) = ground (arith, length-take_codes n xs)

All-take_codes {κ} : (P : ℕ → Type κ) (n : ℕ) (xs : List ℕ) → All P xs → All P (take_codes n xs)
unfolding take_codes
All-take_codes P zero xs h = tt
All-take_codes P (suc n) [] h = tt
All-take_codes P (suc n) (x ∷ xs) h = (h.0, All-take_codes P n xs h.1)

take_codes-short : (n : ℕ) (xs : List ℕ) → length xs ≤ n → take_codes n xs ≡ xs
unfolding length take_codes
take_codes-short zero [] h = refl
take_codes-short zero (x ∷ xs) h = absurd (ground (arith, h))
take_codes-short (suc n) [] h = refl
take_codes-short (suc n) (x ∷ xs) h = ap (λ t. x ∷ t) (take_codes-short n xs (ground (arith, h)))

select_kept {ℓ} :
    {A : Type ℓ} (p : A → Bool) (xs : List A) → All (λ x. p x ≡ true) xs → select p xs ≡ xs
unfolding select
select_kept p [] h = refl
select_kept p (x ∷ xs) h = rw (h.0, select_kept p xs h.1) refl

replace_code-absent :
    (old new : ℕ) (xs : List ℕ) → All (λ x. (x == old) ≡ false) xs → replace_code old new xs ≡ xs
unfolding replace_code
replace_code-absent old new [] h = refl
replace_code-absent old new (x ∷ xs) h = rw (h.0, replace_code-absent old new xs h.1) refl

contains_code-absent :
    (c : ℕ) (xs : List ℕ) → All (λ x. (x == c) ≡ false) xs → contains_code c xs ≡ false
unfolding contains_code
contains_code-absent c [] h = refl
contains_code-absent c (x ∷ xs) h = rw (h.0) (contains_code-absent c xs h.1)

after_last-absent : (c : ℕ) (xs : List ℕ) → All (λ x. (x == c) ≡ false) xs → after_last c xs ≡ xs
unfolding after_last
after_last-absent c [] h = refl
after_last-absent c (x ∷ xs) h = rw (contains_code-absent c xs h.1, h.0) refl

drop_leading-otherwise :
    (c : ℕ) (xs : List ℕ) → starts_otherwise c xs ≡ true → drop_leading c xs ≡ xs
unfolding starts_otherwise drop_leading
drop_leading-otherwise c [] h = refl
drop_leading-otherwise c (x ∷ xs) h = elim (Bool-cases (x == c)) [
  | inl e ↦ absurd (ground (arith, h, e))
  | inr e ↦ rw e refl
]

starts_otherwise-take_codes :
    (c n : ℕ) (xs : List ℕ) → starts_otherwise c (take_codes (suc n) xs) ≡ starts_otherwise c xs
unfolding starts_otherwise take_codes
starts_otherwise-take_codes c n [] = refl
starts_otherwise-take_codes c n (x ∷ xs) = refl

module _ (is_word_beyond : ℕ → Bool) where
  -- A character of a safe name is none of those that the code replaces or drops.
  is_name_code-other :
      (c d : ℕ)
      → is_name_code is_word_beyond d ≡ false
      → is_name_code is_word_beyond c ≡ true
      → (c == d) ≡ false
  is_name_code-other c d bad good = elim (Bool-cases (c == d)) [
    | inl e ↦
        absurd (true≢false (sym good ∙ ap (is_name_code is_word_beyond) ((eq_iff c d).0 e) ∙ bad))
    | inr e ↦ e
  ]

  is_name_code-printable :
      (c : ℕ) → is_name_code is_word_beyond c ≡ true → not (is_control c) ≡ true
  is_name_code-printable c good = ground (arith, good)

  is_name_code-no_path :
      (c : ℕ) → is_name_code is_word_beyond c ≡ true → not (is_path_code c) ≡ true
  is_name_code-no_path c good =
      ground (arith, is_name_code-other c b'/' refl good, is_name_code-other c b'\\' refl good)

  replace_unsafe-named :
      (xs : List ℕ)
      → All (λ c. is_name_code is_word_beyond c ≡ true) (replace_unsafe is_word_beyond xs)
  unfolding replace_unsafe
  replace_unsafe-named [] = tt
  replace_unsafe-named (x ∷ xs) = elim (Bool-cases (is_name_code is_word_beyond x)) [
    | inl e ↦ rw e (e, replace_unsafe-named xs)
    | inr e ↦ rw e (refl, replace_unsafe-named xs)
  ]

  replace_unsafe-kept :
      (xs : List ℕ)
      → All (λ c. is_name_code is_word_beyond c ≡ true) xs
      → replace_unsafe is_word_beyond xs ≡ xs
  unfolding replace_unsafe
  replace_unsafe-kept [] h = refl
  replace_unsafe-kept (x ∷ xs) h = rw (h.0, replace_unsafe-kept xs h.1) refl

  starts_otherwise-sanitized :
      (xs : List ℕ)
      → starts_otherwise b'.' (or_default (replace_unsafe is_word_beyond (drop_leading b'.' xs)))
        ≡ true
  unfolding starts_otherwise drop_leading replace_unsafe
  starts_otherwise-sanitized [] = refl
  starts_otherwise-sanitized (x ∷ xs) = elim (Bool-cases (x == b'.')) [
    | inl e ↦ rw e (starts_otherwise-sanitized xs)
    | inr e ↦ rw e (elim (Bool-cases (is_name_code is_word_beyond x)) [
      | inl k ↦ rw (k, e) refl
      | inr k ↦ rw k refl
    ])
  ]

  or_default-named :
      (xs : List ℕ)
      → All (λ c. is_name_code is_word_beyond c ≡ true) xs
      → All (λ c. is_name_code is_word_beyond c ≡ true) (or_default xs)
  or_default-named [] h = (refl, (refl, (refl, (refl, (refl, (refl, (refl, (refl, tt))))))))
  or_default-named (x ∷ xs) h = h

  -- A name that stands for one file of a directory: at least one and at most 200 characters, each
  -- a letter, a digit, an underscore, a dot or a dash, and no dot in front.
  pub record SafeName (name : List ℕ) : Type 0 where
    pub is_visible : starts_otherwise b'.' name ≡ true
    pub is_bounded : length name ≤ max_safe_name_length is_word_beyond
    pub is_plain : All (λ c. is_name_code is_word_beyond c ≡ true) name

  sanitize_filename-SafeName : (name : List ℕ) → SafeName (sanitize_filename is_word_beyond name)
  unfolding sanitize_filename
  sanitize_filename-SafeName name = record {
    is_visible =
        starts_otherwise-take_codes b'.' 199 _ ∙ starts_otherwise-sanitized (plain_name name);
    is_bounded = length-take_codes 200 _;
    is_plain =
        All-take_codes (λ c. is_name_code is_word_beyond c ≡ true) 200 _
          (or_default-named _ (replace_unsafe-named (drop_leading b'.' (plain_name name))));
  }

  All-other :
      (d : ℕ) (xs : List ℕ)
      → is_name_code is_word_beyond d ≡ false
      → All (λ c. is_name_code is_word_beyond c ≡ true) xs
      → All (λ c. (c == d) ≡ false) xs
  All-other d xs bad h = All-mono xs (λ c k. is_name_code-other c d bad k) h

  or_default-visible : (xs : List ℕ) → starts_otherwise b'.' xs ≡ true → or_default xs ≡ xs
  unfolding starts_otherwise
  or_default-visible [] h = absurd (ground (arith, h))
  or_default-visible (x ∷ xs) h = refl

  SafeName-kept : (name : List ℕ) → SafeName name → sanitize_filename is_word_beyond name ≡ name
  unfolding sanitize_filename plain_name
  SafeName-kept name h =
      rw
        (
          replace_code-absent b'\\' b'/' name (All-other b'\\' name refl h.is_plain),
          after_last-absent b'/' name (All-other b'/' name refl h.is_plain),
          select_kept (λ c. not (is_control c)) name
              (All-mono name (λ c k. is_name_code-printable c k) h.is_plain),
          replace_code-absent b' ' b'_' name (All-other b' ' name refl h.is_plain),
          select_kept (λ c. not (is_path_code c)) name
              (All-mono name (λ c k. is_name_code-no_path c k) h.is_plain),
          drop_leading-otherwise b'.' name h.is_visible,
          replace_unsafe-kept name h.is_plain,
          or_default-visible name h.is_visible,
        )
        (take_codes-short 200 name h.is_bounded)

  -- What `_sanitize_filename` returns is safe, and sanitizing it again leaves it as it is: it has
  -- from one to 200 characters, each a letter, a digit, an underscore, a dot or a dash, and does not
  -- start with a dot.
  pub sanitize_filename-stable :
      (name : List ℕ)
      → SafeName (sanitize_filename is_word_beyond name)
        × (sanitize_filename is_word_beyond (sanitize_filename is_word_beyond name)
            ≡ sanitize_filename is_word_beyond name)
  sanitize_filename-stable name = (
    sanitize_filename-SafeName name,
    SafeName-kept (sanitize_filename is_word_beyond name) (sanitize_filename-SafeName name),
  )
