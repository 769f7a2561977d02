-- ===== src/Workflows/Repeats.antt =====
-- Steps that may be tried again, and what one accepted step gives:
-- apps/api/apps/workflows/validators.py.
use Prim.Native.Nat.{ℕ}
use Prim.Native.String.{String}
use mathlib.Core.Path.{◌≡◌, refl, sym, ap, subst}
use native.Mathlib.Omega.{arith}
use mathlib.Core.Bool.{Bool, true, false, ◌||◌, not}
use mathlib.Core.Option.{Option, none, some}
use mathlib.Core.List.{List}
use runbook_platform.Prelude.Tests.{ltb, ◌==◌, string_eq}
use runbook_platform.Prelude.Json.{Json, Fields, lookup_field, elements}
use runbook_platform.Prelude.Effects.{ok}
use runbook_platform.Prelude.Results.{
  Gives, Gives-bind, Gives-then, Gives-ok, Gives-any, Gives-given,
}
use runbook_platform.Workflows.Values.{list_or_empty, optional_dict}
use runbook_platform.Workflows.Checks.{
  Library, refuse_when, check_retry_idempotency, check_repeated, check_retry, check_keyed, mode_of,
  number_or,
}
use runbook_platform.Workflows.Definitions.{check_artifacts, check_step}
use runbook_platform.Workflows.Valid.{
  no_repeats, text_of, text_or-text_of, ArtifactsFine, check_artifacts-fine,
}

abbrev field_of : String → Option Json → Option Json
field_of k (some (Json.obj fs)) = lookup_field k fs
field_of k _ = none

abbrev is_repeated : Option Json → Bool
is_repeated (some (Json.num n)) = ltb 1 n
is_repeated _ = false

-- A step that may be tried more than once names a mode of idempotency.
unfoldable pub is_retry_safe : Fields → Bool
is_retry_safe step =
    not (is_repeated (field_of "maxAttempts" (lookup_field "retry" step)))
    || not (text_of "none" (field_of "mode" (lookup_field "idempotency" step)) == "none")

refuse_when-Gives :
    (P : Unit {0} → Type 0) (b : Bool) (code : String)
    → (b ≡ false → P tt)
    → Gives P (refuse_when b code)
unfolding Gives refuse_when
refuse_when-Gives P true code h = tt
refuse_when-Gives P false code h = h refl

number_or-is_repeated : (v : Option Json) (n : ℕ) → number_or 1 v ≡ ok n → is_repeated v ≡ ltb 1 n
unfolding number_or
number_or-is_repeated none n h = ground (arith, h)
number_or-is_repeated (some (Json.num m)) n h = ground (arith, h)
number_or-is_repeated (some Json.null) n h = absurd (ground (arith, h))
number_or-is_repeated (some (Json.bool b)) n h = absurd (ground (arith, h))
number_or-is_repeated (some (Json.str s)) n h = absurd (ground (arith, h))
number_or-is_repeated (some (Json.arr xs)) n h = absurd (ground (arith, h))
number_or-is_repeated (some (Json.obj fs)) n h = absurd (ground (arith, h))

abbrev field_in : String → Option Fields → Option Json
field_in k none = none
field_in k (some fs) = lookup_field k fs

mode_of-text_of :
    (i : Option Fields) (m : String) → mode_of i ≡ ok m → m ≡ text_of "none" (field_in "mode" i)
unfolding mode_of
mode_of-text_of none m h = ground (arith, h)
mode_of-text_of (some fs) m h = text_or-text_of "none" (lookup_field "mode" fs) m h

abbrev is_none : String → Bool
is_none mode = mode == "none"

abbrev Guarded : Option Fields → Option Fields → Type 0
Guarded retry idempotency =
    not (is_repeated (field_in "maxAttempts" retry))
      || not (text_of "none" (field_in "mode" idempotency) == "none")
    ≡ true

check_repeated-Gives :
    (b : Bool) (idempotency : Option Fields)
    → Gives
        (λ _. not b || not (is_none (text_of "none" (field_in "mode" idempotency))) ≡ true)
        (check_repeated b idempotency)
unfolding check_repeated
check_repeated-Gives false idempotency = Gives-ok (λ _. true ≡ true) tt refl
check_repeated-Gives true idempotency =
    let P = λ (_ : Unit {0}). not (is_none (text_of "none" (field_in "mode" idempotency))) ≡ true in
    Gives-bind P _ _ (λ mode is_mode. refuse_when-Gives P _ _ (λ (safe : is_none mode ≡ false).
      rw (sym (mode_of-text_of idempotency mode is_mode), safe) refl))

check_retry-Guarded :
    (retry idempotency : Option Fields)
    → Gives (λ _. Guarded retry idempotency) (check_retry retry idempotency)
unfolding check_retry
check_retry-Guarded none idempotency = Gives-ok (λ _. Guarded none idempotency) tt refl
check_retry-Guarded (some retry) idempotency =
    let P = λ (_ : Unit {0}). Guarded (some retry) idempotency in
    Gives-bind P _ _ (λ attempts is_number.
      rw (number_or-is_repeated (lookup_field "maxAttempts" retry) attempts is_number)
        (check_repeated-Gives (ltb 1 attempts) idempotency))

optional_dict-field :
    (k : String) (v : Option Json) (o : Option Fields)
    → optional_dict v ≡ ok o
    → field_of k v ≡ field_in k o
unfolding optional_dict
optional_dict-field k none o h = let e : none ≡ o = ground (arith, h) in ap (field_in k) e
optional_dict-field k (some Json.null) o h =
    let e : none ≡ o = ground (arith, h) in ap (field_in k) e
optional_dict-field k (some (Json.obj fs)) o h =
    let e : some fs ≡ o = ground (arith, h) in ap (field_in k) e
optional_dict-field k (some (Json.bool b)) o h = absurd (ground (arith, h))
optional_dict-field k (some (Json.str s)) o h = absurd (ground (arith, h))
optional_dict-field k (some (Json.arr xs)) o h = absurd (ground (arith, h))
optional_dict-field k (some (Json.num n)) o h = absurd (ground (arith, h))

check_retry_idempotency-safe :
    (step : Fields) → Gives (λ _. is_retry_safe step ≡ true) (check_retry_idempotency step)
unfolding check_retry_idempotency is_retry_safe
check_retry_idempotency-safe step =
    let P = λ (_ : Unit {0}). is_retry_safe step ≡ true in
    Gives-bind P _ _ (λ retry is_retry. Gives-bind P _ _ (λ idempotency is_idempotency.
      Gives-then P _ _ (λ x checked_retry. Gives-any P (check_keyed idempotency) (λ y.
        rw
          (
            optional_dict-field "maxAttempts" (lookup_field "retry" step) retry is_retry,
            optional_dict-field "mode" (lookup_field "idempotency" step) idempotency is_idempotency,
          )
          (Gives-given (λ _. Guarded retry idempotency) (check_retry retry idempotency) x
            (check_retry-Guarded retry idempotency) checked_retry)))))

-- What one accepted step gives.
pub record StepFine (keys : List String) (step : Fields) (keys' : List String) : Type 0 where
  pub artifacts : ArtifactsFine keys (elements (lookup_field "artifacts" step)) keys'
  pub retry : is_retry_safe step ≡ true

pub list_or_empty-elements :
    (v : Option Json) (xs : List Json) → list_or_empty v ≡ ok xs → xs ≡ elements v
unfolding list_or_empty elements
list_or_empty-elements none xs h = ground (arith, h)
list_or_empty-elements (some (Json.arr ys)) xs h = ground (arith, h)
list_or_empty-elements (some Json.null) xs h = absurd (ground (arith, h))
list_or_empty-elements (some (Json.bool b)) xs h = absurd (ground (arith, h))
list_or_empty-elements (some (Json.num n)) xs h = absurd (ground (arith, h))
list_or_empty-elements (some (Json.str s)) xs h = absurd (ground (arith, h))
list_or_empty-elements (some (Json.obj fs)) xs h = absurd (ground (arith, h))

module _ (library : Library) (definition : Fields) (version : String) where
  pub check_step-fine :
      (keys : List String) (step : Fields)
      → no_repeats keys ≡ true
      → Gives (StepFine keys step) (check_step library definition version keys step)
  unfolding check_step
  check_step-fine keys step h =
      let P = StepFine keys step in
      Gives-bind P _ _ (λ action is_action. Gives-then P _ _ (λ x1 h1. Gives-then P _ _ (λ x2 h2.
        Gives-then P _ _ (λ x3 h3. Gives-then P _ _ (λ x4 h4. Gives-bind P _ _ (λ artifacts is_list.
          Gives-bind P _ _ (λ keys' accepted.
            Gives-then P (check_retry_idempotency step) _ (λ x5 h5. Gives-then P _ _ (λ x6 h6.
              Gives-then P _ _ (λ x7 h7. Gives-ok P keys' (record {
                artifacts =
                    subst (λ as'. ArtifactsFine keys as' keys')
                      (list_or_empty-elements (lookup_field "artifacts" step) artifacts is_list)
                      (Gives-given (ArtifactsFine keys artifacts) (check_artifacts keys artifacts)
                        keys' (check_artifacts-fine keys artifacts h) accepted);
                retry =
                    Gives-given (λ _. is_retry_safe step ≡ true) (check_retry_idempotency step) x5
                      (check_retry_idempotency-safe step) h5;
              })))))))))))
