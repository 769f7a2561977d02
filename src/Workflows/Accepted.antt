-- ===== src/Workflows/Accepted.antt =====
-- What a definition has that apps/api/apps/workflows/validators.py accepts: all steps together.
use Prim.Native.Nat.{ℕ, suc}
use Prim.Native.String.{String}
use mathlib.Core.Path.{◌≡◌, refl, sym, ap, subst, ◌∙◌}
use mathlib.Core.Bool.{Bool, true, ◌&&◌}
use mathlib.Core.List.{List, [], ◌∷◌}
use runbook_platform.Prelude.Tests.{string_eq}
use runbook_platform.Prelude.Tables.{all_rows}
use runbook_platform.Prelude.Json.{Json, Fields, lookup_field, get_field, elements}
use runbook_platform.Prelude.Effects.{Result, ok}
use runbook_platform.Prelude.Results.{
  Gives, Gives-bind, Gives-then, Gives-ok, Gives-mono, Gives-any, Gives-given,
}
use runbook_platform.Workflows.Values.{dict_value, text_or, list_or_empty}
use runbook_platform.Workflows.Checks.{Library}
use runbook_platform.Workflows.Definitions.{
  check_step, check_steps, check_semantics, position_text, validate_workflow_definition,
}
use runbook_platform.Workflows.Valid.{
  no_repeats, onto, artifact_keys, has_safe_path, text_of, refuse_when-false, text_or-text_of,
  dict_value-obj, dict_value-get_field, no_repeats-new,
}
use runbook_platform.Workflows.Repeats.{
  is_retry_safe, StepFine, check_step-fine, list_or_empty-elements,
}

-- The ids of the steps, the one at `pos` first; a step without an id is named by its position.
unfoldable pub step_ids : ℕ → List Json → List String
step_ids pos [] = []
step_ids pos (s ∷ ss) = text_of (position_text pos) (get_field "id" s) ∷ step_ids (suc pos) ss

abbrev fields_of : Json → Fields
fields_of (Json.obj fs) = fs
fields_of v = Fields.end

-- The step's artifacts have safe paths, and it is not repeated without idempotency.
unfoldable pub is_safe_step : Json → Bool
is_safe_step s =
    all_rows has_safe_path (elements (get_field "artifacts" s)) && is_retry_safe (fields_of s)

-- The keys of the artifacts of all steps, on top of `keys`.
unfoldable pub all_artifact_keys : List String → List Json → List String
all_artifact_keys keys [] = keys
all_artifact_keys keys (s ∷ ss) =
    all_artifact_keys (onto (artifact_keys (elements (get_field "artifacts" s))) keys) ss

record StepsFine (pos : ℕ) (ids keys : List String) (ss : List Json) (ids' : List String)
    : Type 0 where
  pub listed : ids' ≡ onto (step_ids pos ss) ids
  pub distinct_ids : no_repeats ids' ≡ true
  pub distinct_keys : no_repeats (all_artifact_keys keys ss) ≡ true
  pub safe : all_rows is_safe_step ss ≡ true

safe_step :
    (keys keys' : List String) (s : Json) (step : Fields)
    → dict_value s ≡ ok step
    → StepFine keys step keys'
    → is_safe_step s ≡ true
unfolding is_safe_step
safe_step keys keys' s step is_dict fine =
    rw
      (
        dict_value-get_field "artifacts" s step is_dict,
        fine.artifacts.safe,
        ap fields_of (dict_value-obj s step is_dict),
      )
      fine.retry

steps_added :
    (pos : ℕ) (ids keys : List String) (s : Json) (ss : List Json) (step : Fields) (id : String)
    (keys' : List String)
    → dict_value s ≡ ok step
    → text_or (position_text pos) (lookup_field "id" step) ≡ ok id
    → StepFine keys step keys'
    → (r : Result (List String)) → Gives (StepsFine (suc pos) (id ∷ ids) keys' ss) r
    → Gives (StepsFine pos ids keys (s ∷ ss)) r
unfolding all_artifact_keys step_ids onto all_rows
steps_added pos ids keys s ss step id keys' is_dict is_id fine r h =
    Gives-mono {P = StepsFine (suc pos) (id ∷ ids) keys' ss} {Q = StepsFine pos ids keys (s ∷ ss)} r
      (λ ids' rest. record {
        listed =
            subst (λ i. ids' ≡ onto (step_ids (suc pos) ss) (i ∷ ids))
              (text_or-text_of (position_text pos) (lookup_field "id" step) id is_id
                ∙ ap (text_of (position_text pos)) (sym (dict_value-get_field "id" s step is_dict)))
              rest.listed;
        distinct_ids = rest.distinct_ids;
        distinct_keys =
            subst (λ ks. no_repeats (all_artifact_keys ks ss) ≡ true)
              (fine.artifacts.listed
                ∙ ap (λ v. onto (artifact_keys (elements v)) keys)
                    (sym (dict_value-get_field "artifacts" s step is_dict)))
              rest.distinct_keys;
        safe = rw (safe_step keys keys' s step is_dict fine) rest.safe;
      })
      h

module _ (library : Library) (definition : Fields) (version : String) where
  check_steps-fine :
      (pos : ℕ) (ids keys : List String) (ss : List Json)
      → no_repeats ids ≡ true
      → no_repeats keys ≡ true
      → Gives (StepsFine pos ids keys ss) (check_steps library definition version pos ids keys ss)
  unfolding check_steps all_artifact_keys step_ids onto all_rows
  check_steps-fine pos ids keys [] h k =
      Gives-ok (StepsFine pos ids keys []) ids
        (record { listed = refl; distinct_ids = h; distinct_keys = k; safe = refl })
  check_steps-fine pos ids keys (s ∷ ss) h k =
      let P = StepsFine pos ids keys (s ∷ ss) in
      Gives-bind P (dict_value s) _ (λ step is_dict. Gives-bind P _ _ (λ id is_id.
        Gives-then P _ _ (λ x new. Gives-bind P _ _ (λ keys' accepted.
          let fine =
            Gives-given (StepFine keys step) (check_step library definition version keys step) keys'
              (check_step-fine library definition version keys step k) accepted in
          steps_added pos ids keys s ss step id keys' is_dict is_id fine
            (check_steps library definition version (suc pos) (id ∷ ids) keys' ss)
            (check_steps-fine (suc pos) (id ∷ ids) keys' ss
              (no_repeats-new ids id h (refuse_when-false _ _ x new)) fine.artifacts.distinct)))))

-- What a definition of the second version has.
pub record ValidDefinition (definition : Json) : Type 0 where
  pub distinct_ids :
      no_repeats (onto (step_ids 1 (elements (get_field "steps" definition))) []) ≡ true
  pub distinct_artifacts :
      no_repeats (all_artifact_keys [] (elements (get_field "steps" definition))) ≡ true
  pub safe_steps : all_rows is_safe_step (elements (get_field "steps" definition)) ≡ true

valid_steps :
    (definition : Json) (fs : Fields) (steps : List Json)
    → dict_value definition ≡ ok fs
    → list_or_empty (lookup_field "steps" fs) ≡ ok steps
    → (ids : List String) → StepsFine 1 [] [] steps ids
    → ValidDefinition definition
valid_steps definition fs steps is_dict is_list ids fine =
    let same =
      list_or_empty-elements (lookup_field "steps" fs) steps is_list
      ∙ ap elements (sym (dict_value-get_field "steps" definition fs is_dict)) in
    record {
      distinct_ids =
          subst (λ ss. no_repeats (onto (step_ids 1 ss) []) ≡ true) same
            (subst (λ i. no_repeats i ≡ true) fine.listed fine.distinct_ids);
      distinct_artifacts =
          subst (λ ss. no_repeats (all_artifact_keys [] ss) ≡ true) same fine.distinct_keys;
      safe_steps = subst (λ ss. all_rows is_safe_step ss ≡ true) same fine.safe;
    }

module _ (library : Library) where
  check_semantics-valid :
      (definition : Json) (fs : Fields)
      → dict_value definition ≡ ok fs
      → Gives (λ _. ValidDefinition definition) (check_semantics library fs)
  unfolding check_semantics no_repeats
  check_semantics-valid definition fs is_dict =
      let P = λ (_ : Unit {0}). ValidDefinition definition in
      Gives-bind P _ _ (λ version is_version. Gives-bind P _ _ (λ steps is_list.
        Gives-bind P _ _ (λ ids accepted. Gives-any P _ (λ x.
          valid_steps definition fs steps is_dict is_list ids (
            Gives-given (StepsFine 1 [] [] steps) (check_steps library fs version 1 [] [] steps) ids
              (check_steps-fine library fs version 1 [] [] steps refl refl) accepted)))))

  -- A definition of the second version that is accepted has no two steps of the same id and no two
  -- artifacts of the same key; no path of an artifact is absolute or climbs, and every step that may
  -- be tried again has a mode of idempotency.
  pub validate_workflow_definition-ValidDefinition :
      (validate_v1 : Json → Result (Unit {0})) (definition : Json) (x : Unit {0})
      → validate_workflow_definition library validate_v1 definition "workflow.schema.v2" ≡ ok x
      → ValidDefinition definition
  unfolding validate_workflow_definition
  validate_workflow_definition-ValidDefinition validate_v1 definition x h =
      let P = λ (_ : Unit {0}). ValidDefinition definition in
      Gives-given P _ x
        (Gives-then P _ _ (λ y conforms.
          Gives-bind P (dict_value definition) (check_semantics library)
            (λ fs is_dict. check_semantics-valid definition fs is_dict)))
        h
