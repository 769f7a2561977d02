-- ===== src/Workflows/Definitions.antt =====
-- `validate_workflow_definition` of apps/api/apps/workflows/validators.py for the second version of
-- the schema.
use Prim.Native.Nat.{ℕ, suc}
use Prim.Native.String
use Prim.Native.String.{String}
use mathlib.Core.Bool.{◌||◌, not}
use mathlib.Core.Option.{Option}
use mathlib.Core.List.{List, [], ◌∷◌}
use runbook_platform.Prelude.Tests.{◌==◌, string_eq, if◌then◌else◌}
use runbook_platform.Prelude.Text.{id_text}
use runbook_platform.Prelude.Json.{Json, Fields, lookup_field}
use runbook_platform.Prelude.Effects.{Result, ok, err, type_error}
use runbook_platform.Prelude.Results.{◌>>=◌, ◌>>◌}
use runbook_platform.Runners.Registration.{contains}
use runbook_platform.Workflows.Values.{refuse, dict_value, text_or, list_or_empty, dict_or_new}
use runbook_platform.Workflows.Checks.{
  Library, refuse_when, check_action_type_match, check_action_catalog, check_action_inputs,
  validate_artifact_path, is_given, check_retry_idempotency, check_dry_run,
  check_pilot_restrictions,
}

-- `_check_catalog_version`, with the version that the definition has.
unfoldable pub check_catalog_version : Fields → Result String
unfolding text_or refuse_when
check_catalog_version definition = do
  version ← text_or "pilot.v1" (lookup_field "catalogVersion" definition)
  refuse_when (not (version == "pilot.v1")) "unsupported_catalog_version"
  ok version

text_value : Json → Result String
text_value (Json.str s) = ok s
text_value v = err type_error

-- `{s.get("key", "") for s in definition.get("secrets", [])}`
unfoldable pub declared_keys : List Json → Result (List String)
unfolding dict_value text_or
declared_keys [] = ok []
declared_keys (s ∷ ss) = do
  secret ← dict_value s
  key ← text_or "" (lookup_field "key" secret)
  keys ← declared_keys ss
  ok (key ∷ keys)

check_refs : List String → List Json → Result (Unit {0})
unfolding text_value refuse_when
check_refs declared [] = ok tt
check_refs declared (r ∷ rs) = do
  ref ← text_value r
  refuse_when (not (contains declared ref)) "unknown_secret_reference"
  check_refs declared rs

unfoldable pub check_step_secrets : Fields → Fields → Result (Unit {0})
unfolding declared_keys check_refs list_or_empty
check_step_secrets step definition = do
  secrets ← list_or_empty (lookup_field "secrets" definition)
  declared ← declared_keys secrets
  refs ← list_or_empty (lookup_field "secrets" step)
  check_refs declared refs

unfoldable pub check_path : String → Option Json → Result (Unit {0})
unfolding validate_artifact_path
check_path kind path =
    if (kind == "file" || kind == "report") || is_given path
    then validate_artifact_path path
    else ok tt

-- The keys that the workflow's artifacts have so far.
unfoldable pub check_artifacts : List String → List Json → Result (List String)
unfolding check_path dict_value text_or refuse_when
check_artifacts keys [] = ok keys
check_artifacts keys (a ∷ as') = do
  artifact ← dict_value a
  key ← text_or "" (lookup_field "key" artifact)
  refuse_when (contains keys key) "duplicate_artifact_key"
  kind ← text_or "" (lookup_field "kind" artifact)
  check_path kind (lookup_field "path" artifact)
  check_artifacts (key ∷ keys) as'

-- `f"<position {pos}>"`
unfoldable pub position_text : ℕ → String
position_text pos = String.◌++◌ "<position " (String.◌++◌ (id_text pos) ">")

-- The steps that a secret is required by.
check_required_by : List String → List Json → Result (Unit {0})
unfolding text_value refuse_when
check_required_by ids [] = ok tt
check_required_by ids (r ∷ rs) = do
  ref ← text_value r
  refuse_when (not (contains ids ref)) "unknown_step_reference"
  check_required_by ids rs

check_secrets : List String → List String → List Json → Result (Unit {0})
unfolding check_required_by dict_value text_or list_or_empty refuse_when
check_secrets ids seen [] = ok tt
check_secrets ids seen (s ∷ ss) = do
  secret ← dict_value s
  key ← text_or "" (lookup_field "key" secret)
  refuse_when (contains seen key) "duplicate_secret_key"
  refs ← list_or_empty (lookup_field "requiredBy" secret)
  check_required_by ids refs
  check_secrets ids (key ∷ seen) ss

-- `_check_secret_declarations`
unfoldable pub check_secret_declarations : Fields → List String → Result (Unit {0})
unfolding check_secrets list_or_empty
check_secret_declarations definition ids = do
  secrets ← list_or_empty (lookup_field "secrets" definition)
  check_secrets ids [] secrets

module _ (library : Library) where
  -- What the loop does for one step after its id is found new: the keys of artifacts after it.
  unfoldable pub check_step : Fields → String → List String → Fields → Result (List String)
  unfolding check_action_type_match check_action_catalog check_action_inputs check_step_secrets
      check_artifacts check_retry_idempotency check_dry_run check_pilot_restrictions dict_or_new
      list_or_empty
  check_step definition catalog_version keys step = do
    action ← dict_or_new (lookup_field "action" step)
    check_action_type_match step action
    check_action_catalog library action catalog_version
    check_action_inputs library action catalog_version
    check_step_secrets step definition
    artifacts ← list_or_empty (lookup_field "artifacts" step)
    keys' ← check_artifacts keys artifacts
    check_retry_idempotency step
    check_dry_run step
    check_pilot_restrictions library step action
    ok keys'

  -- The loop of `_check_steps` from the step at `pos` on, with the ids and the keys seen before.
  unfoldable pub check_steps :
      Fields → String → ℕ → List String → List String → List Json → Result (List String)
  unfolding check_step position_text dict_value text_or refuse_when
  check_steps definition version pos ids keys [] = ok ids
  check_steps definition version pos ids keys (s ∷ ss) = do
    step ← dict_value s
    id ← text_or (position_text pos) (lookup_field "id" step)
    refuse_when (contains ids id) "duplicate_step_id"
    keys' ← check_step definition version keys step
    check_steps definition version (suc pos) (id ∷ ids) keys' ss

  unfoldable pub check_semantics : Fields → Result (Unit {0})
  unfolding check_catalog_version check_steps check_secret_declarations list_or_empty
  check_semantics definition = do
    version ← check_catalog_version definition
    steps ← list_or_empty (lookup_field "steps" definition)
    ids ← check_steps definition version 1 [] [] steps
    check_secret_declarations definition ids

  -- `validate_v1` is the validation of the first version, which apps/workflows/services.py has.
  unfoldable pub validate_workflow_definition :
      (Json → Result (Unit {0})) → Json → String → Result (Unit {0})
  unfolding check_semantics refuse_when dict_value
  validate_workflow_definition validate_v1 definition schema_version =
      if schema_version == "workflow.schema.v1"
      then validate_v1 definition
      else if schema_version == "workflow.schema.v2"
      then refuse_when (not (library.conforms definition)) "workflow_schema_violation"
        >> (dict_value definition >>= check_semantics)
      else refuse "unsupported_schema_version"
