-- ===== src/Workflows/Checks.antt =====
-- The checks of one step in apps/api/apps/workflows/validators.py, and the lookup of
-- apps/api/apps/workflows/action_catalog.py.
use Prim.Native.Nat.{ℕ}
use Prim.Native.String
use Prim.Native.String.{String}
use mathlib.Core.Bool.{Bool, true, false, ◌&&◌, ◌||◌, not}
use mathlib.Core.Option.{Option, none, some}
use mathlib.Core.List.{List, [], ◌∷◌}
use runbook_platform.Prelude.Tests.{ltb, leb, ◌==◌, nat_eq, string_eq, if◌then◌else◌}
use runbook_platform.Prelude.Codes.{codes}
use runbook_platform.Prelude.Json.{Json, Fields, lookup_field}
use runbook_platform.Prelude.Effects.{Result, ok, err, type_error}
use runbook_platform.Prelude.Results.{◌>>=◌, ◌>>◌}
use runbook_platform.Runners.Registration.{contains}
use runbook_platform.Policies.Conditions.{is_falsy}
use runbook_platform.Workflows.Values.{refuse, text_or, dict_or_new, optional_dict, first_filled}
use runbook_platform.Workflows.Paths.{is_safe_path, starts_with, climbs}

-- What stands outside the code: the JSON schemas, as the `jsonschema` library applies them, the
-- files of the action catalogues, and the search of `_SECRET_PATTERNS` by regular expression.
pub record Library : Type 0 where
  pub conforms : Json → Bool
  pub catalog_actions : String → Option (List String)
  pub has_action_schema : String → String → Bool
  pub accepts_inputs : String → String → Json → Bool
  pub matches_secret : String → Bool

-- `if test: raise InvalidWorkflowDefinitionError(code=...)`
unfoldable pub refuse_when : Bool → String → Result (Unit {0})
refuse_when true code = refuse code
refuse_when false code = ok tt

unfoldable pub check_action_type_match : Fields → Fields → Result (Unit {0})
unfolding refuse_when text_or
check_action_type_match step action = do
  step_type ← text_or "" (lookup_field "type" step)
  action_type ← text_or "" (lookup_field "type" action)
  refuse_when (not (step_type == action_type)) "action_type_mismatch"

lookup_in : Option (List String) → String → Result (Unit {0})
unfolding refuse_when
lookup_in none action_type = refuse "unknown_action_catalog_version"
lookup_in (some types) action_type =
    refuse_when (not (contains types action_type)) "unknown_action_type"

-- The path of an artifact: `str(path)` of a number is a safe path.
unfoldable pub validate_artifact_path : Option Json → Result (Unit {0})
unfolding refuse_when is_safe_path
validate_artifact_path (some (Json.str s)) =
    refuse_when (s == "" || not (is_safe_path (codes s))) "invalid_artifact_path"
validate_artifact_path (some (Json.num n)) = ok tt
validate_artifact_path none = refuse "invalid_artifact_path"
validate_artifact_path (some Json.null) = refuse "invalid_artifact_path"
validate_artifact_path (some v) = err type_error

abbrev pub is_given : Option Json → Bool
is_given none = false
is_given (some Json.null) = false
is_given (some v) = true

-- `retry.get("maxAttempts", 1)`
unfoldable pub number_or : ℕ → Option Json → Result ℕ
number_or d none = ok d
number_or d (some (Json.num n)) = ok n
number_or d (some v) = err type_error

unfoldable pub mode_of : Option Fields → Result String
unfolding text_or
mode_of none = ok "none"
mode_of (some fs) = text_or "none" (lookup_field "mode" fs)

-- The mode is read only of a step that may be tried again.
unfoldable pub check_repeated : Bool → Option Fields → Result (Unit {0})
unfolding mode_of refuse_when
check_repeated false idempotency = ok tt
check_repeated true idempotency = do
  mode ← mode_of idempotency
  refuse_when (mode == "none") "retry_requires_idempotency"

unfoldable pub check_retry : Option Fields → Option Fields → Result (Unit {0})
unfolding number_or check_repeated
check_retry none idempotency = ok tt
check_retry (some retry) idempotency = do
  attempts ← number_or 1 (lookup_field "maxAttempts" retry)
  check_repeated (ltb 1 attempts) idempotency

unfoldable pub check_keyed : Option Fields → Result (Unit {0})
unfolding text_or refuse_when
check_keyed none = ok tt
check_keyed (some idempotency) = do
  mode ← text_or "" (lookup_field "mode" idempotency)
  refuse_when (mode == "keyed" && is_falsy (lookup_field "key" idempotency))
      "keyed_idempotency_requires_key"

unfoldable pub check_retry_idempotency : Fields → Result (Unit {0})
unfolding check_retry check_keyed optional_dict
check_retry_idempotency step = do
  retry ← optional_dict (lookup_field "retry" step)
  idempotency ← optional_dict (lookup_field "idempotency" step)
  check_retry retry idempotency
  check_keyed idempotency

abbrev strategies : List String
strategies = "native" ∷ "validate_only" ∷ "mock" ∷ "unsupported" ∷ []

check_strategy : Option Fields → Result (Unit {0})
unfolding text_or refuse_when
check_strategy none = ok tt
check_strategy (some dry_run) = do
  strategy ← text_or "" (lookup_field "strategy" dry_run)
  refuse_when (not (contains strategies strategy)) "invalid_dry_run_strategy"

unfoldable pub check_dry_run : Fields → Result (Unit {0})
unfolding check_strategy optional_dict
check_dry_run step = do dry_run ← optional_dict (lookup_field "dryRun" step); check_strategy dry_run

unfoldable pub check_working_directory : String → Result (Unit {0})
unfolding refuse_when starts_with climbs
check_working_directory dir =
    refuse_when (not (dir == "") && (starts_with (codes "/") (codes dir) || climbs (codes dir)))
      "invalid_working_directory"

unfoldable pub check_url : String → Result (Unit {0})
unfolding refuse_when starts_with
check_url url =
    refuse_when
      (not (url == "")
        && not (
            starts_with (codes "https://") (codes url)
            || starts_with (codes "http://") (codes url)))
      "invalid_request_url"

module _ (library : Library) where
  -- `lookup_action_contract`, whose errors `_check_action_catalog` passes on.
  unfoldable pub lookup_action_contract : String → String → Result (Unit {0})
  unfolding lookup_in
  lookup_action_contract action_type version =
      lookup_in (library.catalog_actions version) action_type

  unfoldable pub check_action_catalog : Fields → String → Result (Unit {0})
  unfolding lookup_action_contract text_or
  check_action_catalog action catalog_version = do
    action_type ← text_or "" (lookup_field "type" action)
    version ← text_or catalog_version (lookup_field "version" action)
    lookup_action_contract action_type version

  check_payload : String → String → Option Json → Result (Unit {0})
  unfolding refuse_when
  check_payload action_type version none = ok tt
  check_payload action_type version (some Json.null) = ok tt
  check_payload action_type version (some v) = do
    refuse_when (not (library.has_action_schema action_type version)) "unknown_action_schema"
    refuse_when (not (library.accepts_inputs action_type version v)) "action_input_invalid"

  unfoldable pub check_action_inputs : Fields → String → Result (Unit {0})
  unfolding check_payload text_or first_filled
  check_action_inputs action catalog_version = do
    action_type ← text_or "" (lookup_field "type" action)
    version ← text_or catalog_version (lookup_field "version" action)
    check_payload action_type version
        (first_filled (lookup_field "params" action) (lookup_field "inputs" action))

  -- `_looks_like_secret`
  unfoldable pub looks_like_secret : Json → Bool
  looks_like_secret (Json.str s) = leb 20 (String.count s) && library.matches_secret s
  looks_like_secret v = false

  unfoldable pub has_secret : Fields → Bool
  unfolding looks_like_secret
  has_secret Fields.end = false
  has_secret (Fields.field k v fs) =
      let rest = has_secret fs in if looks_like_secret v then true else rest

  unfoldable pub check_shell_command : Fields → Result (Unit {0})
  unfolding has_secret check_working_directory refuse_when dict_or_new text_or
  check_shell_command params = do
    environment ← dict_or_new (lookup_field "environment" params)
    refuse_when (has_secret environment) "raw_secret_in_environment"
    dir ← text_or "" (lookup_field "working_directory" params)
    check_working_directory dir

  unfoldable pub check_http_request : Fields → Result (Unit {0})
  unfolding has_secret check_url refuse_when dict_or_new text_or
  check_http_request params = do
    url ← text_or "" (lookup_field "url" params)
    check_url url
    headers ← dict_or_new (lookup_field "headers" params)
    refuse_when (has_secret headers) "raw_secret_in_header"

  -- A step that is neither a shell command nor an HTTP request has no restriction.
  check_by_type : String → Fields → Result (Unit {0})
  unfolding check_shell_command check_http_request
  check_by_type step_type params =
      if step_type == "shell_command"
      then check_shell_command params
      else if step_type == "http_request"
      then check_http_request params
      else ok tt

  abbrev dict_or_none : Option Json → Result Fields
  dict_or_none v = if is_falsy v then ok Fields.end else dict_or_new v

  unfoldable pub check_pilot_restrictions : Fields → Fields → Result (Unit {0})
  unfolding check_by_type text_or first_filled dict_or_new
  check_pilot_restrictions step action = do
    step_type ← text_or "" (lookup_field "type" step)
    params ←
        dict_or_none (first_filled (lookup_field "params" action) (lookup_field "inputs" action))
    check_by_type step_type params
