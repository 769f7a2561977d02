-- ===== src/Policies/Context.antt =====
-- `_build_evaluation_context` of apps/api/apps/policies/services.py.
use Prim.Native.Nat.{ℕ, suc}
use Prim.Native.String.{String}
use mathlib.Core.Bool.{Bool, true, false, ◌&&◌}
use mathlib.Core.Option.{Option, none, some}
use runbook_platform.Prelude.Tests.{if◌then◌else◌}
use runbook_platform.Prelude.Tables.{all_rows}
use runbook_platform.Prelude.Json.{Json, Fields, lookup_field, elements}
use runbook_platform.Prelude.Effects.{Result, ok, err, type_error}
use runbook_platform.Prelude.Results.{◌>>=◌, ◌>>◌}
use runbook_platform.Executions.Model.{Execution, ExecutionMode, live, dry_run, ExecutionStep}
use runbook_platform.Policies.Conditions.{Facts, is_falsy}

-- `d.get(k) or {}`: a value that is no dict has no `get`.
unfoldable pub dict_or_empty : Option Json → Result Fields
dict_or_empty (some (Json.obj fs)) = ok fs
dict_or_empty v = if is_falsy v then ok Fields.end else err type_error

abbrev value_or_empty : Option Json → Json
value_or_empty none = Json.str ""
value_or_empty (some v) = v

abbrev mutates_text : Option Json → String
mutates_text (some (Json.bool true)) = "true"
mutates_text (some (Json.bool false)) = "false"
mutates_text _ = ""

abbrev mode_value : ExecutionMode → String
mode_value live = "live"
mode_value dry_run = "dry_run"

facts_of : Execution → ExecutionStep → ℕ → Fields → Fields → Fields → Facts
facts_of e s at snapshot action idempotency = record {
  risk_level = Json.str s.risk_level;
  step_type = Json.str s.step_type;
  action_type = value_or_empty (lookup_field "type" action);
  action_version = value_or_empty (lookup_field "version" action);
  execution_mode = Json.str (mode_value e.execution_mode);
  idempotency_mode = value_or_empty (lookup_field "mode" idempotency);
  mutates_target = Json.str (mutates_text (lookup_field "mutatesTarget" snapshot));
  evaluated_at = at;
}

-- `list(v or [])`
abbrev check_secrets : Option Json → Result (Unit {0})
check_secrets (some (Json.bool true)) = err type_error
check_secrets (some (Json.num (suc n))) = err type_error
check_secrets v = ok tt

abbrev is_list : Option Json → Bool
is_list (some (Json.arr xs)) = true
is_list _ = false

abbrev is_dict : Json → Bool
is_dict (Json.obj fs) = true
is_dict _ = false

-- `[a.get("key", "") for a in (v or [])]`
abbrev check_artifacts : Option Json → Result (Unit {0})
check_artifacts v =
    if is_falsy v
    then ok tt
    else if is_list v && all_rows is_dict (elements v)
    then ok tt
    else err type_error

-- `_build_evaluation_context`: the facts that conditions read, and the values that it takes for
-- dicts and lists. The facts that are only stored with the evaluation are left out.
unfoldable pub build_context : Execution → ExecutionStep → ℕ → Result Facts
unfolding facts_of
build_context e s at = do
  snapshot ← dict_or_empty (some s.step_snapshot)
  action ← dict_or_empty (lookup_field "action" snapshot)
  dict_or_empty (lookup_field "retry" snapshot)
  idempotency ← dict_or_empty (lookup_field "idempotency" snapshot)
  dict_or_empty (lookup_field "dryRun" snapshot)
  dict_or_empty (some e.workflow_snapshot)
  check_secrets (lookup_field "secrets" snapshot)
  check_artifacts (lookup_field "artifacts" snapshot)
  ok (facts_of e s at snapshot action idempotency)
