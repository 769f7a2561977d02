-- ===== src/Artifacts/Completeness.antt =====
-- `check_step_evidence_completeness` of apps/api/apps/artifacts/services.py.
use mathlib.Core.Bool.{Bool, true, false, ◌&&◌, not}
use mathlib.Core.Option.{Option, none, some}
use mathlib.Core.List.{List, [], ◌∷◌}
use runbook_platform.Prelude.Tests.{◌==◌, nat_eq, string_eq, is_some, if◌then◌else◌}
use runbook_platform.Prelude.Tables.{any_row, select}
use runbook_platform.Prelude.Json.{Json, lookup_field, get_field, elements}
use runbook_platform.Policies.Conditions.{is_falsy}
use runbook_platform.Executions.Model.{ExecutionStep}
use runbook_platform.Artifacts.Model.{Artifact}
use runbook_platform.Artifacts.Checks.{is_key, is_available}

-- Whether a declaration is a dict with a key whose artifact is required.
abbrev is_required : Json → Bool
is_required (Json.obj fs) =
    not (is_falsy (lookup_field "required" fs)) && is_some (lookup_field "key" fs)
is_required _ = false

abbrev key_value : Option Json → Json
key_value none = Json.null
key_value (some v) = v

keys_of : List Json → List Json
keys_of [] = []
keys_of (a ∷ as') =
    let rest = keys_of as' in if is_required a then key_value (get_field "key" a) ∷ rest else rest

-- The declarations of a snapshot are a list; what is none declares nothing.
unfoldable pub required_keys : ExecutionStep → List Json
unfolding keys_of get_field
required_keys s = keys_of (elements (get_field "artifacts" s.step_snapshot))

-- Texts, numbers and flags; the catalogue's declarations have texts as keys.
abbrev same_value : Json → Option Json → Bool
same_value (Json.str s) (some (Json.str t)) = s == t
same_value (Json.num m) (some (Json.num n)) = m == n
same_value (Json.bool true) (some (Json.bool true)) = true
same_value (Json.bool false) (some (Json.bool false)) = true
same_value Json.null (some Json.null) = true
same_value _ _ = false

unfoldable pub is_satisfied : ExecutionStep → List Artifact → Json → Bool
is_satisfied s as' key =
    any_row
      (λ (a : Artifact).
        (is_key a.step_id s.id && is_available a.upload_status)
        && same_value key (lookup_field "declaration_key" a.metadata))
      as'

abbrev pub is_none : List Json → Bool
is_none [] = true
is_none (x ∷ xs) = false

pub record Completeness : Type 0 where
  pub complete : Bool
  pub required : List Json
  pub satisfied : List Json
  pub missing : List Json

unfoldable pub check_step_evidence_completeness : ExecutionStep → List Artifact → Completeness
unfolding required_keys is_satisfied
check_step_evidence_completeness s as' =
    let required = required_keys s in
    let missing = select (λ k. not (is_satisfied s as' k)) required in
    record {
      complete = is_none missing;
      required = required;
      satisfied = select (is_satisfied s as') required;
      missing = missing;
    }
