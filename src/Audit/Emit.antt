-- ===== src/Audit/Emit.antt =====
-- `AuditService.emit` of apps/api/apps/audit/services.py on the trail of stored events.
use Prim.Native.Nat.{ℕ}
use Prim.Native.String
use Prim.Native.String.{String}
use mathlib.Core.Bool.{Bool, ◌&&◌, ◌||◌, not}
use mathlib.Core.List.{List, [], ◌∷◌, ◌++◌}
use runbook_platform.Prelude.Tests.{leb, ◌==◌, nat_eq, string_eq}
use runbook_platform.Prelude.Tables.{all_rows, any_row}
use runbook_platform.Prelude.Codes.{codes}
use runbook_platform.Prelude.Json.{Json, Fields}
use runbook_platform.Prelude.Dumps.{dumps_length}
use runbook_platform.Prelude.Effects.{Result, ok, err, validation_error, Action, ◌>>=◌, ◌>>◌, guard}
use runbook_platform.Audit.Scrub.{scrub_metadata}

abbrev pub object_types : List String
object_types =
    "organization" ∷ "runbook" ∷ "workflow" ∷ "execution" ∷ "execution_step" ∷ "approval_request"
    ∷ "approval_decision" ∷ "policy" ∷ "policy_rule" ∷ "policy_evaluation" ∷ "artifact"
    ∷ "integration_connection" ∷ "operation_profile" ∷ "change_record" ∷ "change_target"
    ∷ "change_execution_binding" ∷ "change_window" ∷ "freeze_rule" ∷ "target_lock"
    ∷ "dispatch_eligibility_check" ∷ "verification_plan" ∷ "verification_check"
    ∷ "verification_result" ∷ "change_closure" ∷ "change_exception" ∷ "breakglass_session"
    ∷ "retro_review" ∷ "evidence_bundle" ∷ "evidence_bundle_item" ∷ "evidence_redaction_policy"
    ∷ "evidence_export" ∷ "evidence_retention_policy" ∷ "legal_hold" ∷ "external_change_reference"
    ∷ "service_catalog_entry" ∷ "control_mapping_profile" ∷ "change_control_coverage"
    ∷ "auditor_access_grant" ∷ "runner_pool" ∷ "runner" ∷ "runner_registration_token"
    ∷ "target_connectivity_route" ∷ "execution_lease" ∷ []

abbrev pub actor_types : List String
actor_types = "user" ∷ "runner" ∷ "system" ∷ "api_client" ∷ "unknown" ∷ []

-- The keyword arguments of a call; keys are UUIDs, so their own check passes.
pub record EmitCall : Type 0 where
  pub organization_id : ℕ
  pub actor_type : String
  pub actor_id : String
  pub actor_label : String
  pub event_type : String
  pub object_type : String
  pub object_id : ℕ
  pub metadata : Json
  pub occurred_at : ℕ

pub record StoredEvent : Type 0 where
  pub organization_id : ℕ
  pub actor_type : String
  pub actor_id : String
  pub actor_label : String
  pub event_type : String
  pub object_type : String
  pub object_id : ℕ
  pub metadata : Fields
  pub occurred_at : ℕ

-- `str.strip()` drops these characters.
abbrev is_space : ℕ → Bool
is_space c =
    ((leb 9 c && leb c 13) || (leb 28 c && leb c 32))
    || ((c == 133 || c == 160)
        || ((c == 5760 || (leb 8192 c && leb c 8202))
            || ((c == 8232 || c == 8233) || (c == 8239 || (c == 8287 || c == 12288)))))

-- `_validate_event_type`
unfoldable pub is_event_type : String → Bool
is_event_type s = not (all_rows is_space (codes s)) && leb (String.count s) 128

abbrev pub choice : List String → String → Bool
choice values s = any_row (λ v. v == s) values

-- A missing or null `metadata` is an empty dict; another value that is no dict is refused.
abbrev pub dict_of : Json → Result Fields
dict_of (Json.obj fs) = ok fs
dict_of Json.null = ok Fields.end
dict_of _ = err validation_error

abbrev pub max_metadata_bytes : ℕ
max_metadata_bytes = 16384

stored_event : EmitCall → Fields → StoredEvent
stored_event c metadata = record {
  organization_id = c.organization_id;
  actor_type = c.actor_type;
  actor_id = c.actor_id;
  actor_label = c.actor_label;
  event_type = c.event_type;
  object_type = c.object_type;
  object_id = c.object_id;
  metadata = metadata;
  occurred_at = c.occurred_at;
}

-- `AuditEvent.objects.create(...)`
append_event : StoredEvent → Action (List StoredEvent) StoredEvent
append_event e trail = (ok e, trail ++ e ∷ [])

unfoldable pub emit : EmitCall → Action (List StoredEvent) StoredEvent
unfolding stored_event append_event is_event_type
emit c = do
  guard (choice actor_types c.actor_type) validation_error
  guard (choice object_types c.object_type) validation_error
  guard (is_event_type c.event_type) validation_error
  metadata ← λ trail. (dict_of c.metadata, trail)
  scrubbed ← λ trail. (scrub_metadata metadata, trail)
  guard (leb (dumps_length (Json.obj scrubbed)) max_metadata_bytes) validation_error
  append_event (stored_event c scrubbed)
