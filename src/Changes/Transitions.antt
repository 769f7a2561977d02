-- ===== src/Changes/Transitions.antt =====
-- apps/api/apps/changes/transitions.py: the transition table and `transition_change`.
use Prim.Native.Nat.{ℕ}
use Prim.Native.String.{String}
use mathlib.Core.Bool.{Bool, true, false, not}
use mathlib.Core.Option.{Option, some}
use mathlib.Core.List.{List, [], ◌∷◌, ◌++◌}
use runbook_platform.Prelude.Tests.{leb, ◌==◌, string_eq, if◌then◌else◌}
use runbook_platform.Prelude.Tables.{update_row}
use runbook_platform.Prelude.Effects.{Result, ok, err, invalid_state_transition, validation_error}
use runbook_platform.Prelude.Json.{Json, Items, Fields}
use runbook_platform.Prelude.Dumps.{dumps_length}
use runbook_platform.Audit.Keys.{is_forbidden}
use runbook_platform.Audit.Scrub.{scrub_metadata}
use runbook_platform.Audit.Emit.{max_metadata_bytes}
use runbook_platform.Audit.{AuditActor, AuditEvent, Value, text, actor_or, system_actor}
use runbook_platform.Store.{World, Service, emit}
use runbook_platform.Changes.Model.{
  ChangeStatus, draft, pending_approval, approved, scheduled, dispatchable, running,
  verification_pending, verification_failed, verified, closed, rejected, canceled, expired,
  status_value, ChangeRecord, change_row,
}

-- ALLOWED_STATUS_TRANSITIONS
unfoldable pub allowed : ChangeStatus → ChangeStatus → Bool
allowed draft pending_approval = true
allowed draft approved = true
allowed draft canceled = true
allowed pending_approval approved = true
allowed pending_approval rejected = true
allowed pending_approval expired = true
allowed pending_approval canceled = true
allowed approved scheduled = true
allowed approved dispatchable = true
allowed approved canceled = true
allowed scheduled dispatchable = true
allowed scheduled expired = true
allowed scheduled canceled = true
allowed dispatchable running = true
allowed dispatchable expired = true
allowed running verification_pending = true
allowed running closed = true
allowed verification_pending verified = true
allowed verification_pending verification_failed = true
allowed verification_failed closed = true
allowed verified closed = true
allowed _ _ = false

-- _STATUS_TIMESTAMP_FIELDS, with the `setattr` on the field that it names
unfoldable pub set_timestamp : ChangeStatus → ℕ → ChangeRecord → ChangeRecord
set_timestamp approved now c = record c { approved_at = some now }
set_timestamp dispatchable now c = record c { dispatchable_at = some now }
set_timestamp running now c = record c { running_at = some now }
set_timestamp verification_pending now c = record c { verification_pending_at = some now }
set_timestamp verification_failed now c = record c { verification_failed_at = some now }
set_timestamp verified now c = record c { verified_at = some now }
set_timestamp closed now c = record c { closed_at = some now }
set_timestamp rejected now c = record c { rejected_at = some now }
set_timestamp canceled now c = record c { canceled_at = some now }
set_timestamp expired now c = record c { expired_at = some now }
set_timestamp _ now c = c

-- The fields that a transition writes, on the object in memory and by `save(update_fields=...)`.
unfoldable pub write_transition : ChangeStatus → ℕ → String → ChangeRecord → ChangeRecord
unfolding set_timestamp
write_transition new_status now terminal_reason c =
    let moved = set_timestamp new_status now (record c { status = new_status }) in
    if terminal_reason == "" then moved else record moved { terminal_reason = terminal_reason }

-- `metadata.update(extra)`, one entry at a time.
put_entry : String → Value → List (String × Value) → List (String × Value)
put_entry k v [] = (k, v) ∷ []
put_entry k v ((j, u) ∷ m) =
    let rest = put_entry k v m in if j == k then (k, v) ∷ m else (j, u) ∷ rest

update_entries : List (String × Value) → List (String × Value) → List (String × Value)
unfolding put_entry
update_entries m [] = m
update_entries m ((k, v) ∷ extra) = update_entries (put_entry k v m) extra

unfoldable pub transition_metadata :
    ChangeStatus → ChangeStatus → String → List (String × Value) → List (String × Value)
unfolding update_entries
transition_metadata previous_status new_status terminal_reason audit_metadata =
    let metadata : List (String × Value) =
      ("previous_status", text (status_value previous_status))
      ∷ ("new_status", text (status_value new_status))
      ∷ [] in
    let with_reason =
      if terminal_reason == ""
      then metadata
      else metadata ++ ("terminal_reason", text terminal_reason) ∷ [] in
    update_entries with_reason audit_metadata

value_json : Value → Json
value_json (text s) = Json.str s
value_json (Value.number n) = Json.num n
value_json (Value.flag b) = Json.bool b
value_json (Value.texts ss) = Json.arr (items ss)
  where
    items : List String → Items
    items [] = Items.nil
    items (s ∷ rest) = Items.cons (Json.str s) (items rest)
value_json Value.null = Json.null

metadata_fields : List (String × Value) → Fields
unfolding value_json
metadata_fields [] = Fields.end
metadata_fields ((k, v) ∷ m) = Fields.field k (value_json v) (metadata_fields m)

-- The entries that are left by the scrubbing of a dict without nested dicts.
kept_entries : List (String × Value) → List (String × Value)
kept_entries [] = []
kept_entries ((k, v) ∷ m) =
    let rest = kept_entries m in if is_forbidden k then rest else (k, v) ∷ rest

abbrev fits : Result Fields → Bool
fits (ok fs) = leb (dumps_length (Json.obj fs)) max_metadata_bytes
fits (err x) = false

-- `AuditService.emit` takes the metadata: no refused key, and no more than 16 KB after scrubbing.
unfoldable pub accepts_metadata : List (String × Value) → Bool
unfolding metadata_fields
accepts_metadata m = fits (scrub_metadata (metadata_fields m))

unfoldable pub status_changed_event :
    ChangeRecord → ChangeStatus → Option AuditActor → String → List (String × Value) → AuditEvent
unfolding transition_metadata kept_entries
status_changed_event change new_status actor terminal_reason audit_metadata = record {
  organization_id = change.organization_id;
  actor = actor_or actor (system_actor "Change service");
  event_type = "change.status_changed";
  object_type = "change_record";
  object_id = change.id;
  metadata =
      kept_entries (transition_metadata change.status new_status terminal_reason audit_metadata);
}

-- `transition_change(change=, new_status=, actor=, now=, terminal_reason=, audit_metadata=)` with
-- `save=True`. The caller's object is the second result beside the previous status. Metadata that
-- the audit service refuses raise after the record is saved; the caller's transaction, if there is
-- one, takes the save back.
unfoldable pub transition_change :
    ChangeRecord
    → ChangeStatus
    → Option AuditActor
    → ℕ
    → String
    → List (String × Value)
    → Service (ChangeStatus × ChangeRecord)
transition_change change new_status actor now terminal_reason audit_metadata w =
    let saved : World = record w {
      changes = update_row change.id (write_transition new_status now terminal_reason) w.changes;
    } in
    if not (allowed change.status new_status)
    then (err (invalid_state_transition "invalid_state_transition"), w)
    else if not (
        accepts_metadata
          (transition_metadata change.status new_status terminal_reason audit_metadata))
    then (err validation_error, saved)
    else (
      ok (change.status, write_transition new_status now terminal_reason change),
      emit (status_changed_event change new_status actor terminal_reason audit_metadata) saved,
    )
