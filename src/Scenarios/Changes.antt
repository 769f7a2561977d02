-- ===== src/Scenarios/Changes.antt =====
-- Change records of apps/api/apps/changes on which the theorems are applied.
use Prim.Native.Nat.{ℕ, zero, ◌+◌, ◌≤◌}
use mathlib.Core.Path.{◌≡◌, refl}
use mathlib.Core.Bool.{true}
use mathlib.Core.Option.{none}
use mathlib.Core.List.{[], ◌∷◌}
use native.Mathlib.Omega.{arith}
use runbook_platform.Store.{World, empty_world}
use runbook_platform.Changes.Model.{ChangeStatus, ChangeRecord, change_row}
use runbook_platform.Changes.Transitions.{
  allowed, write_transition, transition_change, accepts_metadata, transition_metadata,
}
use runbook_platform.Prelude.Tables.{any_row}
use runbook_platform.Prelude.Codes.{codes_beq, lower_codes}
use runbook_platform.Prelude.Dumps.{dumps_length}
use runbook_platform.Audit.{text}
use runbook_platform.Prelude.Effects.{err, validation_error}
use runbook_platform.Audit.Keys.{is_rejected, is_forbidden}
use runbook_platform.Audit.Scrub.{scrub_metadata}
use runbook_platform.Changes.Lifecycle.{
  rank, Moved, HasHistory, is_terminal, Moved-bounded, Moved-HasHistory, Moved-terminal,
  Moved-finish,
}

abbrev drafted : ChangeRecord
drafted = record {
  id = 40;
  organization_id = 10;
  status = ChangeStatus.draft;
  approval_request_id = none;
  policy_evaluation_id = none;
  scheduled_for = none;
  approved_at = none;
  dispatchable_at = none;
  running_at = none;
  verification_pending_at = none;
  verification_failed_at = none;
  verified_at = none;
  closed_at = none;
  rejected_at = none;
  canceled_at = none;
  expired_at = none;
  terminal_reason = "";
}

abbrev change_world : World
change_world = record empty_world { changes = drafted ∷ [] }

abbrev submitted : ChangeRecord
submitted = write_transition ChangeStatus.pending_approval 50 "" drafted

abbrev accepted : ChangeRecord
accepted = write_transition ChangeStatus.approved 60 "" submitted

abbrev called_off : ChangeRecord
called_off = write_transition ChangeStatus.canceled 70 "not needed" accepted

approval : Moved drafted accepted 2
unfolding transition_change allowed write_transition accepts_metadata scrub_metadata
    transition_metadata is_rejected any_row codes_beq lower_codes is_forbidden dumps_length
approval =
    Moved.next
      (Moved.next Moved.here ChangeStatus.pending_approval none 50 "" [] change_world
        (transition_change drafted ChangeStatus.pending_approval none 50 "" [] change_world).1
        ChangeStatus.draft refl)
      ChangeStatus.approved none 60 "" [] change_world
      (transition_change submitted ChangeStatus.approved none 60 "" [] change_world).1
      ChangeStatus.pending_approval refl

Moved-bounded_example : (2 + rank drafted.status ≤ rank accepted.status) × (2 ≤ 8)
Moved-bounded_example = Moved-bounded approval

drafted_history : HasHistory drafted
drafted_history = ground arith

Moved-HasHistory_example : HasHistory accepted
Moved-HasHistory_example = Moved-HasHistory drafted_history approval

Moved-terminal_example : (zero ≡ zero) × (called_off ≡ called_off)
unfolding write_transition
Moved-terminal_example = Moved-terminal {c = called_off} refl Moved.here

Moved-finish_example :
    (d : ChangeRecord) × (n : ℕ) × Moved accepted d n × (is_terminal d.status ≡ true)
Moved-finish_example = Moved-finish accepted change_world

-- Metadata under a refused key: the record is saved, and the call raises.
secret_refused :
    (transition_change drafted ChangeStatus.pending_approval none 50 ""
      (("Dispatch_Token", text "t") ∷ [])
      change_world).0
    ≡ err validation_error
unfolding transition_change allowed accepts_metadata transition_metadata scrub_metadata is_rejected
    any_row codes_beq lower_codes is_forbidden
secret_refused = refl
