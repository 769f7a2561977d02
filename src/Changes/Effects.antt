-- ===== src/Changes/Effects.antt =====
-- How calls of `transition_change` of apps/api/apps/changes/transitions.py end.
use Prim.Native.Nat.{ℕ}
use Prim.Native.String.{String}
use mathlib.Core.Path.{◌≡◌}
use mathlib.Core.Bool.{true, false}
use mathlib.Core.Option.{Option, some}
use mathlib.Core.List.{List, [], ◌∷◌, ◌++◌}
use native.Mathlib.Omega.{arith}
use runbook_platform.Prelude.Tests.{nat_eq}
use runbook_platform.Prelude.Tables.{find_row, update_row, find_row-update_row}
use runbook_platform.Audit.{AuditActor, AuditEvent, Value}
use runbook_platform.Prelude.Effects.{Result, ok, err, invalid_state_transition}
use runbook_platform.Store.{World}
use runbook_platform.Changes.Model.{ChangeStatus, ChangeRecord, change_row}
use runbook_platform.Changes.Transitions.{allowed, write_transition}

-- What a transition leaves of `w`: the other rows are as before, and the audit trail has one more
-- event, which names the record and its organization.
pub record Moves (c : ChangeRecord) (s : ChangeStatus) (w v : World) : Type 0 where
  pub others : (k : ℕ) → (k ≡ c.id → ⊥) → find_row k v.changes ≡ find_row k w.changes
  pub audited :
      (e : AuditEvent) × (v.audit ≡ w.audit ++ e ∷ [])
      × (e.object_id ≡ c.id)
      × (e.organization_id ≡ c.organization_id)

-- The record's row has the new status, and the other rows are as before.
pub record SavedOnly (c : ChangeRecord) (s : ChangeStatus) (w v : World) : Type 0 where
  pub moved : (d : ChangeRecord) × (find_row c.id v.changes ≡ some d) × (d.status ≡ s)
  pub others : (k : ℕ) → (k ≡ c.id → ⊥) → find_row k v.changes ≡ find_row k w.changes

id-write_transition :
    (s : ChangeStatus) (now : ℕ) (reason : String) (c : ChangeRecord)
    → (write_transition s now reason c).id ≡ c.id
unfolding write_transition
id-write_transition s now reason c = ground arith

module _ (c : ChangeRecord) (s : ChangeStatus) (actor : Option AuditActor) (now : ℕ)
    (reason : String) (extra : List (String × Value)) (w : World) where
  -- How a call on the stored record `c` ends.
  abbrev pub Ends : Result (ChangeStatus × ChangeRecord) × World → Type 0
  Ends (ok (previous, d), v) =
      (previous ≡ c.status) × (d.status ≡ s) × (find_row c.id v.changes ≡ some d) × Moves c s w v
  Ends (err (invalid_state_transition code), v) = (allowed c.status s ≡ false) × (v ≡ w)
  Ends (err error, v) = (allowed c.status s ≡ true) × (v.audit ≡ w.audit) × SavedOnly c s w v

  others :
      (k : ℕ)
      → (k ≡ c.id → ⊥)
      → find_row k (update_row c.id (write_transition s now reason) w.changes)
        ≡ find_row k w.changes
  others k away =
      rw
        (find_row-update_row k c.id (write_transition s now reason) w.changes
          (id-write_transition s now reason))
        (ground (arith, away))
