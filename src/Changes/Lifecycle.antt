-- ===== src/Changes/Lifecycle.antt =====
-- What the transition table of apps/api/apps/changes/transitions.py guarantees over the whole life
-- of a change record.
use Prim.Native.Nat.{ℕ, zero, suc, ◌+◌, ◌≤◌, ◌<◌}
use Prim.Native.String.{String}
use mathlib.Core.Path.{◌≡◌, refl, sym, ◌∙◌}
use mathlib.Core.Logic.{inl, inr}
use mathlib.Core.Bool.{Bool, true, false, false≢true}
use mathlib.Core.Option.{Option, none}
use mathlib.Core.List.{List, []}
use native.Mathlib.Omega.{arith}
use runbook_platform.Prelude.Tests.{is_some, Bool-cases}
use runbook_platform.Prelude.Effects.{ok}
use runbook_platform.Audit.{AuditActor, Value}
use runbook_platform.Prelude.Tables.{any_row}
use runbook_platform.Prelude.Codes.{codes_beq, lower_codes}
use runbook_platform.Prelude.Dumps.{dumps_length}
use runbook_platform.Audit.Keys.{is_rejected, is_forbidden}
use runbook_platform.Audit.Scrub.{scrub_metadata}
use runbook_platform.Store.{World}
use runbook_platform.Changes.Model.{
  ChangeStatus, draft, pending_approval, approved, scheduled, dispatchable, running,
  verification_pending, verification_failed, verified, closed, rejected, canceled, expired,
  ChangeRecord,
}
use runbook_platform.Changes.Transitions.{
  allowed, write_transition, transition_change, transition_metadata, accepts_metadata,
}

-- How far a status lies on the way to the end.
abbrev pub rank : ChangeStatus → ℕ
rank draft = 0
rank pending_approval = 1
rank approved = 2
rank scheduled = 3
rank dispatchable = 4
rank running = 5
rank verification_pending = 6
rank verification_failed = 7
rank verified = 7
rank _ = 8

allowed-rank : (s t : ChangeStatus) → allowed s t ≡ true → rank s < rank t
unfolding allowed
allowed-rank s t h = ground arith

rank_bounded : (s : ChangeStatus) → rank s ≤ 8
rank_bounded s = ground arith

-- `d` was made from `c` by `n` accepted calls of `transition_change`, in any worlds between.
pub data Moved (c : ChangeRecord) : ChangeRecord → ℕ → Type 0 where
  here : Moved c c zero
  next :
      {d e : ChangeRecord} {n : ℕ}
      → Moved c d n
      → (new_status : ChangeStatus) (actor : Option AuditActor) (now : ℕ) (reason : String)
      → (extra : List (String × Value)) (w w' : World) (previous : ChangeStatus)
      → transition_change d new_status actor now reason extra w ≡ (ok (previous, e), w')
      → Moved c e (suc n)

accepted_allowed :
    (d e : ChangeRecord) (s : ChangeStatus) (actor : Option AuditActor) (now : ℕ) (reason : String)
    → (extra : List (String × Value)) (w w' : World) (previous : ChangeStatus)
    → transition_change d s actor now reason extra w ≡ (ok (previous, e), w')
    → (allowed d.status s ≡ true) × (e ≡ write_transition s now reason d)
unfolding transition_change
accepted_allowed d e s actor now reason extra w w' previous h = ground arith

status-write_transition :
    (s : ChangeStatus) (now : ℕ) (reason : String) (c : ChangeRecord)
    → (write_transition s now reason c).status ≡ s
unfolding write_transition
status-write_transition draft now reason c = ground arith
status-write_transition _ now reason c = ground arith

-- Whatever calls of `transition_change` have moved a record from `c` to `d`, there were at most as
-- many of them as the ranks of the two statuses are apart, so never more than eight.
pub Moved-bounded :
    {c d : ChangeRecord} {n : ℕ} → Moved c d n → (n + rank c.status ≤ rank d.status) × (n ≤ 8)
Moved-bounded {c} here = (omega arith, omega arith)
Moved-bounded {c} (next {d} {e} {n} m s actor now reason extra w w' previous h) =
    let (ok_move, made) = accepted_allowed d e s actor now reason extra w w' previous h in
    let stamped : e.status ≡ s = rw made (status-write_transition s now reason d) in
    let longer : suc n + rank c.status ≤ rank e.status =
      rw stamped (omega (arith, allowed-rank d.status s ok_move, Moved-bounded m)) in
    (longer, omega (arith, rank_bounded e.status))

-- Statuses that lie behind a start, a dispatch and an approval.
abbrev pub is_past_start : ChangeStatus → Bool
is_past_start running = true
is_past_start verification_pending = true
is_past_start verification_failed = true
is_past_start verified = true
is_past_start closed = true
is_past_start _ = false

abbrev pub is_past_dispatch : ChangeStatus → Bool
is_past_dispatch dispatchable = true
is_past_dispatch s = is_past_start s

abbrev pub is_past_approval : ChangeStatus → Bool
is_past_approval approved = true
is_past_approval scheduled = true
is_past_approval s = is_past_dispatch s

-- The record carries the instants of the stages that its status lies behind.
pub record HasHistory (c : ChangeRecord) : Type 0 where
  pub was_approved : is_past_approval c.status ≡ true → is_some c.approved_at ≡ true
  pub was_dispatched : is_past_dispatch c.status ≡ true → is_some c.dispatchable_at ≡ true
  pub was_started : is_past_start c.status ≡ true → is_some c.running_at ≡ true

write_transition-HasHistory :
    (s : ChangeStatus) (now : ℕ) (reason : String) (c : ChangeRecord)
    → allowed c.status s ≡ true
    → HasHistory c
    → HasHistory (write_transition s now reason c)
unfolding allowed write_transition
write_transition-HasHistory draft now reason c a h = ground arith
write_transition-HasHistory _ now reason c a h = ground arith

-- No change runs, is verified or is closed that was not approved, dispatched and started: along
-- accepted calls of `transition_change` the instants of these stages are kept.
pub Moved-HasHistory : {c d : ChangeRecord} {n : ℕ} → HasHistory c → Moved c d n → HasHistory d
Moved-HasHistory g here = g
Moved-HasHistory g (next {d} {e} {n} m s actor now reason extra w w' previous h) =
    let (ok_move, made) = accepted_allowed d e s actor now reason extra w w' previous h in
    rw made (write_transition-HasHistory s now reason d ok_move (Moved-HasHistory g m))

abbrev pub is_terminal : ChangeStatus → Bool
is_terminal closed = true
is_terminal rejected = true
is_terminal canceled = true
is_terminal expired = true
is_terminal _ = false

terminal_refuses : (s t : ChangeStatus) → is_terminal s ≡ true → allowed s t ≡ false
unfolding allowed
terminal_refuses s t h = ground arith

-- A closed, rejected, canceled or expired record is never moved again.
pub Moved-terminal :
    {c d : ChangeRecord} {n : ℕ} → is_terminal c.status ≡ true → Moved c d n → (n ≡ 0) × (d ≡ c)
Moved-terminal t here = (refl, refl)
Moved-terminal t (next {d} {e} {n} m s actor now reason extra w w' previous h) =
    let (ok_move, made) = accepted_allowed d e s actor now reason extra w w' previous h in
    let (none_yet, same) = Moved-terminal t m in
    absurd (false≢true (sym (terminal_refuses d.status s (rw same t)) ∙ ok_move))

-- One way out of each status that is not final.
next_status : ChangeStatus → ChangeStatus
next_status draft = canceled
next_status pending_approval = rejected
next_status approved = canceled
next_status scheduled = expired
next_status dispatchable = expired
next_status running = closed
next_status verification_pending = verification_failed
next_status verification_failed = closed
next_status verified = closed
next_status s = s

next_status_allowed : (s : ChangeStatus) → is_terminal s ≡ false → allowed s (next_status s) ≡ true
unfolding allowed next_status
next_status_allowed s h = ground arith

next_status_audited :
    (s : ChangeStatus) → accepts_metadata (transition_metadata s (next_status s) "" []) ≡ true
unfolding accepts_metadata transition_metadata scrub_metadata is_rejected any_row codes_beq
    lower_codes is_forbidden dumps_length next_status
next_status_audited draft = refl
next_status_audited pending_approval = refl
next_status_audited approved = refl
next_status_audited scheduled = refl
next_status_audited dispatchable = refl
next_status_audited running = refl
next_status_audited verification_pending = refl
next_status_audited verification_failed = refl
next_status_audited verified = refl
next_status_audited closed = refl
next_status_audited rejected = refl
next_status_audited canceled = refl
next_status_audited expired = refl

accept :
    {c d : ChangeRecord} {n : ℕ}
    → Moved c d n
    → (s : ChangeStatus) (w : World) → allowed d.status s ≡ true
    → accepts_metadata (transition_metadata d.status s "" []) ≡ true
    → Moved c (write_transition s 0 "" d) (suc n)
unfolding transition_change
accept {d = d} m s w h taken =
    next m s none 0 "" [] w (transition_change d s none 0 "" [] w).1 d.status (ground arith)

finish_from :
    (fuel : ℕ) {c d : ChangeRecord} {n : ℕ}
    → Moved c d n
    → World
    → 8 < fuel + rank d.status
    → (e : ChangeRecord) × (k : ℕ) × Moved c e k × (is_terminal e.status ≡ true)
finish_from zero {c} {d} m w far = absurd (omega (arith, rank_bounded d.status))
finish_from (suc fuel) {c} {d} {n} m w far = elim (Bool-cases (is_terminal d.status)) [
  | inl final ↦ (d, n, m, final)
  | inr open_yet ↦
      let s = next_status d.status in
      let go = next_status_allowed d.status open_yet in
      finish_from fuel (accept m s w go (next_status_audited d.status)) w
        (rw (status-write_transition s 0 "" d) (omega (arith, allowed-rank d.status s go)))
]

-- From every record some accepted calls of `transition_change` lead to a final status.
pub Moved-finish :
    (c : ChangeRecord) (w : World)
    → (d : ChangeRecord) × (n : ℕ) × Moved c d n × (is_terminal d.status ≡ true)
Moved-finish c w = finish_from 9 here w (omega arith)

-- The audit service takes the event of an expired dispatch.
pub dispatch_audited :
    accepts_metadata (transition_metadata dispatchable expired "dispatch_token_expired" []) ≡ true
unfolding accepts_metadata transition_metadata scrub_metadata is_rejected any_row codes_beq
    lower_codes is_forbidden dumps_length
dispatch_audited = refl
