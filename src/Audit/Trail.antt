-- ===== src/Audit/Trail.antt =====
-- What a call of `AuditService.emit` stores: apps/api/apps/audit/services.py.
use Prim.Native.Nat.{◌≤◌}
use Prim.Native.String
use Prim.Native.String.{String}
use mathlib.Core.Path.{◌≡◌, refl, subst}
use mathlib.Core.Logic.{inl, inr}
use native.Mathlib.Omega.{arith}
use mathlib.Core.Bool.{true}
use mathlib.Core.List.{List, [], ◌∷◌, ◌++◌}
use runbook_platform.Prelude.Tests.{leb, Bool-cases}
use runbook_platform.Prelude.Json.{Json}
use runbook_platform.Prelude.Dumps.{dumps_length}
use runbook_platform.Prelude.Effects.{Result, ok, err, Error, Result-cases}
use runbook_platform.Audit.Scrub.{scrub_metadata, IsClean}
use runbook_platform.Audit.Clean.{scrub_metadata-IsClean}
use runbook_platform.Audit.Emit.{
  EmitCall, StoredEvent, emit, is_event_type, max_metadata_bytes, choice, object_types, actor_types,
  dict_of,
}

-- A stored event: what it says of the call, and the bounds of its columns.
pub record Emitted (c : EmitCall) (trail : List StoredEvent) (e : StoredEvent)
    (trail' : List StoredEvent) : Type 0 where
  pub is_appended : trail' ≡ trail ++ e ∷ []
  pub names_object : e.object_id ≡ c.object_id
  pub names_organization : e.organization_id ≡ c.organization_id
  pub is_clean : IsClean e.metadata
  pub is_small : dumps_length (Json.obj e.metadata) ≤ max_metadata_bytes
  pub is_short : String.count e.event_type ≤ 128

Answer : EmitCall → List StoredEvent → Result StoredEvent × List StoredEvent → Type 0
Answer c trail (ok e, trail') = Emitted c trail e trail'
Answer c trail (err x, trail') = trail' ≡ trail

short_event_type : (s : String) → is_event_type s ≡ true → String.count s ≤ 128
unfolding is_event_type
short_event_type s h = ground (arith, h)

emit-Answer : (c : EmitCall) (trail : List StoredEvent) → Answer c trail (emit c trail)
unfolding emit Answer
emit-Answer c trail = elim (Bool-cases (choice actor_types c.actor_type)) [
  | inr a ↦ rw a refl
  | inl a ↦ rw a (elim (Bool-cases (choice object_types c.object_type)) [
    | inr b ↦ rw b refl
    | inl b ↦ rw b (elim (Bool-cases (is_event_type c.event_type)) [
      | inr d ↦ rw d refl
      | inl d ↦ rw d (elim (Result-cases (dict_of c.metadata)) [
        | inr (x, f) ↦ rw f refl
        | inl (metadata, f) ↦ rw f (elim (Result-cases (scrub_metadata metadata)) [
          | inr (x, g) ↦ rw g refl
          | inl (scrubbed, g) ↦
              rw g (elim (Bool-cases (leb (dumps_length (Json.obj scrubbed)) max_metadata_bytes)) [
                | inr i ↦ rw i refl
                | inl i ↦ rw i (record {
                  is_appended = refl;
                  names_object = refl;
                  names_organization = refl;
                  is_clean = (scrub_metadata-IsClean metadata scrubbed g).0;
                  is_small = ground (arith, i);
                  is_short = short_event_type c.event_type d;
                })
              ])
        ])
      ])
    ])
  ])
]

-- A call that returns appends one event with the call's object and organization, a name of at
-- most 128 characters, metadata without refused and dropped keys, and at most 16 KB of it.
pub emit-Emitted :
    (c : EmitCall) (trail : List StoredEvent) (e : StoredEvent) (trail' : List StoredEvent)
    → emit c trail ≡ (ok e, trail')
    → Emitted c trail e trail'
unfolding Answer
emit-Emitted c trail e trail' h = subst (Answer c trail) h (emit-Answer c trail)

-- A call that raises stores nothing.
pub emit-raises :
    (c : EmitCall) (trail : List StoredEvent) (x : Error) (trail' : List StoredEvent)
    → emit c trail ≡ (err x, trail')
    → trail' ≡ trail
unfolding Answer
emit-raises c trail x trail' h = subst (Answer c trail) h (emit-Answer c trail)
