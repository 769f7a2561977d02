-- ===== src/Audit.antt =====
-- The audit trail: actors and events of apps/api/apps/audit/services.py as the services emit them.
pub mod Keys
pub mod Scrub
pub mod Clean
pub mod Emit
pub mod Trail
use Prim.Native.Nat.{ℕ}
use Prim.Native.String.{String}
use mathlib.Core.Bool.{Bool}
use mathlib.Core.Option.{Option, none, some}
use mathlib.Core.List.{List}

pub data ActorType : Type 0 where
  user runner system api_client unknown : ActorType

pub record AuditActor : Type 0 where
  pub actor_type : ActorType
  pub actor_id : String
  pub actor_label : String

abbrev pub actor_from_runner : String → AuditActor
actor_from_runner runner_id = record {
  actor_type = ActorType.runner;
  actor_id = runner_id;
  actor_label = runner_id;
}

abbrev pub system_actor : String → AuditActor
system_actor label = record { actor_type = ActorType.system; actor_id = ""; actor_label = label }

-- `actor or default`
abbrev pub actor_or : Option AuditActor → AuditActor → AuditActor
actor_or none d = d
actor_or (some a) d = a

-- A metadata value: a text, a number or instant, a flag, a list of texts, or None.
pub data Value : Type 0 where
  text : String → Value
  number : ℕ → Value
  flag : Bool → Value
  texts : List String → Value
  null : Value

abbrev pub instant : Option ℕ → Value
instant none = null
instant (some t) = number t

pub record AuditEvent : Type 0 where
  pub organization_id : ℕ
  pub actor : AuditActor
  pub event_type : String
  pub object_type : String
  pub object_id : ℕ
  pub metadata : List (String × Value)
