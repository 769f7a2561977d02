-- ===== src/Runners/Model.antt =====
-- apps/api/apps/runners/models.py: pools, runners, registration tokens, routes and leases.
-- Instants are numbers of seconds, foreign keys the numbers of their rows.
use Prim.Native.Nat.{ℕ}
use Prim.Native.String.{String}
use mathlib.Core.Bool.{Bool}
use mathlib.Core.Option.{Option}
use mathlib.Core.List.{List}
use runbook_platform.Prelude.Tables.{Row}

pub data PoolStatus : Type 0 where
  active draining disabled : PoolStatus

pub record RunnerPool : Type 0 where
  pub id : ℕ
  pub organization_id : ℕ
  pub key : String
  pub status : PoolStatus
  pub max_concurrent_executions : ℕ
  pub default_for_non_change_executions : Bool
  pub capabilities : List String
  pub drain_requested_at : Option ℕ
  pub disabled_at : Option ℕ

pub data RunnerStatus : Type 0 where
  registered active draining offline disabled revoked : RunnerStatus

-- `accepted_labels` and `accepted_capabilities` are the two entries of the column `metadata`.
pub record Runner : Type 0 where
  pub id : ℕ
  pub organization_id : ℕ
  pub pool_id : ℕ
  pub display_name : String
  pub status : RunnerStatus
  pub runner_version : String
  pub hostname : String
  pub fingerprint_sha256 : String
  pub token_hash : String
  pub registered_at : Option ℕ
  pub last_seen_at : Option ℕ
  pub last_heartbeat_at : Option ℕ
  pub drain_requested_at : Option ℕ
  pub disabled_at : Option ℕ
  pub revoked_at : Option ℕ
  pub accepted_labels : List (String × String)
  pub accepted_capabilities : List String

pub record RegistrationToken : Type 0 where
  pub id : ℕ
  pub organization_id : ℕ
  pub pool_id : ℕ
  pub token_hash : String
  pub label_policy : List String
  pub capability_policy : List String
  pub expires_at : ℕ
  pub max_registrations : ℕ
  pub used_count : ℕ
  pub revoked_at : Option ℕ

pub record Route : Type 0 where
  pub id : ℕ
  pub organization_id : ℕ
  pub environment : String
  pub target_type : String
  pub normalized_identifier_pattern : String
  pub pool_id : ℕ
  pub required_capabilities : List String
  pub priority : ℕ
  pub is_active : Bool

pub data LeaseStatus : Type 0 where
  active released expired : LeaseStatus

pub record ExecutionLease : Type 0 where
  pub execution_id : ℕ
  pub organization_id : ℕ
  pub runner_id : ℕ
  pub pool_id : ℕ
  pub status : LeaseStatus
  pub claimed_at : ℕ
  pub last_heartbeat_at : Option ℕ
  pub released_at : Option ℕ
  pub release_reason : String

instance abbrev pub pool_row : Row RunnerPool
pool_row = record { row_id = λ p. p.id }

instance abbrev pub runner_row : Row Runner
runner_row = record { row_id = λ r. r.id }

instance abbrev pub registration_token_row : Row RegistrationToken
registration_token_row = record { row_id = λ t. t.id }

instance abbrev pub route_row : Row Route
route_row = record { row_id = λ r. r.id }
