-- ===== src/Lib.antt =====
-- The runbook platform's control plane, apps/api: the services that move changes, executions, steps,
-- runners and approvals from state to state.
--
-- A change record (apps/changes) is approved and dispatched as an execution (apps/executions) of a
-- workflow. A runner of a pool (apps/runners) claims the execution under a lease, starts and finishes
-- its steps, some of them after an approval (apps/approvals) or as a policy decides (apps/policies),
-- uploads artifacts (apps/artifacts) and completes it; the end of the
-- execution moves the change on. Watchdogs fail executions and mark runners offline whose heartbeats
-- are too old. The services emit audit events (apps/audit).
--
-- Files:
--   Prelude: Boolean tests (Tests), tables of rows with a primary key and the queries on them
--     (Tables), tables with unique keys (Keys), sorting (Sorting), service calls with raises and
--     rollback (Effects, Results), JSON values and the length of their text (Json, Dumps), texts and
--     keys as text (Codes, Text).
--   Store: the database that all services share, one table for each model, with the audit trail and
--     the messages sent on commit. Audit: actors and events.
--   Changes: Model and Transitions model apps/api/apps/changes/models.py and transitions.py
--     (transition_change); Dispatch and Completion the operations of apps/api/apps/changes/services.py
--     that executions call (expire_dispatchable_change, expire_unbound_dispatch_for_execution,
--     assert_execution_change_binding_ready, enforce_emergency_expiry_for_execution,
--     handle_bound_execution_completed). Lifecycle, Effects and Frame hold proofs.
--   Runners: Model, Fleet, Liveness, Registration and Activation model apps/api/apps/runners/models.py and
--     services.py, Scheduling scheduling.py (schedule_execution_claim), Routing route_matching.py
--     (find_pool_for_change). Limits, Claims, Afterwards, Admission, Revocation, Sweep, Routes
--     and Issued hold proofs.
--   Executions: Model, Events, Steps, Completion and Watchdog model apps/api/apps/executions/models.py
--     and services.py (update_execution_step, complete_execution, heartbeat_execution,
--     cancel_execution, recover_stuck_executions, fail_execution_for_approval_timeout). Finality,
--     Outcomes, Endings, Recovery, History, Once, Completed, Ended and Sweep hold proofs.
--   Approvals: Model, Decisions, Resolution and Requests model apps/api/apps/approvals/models.py and
--     services.py (request_step_approval, get_approval_status, decide_approval,
--     recover_expired_approvals) with handle_change_approval_decision of
--     apps/api/apps/changes/services.py. Keeping, Final, Timeouts, History and Decided hold proofs.
--   Policies: Model, Conditions, Context, Evaluation, Steps, Admin and Rules model
--     apps/api/apps/policies/models.py and services.py (create_policy, update_policy, create_rule,
--     update_rule, deactivate_rule, evaluate_step_policy) with link_policy_evaluation of
--     apps/api/apps/changes/services.py. Decisions, Reading, Ranked, Follows, Unique,
--     Valid and Sound hold proofs.
--   Artifacts: Model, Names, Checks, Upload, Tokens and Completeness model
--     apps/api/apps/artifacts/models.py, storage.py and services.py (create_from_runner_upload,
--     create_download_token, validate_download_token, create_download_url,
--     check_step_evidence_completeness). Quotas, SafeNames, Stored, Limits and Complete hold proofs.
--   Workflows: Values, Paths, Checks and Definitions model validate_workflow_definition of
--     apps/api/apps/workflows/validators.py for the second version of the schema, and
--     lookup_action_contract of action_catalog.py; Model and Publication model models.py and
--     accept_review, reject_review, publish_workflow and archive_workflow of services.py. Valid,
--     Repeats, Accepted, Published and Reviews hold proofs.
--   Audit: Keys, Scrub and Emit model AuditService.emit of apps/api/apps/audit/services.py with the
--     scrubbing of metadata. Clean and Trail hold proofs.
--   Scenarios: concrete databases and calls.
--
-- How the code corresponds. A service is a function from the database to a result, a value or an
-- exception, and the database after it; what was written before an exception stays unless the
-- transaction rolls it back (Prelude.Effects.atomic). A row is a record, a foreign key the number of
-- its row, an instant a number of seconds, and the clock, fresh keys and random tokens are arguments.
-- `select_for_update` makes the calls on a row follow each other, so interleavings are sequences of
-- calls (Executions.History.Reached, Approvals.History.Reached, Runners.Revocation.Reached). Where a
-- service locks less than it reads, this is an assumption that the result names: the claims of one
-- organization through several pools, the uploads, the publications of one runbook, and the
-- administration of policies are one at a time. Objects that a caller passes in and the service does
-- not read again are separate arguments, which may be stale. An update of a queryset is `update_where`, a `save(update_fields=...)` is `update_row`.
--
-- Bounds. The search of a claim has the 50 rounds that the code gives it; no other loop needs fuel.
-- Numbers are unbounded as in Python.
--
-- Not modelled: an exception of AuditService.emit inside a service other than transition_change,
-- whose caller gives metadata (the metadata of the others have no refused keys and are small, and
-- Audit.Emit models the call by itself); metrics, logs and `updated_at`; the parts of audit metadata and messages that only
-- copy columns, and the facts that a policy evaluation only stores; HTTP views and serializers;
-- event streams; integrations beyond the notification that is asked for; most of
-- apps/api/apps/changes/services.py, apps/evidence, apps/auditor and apps/runner. Parameters stand
-- for what other code gives: SHA-256 (`hash_token`), the time zones of zoneinfo
-- (Policies.Conditions.Zones), Django's signed tokens with the texts of instants
-- (Artifacts.Tokens.Signing), which characters beyond ASCII are letters, and the JSON schemas, the
-- action catalogues and the pattern of secrets (Workflows.Checks.Library). Whether the storage and
-- the database take an artifact is an argument of an upload. The day's counts of uploaded bytes are one
-- table that cannot fail; the code keeps them in Django's cache, which processes share only if the
-- deployment configures one that they share. The services of changes that the hooks
-- call and that are not translated (emergency expiry, integrity, breakglass sessions, verification
-- state) are the interface Changes.Completion.ChangeGuards, with the law that they write no
-- execution, step, lease or approval; those that approvals call (integrity, dispatch, exceptions)
-- the interface Approvals.Decisions.ApprovalGuards, with the law that they write no approval.
pub mod Prelude
pub mod Audit
pub mod Store
pub mod Changes
pub mod Runners
pub mod Executions
pub mod Approvals
pub mod Policies
pub mod Artifacts
pub mod Workflows
pub mod Scenarios
