-- ===== src/Audit/Keys.antt =====
-- The metadata keys that apps/api/apps/audit/services.py refuses and those that it drops.
use Prim.Native.String.{String}
use mathlib.Core.Bool.{Bool}
use mathlib.Core.List.{List, [], ◌∷◌}
use runbook_platform.Prelude.Tables.{any_row}
use runbook_platform.Prelude.Codes.{codes, lower_codes, codes_beq}

abbrev rejected_keys : List String
rejected_keys =
    "breakglass_token" ∷ "change_dispatch_token" ∷ "dispatch_token" ∷ "dispatch_token_hash"
    ∷ "registration_token" ∷ "runner_bearer_token" ∷ "runner_registration_token" ∷ "token_hash"
    ∷ "requested_inputs" ∷ "request_snapshot" ∷ []

abbrev forbidden_keys : List String
forbidden_keys =
    "api_key" ∷ "api_token" ∷ "apikey" ∷ "apitoken" ∷ "auth" ∷ "auth_header" ∷ "authorization"
    ∷ "authorization_header" ∷ "bearer" ∷ "bearer_token" ∷ "change_dispatch_token" ∷ "claim_token"
    ∷ "command" ∷ "command_output" ∷ "cookie" ∷ "dispatch_token" ∷ "dispatch_token_hash"
    ∷ "dispatch_token_nonce" ∷ "headers" ∷ "http_headers" ∷ "iam_policy_document" ∷ "kube_config"
    ∷ "password" ∷ "private_key" ∷ "raw_command" ∷ "raw_command_output" ∷ "raw_output"
    ∷ "raw_manifest" ∷ "raw_response" ∷ "raw_response_body" ∷ "raw_external_payload"
    ∷ "raw_external_response" ∷ "raw_external_snapshot" ∷ "external_snapshot" ∷ "external_snapshots"
    ∷ "request_body" ∷ "request_snapshot" ∷ "requested_inputs" ∷ "secret" ∷ "session"
    ∷ "session_token" ∷ "token" ∷ "token_hash" ∷ "registration_token" ∷ "registration_token_hash"
    ∷ "runner_token" ∷ "runner_token_hash" ∷ "runner_bearer_token" ∷ "runner_registration_token"
    ∷ "runner_registration_token_hash" ∷ "access_token" ∷ "refresh_token" ∷ "id_token"
    ∷ "client_secret" ∷ "credentials" ∷ "credential" ∷ "target_credential" ∷ "target_credentials"
    ∷ "target_secret" ∷ "target_secrets" ∷ "secrets" ∷ "auth_material" ∷ "authentication"
    ∷ "auth_headers" ∷ "proxy_authorization" ∷ "bundle_bytes" ∷ "download_url" ∷ "ticket_url"
    ∷ "ticket_urls" ∷ "external_ticket_url" ∷ "external_ticket_urls" ∷ "manifest" ∷ "manifest_json"
    ∷ "private_url" ∷ "private_urls" ∷ "presigned_url" ∷ "presigned_urls" ∷ "storage_key"
    ∷ "activation_ip" ∷ "api_assertion_response" ∷ "attestation_note" ∷ "attestation_notes"
    ∷ "attestation_text" ∷ "external_access_token" ∷ "manual_attestation_text" ∷ "override_payload"
    ∷ "privilege" ∷ "raw_scope" ∷ "grant_scope_raw" ∷ "raw_grant_scope" ∷ "scope_raw"
    ∷ "scope_payload" ∷ "grant_scope_payload" ∷ "request_payload" ∷ "response_body" ∷ "scope_json"
    ∷ "verification_secret" ∷ "webhook_url" ∷ "workflow_snapshot" ∷ "x_api_key" ∷ "cloud_account"
    ∷ "kubeconfig" ∷ "kube_config_file" ∷ "checksums" ∷ "zip_bytes" ∷ "export_bytes"
    ∷ "redacted_value" ∷ "original_value" ∷ "redaction_payload" ∷ "receipt_payload"
    ∷ "legal_hold_reason_raw" ∷ "external_reference_raw" ∷ "external_url" ∷ "external_urls"
    ∷ "artifact_bytes" ∷ "auditor_grant_scope" ∷ "auditor_scope" ∷ "grant_scope" ∷ "reference_url"
    ∷ "reference_urls" ∷ "scope" ∷ "source_url" ∷ "source_urls" ∷ "url" ∷ "urls" ∷ []

-- `key_text.lower() in keys`
unfoldable pub is_key_of : List String → String → Bool
is_key_of keys key = any_row (λ k. codes_beq (codes k) (lower_codes (codes key))) keys

unfoldable pub is_rejected : String → Bool
unfolding is_key_of
is_rejected key = is_key_of rejected_keys key

unfoldable pub is_forbidden : String → Bool
unfolding is_key_of
is_forbidden key = is_key_of forbidden_keys key
