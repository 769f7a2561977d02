-- ===== src/Artifacts/Tokens.antt =====
-- Download tokens of apps/api/apps/artifacts/services.py.
use Prim.Native.Nat.{ℕ, ◌+◌}
use Prim.Native.String.{String}
use mathlib.Core.Path.{◌≡◌, refl}
use mathlib.Core.Bool.{Bool, false, ◌&&◌}
use mathlib.Core.Option.{Option, none, some}
use mathlib.Core.List.{[], ◌∷◌}
use runbook_platform.Prelude.Tests.{ltb, ◌==◌, string_eq, if◌then◌else◌}
use runbook_platform.Prelude.Text.{id_text}
use runbook_platform.Prelude.Json.{Json, Fields, lookup_field}
use runbook_platform.Prelude.Effects.{Result, ok, err, domain_validation, type_error}
use runbook_platform.Audit.{AuditActor, AuditEvent, text, null}
use runbook_platform.Store.{World, emit}
use runbook_platform.Artifacts.Model.{Artifact, Settings}

-- Django's signed tokens, `signing.dumps` and `signing.loads` under the salt of downloads, and `isoformat` with
-- `datetime.fromisoformat`, each pair with the law that the second undoes the first.
pub record Signing : Type 1 where
  pub Token : Type 0
  pub dumps : Fields → Token
  pub loads : Token → Option Json
  pub isoformat : ℕ → String
  pub fromisoformat : String → Option ℕ
  pub loads-dumps : (payload : Fields) → loads (dumps payload) ≡ some (Json.obj payload)
  pub fromisoformat-isoformat : (t : ℕ) → fromisoformat (isoformat t) ≡ some t

abbrev is_text : String → Option Json → Bool
is_text s (some (Json.str t)) = t == s
is_text s _ = false

module _ (signing : Signing) where
  -- `_download_token_payload`
  unfoldable pub download_token_payload : Artifact → ℕ → Fields
  download_token_payload a expires_at = Fields.field "artifact_id" (Json.str (id_text a.id)) (
      Fields.field "organization_id" (Json.str (id_text a.organization_id))
        (Fields.field "expires_at" (Json.str (signing.isoformat expires_at)) Fields.end))

  unfoldable pub create_download_token : Artifact → ℕ → signing.Token
  unfolding download_token_payload
  create_download_token a expires_at = signing.dumps (download_token_payload a expires_at)

  -- A value that is no text has no instant.
  expiry_of : Option Json → Option ℕ
  expiry_of (some (Json.str s)) = signing.fromisoformat s
  expiry_of _ = none

  check_expiry : ℕ → Option ℕ → Result (Unit {0})
  check_expiry now none = err (domain_validation "artifact_download_token_invalid")
  check_expiry now (some expires_at) =
      if ltb now expires_at
      then ok tt
      else err (domain_validation "artifact_download_token_expired")

  check_payload : Artifact → ℕ → Option Json → Result (Unit {0})
  unfolding expiry_of check_expiry
  check_payload a now none = err (domain_validation "artifact_download_token_invalid")
  check_payload a now (some (Json.obj fs)) =
      if is_text (id_text a.id) (lookup_field "artifact_id" fs)
        && is_text (id_text a.organization_id) (lookup_field "organization_id" fs)
      then check_expiry now (expiry_of (lookup_field "expires_at" fs))
      else err (domain_validation "artifact_download_token_invalid")
  check_payload a now (some v) = err type_error

  unfoldable pub validate_download_token : Artifact → signing.Token → ℕ → Result (Unit {0})
  unfolding check_payload
  validate_download_token a token now = check_payload a now (signing.loads token)

  download_event : AuditActor → Artifact → ℕ → AuditEvent
  download_event actor a expires_at = record {
    organization_id = a.organization_id;
    actor = actor;
    event_type = "artifact.download_url_created";
    object_type = "artifact";
    object_id = a.id;
    metadata =
        ("execution_id", text (id_text a.execution_id))
        ∷ ("step_id", elim a.step_id [ none ↦ null | some k ↦ text (id_text k) ])
        ∷ ("artifact_id", text (id_text a.id))
        ∷ ("kind", text a.kind)
        ∷ ("expires_at", text (signing.isoformat expires_at))
        ∷ [];
  }

  -- The token of the URL and its expiry, and the event of its creation.
  unfoldable pub create_download_url :
      Settings → AuditActor → Artifact → ℕ → World → (signing.Token × ℕ) × World
  unfolding create_download_token download_event
  create_download_url c actor a now w =
      let expires_at = now + c.download_url_ttl_seconds in
      ((create_download_token a expires_at, expires_at), emit (download_event actor a expires_at) w)

  -- The two artifacts have the same keys and organizations, as texts.
  abbrev pub is_same_artifact : Artifact → Artifact → Bool
  is_same_artifact a b =
      (id_text b.id == id_text a.id) && (id_text b.organization_id == id_text a.organization_id)

  -- A token is accepted for the artifact that it was made for, before its expiry, and refused for
  -- every artifact with another key or organization and from its expiry on.
  pub validate_download_token-create :
      (a b : Artifact) (expires_at now : ℕ)
      → validate_download_token a (create_download_token b expires_at) now ≡ (
          if is_same_artifact a b
          then (if ltb now expires_at
              then ok tt
              else err (domain_validation "artifact_download_token_expired"))
          else err (domain_validation "artifact_download_token_invalid"))
  unfolding validate_download_token create_download_token lookup_field
  validate_download_token-create a b expires_at now =
      rw
        (
          signing.loads-dumps (download_token_payload b expires_at),
          signing.fromisoformat-isoformat expires_at,
        )
        refl
