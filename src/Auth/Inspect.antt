-- ===== src/Auth/Inspect.antt =====
-- `inspectToken` and `findStaticCredentialMatch` of
-- packages/orchestration/src/root/actor-authorization-policy.ts.
pub mod Views
pub mod Laws
pub mod Agreement
use multi_agent_brain.Common.{
  ℕ, String, Bool, true, false, not, ◌&&◌, ◌||◌, Option, none, some, List, [], ◌∷◌, or_else, ◌==◌,
  string_eq, is_some, find, if◌then◌else◌,
}
use multi_agent_brain.Common.Text.{trim, non_blank}
use multi_agent_brain.Common.Results.{Result, ok, err, ◌>>=◌}
use multi_agent_brain.Common.Maps.{get}
use multi_agent_brain.Contracts.{
  ActorRole, TransportKind, OrchestratorCommand, AdministrativeAction, role_eq, transport_eq,
  command_eq, admin_action_eq,
}
use multi_agent_brain.Auth.Platform.{Platform, IssuedActorTokenClaims}
use multi_agent_brain.Auth.Window.{normalize_evaluation_time, InvalidTimestamp}
use multi_agent_brain.Auth.Lifecycle.{
  LifecycleStatus, active, derive_actor_lifecycle_status, is_active,
}
use multi_agent_brain.Auth.Registry.{NormalizedCredential, NormalizedEntry}
use multi_agent_brain.Auth.Token.{VerifyError, verify_actor_access_token}
use multi_agent_brain.Auth.Policy.{Policy}
use multi_agent_brain.Auth.Authorize.{
  truthy, list_permits, set_permits, claims_window, claims_revoked, credential_active,
}
unfoldable pub use Views.*

-- The `try` block; what throws in it falls through to an unrecognized token.
inspect_window :
    Policy
    → InspectOptions
    → String
    → ℕ
    → IssuedActorTokenClaims
    → Result InvalidTimestamp Bool
    → ActorTokenInspection
unfolding inspect_claims
inspect_window p options as_of t claims (err e) = unknown_token as_of unrecognized_token
inspect_window p options as_of t claims (ok window) =
    inspect_claims p options as_of t claims window (get p.registry claims.actor_id)

inspect_verified :
    Platform
    → Policy
    → InspectOptions
    → String
    → ℕ
    → Result VerifyError IssuedActorTokenClaims
    → ActorTokenInspection
unfolding inspect_window
inspect_verified pf p options as_of t (err e) = unknown_token as_of unrecognized_token
inspect_verified pf p options as_of t (ok claims) =
    inspect_window p options as_of t claims (claims_window pf t claims)

inspect_by_issuer :
    Platform → Policy → InspectOptions → String → ℕ → String → Option String → ActorTokenInspection
unfolding inspect_verified
inspect_by_issuer pf p options as_of t token none = unknown_token as_of unrecognized_token
inspect_by_issuer pf p options as_of t token (some secret) =
    inspect_verified pf p options as_of t (verify_actor_access_token pf token secret)

inspect_matched :
    Platform
    → Policy
    → InspectOptions
    → String
    → ℕ
    → String
    → Option (NormalizedEntry × NormalizedCredential)
    → ActorTokenInspection
unfolding inspect_static inspect_by_issuer
inspect_matched pf p options as_of t token (some (entry, c)) =
    inspect_static options as_of t entry c
inspect_matched pf p options as_of t token none =
    inspect_by_issuer pf p options as_of t token p.issuer_secret

inspect_supplied :
    Platform → Policy → InspectOptions → String → ℕ → Option String → ActorTokenInspection
unfolding inspect_matched
inspect_supplied pf p options as_of t none = unknown_token as_of missing_token
inspect_supplied pf p options as_of t (some token) =
    inspect_matched pf p options as_of t token (find_static_credential_match p.registry token)

-- `now` is what the clock reads.
unfoldable pub inspect_token :
    Platform → Policy → (now : ℕ) → String → InspectOptions → ActorTokenInspection
unfolding inspect_supplied find_static_credential_match
inspect_token pf p now token options =
    let as_of = or_else options.as_of (pf.to_iso now) in
    inspect_supplied pf p options as_of (normalize_evaluation_time pf now as_of)
      (non_blank (trim token))
