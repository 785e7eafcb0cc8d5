-- ===== src/Auth/Inspect/Views.antt =====
-- The parts of an inspection of packages/orchestration/src/root/actor-authorization-policy.ts, for
-- credentials and for claims.
use multi_agent_brain.Common.{
  ℕ, String, Bool, true, false, not, ◌&&◌, ◌||◌, Option, none, some, List, [], ◌∷◌, or_else, ◌==◌,
  string_eq, find, if◌then◌else◌,
}
use multi_agent_brain.Contracts.{
  ActorRole, TransportKind, OrchestratorCommand, AdministrativeAction, role_eq, transport_eq,
  command_eq, admin_action_eq,
}
use multi_agent_brain.Auth.Platform.{IssuedActorTokenClaims}
use multi_agent_brain.Auth.Lifecycle.{
  LifecycleStatus, active, derive_actor_lifecycle_status, is_active,
}
use multi_agent_brain.Auth.Registry.{NormalizedCredential, NormalizedEntry}
use multi_agent_brain.Auth.Policy.{Policy}
use multi_agent_brain.Auth.Authorize.{
  truthy, list_permits, set_permits, claims_revoked, credential_active,
}

pub record InspectOptions : Type 0 where
  pub as_of : Option String
  pub expected_transport : Option TransportKind
  pub expected_command : Option OrchestratorCommand
  pub expected_administrative_action : Option AdministrativeAction

pub data TokenKind : Type 0 where
  issued static unknown : TokenKind

pub data Reason : Type 0 where
  missing_token unrecognized_token actor_disabled inactive_static_token : Reason
  inactive_issued_token revoked_issued_token registry_mismatch : Reason
  transport_not_allowed command_not_allowed administrative_action_not_allowed : Reason
  actor_status : LifecycleStatus → Reason

pub record MatchedActor : Type 0 where
  pub actor_id : String
  pub actor_role : ActorRole
  pub source : Option String
  pub lifecycle_status : LifecycleStatus
  pub enabled : Bool

pub record Authorization : Type 0 where
  pub transport : Option TransportKind
  pub transport_allowed : Bool
  pub command : Option OrchestratorCommand
  pub command_allowed : Bool
  pub administrative_action : Option AdministrativeAction
  pub administrative_action_allowed : Bool

pub record ActorTokenInspection : Type 0 where
  pub as_of : String
  pub token_kind : TokenKind
  pub valid : Bool
  pub reason : Option Reason
  pub claims : Option IssuedActorTokenClaims
  pub matched_actor : Option MatchedActor
  pub authorization : Option Authorization

-- `find` over the credentials of one entry, then over the entries in the order of the registry.
unfoldable pub find_static_credential_match :
    List (String × NormalizedEntry) → String → Option (NormalizedEntry × NormalizedCredential)
find_static_credential_match [] token = none
find_static_credential_match ((key, entry) ∷ registry) token =
    let later = find_static_credential_match registry token in
    elim (find (λ c. c.token == token) (or_else entry.auth_tokens [])) [
      | some c ↦ some (entry, c)
      | none ↦ later
    ]

abbrev pub unknown_token : String → Reason → ActorTokenInspection
unknown_token as_of reason = record {
  as_of = as_of;
  token_kind = unknown;
  valid = false;
  reason = some reason;
  claims = none;
  matched_actor = none;
  authorization = none;
}

-- `expected === undefined || permits(expected)`
abbrev pub expected_permits : {A : Type 0} → (A → Bool) → Option A → Bool
expected_permits permits none = true
expected_permits permits (some a) = permits a

abbrev matched : NormalizedEntry → LifecycleStatus → MatchedActor
matched entry status = record {
  actor_id = entry.actor_id;
  actor_role = entry.actor_role;
  source = entry.source;
  lifecycle_status = status;
  enabled = entry.enabled;
}

abbrev authorization_view : InspectOptions → Bool → Bool → Bool → Authorization
authorization_view options transport command action = record {
  transport = options.expected_transport;
  transport_allowed = transport;
  command = options.expected_command;
  command_allowed = command;
  administrative_action = options.expected_administrative_action;
  administrative_action_allowed = action;
}

-- The ladder of reasons for a static credential.
abbrev pub static_reason :
    (enabled : Bool) (status : LifecycleStatus) (credential transport command action : Bool)
    → Option Reason
static_reason enabled status credential transport command action =
    if not enabled
    then some actor_disabled
    else if not (is_active status)
    then some (actor_status status)
    else if not credential
    then some inactive_static_token
    else if not transport
    then some transport_not_allowed
    else if not command
    then some command_not_allowed
    else if not action
    then some administrative_action_not_allowed
    else none

unfoldable pub inspect_static :
    InspectOptions → String → ℕ → NormalizedEntry → NormalizedCredential → ActorTokenInspection
inspect_static options as_of t entry c =
    let status = derive_actor_lifecycle_status entry t in
    let live = credential_active t c in
    let transport =
      expected_permits (set_permits entry.allowed_transports) options.expected_transport in
    let command = expected_permits (set_permits entry.allowed_commands) options.expected_command in
    let action =
      expected_permits (set_permits entry.allowed_admin_actions)
        options.expected_administrative_action in
    record {
      as_of = as_of;
      token_kind = static;
      valid = entry.enabled && (is_active status && (live && (transport && (command && action))));
      reason = static_reason entry.enabled status live transport command action;
      claims = none;
      matched_actor = some (matched entry status);
      authorization = some (authorization_view options transport command action);
    }

-- `!claims.source || !entry.source || entry.source === claims.source`
abbrev pub sources_agree : Option String → Option String → Bool
sources_agree none e = true
sources_agree (some s) none = true
sources_agree (some s) (some e) = e == s

unfoldable pub registry_match : Policy → IssuedActorTokenClaims → Option NormalizedEntry → Bool
registry_match p claims none = not p.issued_token_require_registry_match || false
registry_match p claims (some entry) =
    not p.issued_token_require_registry_match
    || (entry.actor_role == claims.actor_role
        && sources_agree (truthy claims.source) (truthy entry.source))

-- `registryEntry ? deriveActorLifecycleStatus(registryEntry, …) : "active"`
abbrev pub status_of : Option NormalizedEntry → ℕ → LifecycleStatus
status_of none t = active
status_of (some entry) t = derive_actor_lifecycle_status entry t

-- `!registryEntry || registryEntry.enabled`
abbrev pub enabled_of : Option NormalizedEntry → Bool
enabled_of none = true
enabled_of (some entry) = entry.enabled

-- The ladder of reasons for an issued token.
abbrev pub issued_reason :
    (window revoked registered transport command action enabled : Bool) (status : LifecycleStatus)
    → Option Reason
issued_reason window revoked registered transport command action enabled status =
    if not window
    then some inactive_issued_token
    else if revoked
    then some revoked_issued_token
    else if not registered
    then some registry_mismatch
    else if not transport
    then some transport_not_allowed
    else if not command
    then some command_not_allowed
    else if not action
    then some administrative_action_not_allowed
    else if not enabled
    then some actor_disabled
    else if not (is_active status)
    then some (actor_status status)
    else none

unfoldable pub inspect_claims :
    Policy
    → InspectOptions
    → String
    → ℕ
    → IssuedActorTokenClaims
    → (window : Bool) → Option NormalizedEntry
    → ActorTokenInspection
inspect_claims p options as_of t claims window entry =
    let status = status_of entry t in
    let enabled = enabled_of entry in
    let registered = registry_match p claims entry in
    let revoked = claims_revoked p claims in
    let transport =
      expected_permits (list_permits claims.allowed_transports) options.expected_transport in
    let command =
      expected_permits (list_permits claims.allowed_commands) options.expected_command in
    let action =
      expected_permits (list_permits claims.allowed_admin_actions)
        options.expected_administrative_action in
    record {
      as_of = as_of;
      token_kind = issued;
      valid =
          window
          && (not revoked
              && (registered
                  && (transport && (command && (action && (enabled && is_active status))))));
      reason = issued_reason window revoked registered transport command action enabled status;
      claims = some claims;
      matched_actor = elim entry [ none ↦ none | some e ↦ some (matched e status) ];
      authorization = some (authorization_view options transport command action);
    }
