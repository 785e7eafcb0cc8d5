-- ===== src/Auth/Summary.antt =====
-- `getRegistrySummary`, `summarizeEntry` and `getRevokedIssuedTokenIds` of
-- packages/orchestration/src/root/actor-authorization-policy.ts.
pub mod Laws
use multi_agent_brain.Common.{
  ℕ, ◌+◌, String, Bool, true, false, not, Option, none, some, List, [], ◌∷◌, map, or_else, is_some,
  length, count, if◌then◌else◌,
}
use multi_agent_brain.Common.Sort.{sort_texts}
use multi_agent_brain.Contracts.{
  ActorRole, TransportKind, OrchestratorCommand, AdministrativeAction,
}
use multi_agent_brain.Auth.Platform.{Platform}
use multi_agent_brain.Auth.Window.{normalize_evaluation_time, starts_after, ended_before}
use multi_agent_brain.Auth.Lifecycle.{
  LifecycleStatus, active, future, expired, disabled, derive_actor_lifecycle_status,
}
use multi_agent_brain.Auth.Registry.{NormalizedCredential, NormalizedEntry}
use multi_agent_brain.Auth.Policy.{Policy, ActorAuthorizationMode}
use multi_agent_brain.Auth.Authorize.{credential_active}

pub record ActorRegistryEntryStatus : Type 0 where
  pub actor_id : String
  pub actor_role : ActorRole
  pub source : Option String
  pub enabled : Bool
  pub lifecycle_status : LifecycleStatus
  pub allowed_transports : Option (List TransportKind)
  pub allowed_commands : Option (List OrchestratorCommand)
  pub allowed_admin_actions : Option (List AdministrativeAction)
  pub static_credential_count : ℕ
  pub active_credential_count : ℕ
  pub future_credential_count : ℕ
  pub expired_credential_count : ℕ

pub record IssuedTokenSupport : Type 0 where
  pub enabled : Bool
  pub require_registry_match : Bool
  pub revoked_token_count : ℕ

pub record ActorCounts : Type 0 where
  pub total : ℕ
  pub enabled : ℕ
  pub disabled : ℕ
  pub active : ℕ
  pub future : ℕ
  pub expired : ℕ

pub record CredentialCounts : Type 0 where
  pub static : ℕ
  pub active : ℕ
  pub future : ℕ
  pub expired : ℕ

pub record ActorRegistrySummary : Type 0 where
  pub mode : ActorAuthorizationMode
  pub allow_anonymous_internal : Bool
  pub issued_token_support : IssuedTokenSupport
  pub actor_counts : ActorCounts
  pub credential_counts : CredentialCounts
  pub actors : List ActorRegistryEntryStatus

unfoldable pub summarize_entry : NormalizedEntry → ℕ → ActorRegistryEntryStatus
summarize_entry entry t =
    let credentials = or_else entry.auth_tokens [] in
    record {
      actor_id = entry.actor_id;
      actor_role = entry.actor_role;
      source = entry.source;
      enabled = entry.enabled;
      lifecycle_status = derive_actor_lifecycle_status entry t;
      allowed_transports = entry.allowed_transports;
      allowed_commands = entry.allowed_commands;
      allowed_admin_actions = entry.allowed_admin_actions;
      static_credential_count = length credentials;
      active_credential_count = count (credential_active t) credentials;
      future_credential_count = count (λ c. starts_after t c.valid_from_ms) credentials;
      expired_credential_count = count (λ c. ended_before t c.valid_until_ms) credentials;
    }

-- `actor.lifecycleStatus === status`
abbrev has_status : LifecycleStatus → ActorRegistryEntryStatus → Bool
has_status active a = elim a.lifecycle_status [ active ↦ true | _ ↦ false ]
has_status future a = elim a.lifecycle_status [ future ↦ true | _ ↦ false ]
has_status expired a = elim a.lifecycle_status [ expired ↦ true | _ ↦ false ]
has_status disabled a = elim a.lifecycle_status [ disabled ↦ true | _ ↦ false ]

-- `actors.reduce((total, actor) => total + f(actor), 0)`
abbrev sum_from : ℕ → (ActorRegistryEntryStatus → ℕ) → List ActorRegistryEntryStatus → ℕ
sum_from total f [] = total
sum_from total f (a ∷ actors) = sum_from (total + f a) f actors

unfoldable pub actor_counts_of : List ActorRegistryEntryStatus → ActorCounts
actor_counts_of actors = record {
  total = length actors;
  enabled = count (λ a. a.enabled) actors;
  disabled = count (λ a. not a.enabled) actors;
  active = count (has_status active) actors;
  future = count (has_status future) actors;
  expired = count (has_status expired) actors;
}

unfoldable pub credential_counts_of : List ActorRegistryEntryStatus → CredentialCounts
credential_counts_of actors = record {
  static = sum_from 0 (λ a. a.static_credential_count) actors;
  active = sum_from 0 (λ a. a.active_credential_count) actors;
  future = sum_from 0 (λ a. a.future_credential_count) actors;
  expired = sum_from 0 (λ a. a.expired_credential_count) actors;
}

unfoldable pub summarize_all : ℕ → List (String × NormalizedEntry) → List ActorRegistryEntryStatus
unfolding summarize_entry
summarize_all t [] = []
summarize_all t ((key, entry) ∷ registry) = summarize_entry entry t ∷ summarize_all t registry

-- `now` is read where `asOf` is no date.
unfoldable pub get_registry_summary : Platform → Policy → ℕ → String → ActorRegistrySummary
unfolding summarize_all actor_counts_of credential_counts_of
get_registry_summary pf p now as_of =
    let actors = summarize_all (normalize_evaluation_time pf now as_of) p.registry in
    record {
      mode = p.mode;
      allow_anonymous_internal = p.allow_anonymous_internal;
      issued_token_support = record {
        enabled = is_some p.issuer_secret;
        require_registry_match = p.issued_token_require_registry_match;
        revoked_token_count = length p.revoked_issued_token_ids;
      };
      actor_counts = actor_counts_of actors;
      credential_counts = credential_counts_of actors;
      actors = actors;
    }

unfoldable pub get_revoked_issued_token_ids : Policy → List String
unfolding sort_texts
get_revoked_issued_token_ids p = sort_texts p.revoked_issued_token_ids
