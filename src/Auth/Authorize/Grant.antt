-- ===== src/Auth/Authorize/Grant.antt =====
-- The grounds on which the policy lets an actor act, stated without the code's control flow.
use multi_agent_brain.Common.{
  ℕ, String, ◌≡◌, ◌⊎◌, Bool, true, false, Option, none, some, List, [], ◌∷◌, or_else, Elem,
}
use multi_agent_brain.Common.Text.{trim, trimmed, is_blank}
use multi_agent_brain.Common.Results.{ok}
use multi_agent_brain.Common.Maps.{get}
use multi_agent_brain.Contracts.{ActorContext, internal}
use multi_agent_brain.Auth.Platform.{Platform, IssuedActorTokenClaims}
use multi_agent_brain.Auth.Window.{InWindow, parse_validity_instant}
use multi_agent_brain.Auth.Registry.{NormalizedCredential, NormalizedEntry}
use multi_agent_brain.Auth.Token.{verify_actor_access_token}
use multi_agent_brain.Auth.Roles.{command_role_policy, admin_action_role_policy}
use multi_agent_brain.Auth.Policy.{Policy, permissive, is_token_revoked}
use multi_agent_brain.Auth.Authorize.{Scope, truthy}

-- A list that is absent or empty permits everything; any other permits its members.
abbrev pub ListPermits : {A : Type 0} → Option (List A) → A → Type 0
ListPermits none a = Unit
ListPermits (some []) a = Unit
ListPermits (some (x ∷ xs)) a = Elem a (x ∷ xs)

-- An absent set permits everything.
abbrev pub SetPermits : {A : Type 0} → Option (List A) → A → Type 0
SetPermits none a = Unit
SetPermits (some xs) a = Elem a xs

-- What is asked for is permitted; nothing asked is permitted.
abbrev pub Asked : {A : Type 0} → (A → Type 0) → Option A → Type 0
Asked P none = Unit
Asked P (some a) = P a

abbrev pub SourcePermits : Option String → String → Type 0
SourcePermits expected actual = Asked (λ s. s ≡ actual) (truthy expected)

-- The claims speak for the actor at the instant and in the scope.
pub record ClaimsAdmit (pf : Platform) (p : Policy) (actor : ActorContext) (t : ℕ) (scope : Scope)
    (claims : IssuedActorTokenClaims) : Type 0 where
  pub from : Option ℕ
  pub until : Option ℕ
  pub from_parsed : parse_validity_instant pf claims.valid_from ≡ ok from
  pub until_parsed : parse_validity_instant pf claims.valid_until ≡ ok until
  pub in_window : InWindow t from until
  pub not_revoked : Asked (λ token_id. is_token_revoked p token_id ≡ false) (truthy claims.token_id)
  pub same_actor : claims.actor_id ≡ actor.actor_id
  pub same_role : claims.actor_role ≡ actor.actor_role
  pub same_source : SourcePermits claims.source actor.source
  pub transport : ListPermits claims.allowed_transports actor.transport
  pub command : Asked (ListPermits claims.allowed_commands) scope.command
  pub action : Asked (ListPermits claims.allowed_admin_actions) scope.administrative_action

-- The actor supplied a token that the issuer signed, and its claims speak for the actor.
pub record IssuedGrant (pf : Platform) (p : Policy) (actor : ActorContext) (t : ℕ) (scope : Scope)
    (registered : Bool) : Type 0 where
  pub secret : String
  pub token : String
  pub claims : IssuedActorTokenClaims
  pub configured : p.issuer_secret ≡ some secret
  pub supplied : trimmed actor.auth_token ≡ some token
  pub registry_match : (p.issued_token_require_registry_match ≡ false) ⊎ (registered ≡ true)
  pub verified : verify_actor_access_token pf token secret ≡ ok claims
  pub admits : ClaimsAdmit pf p actor t scope claims

-- The registry entry lets the actor in, before it is authenticated.
pub record EntryAdmits (entry : NormalizedEntry) (actor : ActorContext) (t : ℕ) (scope : Scope)
    : Type 0 where
  pub enabled : entry.enabled ≡ true
  pub in_window : InWindow t entry.valid_from_ms entry.valid_until_ms
  pub same_role : entry.actor_role ≡ actor.actor_role
  pub transport : SetPermits entry.allowed_transports actor.transport
  pub command : Asked (SetPermits entry.allowed_commands) scope.command
  pub action : Asked (SetPermits entry.allowed_admin_actions) scope.administrative_action
  pub same_source : SourcePermits entry.source actor.source

-- The actor supplied the token of one of the entry's credentials, within its window.
pub record CredentialGrant (credentials : List NormalizedCredential) (actor : ActorContext) (t : ℕ)
    : Type 0 where
  pub credential : NormalizedCredential
  pub listed : Elem credential credentials
  pub supplied : trimmed actor.auth_token ≡ some credential.token
  pub active : InWindow t credential.valid_from_ms credential.valid_until_ms

abbrev pub credentials_of : NormalizedEntry → List NormalizedCredential
credentials_of entry = or_else entry.auth_tokens []

pub data Grant (pf : Platform) (p : Policy) (actor : ActorContext) (t : ℕ) (scope : Scope)
    : Type 0 where
  unregistered_issued :
      get p.registry actor.actor_id ≡ none
      → IssuedGrant pf p actor t scope false
      → Grant pf p actor t scope
  anonymous :
      get p.registry actor.actor_id ≡ none
      → (p.mode ≡ permissive) ⊎ ((p.allow_anonymous_internal ≡ true) × (actor.transport ≡ internal))
      → Grant pf p actor t scope
  registered_issued :
      (entry : NormalizedEntry)
      → get p.registry actor.actor_id ≡ some entry
      → EntryAdmits entry actor t scope
      → IssuedGrant pf p actor t scope true
      → Grant pf p actor t scope
  by_credential :
      (entry : NormalizedEntry)
      → get p.registry actor.actor_id ≡ some entry
      → EntryAdmits entry actor t scope
      → CredentialGrant (credentials_of entry) actor t
      → Grant pf p actor t scope
  without_credentials :
      (entry : NormalizedEntry)
      → get p.registry actor.actor_id ≡ some entry
      → EntryAdmits entry actor t scope
      → credentials_of entry ≡ []
      → (p.mode ≡ permissive) ⊎ (actor.transport ≡ internal)
      → Grant pf p actor t scope

-- The actor names itself and its source, and its role may do what the scope asks.
pub record IsEligible (actor : ActorContext) (scope : Scope) : Type 0 where
  pub named : is_blank (trim actor.actor_id) ≡ false
  pub sourced : is_blank (trim actor.source) ≡ false
  pub command_role :
      Asked (λ command. Elem actor.actor_role (command_role_policy command)) scope.command
  pub action_role :
      Asked
        (λ action. Elem actor.actor_role (admin_action_role_policy action))
        scope.administrative_action
