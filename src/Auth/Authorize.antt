-- ===== src/Auth/Authorize.antt =====
-- `authorize`, `authorizeAdministrativeAction`, `authorizeOperation` and `tryAuthorizeIssuedToken`
-- of packages/orchestration/src/root/actor-authorization-policy.ts. A `return` is `ok tt`.
pub mod Guards
pub mod Grant
pub mod Permits
pub mod Claims
pub mod Issued
pub mod Registered
pub mod Soundness
pub mod Reach
pub mod Weaker
pub mod Revocation
use multi_agent_brain.Common.{
  ℕ, String, Bool, true, false, not, ◌&&◌, ◌||◌, Option, none, some, List, [], ◌∷◌, or_else,
  is_some, string_eq, includes, find, StrictEq, ◌==◌, if◌then◌else◌,
}
use multi_agent_brain.Common.Text.{trim, trimmed, non_blank, is_blank}
use multi_agent_brain.Common.Results.{Result, ok, err, ◌>>=◌, ◌>>◌}
use multi_agent_brain.Common.Maps.{get}
use multi_agent_brain.Contracts.{
  ActorRole, TransportKind, internal, ActorContext, OrchestratorCommand, AdministrativeAction,
  role_eq, transport_eq, command_eq, admin_action_eq,
}
use multi_agent_brain.Auth.Platform.{Platform, IssuedActorTokenClaims}
use multi_agent_brain.Auth.Window.{
  InvalidTimestamp, parse_validity_instant, normalize_evaluation_time, is_within_validity_window,
}
use multi_agent_brain.Auth.Registry.{NormalizedCredential, NormalizedEntry}
use multi_agent_brain.Auth.Token.{VerifyError, verify_actor_access_token}
use multi_agent_brain.Auth.Roles.{command_role_policy, admin_action_role_policy}
use multi_agent_brain.Auth.Policy.{Policy, permissive, enforced, is_token_revoked}
unfoldable pub use Guards.*

unfoldable pub assert_actor_shape : ActorContext → Outcome
assert_actor_shape actor = do
  guard (not (is_blank (trim actor.actor_id))) actor_id_required
  guard (not (is_blank (trim actor.source))) source_required

unfoldable pub assert_command_role : OrchestratorCommand → ActorContext → Outcome
assert_command_role command actor =
    guard (includes (command_role_policy command) actor.actor_role) command_role_refused

unfoldable pub assert_administrative_action_role : AdministrativeAction → ActorContext → Outcome
assert_administrative_action_role action actor =
    guard (includes (admin_action_role_policy action) actor.actor_role) action_role_refused

unfoldable pub is_anonymous_internal_allowed : Policy → ActorContext → Bool
is_anonymous_internal_allowed p actor = p.allow_anonymous_internal && actor.transport == internal

-- The claims' own window, where both instants parse.
unfoldable pub claims_window : Platform → ℕ → IssuedActorTokenClaims → Result InvalidTimestamp Bool
claims_window pf t claims = do
  from ← parse_validity_instant pf claims.valid_from
  until ← parse_validity_instant pf claims.valid_until
  ok (is_within_validity_window t from until)

-- A timestamp that does not parse throws inside the `try`.
abbrev pub is_ok_true : Result InvalidTimestamp Bool → Bool
is_ok_true (ok b) = b
is_ok_true (err e) = false

unfoldable pub claims_revoked : Policy → IssuedActorTokenClaims → Bool
claims_revoked p claims = elim (truthy claims.token_id) [
  | none ↦ false
  | some token_id ↦ is_token_revoked p token_id
]

-- The checks of `tryAuthorizeIssuedToken` after the signature.
unfoldable pub claims_admit :
    Platform → Policy → ActorContext → ℕ → Scope → IssuedActorTokenClaims → Bool
unfolding claims_window claims_revoked
claims_admit pf p actor t scope claims =
    if not (is_ok_true (claims_window pf t claims))
    then false
    else if claims_revoked p claims
    then false
    else if not (claims.actor_id == actor.actor_id) || not (claims.actor_role == actor.actor_role)
    then false
    else if not (source_permits claims.source actor.source)
    then false
    else if not (list_permits claims.allowed_transports actor.transport)
    then false
    else if not (list_permits_some claims.allowed_commands scope.command)
    then false
    else if not (list_permits_some claims.allowed_admin_actions scope.administrative_action)
    then false
    else true

abbrev verified_admit :
    Platform → Policy → ActorContext → ℕ → Scope → Result VerifyError IssuedActorTokenClaims → Bool
verified_admit pf p actor t scope (err e) = false
verified_admit pf p actor t scope (ok claims) = claims_admit pf p actor t scope claims

unfoldable pub try_authorize_issued_token :
    Platform → Policy → ActorContext → ℕ → Scope → Option NormalizedEntry → Bool
try_authorize_issued_token pf p actor t scope registered = elim p.issuer_secret [
  | none ↦ false
  | some secret ↦ elim (trimmed actor.auth_token) [
    | none ↦ false
    | some supplied ↦
        if p.issued_token_require_registry_match && not (is_some registered)
        then false
        else verified_admit pf p actor t scope (verify_actor_access_token pf supplied secret)
  ]
]

unfoldable pub is_enforced : Policy → Bool
is_enforced p = elim p.mode [ permissive ↦ false | enforced ↦ true ]

unfoldable pub authorize_unregistered : Platform → Policy → ActorContext → ℕ → Scope → Outcome
unfolding is_enforced is_anonymous_internal_allowed
authorize_unregistered pf p actor t scope =
    if try_authorize_issued_token pf p actor t scope none
    then ok tt
    else guard (not (is_enforced p && not (is_anonymous_internal_allowed p actor))) not_registered

unfoldable pub credential_active : ℕ → NormalizedCredential → Bool
credential_active t c = is_within_validity_window t c.valid_from_ms c.valid_until_ms

-- The branch for an actor with static credentials.
unfoldable pub authenticate : List NormalizedCredential → Option String → ℕ → Outcome
unfolding credential_active
authenticate credentials none t = err token_required
authenticate credentials (some supplied) t =
    elim (find (λ c. c.token == supplied && credential_active t c) credentials) [
      | some matched ↦ ok tt
      | none ↦ elim (find (λ c. c.token == supplied) credentials) [
        | some inactive ↦ err inactive_token
        | none ↦ err failed_authentication
      ]
    ]

unfoldable pub authorize_by_credentials :
    Policy → ActorContext → ℕ → List NormalizedCredential → Outcome
unfolding is_enforced authenticate
authorize_by_credentials p actor t [] =
    guard (not (is_enforced p && not (actor.transport == internal))) tokenless_actor
authorize_by_credentials p actor t (c ∷ cs) = authenticate (c ∷ cs) (trimmed actor.auth_token) t

-- The checks of a registered actor, before it is authenticated.
unfoldable pub check_entry : NormalizedEntry → ActorContext → ℕ → Scope → Outcome
check_entry entry actor t scope = do
  guard entry.enabled actor_disabled
  guard (is_within_validity_window t entry.valid_from_ms entry.valid_until_ms)
      outside_validity_window
  guard (entry.actor_role == actor.actor_role) role_mismatch
  guard (set_permits entry.allowed_transports actor.transport) transport_refused
  guard (set_permits_some entry.allowed_commands scope.command) command_refused
  guard (set_permits_some entry.allowed_admin_actions scope.administrative_action) action_refused
  guard (source_permits entry.source actor.source) source_mismatch

unfoldable pub authorize_registered :
    Platform → Policy → ActorContext → ℕ → Scope → NormalizedEntry → Outcome
unfolding check_entry authorize_by_credentials
authorize_registered pf p actor t scope entry = do
  check_entry entry actor t scope
  if try_authorize_issued_token pf p actor t scope (some entry)
      then ok tt
      else authorize_by_credentials p actor t (or_else entry.auth_tokens [])

unfoldable pub assert_scope_roles : Scope → ActorContext → Outcome
unfolding assert_command_role assert_administrative_action_role
assert_scope_roles scope actor = do
  elim scope.command [ none ↦ ok tt | some command ↦ assert_command_role command actor ]
  elim scope.administrative_action [
    | none ↦ ok tt
    | some action ↦ assert_administrative_action_role action actor
  ]

-- The lookup in the registry, and what follows it.
unfoldable pub authorize_at : Platform → Policy → ActorContext → ℕ → Scope → Outcome
unfolding authorize_unregistered authorize_registered
authorize_at pf p actor t scope = elim (get p.registry actor.actor_id) [
  | none ↦ authorize_unregistered pf p actor t scope
  | some entry ↦ authorize_registered pf p actor t scope entry
]

-- `now` is the clock, read where `initiatedAt` is no date.
unfoldable pub authorize_operation : Platform → Policy → ℕ → ActorContext → Scope → Outcome
unfolding assert_actor_shape assert_scope_roles authorize_at
authorize_operation pf p now actor scope = do
  assert_actor_shape actor
  assert_scope_roles scope actor
  authorize_at pf p actor (normalize_evaluation_time pf now actor.initiated_at) scope

unfoldable pub authorize : Platform → Policy → ℕ → OrchestratorCommand → ActorContext → Outcome
unfolding authorize_operation
authorize pf p now command actor =
    authorize_operation pf p now actor
      (record { command = some command; administrative_action = none })

unfoldable pub authorize_administrative_action :
    Platform → Policy → ℕ → AdministrativeAction → ActorContext → Outcome
unfolding authorize_operation
authorize_administrative_action pf p now action actor =
    authorize_operation pf p now actor
      (record { command = none; administrative_action = some action })
