-- ===== src/Auth/Authorize/Reach.antt =====
-- What the grounds say about roles, modes and revocation.
use multi_agent_brain.Common.{
  ℕ, ◌≡◌, ◌≢◌, ◌⊎◌, inl, inr, Bool, true, false, none, some, arith, includes, string_eq,
}
use multi_agent_brain.Common.Results.{ok}
use multi_agent_brain.Common.Maps.{get}
use multi_agent_brain.Contracts.{
  ActorRole, retrieval, writer, ActorContext, internal, role_eq, OrchestratorCommand, draft_note,
}
use multi_agent_brain.Routing.{route, brain_retrieval, brain_context_packet}
use multi_agent_brain.Auth.Platform.{Platform}
use multi_agent_brain.Auth.Window.{normalize_evaluation_time}
use multi_agent_brain.Auth.Registry.{NormalizedEntry}
use multi_agent_brain.Auth.Roles.{command_role_policy}
use multi_agent_brain.Auth.Policy.{Policy, permissive, enforced}
use multi_agent_brain.Auth.Authorize.{Scope, authorize_operation, authorize}
use multi_agent_brain.Auth.Authorize.Grant.{
  IssuedGrant, CredentialGrant, credentials_of, Grant, unregistered_issued, anonymous,
  registered_issued, by_credential, without_credentials,
}
use multi_agent_brain.Auth.Authorize.Soundness.{authorize_operation_iff}
use multi_agent_brain.Auth.Authorize.Permits.{includes_iff}

-- The roles that the table lets run a command stay within the command's route.
abbrev pub WithinReach : ActorRole → OrchestratorCommand → Type 0
WithinReach retrieval c =
    ((route c).family ≡ brain_retrieval) ⊎ ((route c).family ≡ brain_context_packet)
WithinReach writer c = c ≡ draft_note
WithinReach _ c = Unit

role-WithinReach :
    (c : OrchestratorCommand) (r : ActorRole)
    → includes (command_role_policy c) r ≡ true
    → WithinReach r c
unfolding command_role_policy route
role-WithinReach c retrieval h = ground arith
role-WithinReach c writer h = ground arith
role-WithinReach c _ h = tt

abbrev command_scope : OrchestratorCommand → Scope
command_scope c = record { command = some c; administrative_action = none }

-- An actor that the policy lets run a command stays within its role: a retrieval actor reaches only
-- commands that are routed to the retrieval and context-packet families, a writer only `draft_note`.
pub authorize-WithinReach :
    (pf : Platform) (p : Policy) (now : ℕ) (c : OrchestratorCommand) (actor : ActorContext)
    → authorize pf p now c actor ≡ ok tt
    → WithinReach actor.actor_role c
unfolding authorize
authorize-WithinReach pf p now c actor h =
    let (eligible, _) = (authorize_operation_iff pf p now actor (command_scope c)).0 h in
    role-WithinReach c actor.actor_role ((includes_iff _ _).1 eligible.command_role)

-- In enforced mode, over a transport that is not internal, whoever acts has supplied a token: one
-- that the issuer signed, or one of the active credentials of the actor's registry entry.
pub enforced_requires_token :
    (pf : Platform) (p : Policy) (now : ℕ) (actor : ActorContext) (scope : Scope)
    → p.mode ≡ enforced
    → actor.transport ≢ internal
    → authorize_operation pf p now actor scope ≡ ok tt
    → ((registered : Bool) × IssuedGrant pf p actor
          (normalize_evaluation_time pf now actor.initiated_at)
          scope
          registered)
      ⊎ ((entry : NormalizedEntry) × (get p.registry actor.actor_id ≡ some entry)
          × CredentialGrant
              (credentials_of entry)
              actor
              (normalize_evaluation_time pf now actor.initiated_at))
enforced_requires_token pf p now actor scope strict outside h =
    token ((authorize_operation_iff pf p now actor scope).0 h).1
  where
    t : ℕ
    t = normalize_evaluation_time pf now actor.initiated_at

    lenient : (p.mode ≡ permissive) ⊎ (actor.transport ≡ internal) → ⊥
    lenient (inl e) = cc
    lenient (inr e) = outside e

    token :
        Grant pf p actor t scope
        → ((registered : Bool) × IssuedGrant pf p actor t scope registered)
          ⊎ ((entry : NormalizedEntry) × (get p.registry actor.actor_id ≡ some entry)
              × CredentialGrant (credentials_of entry) actor t)
    token (unregistered_issued e g) = inl (false, g)
    token (anonymous e (inl m)) = absurd (lenient (inl m))
    token (anonymous e (inr a)) = absurd (outside a.1)
    token (registered_issued entry e a g) = inl (true, g)
    token (by_credential entry e a g) = inr (entry, e, g)
    token (without_credentials entry e a bare why) = absurd (lenient why)
