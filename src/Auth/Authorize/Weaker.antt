-- ===== src/Auth/Authorize/Weaker.antt =====
-- When one policy allows all that another allows.
use multi_agent_brain.Common.{
  ℕ, String, ◌≡◌, ◌⊎◌, inl, inr, ◌∙◌, Bool, true, false, Option, none, some,
}
use multi_agent_brain.Common.Results.{ok}
use multi_agent_brain.Common.Maps.{get}
use multi_agent_brain.Contracts.{ActorContext}
use multi_agent_brain.Auth.Platform.{Platform, IssuedActorTokenClaims}
use multi_agent_brain.Auth.Window.{normalize_evaluation_time}
use multi_agent_brain.Auth.Policy.{Policy, permissive, is_token_revoked}
use multi_agent_brain.Auth.Authorize.{Scope, truthy, authorize_operation}
use multi_agent_brain.Auth.Authorize.Grant.{
  Asked, ClaimsAdmit, IssuedGrant, Grant, unregistered_issued, anonymous, registered_issued,
  by_credential, without_credentials,
}
use multi_agent_brain.Auth.Authorize.Soundness.{authorize_operation_iff}

-- `q` has the registry and the issuer of `p`, revokes no more, and is no stricter.
pub record Weaker (p q : Policy) : Type 0 where
  pub registry : (id : String) → get q.registry id ≡ get p.registry id
  pub issuer_secret : q.issuer_secret ≡ p.issuer_secret
  pub registry_match : q.issued_token_require_registry_match ≡ p.issued_token_require_registry_match
  pub live : (id : String) → is_token_revoked p id ≡ false → is_token_revoked q id ≡ false
  pub mode : p.mode ≡ permissive → q.mode ≡ permissive
  pub anonymous : p.allow_anonymous_internal ≡ true → q.allow_anonymous_internal ≡ true

module _ (pf : Platform) (p q : Policy) (w : Weaker p q) (actor : ActorContext) (t : ℕ)
    (scope : Scope) where
  stays_live :
      (o : Option String)
      → Asked (λ id. is_token_revoked p id ≡ false) o
      → Asked (λ id. is_token_revoked q id ≡ false) o
  stays_live none h = tt
  stays_live (some id) h = w.live id h

  weaker-claims :
      (claims : IssuedActorTokenClaims)
      → ClaimsAdmit pf p actor t scope claims
      → ClaimsAdmit pf q actor t scope claims
  weaker-claims claims g = record {
    from = g.from;
    until = g.until;
    from_parsed = g.from_parsed;
    until_parsed = g.until_parsed;
    in_window = g.in_window;
    not_revoked = stays_live (truthy claims.token_id) g.not_revoked;
    same_actor = g.same_actor;
    same_role = g.same_role;
    same_source = g.same_source;
    transport = g.transport;
    command = g.command;
    action = g.action;
  }

  weaker-issued :
      (registered : Bool)
      → IssuedGrant pf p actor t scope registered
      → IssuedGrant pf q actor t scope registered
  weaker-issued registered g = record {
    secret = g.secret;
    token = g.token;
    claims = g.claims;
    configured = w.issuer_secret ∙ g.configured;
    supplied = g.supplied;
    registry_match = elim g.registry_match [
      | inl lax ↦ inl (w.registry_match ∙ lax)
      | inr known ↦ inr known
    ];
    verified = g.verified;
    admits = weaker-claims g.claims g.admits;
  }

  lenient : {A B : Type 0} → (A → B) → (p.mode ≡ permissive) ⊎ A → (q.mode ≡ permissive) ⊎ B
  lenient f (inl m) = inl (w.mode m)
  lenient f (inr a) = inr (f a)

  weaker-Grant : Grant pf p actor t scope → Grant pf q actor t scope
  weaker-Grant (unregistered_issued e g) =
      unregistered_issued (w.registry _ ∙ e) (weaker-issued false g)
  weaker-Grant (anonymous e why) =
      anonymous (w.registry _ ∙ e) (lenient (λ a. (w.anonymous a.0, a.1)) why)
  weaker-Grant (registered_issued entry e a g) =
      registered_issued entry (w.registry _ ∙ e) a (weaker-issued true g)
  weaker-Grant (by_credential entry e a g) = by_credential entry (w.registry _ ∙ e) a g
  weaker-Grant (without_credentials entry e a bare why) =
      without_credentials entry (w.registry _ ∙ e) a bare (lenient (λ i. i) why)

-- A weaker policy authorizes all that the stronger one does.
pub authorize_operation-Weaker :
    (pf : Platform) (p q : Policy) (now : ℕ) (actor : ActorContext) (scope : Scope)
    → Weaker p q
    → authorize_operation pf p now actor scope ≡ ok tt
    → authorize_operation pf q now actor scope ≡ ok tt
authorize_operation-Weaker pf p q now actor scope w h =
    let (eligible, found) = (authorize_operation_iff pf p now actor scope).0 h in
    (authorize_operation_iff pf q now actor scope).1 (
      eligible,
      weaker-Grant pf p q w actor (normalize_evaluation_time pf now actor.initiated_at) scope found,
    )
