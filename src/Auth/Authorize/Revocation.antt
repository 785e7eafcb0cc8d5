-- ===== src/Auth/Authorize/Revocation.antt =====
-- Revoking an issued token, and turning enforcement on, only ever take grounds away.
use mathlib.Core.Option.{some-injective}
use multi_agent_brain.Common.{
  ℕ, String, ◌≡◌, ◌⊎◌, inl, inr, refl, sym, ◌∙◌, subst, Bool, true, false, ◌||◌, false≢true, some,
  arith, Bool-cases, ==_refl, ◌==◌, string_eq,
}
use multi_agent_brain.Common.Text.{trim, trimmed, is_blank, trim_idem}
use multi_agent_brain.Common.Results.{Result, ok}
use multi_agent_brain.Common.Maps.{get, set_add, includes-set_add}
use multi_agent_brain.Contracts.{ActorContext, internal}
use multi_agent_brain.Auth.Platform.{Platform, IssuedActorTokenClaims}
use multi_agent_brain.Auth.Registry.{NormalizedEntry}
use multi_agent_brain.Auth.Token.{verify_actor_access_token}
use multi_agent_brain.Auth.Policy.{
  Policy, permissive, TokenIdRequired, revoke_issued_token_id, is_token_revoked,
}
use multi_agent_brain.Auth.Authorize.{Scope, truthy, authorize_operation}
use multi_agent_brain.Auth.Authorize.Grant.{
  Asked, IssuedGrant, CredentialGrant, credentials_of, Grant, unregistered_issued, anonymous,
  registered_issued, by_credential, without_credentials,
}
use multi_agent_brain.Auth.Authorize.Soundness.{authorize_operation_iff}
use multi_agent_brain.Auth.Window.{normalize_evaluation_time}
use multi_agent_brain.Auth.Authorize.Weaker.{Weaker, authorize_operation-Weaker}

-- The policy after the revocation.
abbrev pub with_revoked : Policy → String → Policy
with_revoked p token_id = record p {
  revoked_issued_token_ids = set_add p.revoked_issued_token_ids (trim token_id);
}

pub revoke-ok :
    (p : Policy) (token_id : String) {p' : Policy} {fresh : Bool}
    → revoke_issued_token_id p token_id ≡ ok (p', fresh)
    → p' ≡ with_revoked p token_id
unfolding revoke_issued_token_id
revoke-ok p token_id h = elim (Bool-cases (is_blank (trim token_id))) [
  | inl blank ↦ cc (rw blank at h)
  | inr named ↦ first (rw named at h)
]
  where
    first :
        {p' q : Policy} {a b : Bool}
        → ◌≡◌ {A = Result TokenIdRequired (Policy × Bool)} (ok (q, a)) (ok (p', b))
        → p' ≡ q
    first e = cc

-- The revoked ids are those from before and the trimmed new one.
pub is_token_revoked-revoke :
    (p : Policy) (token_id other : String)
    → is_token_revoked (with_revoked p token_id) other
      ≡ (is_token_revoked p other || trim token_id == trim other)
unfolding is_token_revoked
is_token_revoked-revoke p token_id other =
    ground (arith, includes-set_add p.revoked_issued_token_ids (trim token_id) (trim other))

revoke-Weaker : (p : Policy) (token_id : String) → Weaker (with_revoked p token_id) p
revoke-Weaker p token_id = record {
  registry = λ id. refl;
  issuer_secret = refl;
  registry_match = refl;
  live = λ id h. ground (arith, is_token_revoked-revoke p token_id id);
  mode = λ m. m;
  anonymous = λ a. a;
}

-- Revoking a token id grants nothing: what the policy allows afterwards it allowed before.
pub revoke_grants_nothing :
    (pf : Platform) (p p' : Policy) (fresh : Bool) (token_id : String) (now : ℕ)
    (actor : ActorContext) (scope : Scope)
    → revoke_issued_token_id p token_id ≡ ok (p', fresh)
    → authorize_operation pf p' now actor scope ≡ ok tt
    → authorize_operation pf p now actor scope ≡ ok tt
revoke_grants_nothing pf p p' fresh token_id now actor scope revoked h =
    authorize_operation-Weaker pf (with_revoked p token_id) p now actor scope
      (revoke-Weaker p token_id) (rw (revoke-ok p token_id revoked) at h)

is_token_revoked-revoke_self :
    (p : Policy) (token_id : String)
    → is_token_revoked (with_revoked p token_id) (trim token_id) ≡ true
is_token_revoked-revoke_self p token_id = ground (
  arith,
  is_token_revoked-revoke p token_id (trim token_id),
  trim_idem token_id,
  ==_refl (trim token_id),
)

module _ (pf : Platform) (p p' : Policy) (fresh : Bool) (token_id secret token : String)
    (claims : IssuedActorTokenClaims) (actor : ActorContext) (scope : Scope)
    (rev : revoke_issued_token_id p token_id ≡ ok (p', fresh)) (es : p.issuer_secret ≡ some secret)
    (et : trimmed actor.auth_token ≡ some token)
    (ev : verify_actor_access_token pf token secret ≡ ok claims)
    (eid : truthy claims.token_id ≡ some (trim token_id)) where
  -- No issued token is a ground for the actor any more.
  issued-refuted :
      (t : ℕ) (registered : Bool)
      → IssuedGrant pf (with_revoked p token_id) actor t scope registered
      → ⊥
  issued-refuted t registered g =
      let after = with_revoked p token_id in
      let same_secret : g.secret ≡ secret = some-injective _ _ (sym g.configured ∙ es) in
      let same_token : g.token ≡ token = some-injective _ _ (sym g.supplied ∙ et) in
      let same : g.claims ≡ claims = cc (same_secret, same_token, g.verified, ev) in
      let live =
        subst (λ c. Asked (λ id. is_token_revoked after id ≡ false) (truthy c.token_id)) same
          g.admits.not_revoked in
      let dead = subst (λ o. Asked (λ id. is_token_revoked after id ≡ false) o) eid live in
      false≢true (sym dead ∙ is_token_revoked-revoke_self p token_id)

  -- After an id is revoked, an actor that supplies a token which verifies to claims with that id is
  -- authorized only on a ground that is not the issued token: its text is also an active credential of
  -- the actor's registry entry, the mode is permissive, or the transport is internal. Over another
  -- transport in enforced mode only the credential is left.
  pub revoked_token_needs_other_ground :
      (now : ℕ)
      → authorize_operation pf p' now actor scope ≡ ok tt
      → ((entry : NormalizedEntry) × (get p'.registry actor.actor_id ≡ some entry)
          × CredentialGrant
              (credentials_of entry)
              actor
              (normalize_evaluation_time pf now actor.initiated_at))
        ⊎ ((p'.mode ≡ permissive) ⊎ (actor.transport ≡ internal))
  revoked_token_needs_other_ground now h =
      subst
        (λ q.
          ((entry : NormalizedEntry) × (get q.registry actor.actor_id ≡ some entry)
            × CredentialGrant (credentials_of entry) actor t)
          ⊎ ((q.mode ≡ permissive) ⊎ (actor.transport ≡ internal)))
        (sym (revoke-ok p token_id rev))
        (ground_of
          ((authorize_operation_iff pf (with_revoked p token_id) now actor scope).0
            (rw (revoke-ok p token_id rev) at h)).1)
    where
      t : ℕ
      t = normalize_evaluation_time pf now actor.initiated_at

      after : Policy
      after = with_revoked p token_id

      ground_of :
          Grant pf after actor t scope
          → ((entry : NormalizedEntry) × (get after.registry actor.actor_id ≡ some entry)
              × CredentialGrant (credentials_of entry) actor t)
            ⊎ ((after.mode ≡ permissive) ⊎ (actor.transport ≡ internal))
      ground_of (unregistered_issued e g) = absurd (issued-refuted t false g)
      ground_of (anonymous e (inl m)) = inr (inl m)
      ground_of (anonymous e (inr a)) = inr (inr a.1)
      ground_of (registered_issued entry e a g) = absurd (issued-refuted t true g)
      ground_of (by_credential entry e a g) = inl (entry, e, g)
      ground_of (without_credentials entry e a bare why) = inr why

permissive-Weaker : (p : Policy) → Weaker p (record p { mode = permissive })
unfolding is_token_revoked
permissive-Weaker p = record {
  registry = λ id. refl;
  issuer_secret = refl;
  registry_match = refl;
  live = λ id h. h;
  mode = λ _. refl;
  anonymous = λ a. a;
}

-- What an enforced policy allows, the same policy in permissive mode allows.
pub permissive_allows_more :
    (pf : Platform) (p : Policy) (now : ℕ) (actor : ActorContext) (scope : Scope)
    → authorize_operation pf p now actor scope ≡ ok tt
    → authorize_operation pf (record p { mode = permissive }) now actor scope ≡ ok tt
permissive_allows_more pf p now actor scope h =
    authorize_operation-Weaker pf p (record p { mode = permissive }) now actor scope
      (permissive-Weaker p) h
