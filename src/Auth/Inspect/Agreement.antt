-- ===== src/Auth/Inspect/Agreement.antt =====
-- An issued token that the policy accepts is one that an inspection calls valid.
use mathlib.Core.Option.{some-injective}
use multi_agent_brain.Common.{
  ℕ, String, ◌≡◌, ◌⊎◌, inl, inr, refl, sym, ap, ◌∙◌, Bool, true, false, not, Option, none, some,
  arith, is_some, ==_iff, string_eq, and-intro,
}
use multi_agent_brain.Common.Text.{trim, trimmed, non_blank, trim_idem}
use multi_agent_brain.Common.Results.{Result, ok}
use multi_agent_brain.Common.Maps.{get}
use multi_agent_brain.Contracts.{ActorContext, role_eq, transport_eq, command_eq, admin_action_eq}
use multi_agent_brain.Auth.Platform.{Platform, IssuedActorTokenClaims}
use multi_agent_brain.Auth.Window.{
  InvalidTimestamp, is_within_validity_window_iff, normalize_evaluation_time,
}
use multi_agent_brain.Auth.Lifecycle.{is_active, active_iff}
use multi_agent_brain.Auth.Registry.{NormalizedEntry}
use multi_agent_brain.Auth.Token.{verify_actor_access_token}
use multi_agent_brain.Auth.Policy.{Policy, is_token_revoked}
use multi_agent_brain.Auth.Authorize.{
  Scope, truthy, claims_window, claims_revoked, try_authorize_issued_token,
}
use multi_agent_brain.Auth.Authorize.Grant.{Asked, ClaimsAdmit, IssuedGrant, EntryAdmits}
use multi_agent_brain.Auth.Authorize.Permits.{list_permits_iff}
use multi_agent_brain.Auth.Authorize.Issued.{try_authorize_issued_token_iff}
use multi_agent_brain.Auth.Inspect.{
  InspectOptions, expected_permits, find_static_credential_match, registry_match, status_of,
  enabled_of, sources_agree, inspect_claims, inspect_window, inspect_verified, inspect_by_issuer,
  inspect_matched, inspect_supplied, inspect_token,
}

-- The options that ask about the actor's transport and scope, at the instant of its request.
abbrev pub options_for : ActorContext → Scope → InspectOptions
options_for actor scope = record {
  as_of = some actor.initiated_at;
  expected_transport = some actor.transport;
  expected_command = scope.command;
  expected_administrative_action = scope.administrative_action;
}

-- The registry has no entry for the actor, or one that admits it.
abbrev pub AdmittedBy : Option NormalizedEntry → ActorContext → ℕ → Scope → Type 0
AdmittedBy none actor t scope = Unit
AdmittedBy (some entry) actor t scope = EntryAdmits entry actor t scope

expected_permits_of_Asked :
    {A : Type 0} (P : A → Type 0) (f : A → Bool)
    → ((a : A) → P a → f a ≡ true)
    → (o : Option A) → Asked P o
    → expected_permits f o ≡ true
expected_permits_of_Asked P f h none asked = refl
expected_permits_of_Asked P f h (some a) asked = h a asked

claims_window-ok :
    (pf : Platform) (p : Policy) (actor : ActorContext) (t : ℕ) (scope : Scope)
    (claims : IssuedActorTokenClaims)
    → ClaimsAdmit pf p actor t scope claims
    → claims_window pf t claims ≡ ok true
unfolding claims_window
claims_window-ok pf p actor t scope claims g =
    rw (g.from_parsed, g.until_parsed)
      (ap {B = Result InvalidTimestamp Bool} ok
        ((is_within_validity_window_iff t _ _).1 g.in_window))

sources-agree :
    (claimed registered : Option String) (actual : String)
    → Asked (λ s. s ≡ actual) claimed
    → Asked (λ s. s ≡ actual) registered
    → sources_agree claimed registered ≡ true
sources-agree none registered actual a b = refl
sources-agree (some s) none actual a b = refl
sources-agree (some s) (some e) actual a b = (==_iff e s).1 (b ∙ sym a)

module _ (pf : Platform) (p : Policy) (actor : ActorContext) (t : ℕ) (scope : Scope) where
  registry_match_of_grant :
      (claims : IssuedActorTokenClaims) (entry : Option NormalizedEntry)
      → ClaimsAdmit pf p actor t scope claims
      → (p.issued_token_require_registry_match ≡ false) ⊎ (is_some entry ≡ true)
      → AdmittedBy entry actor t scope
      → registry_match p claims entry ≡ true
  unfolding registry_match
  registry_match_of_grant claims none g (inl lax) a = rw lax
  registry_match_of_grant claims none g (inr known) a = cc
  registry_match_of_grant claims (some entry) g m a =
      let role = (==_iff entry.actor_role claims.actor_role).1 (a.same_role ∙ sym g.same_role) in
      let source = sources-agree _ _ _ g.same_source a.same_source in
      rw (role, source) (ground arith)

  standing :
      (entry : Option NormalizedEntry)
      → AdmittedBy entry actor t scope
      → (enabled_of entry ≡ true) × (is_active (status_of entry t) ≡ true)
  standing none a = (refl, refl)
  standing (some entry) a = (
    a.enabled,
    rw ((active_iff entry t).1 (a.enabled, (is_within_validity_window_iff t _ _).1 a.in_window)),
  )

  revoked-false :
      (claims : IssuedActorTokenClaims)
      → ClaimsAdmit pf p actor t scope claims
      → claims_revoked p claims ≡ false
  unfolding claims_revoked
  revoked-false claims g = decide (truthy claims.token_id) g.not_revoked
    where
      decide :
          (o : Option String)
          → Asked (λ id. is_token_revoked p id ≡ false) o
          → elim o [ none ↦ false | some id ↦ is_token_revoked p id ] ≡ false
      decide none h = refl
      decide (some id) h = h

  claims-valid :
      (claims : IssuedActorTokenClaims) (entry : Option NormalizedEntry)
      → ClaimsAdmit pf p actor t scope claims
      → (p.issued_token_require_registry_match ≡ false) ⊎ (is_some entry ≡ true)
      → AdmittedBy entry actor t scope
      → (inspect_claims p (options_for actor scope) actor.initiated_at t claims true entry).valid
        ≡ true
  unfolding inspect_claims
  claims-valid claims entry g m a =
      let (enabled, live) = standing entry a in
      let transport = (list_permits_iff claims.allowed_transports actor.transport).1 g.transport in
      let command =
        expected_permits_of_Asked _ _ (λ c. (list_permits_iff _ c).1) scope.command g.command in
      let action =
        expected_permits_of_Asked _ _ (λ c. (list_permits_iff _ c).1) scope.administrative_action
          g.action in
      and-intro refl (
        and-intro (ap not (revoked-false claims g)) (
          and-intro (registry_match_of_grant claims entry g m a)
            (and-intro transport (and-intro command (and-intro action (and-intro enabled live))))))

trimmed-fixed :
    (o : Option String) {token : String}
    → trimmed o ≡ some token
    → non_blank (trim token) ≡ some token
trimmed-fixed none h = cc
trimmed-fixed (some s) {token} h = fixed (trim s) (trim_idem s) h
  where
    fixed :
        (t : String) → trim t ≡ t → non_blank t ≡ some token → non_blank (trim token) ≡ some token
    fixed String.[] e k = cc
    fixed (String.◌∷◌ c t) e k =
        let same : String.◌∷◌ c t ≡ token = some-injective _ _ k in rw (← same) (rw e)

evaluation-time :
    (pf : Platform) (now : ℕ) (value : String) {t : ℕ}
    → pf.date_parse value ≡ some t
    → normalize_evaluation_time pf now value ≡ t
unfolding normalize_evaluation_time
evaluation-time pf now value e = rw e

-- Whenever the policy accepts the actor's issued token (and the registry has no entry for the actor,
-- or one that admits it), an inspection of that token for the actor's transport, scope and time
-- calls it valid, unless the token is also listed as a static credential.
pub accepted_token_inspects_valid :
    (pf : Platform) (p : Policy) (now t : ℕ) (actor : ActorContext) (scope : Scope) (token : String)
    → pf.date_parse actor.initiated_at ≡ some t
    → trimmed actor.auth_token ≡ some token
    → find_static_credential_match p.registry token ≡ none
    → AdmittedBy (get p.registry actor.actor_id) actor t scope
    → try_authorize_issued_token pf p actor t scope (get p.registry actor.actor_id) ≡ true
    → (inspect_token pf p now token (options_for actor scope)).valid ≡ true
unfolding inspect_token
accepted_token_inspects_valid pf p now t actor scope token et supplied unlisted admitted accepted =
    rw (trimmed-fixed actor.auth_token supplied, inspect_supplied)
      (rw (unlisted, inspect_matched)
        (rw (g.configured, inspect_by_issuer)
          (rw (evaluation-time pf now actor.initiated_at et) (
            rw (verified, inspect_verified)
              (rw (claims_window-ok pf p actor t scope g.claims g.admits, inspect_window)
                (rw g.admits.same_actor (
                  claims-valid pf p actor t scope g.claims _ g.admits g.registry_match
                    admitted)))))))
  where
    g : IssuedGrant pf p actor t scope (is_some (get p.registry actor.actor_id))
    g = (try_authorize_issued_token_iff pf p actor t scope _).0 accepted

    verified : verify_actor_access_token pf token g.secret ≡ ok g.claims
    verified = rw (← some-injective _ _ (sym g.supplied ∙ supplied)) g.verified
