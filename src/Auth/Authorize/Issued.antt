-- ===== src/Auth/Authorize/Issued.antt =====
-- `tryAuthorizeIssuedToken` returns true exactly on an `IssuedGrant`.
use multi_agent_brain.Common.{
  ℕ, String, ◌≡◌, ◌↔◌, ◌⊎◌, inl, inr, Bool, true, false, not, ◌&&◌, false≢true, Option, some, arith,
  is_some, if◌then◌else◌, Bool-cases, Option-cases,
}
use multi_agent_brain.Common.Text.{trimmed}
use multi_agent_brain.Common.Results.{Result-cases}
use multi_agent_brain.Contracts.{ActorContext}
use multi_agent_brain.Auth.Platform.{Platform}
use multi_agent_brain.Auth.Registry.{NormalizedEntry}
use multi_agent_brain.Auth.Token.{verify_actor_access_token}
use multi_agent_brain.Auth.Policy.{Policy}
use multi_agent_brain.Auth.Authorize.{Scope, verified_admit, try_authorize_issued_token}
use multi_agent_brain.Auth.Authorize.Grant.{IssuedGrant}
use multi_agent_brain.Auth.Authorize.Claims.{claims_admit_iff}

module _ (pf : Platform) (p : Policy) (actor : ActorContext) (t : ℕ) (scope : Scope) where
  gate-open :
      (strict registered : Bool)
      → (strict && not registered) ≡ false
      → (strict ≡ false) ⊎ (registered ≡ true)
  gate-open strict registered h = ground arith

  gate_of_match :
      (strict registered : Bool)
      → (strict ≡ false) ⊎ (registered ≡ true)
      → (strict && not registered) ≡ false
  gate_of_match strict registered h = ground arith

  module _ (registered : Option NormalizedEntry) where
    -- The part of the code behind the secret and the supplied token.
    abbrev behind_gate : String → String → Bool
    behind_gate secret token =
        if p.issued_token_require_registry_match && not (is_some registered)
        then false
        else verified_admit pf p actor t scope (verify_actor_access_token pf token secret)

    gated :
        (secret token : String)
        → p.issuer_secret ≡ some secret
        → trimmed actor.auth_token ≡ some token
        → behind_gate secret token ≡ true
        → IssuedGrant pf p actor t scope (is_some registered)
    gated secret token es et h =
        elim (Bool-cases (p.issued_token_require_registry_match && not (is_some registered))) [
          | inl closed ↦ absurd (false≢true (rw closed at h))
          | inr gate ↦
              let h₁ = rw gate at h in
              elim (Result-cases (verify_actor_access_token pf token secret)) [
                | inl (claims, ev) ↦ record {
                  secret = secret;
                  token = token;
                  claims = claims;
                  configured = es;
                  supplied = et;
                  registry_match = gate-open _ _ gate;
                  verified = ev;
                  admits = (claims_admit_iff pf p actor t scope claims).0 (rw ev at h₁);
                }
                | inr (e, ev) ↦ absurd (false≢true (rw ev at h₁))
              ]
        ]

    try_authorize-IssuedGrant :
        try_authorize_issued_token pf p actor t scope registered ≡ true
        → IssuedGrant pf p actor t scope (is_some registered)
    unfolding try_authorize_issued_token
    try_authorize-IssuedGrant h = elim (Option-cases p.issuer_secret) [
      | inl unset ↦ absurd (false≢true (rw (unset, try_authorize_issued_token) at h))
      | inr (secret, es) ↦
          let h₁ = rw (es, try_authorize_issued_token) at h in
          elim (Option-cases (trimmed actor.auth_token)) [
            | inl missing ↦ absurd (false≢true (rw missing at h₁))
            | inr (token, et) ↦ gated secret token es et (rw et at h₁)
          ]
    ]

    IssuedGrant-try_authorize :
        IssuedGrant pf p actor t scope (is_some registered)
        → try_authorize_issued_token pf p actor t scope registered ≡ true
    unfolding try_authorize_issued_token
    IssuedGrant-try_authorize g =
        rw (g.configured, try_authorize_issued_token)
          (rw (g.supplied, try_authorize_issued_token)
            (rw (gate_of_match _ _ g.registry_match)
              (rw g.verified ((claims_admit_iff pf p actor t scope g.claims).1 g.admits))))

    pub try_authorize_issued_token_iff :
        (try_authorize_issued_token pf p actor t scope registered ≡ true)
        ↔ IssuedGrant pf p actor t scope (is_some registered)
    try_authorize_issued_token_iff = (try_authorize-IssuedGrant, IssuedGrant-try_authorize)
