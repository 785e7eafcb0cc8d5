-- ===== src/Auth/Authorize/Claims.antt =====
-- `tryAuthorizeIssuedToken` succeeds exactly on an `IssuedGrant`.
use multi_agent_brain.Common.{
  ℕ, String, ◌≡◌, ◌↔◌, refl, Bool, true, false, not, ◌||◌, false≢true, if◌then◌else◌, Option, none,
  some, arith, ==_iff, ==_eq, ◌==◌, string_eq,
}
use multi_agent_brain.Common.Results.{Result, ok, err}
use multi_agent_brain.Contracts.{ActorContext, role_eq, transport_eq, command_eq, admin_action_eq}
use multi_agent_brain.Auth.Platform.{Platform, IssuedActorTokenClaims}
use multi_agent_brain.Auth.Window.{
  InvalidTimestamp, InWindow, parse_validity_instant, is_within_validity_window_iff,
}
use multi_agent_brain.Auth.Policy.{Policy, is_token_revoked}
use multi_agent_brain.Auth.Authorize.{
  Scope, truthy, list_permits, list_permits_some, source_permits, is_ok_true, claims_window,
  claims_revoked, claims_admit,
}
use multi_agent_brain.Auth.Authorize.Grant.{Asked, ClaimsAdmit}
use multi_agent_brain.Auth.Authorize.Permits.{
  list_permits_iff, list_permits_some_iff, source_permits_iff,
}

-- The ladder of early returns, over the values of its tests.
module _ (window revoked id role source transport command action : Bool) where
  abbrev ladder : Bool
  ladder =
      if not window
      then false
      else if revoked
      then false
      else if not id || not role
      then false
      else if not source
      then false
      else if not transport
      then false
      else if not command
      then false
      else if not action
      then false
      else true

  abbrev Passed : Type 0
  Passed =
      (window ≡ true)
      × (revoked ≡ false)
      × (id ≡ true)
      × (role ≡ true)
      × (source ≡ true)
      × (transport ≡ true)
      × (command ≡ true)
      × (action ≡ true)

  ladder_iff : (ladder ≡ true) ↔ Passed
  ladder_iff = ground arith

module _ (pf : Platform) (p : Policy) (actor : ActorContext) (t : ℕ) (scope : Scope) where
  -- What the tests of the ladder say together.
  abbrev PassesTests : IssuedActorTokenClaims → Type 0
  PassesTests claims =
      Passed (is_ok_true (claims_window pf t claims)) (claims_revoked p claims)
        (claims.actor_id == actor.actor_id) (claims.actor_role == actor.actor_role)
        (source_permits claims.source actor.source)
        (list_permits claims.allowed_transports actor.transport)
        (list_permits_some claims.allowed_commands scope.command)
        (list_permits_some claims.allowed_admin_actions scope.administrative_action)

  claims_admit_tests :
      (claims : IssuedActorTokenClaims)
      → (claims_admit pf p actor t scope claims ≡ true) ↔ PassesTests claims
  unfolding claims_admit
  claims_admit_tests claims = ladder_iff _ _ _ _ _ _ _ _

  claims_window-InWindow :
      (claims : IssuedActorTokenClaims)
      → is_ok_true (claims_window pf t claims) ≡ true
      → (from : Option ℕ) × (until : Option ℕ) × (parse_validity_instant pf claims.valid_from
          ≡ ok from)
        × (parse_validity_instant pf claims.valid_until ≡ ok until)
        × InWindow t from until
  unfolding claims_window
  claims_window-InWindow claims h = parsed _ _ refl refl
    where
      parsed :
          (a b : Result InvalidTimestamp (Option ℕ))
          → parse_validity_instant pf claims.valid_from ≡ a
          → parse_validity_instant pf claims.valid_until ≡ b
          → (from : Option ℕ) × (until : Option ℕ) × (parse_validity_instant pf claims.valid_from
              ≡ ok from)
            × (parse_validity_instant pf claims.valid_until ≡ ok until)
            × InWindow t from until
      parsed (ok from) (ok until) ea eb =
          (from, until, ea, eb, (is_within_validity_window_iff t from until).0 (rw (ea, eb) at h))
      parsed (ok from) (err e) ea eb = absurd (false≢true (rw (ea, eb) at h))
      parsed (err e) b ea eb = absurd (false≢true (rw ea at h))

  InWindow-claims_window :
      (claims : IssuedActorTokenClaims) (from until : Option ℕ)
      → parse_validity_instant pf claims.valid_from ≡ ok from
      → parse_validity_instant pf claims.valid_until ≡ ok until
      → InWindow t from until
      → is_ok_true (claims_window pf t claims) ≡ true
  unfolding claims_window
  InWindow-claims_window claims from until ea eb inside =
      rw (ea, eb) ((is_within_validity_window_iff t from until).1 inside)

  claims_revoked_iff :
      (claims : IssuedActorTokenClaims)
      → (claims_revoked p claims ≡ false)
        ↔ Asked (λ token_id. is_token_revoked p token_id ≡ false) (truthy claims.token_id)
  unfolding claims_revoked
  claims_revoked_iff claims = decide (truthy claims.token_id)
    where
      decide :
          (o : Option String)
          → (elim o [ none ↦ false | some token_id ↦ is_token_revoked p token_id ] ≡ false)
            ↔ Asked (λ token_id. is_token_revoked p token_id ≡ false) o
      decide none = (λ _. tt, λ _. refl)
      decide (some token_id) = (λ h. h, λ h. h)

  pub claims_admit_iff :
      (claims : IssuedActorTokenClaims)
      → (claims_admit pf p actor t scope claims ≡ true) ↔ ClaimsAdmit pf p actor t scope claims
  claims_admit_iff claims = (admits, passes)
    where
      admits : claims_admit pf p actor t scope claims ≡ true → ClaimsAdmit pf p actor t scope claims
      admits h =
          let (w, r, i, q, s, tr, c, a) = (claims_admit_tests claims).0 h in
          let (from, until, ea, eb, inside) = claims_window-InWindow claims w in
          record {
            from = from;
            until = until;
            from_parsed = ea;
            until_parsed = eb;
            in_window = inside;
            not_revoked = (claims_revoked_iff claims).0 r;
            same_actor = ==_eq i;
            same_role = ==_eq q;
            same_source = (source_permits_iff _ _).0 s;
            transport = (list_permits_iff _ _).0 tr;
            command = (list_permits_some_iff _ _).0 c;
            action = (list_permits_some_iff _ _).0 a;
          }

      passes : ClaimsAdmit pf p actor t scope claims → claims_admit pf p actor t scope claims ≡ true
      passes g = (claims_admit_tests claims).1 (
        InWindow-claims_window claims g.from g.until g.from_parsed g.until_parsed g.in_window,
        (claims_revoked_iff claims).1 g.not_revoked,
        (==_iff _ _).1 g.same_actor,
        (==_iff _ _).1 g.same_role,
        (source_permits_iff _ _).1 g.same_source,
        (list_permits_iff _ _).1 g.transport,
        (list_permits_some_iff _ _).1 g.command,
        (list_permits_some_iff _ _).1 g.action,
      )
