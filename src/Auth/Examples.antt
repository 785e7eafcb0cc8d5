-- ===== src/Auth/Examples.antt =====
-- A runtime, a registry and actors at which the theorems about authorization are applied.
use multi_agent_brain.Common.{
  ◌+◌, String, ◌≡◌, ◌≢◌, ◌↔◌, ◌⊎◌, refl, Bool, true, false, none, some, [], ◌∷◌, ◌==◌, string_eq,
  if◌then◌else◌,
}
use multi_agent_brain.Common.Text.{trim, trimmed}
use multi_agent_brain.Common.Text.Split.{◌<>◌}
use multi_agent_brain.Common.Results.{ok}
use multi_agent_brain.Common.Maps.{get, set_add}
use multi_agent_brain.Contracts.{
  internal, operator, retrieval, http, ActorContext, search_context, promote_note,
}
use multi_agent_brain.Auth.Platform.{Platform, IssuedActorTokenClaims, object}
use multi_agent_brain.Auth.Window.{
  parse_validity_instant, normalize_evaluation_time, is_within_validity_window,
}
use multi_agent_brain.Auth.Registry.{NormalizedEntry, NormalizedCredential}
use multi_agent_brain.Auth.Token.{
  issue_actor_access_token, issued_claims, verify_actor_access_token, sign_payload,
}
use multi_agent_brain.Auth.Token.Laws.{IsFaithful, Carries, token_of, verify-issue, verify-signed}
use multi_agent_brain.Auth.Roles.{command_role_policy}
use multi_agent_brain.Auth.Policy.{
  Policy, enforced, permissive, revoke_issued_token_id, is_token_revoked,
}
use multi_agent_brain.Auth.Authorize.{
  Scope, authorize_operation, authorize, try_authorize_issued_token, claims_admit, truthy,
}
use multi_agent_brain.Auth.Authorize.Grant.{
  IsEligible, Grant, IssuedGrant, CredentialGrant, credentials_of,
}
use multi_agent_brain.Auth.Authorize.Soundness.{authorize_operation_iff}
use multi_agent_brain.Auth.Authorize.Reach.{
  WithinReach, authorize-WithinReach, enforced_requires_token,
}
use multi_agent_brain.Auth.Authorize.Revocation.{
  revoked_token_needs_other_ground, revoke_grants_nothing, permissive_allows_more,
}
use multi_agent_brain.Auth.Summary.{get_registry_summary}
use multi_agent_brain.Auth.Summary.Laws.{registry_summary_adds_up}
use multi_agent_brain.Auth.Inspect.{find_static_credential_match, inspect_token}
use multi_agent_brain.Auth.Inspect.Laws.{Consistent, inspect_token-Consistent}
use multi_agent_brain.Auth.Inspect.Agreement.{
  options_for, AdmittedBy, accepted_token_inspects_valid,
}

abbrev claims_for : String → IssuedActorTokenClaims
claims_for actor_id = record {
  token_id = some "id-1";
  actor_id = actor_id;
  actor_role = operator;
  source = none;
  allowed_transports = none;
  allowed_commands = some (promote_note ∷ search_context ∷ []);
  allowed_admin_actions = none;
  allowed_corpora = none;
  valid_from = some "t3";
  valid_until = some "t9";
  issued_at = "t3";
}

-- Three dates, and a payload that is the actor's name.
abbrev node : Platform
node = record {
  date_parse = λ s.
      if s == "t3"
      then some 3
      else if s == "t5"
      then some 5
      else if s == "t9"
      then some 9
      else none;
  to_iso = λ _. "t5";
  hmac = λ payload secret. "sig-" <> secret <> payload;
  to_base64url = λ s. s;
  from_base64url = λ s. s;
  stringify = λ c. c.actor_id;
  json_parse = λ s. some (object (claims_for s));
}

abbrev credential : NormalizedCredential
credential = record {
  token = "s3cret";
  label = none;
  valid_from_ms = none;
  valid_until_ms = some 9;
}

abbrev ops_entry : NormalizedEntry
ops_entry = record {
  actor_id = "ops";
  actor_role = operator;
  auth_tokens = some (credential ∷ []);
  source = none;
  enabled = true;
  allowed_transports = some (http ∷ []);
  allowed_commands = none;
  allowed_admin_actions = none;
  valid_from_ms = none;
  valid_until_ms = none;
}

abbrev strict : Policy
strict = record {
  mode = enforced;
  allow_anonymous_internal = true;
  registry = ("ops", ops_entry) ∷ [];
  issuer_secret = some "key";
  issued_token_require_registry_match = false;
  revoked_issued_token_ids = [];
  is_token_revoked_callback = none;
}

abbrev actor_with : String → String → ActorContext
actor_with actor_id token = record {
  actor_id = actor_id;
  actor_role = operator;
  transport = http;
  source = "cli";
  request_id = "r1";
  initiated_at = "t5";
  tool_name = none;
  auth_token = some token;
  allowed_corpora = none;
}

-- An unregistered actor with an issued token, and a registered one with its own credential.
abbrev guest : ActorContext
guest = actor_with "ann" "mab1.ann.sig-keyann"

abbrev member : ActorContext
member = actor_with "ops" " s3cret "

abbrev promote : Scope
promote = record { command = some promote_note; administrative_action = none }

-- The definitions that a run of the policy goes through.
run : Unit {0}
unfolding authorize command_role_policy trim normalize_evaluation_time is_within_validity_window get
    try_authorize_issued_token claims_admit verify_actor_access_token parse_validity_instant
    is_token_revoked
run = tt

guest_allowed : authorize_operation node strict 0 guest promote ≡ ok tt
unfolding run
guest_allowed = refl

member_allowed : authorize node strict 0 promote_note member ≡ ok tt
unfolding run
member_allowed = refl

authorize_operation_iff_example : (authorize_operation node strict 0 guest promote ≡ ok tt) ↔ (
    IsEligible guest promote
    × Grant node strict guest (normalize_evaluation_time node 0 guest.initiated_at) promote)
authorize_operation_iff_example = authorize_operation_iff node strict 0 guest promote

enforced_requires_token_example :
    ((registered : Bool) × IssuedGrant node strict guest
        (normalize_evaluation_time node 0 "t5")
        promote
        registered)
    ⊎ ((entry : NormalizedEntry) × (get strict.registry "ann" ≡ some entry)
        × CredentialGrant (credentials_of entry) guest (normalize_evaluation_time node 0 "t5"))
enforced_requires_token_example =
    enforced_requires_token node strict 0 guest promote refl (λ e. cc e) guest_allowed

-- An unregistered reader without a token, under a policy that does not enforce tokens.
abbrev reader : ActorContext
reader = record member { actor_id = "ron"; actor_role = retrieval; auth_token = none }

abbrev lenient : Policy
lenient = record strict { mode = permissive }

reader_allowed : authorize node lenient 0 search_context reader ≡ ok tt
unfolding run
reader_allowed = refl

authorize-WithinReach_example : WithinReach retrieval search_context
authorize-WithinReach_example =
    authorize-WithinReach node lenient 0 search_context reader reader_allowed

permissive_allows_more_example :
    authorize_operation node (record strict { mode = permissive }) 0 guest promote ≡ ok tt
permissive_allows_more_example = permissive_allows_more node strict 0 guest promote guest_allowed

abbrev revoked : Policy
revoked = record strict { revoked_issued_token_ids = "id-1" ∷ [] }

revoking : revoke_issued_token_id strict " id-1" ≡ ok (revoked, true)
unfolding run revoke_issued_token_id set_add
revoking = refl

guest_verified : verify_actor_access_token node "mab1.ann.sig-keyann" "key" ≡ ok (claims_for "ann")
unfolding run
guest_verified = refl

guest_token_supplied : trimmed guest.auth_token ≡ some "mab1.ann.sig-keyann"
unfolding run
guest_token_supplied = refl

id_named : truthy (claims_for "ann").token_id ≡ some (trim " id-1")
unfolding run
id_named = refl

-- The text of the guest's token is also a credential of the registry: after the revocation it is still
-- accepted as that.
abbrev twin_entry : NormalizedEntry
twin_entry = record ops_entry {
  actor_id = "ann";
  auth_tokens = some (record credential { token = "mab1.ann.sig-keyann" } ∷ []);
}

abbrev twin : Policy
twin = record strict { registry = ("ann", twin_entry) ∷ [] }

abbrev twin_revoked : Policy
twin_revoked = record twin { revoked_issued_token_ids = "id-1" ∷ [] }

twin_revoking : revoke_issued_token_id twin " id-1" ≡ ok (twin_revoked, true)
unfolding run revoke_issued_token_id set_add
twin_revoking = refl

twin_allowed : authorize_operation node twin_revoked 0 guest promote ≡ ok tt
unfolding run
twin_allowed = refl

-- Without the credential the token is refused.
guest_refused : authorize_operation node revoked 0 guest promote ≢ ok tt
unfolding run
guest_refused = λ e. cc e

revoked_token_needs_other_ground_example :
    ((entry : NormalizedEntry) × (get twin_revoked.registry "ann" ≡ some entry)
      × CredentialGrant (credentials_of entry) guest (normalize_evaluation_time node 0 "t5"))
    ⊎ ((twin_revoked.mode ≡ permissive) ⊎ (guest.transport ≡ internal))
revoked_token_needs_other_ground_example =
    revoked_token_needs_other_ground node twin twin_revoked true " id-1" "key" "mab1.ann.sig-keyann"
      (claims_for "ann") guest promote twin_revoking refl guest_token_supplied guest_verified
      id_named 0 twin_allowed

member_allowed_after : authorize_operation node revoked 0 member promote ≡ ok tt
unfolding run
member_allowed_after = refl

revoke_grants_nothing_example : authorize_operation node strict 0 member promote ≡ ok tt
revoke_grants_nothing_example =
    revoke_grants_nothing node strict revoked true " id-1" 0 member promote revoking
      member_allowed_after

verify-signed_example :
    (payload : String) × ("mab1.ann.sig-keyann"
      ≡ token_of payload (sign_payload node payload "key"))
    × Carries node payload (claims_for "ann")
verify-signed_example =
    verify-signed node "mab1.ann.sig-keyann" "key" (claims_for "ann") guest_verified

faithful : IsFaithful node (issued_claims (claims_for "ann") "u") "key"
unfolding run issued_claims
faithful = record {
  base64url_back = refl;
  json_back = refl;
  base64url_dotless = (refl, (refl, (refl, tt)));
  hmac_dotless = (refl, (refl, (refl, (refl, (refl, (refl, (refl, (refl, (refl, (refl, tt))))))))));
}

verify-issue_example :
    verify_actor_access_token node
      (issue_actor_access_token node (claims_for "ann") "key" "u")
      "key"
    ≡ ok (issued_claims (claims_for "ann") "u")
verify-issue_example = verify-issue node (claims_for "ann") "key" "u" faithful

inspect_token-Consistent_example :
    Consistent (inspect_token node strict 0 "mab1.ann.sig-keyann" (options_for guest promote))
inspect_token-Consistent_example =
    inspect_token-Consistent node strict 0 "mab1.ann.sig-keyann" (options_for guest promote)

not_listed : find_static_credential_match strict.registry "mab1.ann.sig-keyann" ≡ none
unfolding find_static_credential_match
not_listed = refl

guest_unregistered : AdmittedBy (get strict.registry guest.actor_id) guest 5 promote
unfolding run
guest_unregistered = tt

guest_token_accepted :
    try_authorize_issued_token node strict guest 5 promote (get strict.registry guest.actor_id)
    ≡ true
unfolding run
guest_token_accepted = refl

accepted_token_inspects_valid_example :
    (inspect_token node strict 0 "mab1.ann.sig-keyann" (options_for guest promote)).valid ≡ true
accepted_token_inspects_valid_example =
    accepted_token_inspects_valid node strict 0 5 guest promote "mab1.ann.sig-keyann" refl
      guest_token_supplied not_listed guest_unregistered guest_token_accepted

registry_summary_adds_up_example :
    let s = get_registry_summary node strict 0 "t5" in
    (s.actor_counts.total ≡ s.actor_counts.enabled + s.actor_counts.disabled)
    × (s.actor_counts.enabled
        ≡ s.actor_counts.active + s.actor_counts.future + s.actor_counts.expired)
    × (s.credential_counts.static
        ≡ s.credential_counts.active + s.credential_counts.future + s.credential_counts.expired)
registry_summary_adds_up_example = registry_summary_adds_up node strict 0 "t5" ((tt, tt), tt)
