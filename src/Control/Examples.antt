-- ===== src/Control/Examples.antt =====
-- Services, an operator and a request at which the theorem about the revocation is applied.
use multi_agent_brain.Common.{
  String, ◌≡◌, refl, true, false, none, some, List, [], ◌∷◌, string_eq, ◌==◌, if◌then◌else◌,
}
use multi_agent_brain.Common.Text.{trim}
use multi_agent_brain.Common.Maps.{get, to_set, set_add}
use multi_agent_brain.Common.Results.{ok, err}
use multi_agent_brain.Contracts.{ActorContext, operator, internal}
use multi_agent_brain.Auth.Platform.{Platform, other}
use multi_agent_brain.Auth.Window.{normalize_evaluation_time}
use multi_agent_brain.Auth.Roles.{admin_action_role_policy}
use multi_agent_brain.Auth.Policy.{Policy, permissive, revoke_issued_token_id, trimmed_ids}
use multi_agent_brain.Auth.Authorize.{authorize_administrative_action, try_authorize_issued_token}
use multi_agent_brain.Auth.Summary.{get_revoked_issued_token_ids}
use multi_agent_brain.Revocation.Store.{Json, Disk, missing, create, revoke_token_id, write_file}
use multi_agent_brain.Ledger.{IssuedTokenRow, Faults, statement_failed, mark_token_revoked}
use multi_agent_brain.Control.{
  Services, ledger_failed, RevokeActorTokenControlRequest, RevokeTokenResponse, revoke_token,
  resolve_issued_token_id_for_revocation,
}
use multi_agent_brain.Control.Laws.{IsOutcome, revoke_token-IsOutcome}

abbrev node : Platform
node = record {
  date_parse = λ s. if s == "t5" then some 5 else none;
  to_iso = λ ms. "t5";
  hmac = λ payload secret. "sig";
  to_base64url = λ s. s;
  from_base64url = λ s. s;
  stringify = λ claims. claims.actor_id;
  json_parse = λ s. some other;
}

abbrev json : Json
json = record { parse = λ s. none; print = λ ids. "written" }

abbrev policy_with : List String → Policy
policy_with ids = record {
  mode = permissive;
  allow_anonymous_internal = true;
  registry = [];
  issuer_secret = none;
  issued_token_require_registry_match = true;
  revoked_issued_token_ids = ids;
  is_token_revoked_callback = none;
}

abbrev empty_disk : Disk
empty_disk = record { read_file = λ path. missing; rejects_write = λ path. false }

-- The row of the token that is revoked.
abbrev row : IssuedTokenRow
row = record {
  token_id = "id-1";
  actor_id = "ann";
  actor_role = operator;
  source = none;
  allowed_transports_json = none;
  allowed_commands_json = none;
  allowed_admin_actions_json = none;
  allowed_corpora_json = none;
  issued_at = "t5";
  valid_from = none;
  valid_until = none;
  revoked_at = none;
  revoked_reason = none;
}

abbrev sound : Faults
sound = record { select_fails = false; update_fails = false }

abbrev services : Services
services = record {
  policy = policy_with [];
  disk = empty_disk;
  ledger = row ∷ [];
  ledger_faults = sound;
}

abbrev ann : ActorContext
ann = record {
  actor_id = "ann";
  actor_role = operator;
  transport = internal;
  source = "cli";
  request_id = "r1";
  initiated_at = "t5";
  tool_name = none;
  auth_token = none;
  allowed_corpora = none;
}

abbrev request : RevokeActorTokenControlRequest
request = record { token_id = some " id-1"; token = none; reason = some "lost" }

abbrev answer : RevokeTokenResponse
answer = record {
  revoked_token_id = " id-1";
  already_revoked = false;
  persisted = true;
  recorded_token_found = true;
  reason = some "lost";
}

abbrev revoked_policy : Policy
revoked_policy = policy_with ("id-1" ∷ [])

abbrev revoked_disk : Disk
revoked_disk = write_file empty_disk "revoked.json" "written"

run : Unit {0}
unfolding revoke_token authorize_administrative_action admin_action_role_policy trim
    normalize_evaluation_time get try_authorize_issued_token create revoke_token_id
    revoke_issued_token_id mark_token_revoked to_set set_add trimmed_ids
    get_revoked_issued_token_ids resolve_issued_token_id_for_revocation
run = tt

-- The operator's request is answered, and the id is in the policy, on the disk and in the ledger.
revoked : revoke_token node json 0 "t5" (some "revoked.json") ann request services ≡ (
  record {
    policy = revoked_policy;
    disk = revoked_disk;
    ledger = record row { revoked_at = some "t5"; revoked_reason = some "lost" } ∷ [];
    ledger_faults = sound;
  },
  ok answer,
)
unfolding run
revoked = refl

-- Where SQLite fails, the request fails, and the id is in the policy and on the disk all the same.
half_revoked :
    revoke_token node json 0 "t5"
      (some "revoked.json")
      ann
      request
      (record services { ledger_faults = record sound { update_fails = true } })
    ≡ (
      record {
        policy = revoked_policy;
        disk = revoked_disk;
        ledger = row ∷ [];
        ledger_faults = record sound { update_fails = true };
      },
      err (ledger_failed statement_failed),
    )
unfolding run
half_revoked = refl

revoke_token-IsOutcome_example :
    IsOutcome json
      (some "revoked.json")
      (resolve_issued_token_id_for_revocation node 0 request services.policy)
      services
      (revoke_token node json 0 "t5" (some "revoked.json") ann request services)
revoke_token-IsOutcome_example =
    revoke_token-IsOutcome node json 0 "t5" (some "revoked.json") ann request services
