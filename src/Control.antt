-- ===== src/Control.antt =====
-- The handler of /v1/system/auth/revoke-token in apps/brain-api/src/server.ts, over the policy, the
-- revocation file and the ledger. The request is one that was validated before.
pub mod Laws
mod Examples
use multi_agent_brain.Common.{
  ℕ, String, Bool, Option, none, some, List, string_eq, or_else, if◌then◌else◌,
}
use multi_agent_brain.Common.Text.{non_blank}
use multi_agent_brain.Common.Results.{Result, ok, err}
use multi_agent_brain.Contracts.{ActorContext, revoke_auth_token}
use multi_agent_brain.Auth.Platform.{Platform, IssuedActorTokenClaims}
use multi_agent_brain.Auth.Policy.{Policy, TokenIdRequired, revoke_issued_token_id}
use multi_agent_brain.Auth.Authorize.{Refusal, authorize_administrative_action}
use multi_agent_brain.Auth.Inspect.{
  ActorTokenInspection, TokenKind, issued, InspectOptions, inspect_token,
}
use multi_agent_brain.Auth.Summary.{get_revoked_issued_token_ids}
use multi_agent_brain.Revocation.Store.{
  Json, Disk, FileStore, StoreError, RevokeIssuedTokenResult, usable, create, revoke_token_id,
}
use multi_agent_brain.Ledger.{
  IssuedTokenRow, Faults, LedgerError, MarkIssuedTokenRevokedResult, mark_token_revoked,
}

pub record Services : Type 0 where
  pub policy : Policy
  pub disk : Disk
  pub ledger : List IssuedTokenRow
  pub ledger_faults : Faults

pub record RevokeActorTokenControlRequest : Type 0 where
  pub token_id : Option String
  pub token : Option String
  pub reason : Option String

pub data ControlError : Type 0 where
  refused : Refusal → ControlError
  not_configured : ControlError
  store_failed : StoreError → ControlError
  invalid_token : ControlError
  policy_failed : TokenIdRequired → ControlError
  ledger_failed : LedgerError → ControlError

pub record RevokeTokenResponse : Type 0 where
  pub revoked_token_id : String
  pub already_revoked : Bool
  pub persisted : Bool
  pub recorded_token_found : Bool
  pub reason : Option String

abbrev no_expectations : InspectOptions
no_expectations = record {
  as_of = none;
  expected_transport = none;
  expected_command = none;
  expected_administrative_action = none;
}

-- `value || undefined` of an optional text
abbrev supplied : Option String → Option String
supplied none = none
supplied (some value) = non_blank value

abbrev claimed_id : TokenKind → Option IssuedActorTokenClaims → Option String
claimed_id issued (some claims) = supplied claims.token_id
claimed_id _ _ = none

abbrev inspected_id : ActorTokenInspection → Result ControlError String
inspected_id inspection = elim (claimed_id inspection.token_kind inspection.claims) [
  | none ↦ err invalid_token
  | some id ↦ ok id
]

unfoldable pub resolve_issued_token_id_for_revocation :
    Platform → ℕ → RevokeActorTokenControlRequest → Policy → Result ControlError String
resolve_issued_token_id_for_revocation pf now request p = elim (supplied request.token_id) [
  | some id ↦ ok id
  | none ↦ inspected_id (inspect_token pf p now (or_else request.token "") no_expectations)
]

-- The statements from the call of the ledger on, from that of the policy on, and from that of the
-- file store on.
abbrev pub in_ledger :
    Services
    → RevokeActorTokenControlRequest
    → String
    → RevokeIssuedTokenResult
    → List IssuedTokenRow × Result LedgerError MarkIssuedTokenRevokedResult
    → Services × Result ControlError RevokeTokenResponse
in_ledger svc request id r (rows, err e) = (record svc { ledger = rows }, err (ledger_failed e))
in_ledger svc request id r (rows, ok m) = (
  record svc { ledger = rows },
  ok (record {
    revoked_token_id = id;
    already_revoked = r.already_revoked;
    persisted = r.persisted;
    recorded_token_found = m.found;
    reason = request.reason;
  }),
)

abbrev pub in_policy :
    Services
    → RevokeActorTokenControlRequest
    → String
    → String
    → RevokeIssuedTokenResult
    → Result TokenIdRequired (Policy × Bool)
    → Services × Result ControlError RevokeTokenResponse
in_policy svc request now_iso id r (err e) = (svc, err (policy_failed e))
in_policy svc request now_iso id r (ok (policy, fresh)) =
    in_ledger (record svc { policy = policy }) request id r
      (mark_token_revoked svc.ledger_faults svc.ledger now_iso id request.reason none)

abbrev pub in_file :
    Services
    → RevokeActorTokenControlRequest
    → String
    → String
    → FileStore × Disk × Result StoreError RevokeIssuedTokenResult
    → Services × Result ControlError RevokeTokenResponse
in_file svc request now_iso id (store, disk, err e) =
    (record svc { disk = disk }, err (store_failed e))
in_file svc request now_iso id (store, disk, ok r) =
    in_policy (record svc { disk = disk }) request now_iso id r
      (revoke_issued_token_id svc.policy id)

abbrev pub with_store :
    Json
    → Services
    → RevokeActorTokenControlRequest
    → String
    → Result StoreError FileStore
    → Result ControlError String
    → Services × Result ControlError RevokeTokenResponse
with_store j svc request now_iso (err e) resolved = (svc, err (store_failed e))
with_store j svc request now_iso (ok store) (err e) = (svc, err e)
with_store j svc request now_iso (ok store) (ok id) =
    in_file svc request now_iso id (revoke_token_id j svc.disk store id)

abbrev pub at_path :
    Platform
    → Json
    → ℕ
    → String
    → Option String
    → RevokeActorTokenControlRequest
    → Services
    → Services × Result ControlError RevokeTokenResponse
at_path pf j now now_iso none request svc = (svc, err not_configured)
at_path pf j now now_iso (some path) request svc =
    with_store j svc request now_iso
      (create j svc.disk (some path) (get_revoked_issued_token_ids svc.policy))
      (resolve_issued_token_id_for_revocation pf now request svc.policy)

abbrev pub when_authorized :
    Services
    → Result Refusal (Unit {0})
    → Services × Result ControlError RevokeTokenResponse
    → Services × Result ControlError RevokeTokenResponse
when_authorized svc (err e) rest = (svc, err (refused e))
when_authorized svc (ok done) rest = rest

-- `path` is `env.auth.issuedTokenRevocationPath`; `now` and `now_iso` are the clock's.
unfoldable pub revoke_token :
    Platform
    → Json
    → ℕ
    → String
    → Option String
    → ActorContext
    → RevokeActorTokenControlRequest
    → Services
    → Services × Result ControlError RevokeTokenResponse
unfolding create
revoke_token pf j now now_iso path actor request svc =
    when_authorized svc (authorize_administrative_action pf svc.policy now revoke_auth_token actor)
      (at_path pf j now now_iso (usable path) request svc)
