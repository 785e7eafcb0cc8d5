-- ===== src/Auth/Authorize/Guards.antt =====
-- The refusals of packages/orchestration/src/root/actor-authorization-policy.ts and its tests of lists.
use multi_agent_brain.Common.{
  String, Bool, true, false, Option, none, some, List, [], ◌∷◌, string_eq, includes, StrictEq, ◌==◌,
}
use multi_agent_brain.Common.Text.{non_blank}
use multi_agent_brain.Common.Results.{Result, ok, err}
use multi_agent_brain.Contracts.{
  OrchestratorCommand, AdministrativeAction, role_eq, transport_eq, command_eq, admin_action_eq,
}

pub record Scope : Type 0 where
  pub command : Option OrchestratorCommand
  pub administrative_action : Option AdministrativeAction

-- One constructor for each `throw`; the details that an error echoes are left out.
pub data Refusal : Type 0 where
  actor_id_required source_required command_role_refused action_role_refused : Refusal
  not_registered actor_disabled outside_validity_window role_mismatch : Refusal
  transport_refused command_refused action_refused source_mismatch : Refusal
  token_required inactive_token failed_authentication tokenless_actor : Refusal

pub data AuthorizationErrorCode : Type 0 where
  unauthorized forbidden : AuthorizationErrorCode

-- The `code` that each error is thrown with.
unfoldable pub error_code : Refusal → AuthorizationErrorCode
error_code actor_id_required = unauthorized
error_code source_required = unauthorized
error_code not_registered = unauthorized
error_code token_required = unauthorized
error_code inactive_token = unauthorized
error_code failed_authentication = unauthorized
error_code tokenless_actor = unauthorized
error_code _ = forbidden

abbrev pub Outcome : Type 0
Outcome = Result Refusal (Unit {0})

abbrev pub guard : Bool → Refusal → Result Refusal (Unit {0})
guard true e = ok tt
guard false e = err e

-- `Boolean(value)` of an optional string
abbrev pub truthy : Option String → Option String
truthy none = none
truthy (some s) = non_blank s

-- `!values?.length || values.includes(value)`
abbrev pub list_permits : {A : Type 0} ⦃q : StrictEq A⦄ → Option (List A) → A → Bool
list_permits none a = true
list_permits (some []) a = true
list_permits (some (x ∷ xs)) a = includes (x ∷ xs) a

-- `value === undefined || !values?.length || values.includes(value)`
abbrev pub list_permits_some : {A : Type 0} ⦃q : StrictEq A⦄ → Option (List A) → Option A → Bool
list_permits_some xs none = true
list_permits_some xs (some a) = list_permits xs a

-- `!set || set.has(value)`
abbrev pub set_permits : {A : Type 0} ⦃q : StrictEq A⦄ → Option (List A) → A → Bool
set_permits none a = true
set_permits (some xs) a = includes xs a

abbrev pub set_permits_some : {A : Type 0} ⦃q : StrictEq A⦄ → Option (List A) → Option A → Bool
set_permits_some xs none = true
set_permits_some xs (some a) = set_permits xs a

-- `!expected || expected === actual`
abbrev pub source_permits : Option String → String → Bool
source_permits expected actual = elim (truthy expected) [ none ↦ true | some s ↦ s == actual ]
