-- ===== src/Auth/Registry.antt =====
-- The actor registry: its entries as configured, `normalizeEntry` and `normalizeTokenCredentials`
-- of packages/orchestration/src/root/actor-authorization-policy.ts.
use multi_agent_brain.Common.{
  ℕ, String, Bool, true, Option, none, some, List, [], ◌∷◌, ◌++◌, or_else,
}
use multi_agent_brain.Common.Text.{trim, trimmed, non_blank}
use multi_agent_brain.Common.Results.{Result, ok, ◌>>=◌}
use multi_agent_brain.Common.Maps.{to_set}
use multi_agent_brain.Contracts.{
  ActorRole, TransportKind, OrchestratorCommand, AdministrativeAction, transport_eq, command_eq,
  admin_action_eq,
}
use multi_agent_brain.Common.{StrictEq}
use multi_agent_brain.Auth.Platform.{Platform}
use multi_agent_brain.Auth.Window.{InvalidTimestamp, parse_validity_instant}

pub record ActorTokenCredential : Type 0 where
  pub token : String
  pub label : Option String
  pub valid_from : Option String
  pub valid_until : Option String

-- `string | ActorTokenCredential`
pub data AuthTokenSpec : Type 0 where
  plain : String → AuthTokenSpec
  credential : ActorTokenCredential → AuthTokenSpec

pub record ActorRegistryEntry : Type 0 where
  pub actor_id : String
  pub actor_role : ActorRole
  pub auth_token : Option String
  pub auth_tokens : Option (List AuthTokenSpec)
  pub source : Option String
  pub enabled : Option Bool
  pub allowed_transports : Option (List TransportKind)
  pub allowed_commands : Option (List OrchestratorCommand)
  pub allowed_admin_actions : Option (List AdministrativeAction)
  pub valid_from : Option String
  pub valid_until : Option String

pub record NormalizedCredential : Type 0 where
  pub token : String
  pub label : Option String
  pub valid_from_ms : Option ℕ
  pub valid_until_ms : Option ℕ

-- A `ReadonlySet` is the list of its members.
pub record NormalizedEntry : Type 0 where
  pub actor_id : String
  pub actor_role : ActorRole
  pub auth_tokens : Option (List NormalizedCredential)
  pub source : Option String
  pub enabled : Bool
  pub allowed_transports : Option (List TransportKind)
  pub allowed_commands : Option (List OrchestratorCommand)
  pub allowed_admin_actions : Option (List AdministrativeAction)
  pub valid_from_ms : Option ℕ
  pub valid_until_ms : Option ℕ

abbrev bare_credential : String → NormalizedCredential
bare_credential token = record {
  token = token;
  label = none;
  valid_from_ms = none;
  valid_until_ms = none;
}

-- What one element of `authTokens` contributes, if its trimmed token is not empty.
normalize_spec : Platform → AuthTokenSpec → Result InvalidTimestamp (List NormalizedCredential)
normalize_spec pf (plain text) = elim (non_blank (trim text)) [
  | none ↦ ok []
  | some token ↦ ok (bare_credential token ∷ [])
]
normalize_spec pf (credential c) = elim (non_blank (trim c.token)) [
  | none ↦ ok []
  | some token ↦ do
    from ← parse_validity_instant pf c.valid_from
    until ← parse_validity_instant pf c.valid_until
    ok (
        record {
          token = token;
          label = trimmed c.label;
          valid_from_ms = from;
          valid_until_ms = until;
        }
        ∷ [])
]

-- The loop over `authTokens`.
normalize_specs :
    Platform → List AuthTokenSpec → Result InvalidTimestamp (List NormalizedCredential)
unfolding normalize_spec
normalize_specs pf [] = ok []
normalize_specs pf (spec ∷ specs) = do
  first ← normalize_spec pf spec
  rest ← normalize_specs pf specs
  ok (first ++ rest)

-- `authToken`, if it is not empty
single_credential : Option String → List NormalizedCredential
single_credential auth_token = elim (trimmed auth_token) [
  | none ↦ []
  | some token ↦ bare_credential token ∷ []
]

-- `xs.length > 0 ? xs : undefined`
abbrev pub non_empty {ℓ} : {A : Type ℓ} → List A → Option (List A)
non_empty [] = none
non_empty (x ∷ xs) = some (x ∷ xs)

unfoldable pub normalize_token_credentials :
    Platform → ActorRegistryEntry → Result InvalidTimestamp (Option (List NormalizedCredential))
unfolding normalize_specs single_credential
normalize_token_credentials pf entry = do
  listed ← normalize_specs pf (or_else entry.auth_tokens [])
  ok (non_empty (single_credential entry.auth_token ++ listed))

-- `values && values.length > 0 ? new Set(values) : undefined`
unfoldable pub set_unless_empty {ℓ} :
    {A : Type ℓ} ⦃q : StrictEq A⦄ → Option (List A) → Option (List A)
set_unless_empty none = none
set_unless_empty (some []) = none
set_unless_empty (some (x ∷ xs)) = some (to_set (x ∷ xs))

unfoldable pub normalize_entry :
    Platform → ActorRegistryEntry → Result InvalidTimestamp NormalizedEntry
unfolding normalize_token_credentials set_unless_empty
normalize_entry pf entry = do
  auth_tokens ← normalize_token_credentials pf entry
  from ← parse_validity_instant pf entry.valid_from
  until ← parse_validity_instant pf entry.valid_until
  ok (record {
    actor_id = trim entry.actor_id;
    actor_role = entry.actor_role;
    auth_tokens = auth_tokens;
    source = trimmed entry.source;
    enabled = or_else entry.enabled true;
    allowed_transports = set_unless_empty entry.allowed_transports;
    allowed_commands = set_unless_empty entry.allowed_commands;
    allowed_admin_actions = set_unless_empty entry.allowed_admin_actions;
    valid_from_ms = from;
    valid_until_ms = until;
  })
