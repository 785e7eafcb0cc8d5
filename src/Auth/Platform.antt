-- ===== src/Auth/Platform.antt =====
-- What the authorization core takes from its runtime (Node): dates, the HMAC, base64url and JSON.
-- An instant is a number of milliseconds since the earliest date of ECMAScript, so it is never
-- negative; the program only compares instants.
use multi_agent_brain.Common.{ℕ, String, Option, List}
use multi_agent_brain.Contracts.{
  ActorRole, TransportKind, OrchestratorCommand, AdministrativeAction,
}

-- `IssuedActorTokenClaims` of issued-actor-token.ts.
pub record IssuedActorTokenClaims : Type 0 where
  pub token_id : Option String
  pub actor_id : String
  pub actor_role : ActorRole
  pub source : Option String
  pub allowed_transports : Option (List TransportKind)
  pub allowed_commands : Option (List OrchestratorCommand)
  pub allowed_admin_actions : Option (List AdministrativeAction)
  pub allowed_corpora : Option (List String)
  pub valid_from : Option String
  pub valid_until : Option String
  pub issued_at : String

-- A value that JSON text stands for: an object with the fields of the claims, or anything that the
-- guard of `verifyActorAccessToken` turns away (null, a scalar, an array).
pub data Json : Type 0 where
  object : IssuedActorTokenClaims → Json
  other : Json

pub record Platform : Type 0 where
  -- `Date.parse`, `none` for NaN
  pub date_parse : String → Option ℕ
  -- `new Date(ms).toISOString()`
  pub to_iso : ℕ → String
  -- `createHmac("sha256", secret).update(payload).digest("base64url")`
  pub hmac : (payload secret : String) → String
  -- `Buffer.from(text, "utf8").toString("base64url")`, and back
  pub to_base64url : String → String
  pub from_base64url : String → String
  -- `JSON.stringify` of claims, and `JSON.parse`, `none` where it throws
  pub stringify : IssuedActorTokenClaims → String
  pub json_parse : String → Option Json
