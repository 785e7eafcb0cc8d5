-- ===== src/Auth/Token.antt =====
-- packages/orchestration/src/root/issued-actor-token.ts: issuing and verifying access tokens.
pub mod Laws
use multi_agent_brain.Common.{
  String, Option, none, some, List, [], ◌∷◌, ◌==◌, string_eq, or_else, if◌then◌else◌,
}
use multi_agent_brain.Common.Text.{trim, trimmed}
use multi_agent_brain.Common.Text.Split.{◌<>◌, split}
use multi_agent_brain.Common.Results.{Result, ok, err}
use multi_agent_brain.Auth.Platform.{Platform, IssuedActorTokenClaims, Json, object, other}

abbrev pub token_prefix : String
token_prefix = "mab1"

pub data VerifyError : Type 0 where
  malformed invalid_signature not_json invalid_payload : VerifyError

-- `xs?.length ? [...xs] : undefined`
abbrev pub list_unless_empty {ℓ} : {A : Type ℓ} → Option (List A) → Option (List A)
list_unless_empty none = none
list_unless_empty (some []) = none
list_unless_empty (some (x ∷ xs)) = some (x ∷ xs)

unfoldable pub normalize_claims : IssuedActorTokenClaims → IssuedActorTokenClaims
normalize_claims claims = record {
  token_id = trimmed claims.token_id;
  actor_id = trim claims.actor_id;
  actor_role = claims.actor_role;
  source = trimmed claims.source;
  allowed_transports = list_unless_empty claims.allowed_transports;
  allowed_commands = list_unless_empty claims.allowed_commands;
  allowed_admin_actions = list_unless_empty claims.allowed_admin_actions;
  allowed_corpora = list_unless_empty claims.allowed_corpora;
  valid_from = trimmed claims.valid_from;
  valid_until = trimmed claims.valid_until;
  issued_at = trim claims.issued_at;
}

unfoldable pub sign_payload : Platform → String → String → String
sign_payload pf payload secret = pf.hmac payload secret

-- The claims that a token carries; `uuid` is what `randomUUID()` returns.
unfoldable pub issued_claims : IssuedActorTokenClaims → String → IssuedActorTokenClaims
unfolding normalize_claims
issued_claims claims uuid =
    normalize_claims (record claims { token_id = some (or_else (trimmed claims.token_id) uuid) })

unfoldable pub issue_actor_access_token :
    Platform → IssuedActorTokenClaims → (secret uuid : String) → String
unfolding issued_claims sign_payload
issue_actor_access_token pf claims secret uuid =
    let payload = pf.to_base64url (pf.stringify (issued_claims claims uuid)) in
    token_prefix <> "." <> payload <> "." <> sign_payload pf payload secret

-- The payload after `JSON.parse`.
read_payload : Option Json → Result VerifyError IssuedActorTokenClaims
read_payload none = err not_json
read_payload (some other) = err invalid_payload
read_payload (some (object claims)) = ok (normalize_claims claims)

-- Two UTF-8 buffers of one length and content are two equal strings.
verify_parts : Platform → List String → String → Result VerifyError IssuedActorTokenClaims
unfolding read_payload sign_payload normalize_claims
verify_parts pf (prefix ∷ payload ∷ signature ∷ []) secret =
    if prefix == token_prefix
    then (if signature == sign_payload pf payload secret
        then read_payload (pf.json_parse (pf.from_base64url payload))
        else err invalid_signature)
    else err malformed
verify_parts pf _ secret = err malformed

unfoldable pub verify_actor_access_token :
    Platform → (token secret : String) → Result VerifyError IssuedActorTokenClaims
unfolding verify_parts split
verify_actor_access_token pf token secret = verify_parts pf (split "." token) secret
