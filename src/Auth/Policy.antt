-- ===== src/Auth/Policy.antt =====
-- `ActorAuthorizationPolicy` of packages/orchestration/src/root/actor-authorization-policy.ts: its
-- state, its constructor and the revocation of issued tokens.
use multi_agent_brain.Common.{
  String, Bool, true, false, not, Option, none, some, List, [], ◌∷◌, or_else, string_eq, includes,
  if◌then◌else◌,
}
use multi_agent_brain.Common.Text.{trim, trimmed, is_blank}
use multi_agent_brain.Common.Results.{Result, ok, err, ◌>>=◌}
use multi_agent_brain.Common.Maps.{to_set, set_add, put}
use multi_agent_brain.Auth.Platform.{Platform}
use multi_agent_brain.Auth.Window.{InvalidTimestamp}
use multi_agent_brain.Auth.Registry.{ActorRegistryEntry, NormalizedEntry, normalize_entry}

pub data ActorAuthorizationMode : Type 0 where
  permissive enforced : ActorAuthorizationMode

pub record ActorAuthorizationOptions : Type 0 where
  pub mode : Option ActorAuthorizationMode
  pub allow_anonymous_internal : Option Bool
  pub registry : Option (List ActorRegistryEntry)
  pub issuer_secret : Option String
  pub issued_token_require_registry_match : Option Bool
  pub revoked_issued_token_ids : Option (List String)
  pub is_token_revoked : Option (String → Bool)

pub record Policy : Type 0 where
  pub mode : ActorAuthorizationMode
  pub allow_anonymous_internal : Bool
  pub registry : List (String × NormalizedEntry)
  pub issuer_secret : Option String
  pub issued_token_require_registry_match : Bool
  pub revoked_issued_token_ids : List String
  pub is_token_revoked_callback : Option (String → Bool)

-- `ids.map((id) => id.trim()).filter(Boolean)`
unfoldable pub trimmed_ids : List String → List String
trimmed_ids [] = []
trimmed_ids (id ∷ ids) =
    let rest = trimmed_ids ids in if is_blank (trim id) then rest else trim id ∷ rest

-- `new Map(entries.map((entry) => [entry.actorId, normalizeEntry(entry)]))`
unfoldable pub fill_registry :
    Platform
    → List (String × NormalizedEntry)
    → List ActorRegistryEntry
    → Result InvalidTimestamp (List (String × NormalizedEntry))
fill_registry pf filled [] = ok filled
fill_registry pf filled (entry ∷ entries) = do
  normalized ← normalize_entry pf entry
  fill_registry pf (put filled entry.actor_id normalized) entries

-- The constructor.
unfoldable pub create_policy : Platform → ActorAuthorizationOptions → Result InvalidTimestamp Policy
unfolding trimmed_ids fill_registry
create_policy pf options = do
  registry ← fill_registry pf [] (or_else options.registry [])
  ok (record {
    mode = or_else options.mode permissive;
    allow_anonymous_internal = or_else options.allow_anonymous_internal true;
    registry = registry;
    issuer_secret = trimmed options.issuer_secret;
    issued_token_require_registry_match = or_else options.issued_token_require_registry_match true;
    revoked_issued_token_ids = to_set (trimmed_ids (or_else options.revoked_issued_token_ids []));
    is_token_revoked_callback = options.is_token_revoked;
  })

-- `throw new Error("Issued token ID is required.")`
pub data TokenIdRequired : Type 0 where
  token_id_required : TokenIdRequired

-- The new state, and whether the id was not revoked before.
unfoldable pub revoke_issued_token_id : Policy → String → Result TokenIdRequired (Policy × Bool)
revoke_issued_token_id p token_id =
    let normalized = trim token_id in
    if is_blank normalized
    then err token_id_required
    else ok (
      record p { revoked_issued_token_ids = set_add p.revoked_issued_token_ids normalized },
      not (includes p.revoked_issued_token_ids normalized),
    )

abbrev ask : Option (String → Bool) → String → Bool
ask none token_id = false
ask (some callback) token_id = callback token_id

unfoldable pub is_token_revoked : Policy → String → Bool
is_token_revoked p token_id =
    let normalized = trim token_id in
    if includes p.revoked_issued_token_ids normalized
    then true
    else if ask p.is_token_revoked_callback normalized
    then true
    else false
