-- ===== src/Auth/Token/Laws.antt =====
-- Issuing and verifying: the signature is sound, and what was issued verifies to its claims.
use multi_agent_brain.Common.{
  String, ◌≡◌, refl, sym, ap, ◌∙◌, Option, none, some, List, [], ◌∷◌, or_else, ◌==◌, ==_eq, ==_refl,
  string_eq, Bool-cases, inl, inr,
}
use multi_agent_brain.Common.Text.{trim, trimmed, non_blank, trim_idem}
use multi_agent_brain.Common.Text.Split.{
  ◌<>◌, split, join, join-split, Lacks, join-three, split-three,
}
use multi_agent_brain.Common.Results.{Result, ok}
use multi_agent_brain.Auth.Platform.{Platform, IssuedActorTokenClaims, Json, object, other}
use multi_agent_brain.Auth.Token.{
  token_prefix, VerifyError, normalize_claims, sign_payload, issued_claims,
  issue_actor_access_token, read_payload, verify_parts, verify_actor_access_token,
  list_unless_empty,
}

-- The three parts of a token, joined.
abbrev pub token_of : (payload signature : String) → String
token_of payload signature = token_prefix <> "." <> payload <> "." <> signature

-- The payload is JSON text of an object, whose claims these are after normalisation.
abbrev pub Carries : Platform → String → IssuedActorTokenClaims → Type 0
Carries pf payload claims =
    (raw : IssuedActorTokenClaims) × (pf.json_parse (pf.from_base64url payload) ≡ some (object raw))
    × (claims ≡ normalize_claims raw)

module _ (pf : Platform) (secret : String) (claims : IssuedActorTokenClaims) where
  read_payload-ok :
      (j : Option Json)
      → read_payload j ≡ ok claims
      → (raw : IssuedActorTokenClaims) × (j ≡ some (object raw)) × (claims ≡ normalize_claims raw)
  unfolding read_payload
  read_payload-ok none h = cc
  read_payload-ok (some other) h = cc
  read_payload-ok (some (object raw)) h = (raw, refl, cc)

  -- What the accepted parts are.
  Genuine : List String → Type 0
  Genuine parts =
      (payload : String) × (parts ≡ token_prefix ∷ payload ∷ sign_payload pf payload secret ∷ [])
      × Carries pf payload claims

  verify_parts-Genuine :
      (parts : List String) → verify_parts pf parts secret ≡ ok claims → Genuine parts
  unfolding verify_parts Genuine
  verify_parts-Genuine (prefix ∷ payload ∷ signature ∷ []) h =
      elim (Bool-cases (prefix == token_prefix)) [
        | inl same ↦
            let h₁ = rw same at h in
            elim (Bool-cases (signature == sign_payload pf payload secret)) [
              | inl signed ↦
                  let e₁ : prefix ≡ token_prefix = ==_eq same in
                  let e₂ : signature ≡ sign_payload pf payload secret = ==_eq signed in
                  (payload, cc (e₁, e₂), read_payload-ok _ (rw signed at h₁))
              | inr unsigned ↦ cc (rw unsigned at h₁)
            ]
        | inr wrong ↦ cc (rw wrong at h)
      ]
  verify_parts-Genuine [] h = cc
  verify_parts-Genuine (a ∷ []) h = cc
  verify_parts-Genuine (a ∷ b ∷ []) h = cc
  verify_parts-Genuine (a ∷ b ∷ c ∷ d ∷ rest) h = cc

-- A token that verifies is the prefix, a payload and the payload's own HMAC under the issuer's
-- secret, and the claims are the normalised contents of that payload.
pub verify-signed :
    (pf : Platform) (token secret : String) (claims : IssuedActorTokenClaims)
    → verify_actor_access_token pf token secret ≡ ok claims
    → (payload : String) × (token ≡ token_of payload (sign_payload pf payload secret))
      × Carries pf payload claims
unfolding verify_actor_access_token Genuine
verify-signed pf token secret claims h =
    let (payload, parts, carried) = verify_parts-Genuine pf secret claims (split "." token) h in
    (
      payload,
      sym (join-split "." token) ∙ ap (join ".") parts ∙ join-three "." token_prefix payload _,
      carried,
    )

-- What the round trip needs of the runtime at the claims that a token carries: base64url and JSON
-- are read back as they were written, and base64url text has no dot.
pub record IsFaithful (pf : Platform) (claims : IssuedActorTokenClaims) (secret : String)
    : Type 0 where
  pub base64url_back :
      pf.from_base64url (pf.to_base64url (pf.stringify claims)) ≡ pf.stringify claims
  pub json_back : pf.json_parse (pf.stringify claims) ≡ some (object claims)
  pub base64url_dotless : Lacks "." (pf.to_base64url (pf.stringify claims))
  pub hmac_dotless : Lacks "." (pf.hmac (pf.to_base64url (pf.stringify claims)) secret)

trimmed_idem : (o : Option String) → trimmed (trimmed o) ≡ trimmed o
trimmed_idem none = refl
trimmed_idem (some s) = again (trim s) (trim_idem s)
  where
    again : (t : String) → trim t ≡ t → trimmed (non_blank t) ≡ non_blank t
    again String.[] e = refl
    again (String.◌∷◌ c t) e = rw e

list_unless_empty_idem :
    {A : Type 0} (o : Option (List A))
    → list_unless_empty (list_unless_empty o) ≡ list_unless_empty o
list_unless_empty_idem none = refl
list_unless_empty_idem (some []) = refl
list_unless_empty_idem (some (x ∷ xs)) = refl

-- Normalising claims a second time changes nothing.
normalize_claims_idem :
    (c : IssuedActorTokenClaims) → normalize_claims (normalize_claims c) ≡ normalize_claims c
unfolding normalize_claims
normalize_claims_idem c = λ i. record {
  token_id = trimmed_idem c.token_id i;
  actor_id = trim_idem c.actor_id i;
  actor_role = c.actor_role;
  source = trimmed_idem c.source i;
  allowed_transports = list_unless_empty_idem c.allowed_transports i;
  allowed_commands = list_unless_empty_idem c.allowed_commands i;
  allowed_admin_actions = list_unless_empty_idem c.allowed_admin_actions i;
  allowed_corpora = list_unless_empty_idem c.allowed_corpora i;
  valid_from = trimmed_idem c.valid_from i;
  valid_until = trimmed_idem c.valid_until i;
  issued_at = trim_idem c.issued_at i;
}

-- Verifying an issued token with the issuer's secret gives back the normalised claims, with the
-- generated id where they had none.
pub verify-issue :
    (pf : Platform) (claims : IssuedActorTokenClaims) (secret uuid : String)
    → IsFaithful pf (issued_claims claims uuid) secret
    → verify_actor_access_token pf (issue_actor_access_token pf claims secret uuid) secret
      ≡ ok (issued_claims claims uuid)
unfolding verify_actor_access_token issue_actor_access_token
verify-issue pf claims secret uuid f =
    ap (λ parts. verify_parts pf parts secret)
      (split-three "." token_prefix payload signature (refl, (refl, (refl, (refl, tt))))
        f.base64url_dotless f.hmac_dotless)
    ∙ accepted
  where
    with_id : IssuedActorTokenClaims
    with_id = record claims { token_id = some (or_else (trimmed claims.token_id) uuid) }

    payload : String
    payload = pf.to_base64url (pf.stringify (issued_claims claims uuid))

    signature : String
    signature = sign_payload pf payload secret

    accepted :
        verify_parts pf (token_prefix ∷ payload ∷ signature ∷ []) secret
        ≡ ok (issued_claims claims uuid)
    accepted =
        rw (==_refl signature, verify_parts)
          (rw (f.base64url_back, f.json_back)
            (ap {B = Result VerifyError IssuedActorTokenClaims} ok (normalize_claims_idem with_id)))
