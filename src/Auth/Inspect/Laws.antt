-- ===== src/Auth/Inspect/Laws.antt =====
-- What an inspection says, against what the policy does.
use multi_agent_brain.Common.{
  ℕ, String, ◌≡◌, ◌↔◌, Bool, true, not, ◌&&◌, Option, none, some, arith, string_eq,
}
use multi_agent_brain.Common.Results.{Result, ok, err}
use multi_agent_brain.Auth.Platform.{Platform, IssuedActorTokenClaims}
use multi_agent_brain.Auth.Window.{InvalidTimestamp}
use multi_agent_brain.Auth.Lifecycle.{LifecycleStatus, is_active}
use multi_agent_brain.Auth.Registry.{NormalizedEntry, NormalizedCredential}
use multi_agent_brain.Auth.Token.{VerifyError}
use multi_agent_brain.Auth.Policy.{Policy}
use multi_agent_brain.Auth.Inspect.{
  InspectOptions, ActorTokenInspection, static_reason, issued_reason, inspect_window,
  inspect_verified, inspect_by_issuer, inspect_matched, inspect_supplied, inspect_token,
}

-- The verdict and the reason agree.
abbrev pub Consistent : ActorTokenInspection → Type 0
Consistent i = (i.valid ≡ true) ↔ (i.reason ≡ none)

static_reason-none :
    (e : Bool) (s : LifecycleStatus) (c t m a : Bool)
    → ((e && (is_active s && (c && (t && (m && a))))) ≡ true) ↔ (static_reason e s c t m a ≡ none)
static_reason-none e s c t m a = ground arith

issued_reason-none :
    (w r g t m a e : Bool) (s : LifecycleStatus)
    → ((w && (not r && (g && (t && (m && (a && (e && is_active s))))))) ≡ true)
      ↔ (issued_reason w r g t m a e s ≡ none)
issued_reason-none w r g t m a e s = ground arith

module _ (pf : Platform) (p : Policy) (options : InspectOptions) (as_of : String) (t : ℕ) where
  window-Consistent :
      (claims : IssuedActorTokenClaims) (r : Result InvalidTimestamp Bool)
      → Consistent (inspect_window p options as_of t claims r)
  unfolding inspect_window
  window-Consistent claims (err e) = ground arith
  window-Consistent claims (ok window) = issued_reason-none _ _ _ _ _ _ _ _

  verified-Consistent :
      (r : Result VerifyError IssuedActorTokenClaims)
      → Consistent (inspect_verified pf p options as_of t r)
  unfolding inspect_verified
  verified-Consistent (err e) = ground arith
  verified-Consistent (ok claims) = window-Consistent claims _

  issuer-Consistent :
      (token : String) (secret : Option String)
      → Consistent (inspect_by_issuer pf p options as_of t token secret)
  unfolding inspect_by_issuer
  issuer-Consistent token none = ground arith
  issuer-Consistent token (some secret) = verified-Consistent _

  matched-Consistent :
      (token : String) (m : Option (NormalizedEntry × NormalizedCredential))
      → Consistent (inspect_matched pf p options as_of t token m)
  unfolding inspect_matched
  matched-Consistent token none = issuer-Consistent token p.issuer_secret
  matched-Consistent token (some (entry, c)) = static_reason-none _ _ _ _ _ _

  supplied-Consistent :
      (token : Option String) → Consistent (inspect_supplied pf p options as_of t token)
  unfolding inspect_supplied
  supplied-Consistent none = ground arith
  supplied-Consistent (some token) = matched-Consistent token _

-- An inspection calls a token valid exactly when it gives no reason against it.
pub inspect_token-Consistent :
    (pf : Platform) (p : Policy) (now : ℕ) (token : String) (options : InspectOptions)
    → Consistent (inspect_token pf p now token options)
unfolding inspect_token
inspect_token-Consistent pf p now token options = supplied-Consistent pf p options _ _ _
