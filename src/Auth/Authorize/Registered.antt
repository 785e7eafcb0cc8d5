-- ===== src/Auth/Authorize/Registered.antt =====
-- The branches of `authorizeOperation` for a registered actor.
use multi_agent_brain.Common.{
  ◌∙◌, ℕ, String, ◌≡◌, ◌↔◌, inl, inr, refl, sym, ap, Bool, true, false, ◌&&◌, none, some, List,
  arith, find, find_sound, find_complete, ==_iff, ==_eq, ==_refl, ◌==◌, string_eq, Option-cases,
  and-eq-true, and-intro,
}
use multi_agent_brain.Common.Text.{trimmed}
use multi_agent_brain.Common.Results.{Result, ok, err, ◌>>◌}
use multi_agent_brain.Contracts.{ActorContext, role_eq, transport_eq, command_eq, admin_action_eq}
use multi_agent_brain.Auth.Window.{is_within_validity_window_iff}
use multi_agent_brain.Auth.Registry.{NormalizedCredential, NormalizedEntry}
use multi_agent_brain.Auth.Authorize.{
  Scope, Refusal, guard, check_entry, credential_active, authenticate,
}
use multi_agent_brain.Auth.Authorize.Grant.{EntryAdmits, CredentialGrant}
use multi_agent_brain.Auth.Authorize.Permits.{
  set_permits_iff, set_permits_some_iff, source_permits_iff,
}

pub guard_iff : (b : Bool) (e : Refusal) → (guard b e ≡ ok tt) ↔ (b ≡ true)
guard_iff true e = (λ _. refl, λ _. refl)
guard_iff false e = (λ h. cc, λ h. cc)

pub guard-bind_iff :
    (b : Bool) (e : Refusal) (k : Result Refusal (Unit {0}))
    → ((guard b e >> k) ≡ ok tt) ↔ ((b ≡ true) × (k ≡ ok tt))
guard-bind_iff true e k = (λ h. (refl, h), λ h. h.1)
guard-bind_iff false e k = (λ h. cc, λ h. cc)

module _ (entry : NormalizedEntry) (actor : ActorContext) (t : ℕ) (scope : Scope) where
  check-EntryAdmits : check_entry entry actor t scope ≡ ok tt → EntryAdmits entry actor t scope
  unfolding check_entry
  check-EntryAdmits h =
      let (e, h₁) = (guard-bind_iff _ _ _).0 h in
      let (w, h₂) = (guard-bind_iff _ _ _).0 h₁ in
      let (r, h₃) = (guard-bind_iff _ _ _).0 h₂ in
      let (tr, h₄) = (guard-bind_iff _ _ _).0 h₃ in
      let (c, h₅) = (guard-bind_iff _ _ _).0 h₄ in
      let (a, h₆) = (guard-bind_iff _ _ _).0 h₅ in
      let s = (guard_iff _ _).0 h₆ in
      record {
        enabled = e;
        in_window = (is_within_validity_window_iff _ _ _).0 w;
        same_role = ==_eq r;
        transport = (set_permits_iff _ _).0 tr;
        command = (set_permits_some_iff _ _).0 c;
        action = (set_permits_some_iff _ _).0 a;
        same_source = (source_permits_iff _ _).0 s;
      }

  EntryAdmits-check : EntryAdmits entry actor t scope → check_entry entry actor t scope ≡ ok tt
  unfolding check_entry
  EntryAdmits-check g = (guard-bind_iff _ _ _).1 (
    g.enabled,
    (guard-bind_iff _ _ _).1 (
      (is_within_validity_window_iff _ _ _).1 g.in_window,
      (guard-bind_iff _ _ _).1 (
        (==_iff _ _).1 g.same_role,
        (guard-bind_iff _ _ _).1 (
          (set_permits_iff _ _).1 g.transport,
          (guard-bind_iff _ _ _).1 (
            (set_permits_some_iff _ _).1 g.command,
            (guard-bind_iff _ _ _).1 (
              (set_permits_some_iff _ _).1 g.action,
              (guard_iff _ _).1 ((source_permits_iff _ _).1 g.same_source),
            ),
          ),
        ),
      ),
    ),
  )

  pub check_entry_iff : (check_entry entry actor t scope ≡ ok tt) ↔ EntryAdmits entry actor t scope
  check_entry_iff = (check-EntryAdmits, EntryAdmits-check)

module _ (actor : ActorContext) (t : ℕ) (credentials : List NormalizedCredential) where
  abbrev usable : String → NormalizedCredential → Bool
  usable supplied c = c.token == supplied && credential_active t c

  authenticate-CredentialGrant :
      authenticate credentials (trimmed actor.auth_token) t ≡ ok tt
      → CredentialGrant credentials actor t
  unfolding authenticate
  authenticate-CredentialGrant h = elim (Option-cases (trimmed actor.auth_token)) [
    | inl missing ↦ absurd (refused (rw missing at h))
    | inr (supplied, es) ↦ elim (Option-cases (find (usable supplied) credentials)) [
      | inl nothing ↦ absurd (unmatched supplied nothing (rw es at h))
      | inr (c, found) ↦
          let (listed, fits) = find_sound (usable supplied) credentials found in
          let (same, active) = and-eq-true _ _ fits in
          record {
            credential = c;
            listed = listed;
            supplied = es ∙ ap some (sym (==_eq same));
            active = (is_within_validity_window_iff _ _ _).0 active;
          }
    ]
  ]
    where
      refused : {e : Refusal} → ◌≡◌ {A = Result Refusal (Unit {0})} (err e) (ok tt) → ⊥
      refused k = cc

      unmatched :
          (supplied : String)
          → find (usable supplied) credentials ≡ none
          → authenticate credentials (some supplied) t ≡ ok tt
          → ⊥
      unmatched supplied nothing k = ground arith

  CredentialGrant-authenticate :
      CredentialGrant credentials actor t
      → authenticate credentials (trimmed actor.auth_token) t ≡ ok tt
  unfolding authenticate
  CredentialGrant-authenticate g =
      let fits =
        and-intro (==_refl g.credential.token) ((is_within_validity_window_iff t _ _).1 g.active) in
      let (c, found) = find_complete (usable g.credential.token) credentials g.listed fits in
      rw g.supplied (rw (found, authenticate))

  pub authenticate_iff :
      (authenticate credentials (trimmed actor.auth_token) t ≡ ok tt)
      ↔ CredentialGrant credentials actor t
  authenticate_iff = (authenticate-CredentialGrant, CredentialGrant-authenticate)
