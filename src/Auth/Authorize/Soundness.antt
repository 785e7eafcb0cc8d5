-- ===== src/Auth/Authorize/Soundness.antt =====
-- `authorizeOperation` returns exactly when the actor is eligible and there is a ground for it.
use multi_agent_brain.Common.{
  ℕ, ◌≡◌, ◌↔◌, ◌⊎◌, inl, inr, refl, Bool, true, false, not, ◌&&◌, Option, none, some, List, [], ◌∷◌,
  arith, ==_iff, ==_eq, Option-cases, includes, Elem, if◌then◌else◌,
}
use multi_agent_brain.Common.Text.{trim, is_blank}
use multi_agent_brain.Common.Results.{Result, ok, err, ◌>>◌}
use multi_agent_brain.Common.Maps.{get}
use multi_agent_brain.Contracts.{ActorRole, ActorContext, internal, role_eq, transport_eq}
use multi_agent_brain.Auth.Platform.{Platform}
use multi_agent_brain.Auth.Window.{normalize_evaluation_time}
use multi_agent_brain.Auth.Registry.{NormalizedCredential, NormalizedEntry}
use multi_agent_brain.Auth.Roles.{command_role_policy, admin_action_role_policy}
use multi_agent_brain.Auth.Policy.{Policy, permissive}
use multi_agent_brain.Auth.Authorize.{
  Scope, Refusal, guard, authorize_unregistered, authorize_by_credentials, authorize_registered,
  assert_actor_shape, assert_scope_roles, authorize_at, authorize_operation,
  is_anonymous_internal_allowed, is_enforced,
}
use multi_agent_brain.Auth.Authorize.Grant.{
  Asked, IssuedGrant, EntryAdmits, CredentialGrant, credentials_of, Grant, unregistered_issued,
  anonymous, registered_issued, by_credential, without_credentials, IsEligible,
}
use multi_agent_brain.Auth.Authorize.Permits.{includes_iff}
use multi_agent_brain.Auth.Authorize.Issued.{try_authorize_issued_token_iff}
use multi_agent_brain.Auth.Authorize.Registered.{guard_iff, check_entry_iff, authenticate_iff}

pub >>_iff : (m k : Result Refusal (Unit {0})) → ((m >> k) ≡ ok tt) ↔ ((m ≡ ok tt) × (k ≡ ok tt))
>>_iff (ok tt) k = (λ h. (refl, h), λ h. h.1)
>>_iff (err e) k = (λ h. cc, λ h. cc)

if-ok_iff :
    (b : Bool) (k : Result Refusal (Unit {0}))
    → ((if b then ok tt else k) ≡ ok tt) ↔ ((b ≡ true) ⊎ (k ≡ ok tt))
if-ok_iff true k = (λ _. inl refl, λ _. refl)
if-ok_iff false k = (λ h. inr h, λ h. ground arith)

module _ (p : Policy) (actor : ActorContext) where
  lenient_iff :
      (b : Bool) → (not (is_enforced p && not b) ≡ true) ↔ ((p.mode ≡ permissive) ⊎ (b ≡ true))
  unfolding is_enforced
  lenient_iff b = ground arith

  anonymous_iff :
      (is_anonymous_internal_allowed p actor ≡ true)
      ↔ ((p.allow_anonymous_internal ≡ true) × (actor.transport ≡ internal))
  unfolding is_anonymous_internal_allowed
  anonymous_iff = ground (arith, ==_iff actor.transport internal)

shape_iff :
    (actor : ActorContext)
    → (assert_actor_shape actor ≡ ok tt)
      ↔ ((is_blank (trim actor.actor_id) ≡ false) × (is_blank (trim actor.source) ≡ false))
unfolding assert_actor_shape
shape_iff actor = ground arith

abbrev checked :
    {A : Type 0} → (A → Result Refusal (Unit {0})) → Option A → Result Refusal (Unit {0})
checked f o = elim o [ none ↦ ok tt | some a ↦ f a ]

Asked-iff :
    {A : Type 0} (P : A → Type 0) (f : A → Result Refusal (Unit {0}))
    → ((a : A) → (f a ≡ ok tt) ↔ P a)
    → (o : Option A) → (checked f o ≡ ok tt) ↔ Asked P o
Asked-iff P f h none = (λ _. tt, λ _. refl)
Asked-iff P f h (some a) = h a

role_guard_iff :
    (roles : List ActorRole) (role : ActorRole) (e : Refusal)
    → (guard (includes roles role) e ≡ ok tt) ↔ Elem role roles
role_guard_iff roles role e = (
  λ h. (includes_iff roles role).0 ((guard_iff _ e).0 h),
  λ m. (guard_iff _ e).1 ((includes_iff roles role).1 m),
)

module _ (scope : Scope) (actor : ActorContext) where
  abbrev CommandAsked : Type 0
  CommandAsked = Asked (λ c. Elem actor.actor_role (command_role_policy c)) scope.command

  abbrev ActionAsked : Type 0
  ActionAsked =
      Asked (λ a. Elem actor.actor_role (admin_action_role_policy a)) scope.administrative_action

  scope_roles_iff : (assert_scope_roles scope actor ≡ ok tt) ↔ (CommandAsked × ActionAsked)
  unfolding assert_scope_roles
  scope_roles_iff =
      let commands = Asked-iff _ _ (λ c. role_guard_iff _ actor.actor_role _) scope.command in
      let actions =
        Asked-iff _ _ (λ a. role_guard_iff _ actor.actor_role _) scope.administrative_action in
      (
        λ h. let (c, a) = (>>_iff _ _).0 h in (commands.0 c, actions.0 a),
        λ h. (>>_iff _ _).1 (commands.1 h.0, actions.1 h.1),
      )

  pub IsEligible-iff :
      ((assert_actor_shape actor >> assert_scope_roles scope actor) ≡ ok tt)
      ↔ IsEligible actor scope
  IsEligible-iff = (
    λ h.
        let (shape, roles) = (>>_iff _ _).0 h in
        let (named, sourced) = (shape_iff actor).0 shape in
        let (command, action) = scope_roles_iff.0 roles in
        record { named = named; sourced = sourced; command_role = command; action_role = action },
    λ e. (>>_iff _ _).1 (
      (shape_iff actor).1 (e.named, e.sourced),
      scope_roles_iff.1 (e.command_role, e.action_role),
    ),
  )

module _ (pf : Platform) (p : Policy) (actor : ActorContext) (t : ℕ) (scope : Scope) where
  abbrev Unregistered : Type 0
  Unregistered =
      IssuedGrant pf p actor t scope false
      ⊎ ((p.mode ≡ permissive)
          ⊎ ((p.allow_anonymous_internal ≡ true) × (actor.transport ≡ internal)))

  unregistered_sound : authorize_unregistered pf p actor t scope ≡ ok tt → Unregistered
  unfolding authorize_unregistered
  unregistered_sound h = elim ((if-ok_iff _ _).0 h) [
    | inl issued ↦ inl ((try_authorize_issued_token_iff pf p actor t scope none).0 issued)
    | inr rest ↦ elim ((lenient_iff p actor _).0 ((guard_iff _ _).0 rest)) [
      | inl lenient ↦ inr (inl lenient)
      | inr anon ↦ inr (inr ((anonymous_iff p actor).0 anon))
    ]
  ]

  unregistered_complete : Unregistered → authorize_unregistered pf p actor t scope ≡ ok tt
  unfolding authorize_unregistered
  unregistered_complete (inl g) =
      (if-ok_iff _ _).1 (inl ((try_authorize_issued_token_iff pf p actor t scope none).1 g))
  unregistered_complete (inr (inl lenient)) =
      (if-ok_iff _ _).1 (inr ((guard_iff _ _).1 ((lenient_iff p actor _).1 (inl lenient))))
  unregistered_complete (inr (inr anon)) =
      (if-ok_iff _ _).1
        (inr ((guard_iff _ _).1 ((lenient_iff p actor _).1 (inr ((anonymous_iff p actor).1 anon)))))

  abbrev Authenticated : List NormalizedCredential → Type 0
  Authenticated cs =
      CredentialGrant cs actor t
      ⊎ ((cs ≡ []) × ((p.mode ≡ permissive) ⊎ (actor.transport ≡ internal)))

  credentials_sound :
      (cs : List NormalizedCredential)
      → authorize_by_credentials p actor t cs ≡ ok tt
      → Authenticated cs
  unfolding authorize_by_credentials
  credentials_sound [] h = elim ((lenient_iff p actor _).0 ((guard_iff _ _).0 h)) [
    | inl lenient ↦ inr (refl, inl lenient)
    | inr inside ↦ inr (refl, inr (==_eq inside))
  ]
  credentials_sound (c ∷ cs) h = inl ((authenticate_iff actor t (c ∷ cs)).0 h)

  credentials_complete :
      (cs : List NormalizedCredential)
      → Authenticated cs
      → authorize_by_credentials p actor t cs ≡ ok tt
  unfolding authorize_by_credentials
  credentials_complete [] (inl g) = elim g.listed [ ]
  credentials_complete [] (inr (_, inl lenient)) =
      (guard_iff _ _).1 ((lenient_iff p actor _).1 (inl lenient))
  credentials_complete [] (inr (_, inr inside)) =
      (guard_iff _ _).1 ((lenient_iff p actor _).1 (inr ((==_iff _ _).1 inside)))
  credentials_complete (c ∷ cs) (inl g) = (authenticate_iff actor t (c ∷ cs)).1 g
  credentials_complete (c ∷ cs) (inr (e, _)) = absurd (cc e)

  abbrev Registered : NormalizedEntry → Type 0
  Registered entry =
      EntryAdmits entry actor t scope
      × (IssuedGrant pf p actor t scope true ⊎ Authenticated (credentials_of entry))

  Registered-iff :
      (entry : NormalizedEntry)
      → (authorize_registered pf p actor t scope entry ≡ ok tt) ↔ Registered entry
  unfolding authorize_registered
  Registered-iff entry = (sound, complete)
    where
      sound : authorize_registered pf p actor t scope entry ≡ ok tt → Registered entry
      sound h =
          let (checked, rest) = (>>_iff _ _).0 h in
          let admitted = (check_entry_iff entry actor t scope).0 checked in
          elim ((if-ok_iff _ _).0 rest) [
            | inl issued ↦ (
              admitted,
              inl ((try_authorize_issued_token_iff pf p actor t scope (some entry)).0 issued),
            )
            | inr other ↦ (admitted, inr (credentials_sound _ other))
          ]

      complete : Registered entry → authorize_registered pf p actor t scope entry ≡ ok tt
      complete (admitted, inl g) = (>>_iff _ _).1 (
        (check_entry_iff entry actor t scope).1 admitted,
        (if-ok_iff _ _).1
            (inl ((try_authorize_issued_token_iff pf p actor t scope (some entry)).1 g)),
      )
      complete (admitted, inr g) = (>>_iff _ _).1 (
        (check_entry_iff entry actor t scope).1 admitted,
        (if-ok_iff _ _).1 (inr (credentials_complete _ g)),
      )

  pub authorize_at_iff : (authorize_at pf p actor t scope ≡ ok tt) ↔ Grant pf p actor t scope
  unfolding authorize_at
  authorize_at_iff = (sound, complete)
    where
      by_entry :
          (entry : NormalizedEntry)
          → get p.registry actor.actor_id ≡ some entry
          → Registered entry
          → Grant pf p actor t scope
      by_entry entry e (admitted, inl issued) = registered_issued entry e admitted issued
      by_entry entry e (admitted, inr (inl own)) = by_credential entry e admitted own
      by_entry entry e (admitted, inr (inr (bare, why))) =
          without_credentials entry e admitted bare why

      unregistered : get p.registry actor.actor_id ≡ none → Unregistered → Grant pf p actor t scope
      unregistered e (inl issued) = unregistered_issued e issued
      unregistered e (inr why) = anonymous e why

      sound : authorize_at pf p actor t scope ≡ ok tt → Grant pf p actor t scope
      sound h = elim (Option-cases (get p.registry actor.actor_id)) [
        | inl e ↦ unregistered e (unregistered_sound (rw (e, authorize_at) at h))
        | inr (entry, e) ↦ by_entry entry e ((Registered-iff entry).0 (rw (e, authorize_at) at h))
      ]

      complete : Grant pf p actor t scope → authorize_at pf p actor t scope ≡ ok tt
      complete (unregistered_issued e g) = rw (e, authorize_at) (unregistered_complete (inl g))
      complete (anonymous e why) = rw (e, authorize_at) (unregistered_complete (inr why))
      complete (registered_issued entry e a g) =
          rw (e, authorize_at) ((Registered-iff entry).1 (a, inl g))
      complete (by_credential entry e a g) =
          rw (e, authorize_at) ((Registered-iff entry).1 (a, inr (inl g)))
      complete (without_credentials entry e a bare why) =
          rw (e, authorize_at) ((Registered-iff entry).1 (a, inr (inr (bare, why))))

-- `authorizeOperation` returns without an error exactly when the actor is eligible (it names itself
-- and its source, and its role may do what the scope asks) and there is a ground for it: an issued
-- token that verifies and speaks for the actor, an active credential of its registry entry, an entry
-- without credentials, or anonymous access where the mode and the transport allow it. For a
-- registered actor every ground also needs the entry to admit the actor.
pub authorize_operation_iff :
    (pf : Platform) (p : Policy) (now : ℕ) (actor : ActorContext) (scope : Scope)
    → (authorize_operation pf p now actor scope ≡ ok tt) ↔ (
        IsEligible actor scope
        × Grant pf p actor (normalize_evaluation_time pf now actor.initiated_at) scope)
unfolding authorize_operation
authorize_operation_iff pf p now actor scope =
    let t = normalize_evaluation_time pf now actor.initiated_at in
    (
      λ h.
          let (shape, rest) = (>>_iff (assert_actor_shape actor) _).0 h in
          let (roles, found) = (>>_iff (assert_scope_roles scope actor) _).0 rest in
          (
            (IsEligible-iff scope actor).0 ((>>_iff _ _).1 (shape, roles)),
            (authorize_at_iff pf p actor t scope).0 found,
          ),
      λ g.
          let (shape, roles) =
            (>>_iff (assert_actor_shape actor) (assert_scope_roles scope actor)).0
              ((IsEligible-iff scope actor).1 g.0) in
          (>>_iff _ _).1
            (shape, (>>_iff _ _).1 (roles, (authorize_at_iff pf p actor t scope).1 g.1)),
    )
