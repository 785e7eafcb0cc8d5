-- ===== src/Control/Laws.antt =====
-- What a revocation leaves in the policy, the file and the ledger, on every branch of the handler.
pub mod Outcome
use mathlib.Core.Option.{some-injective, none-ne-some}
use multi_agent_brain.Common.{
  ℕ, String, ◌≡◌, ◌∙◌, ap, map, or_else, Option-cases, ◌⊎◌, refl, sym, subst, inl, inr, Bool, true,
  false, Option, none, some, List, string_eq, includes, ==_refl, Bool-cases, is_some, arith,
}
use multi_agent_brain.Common.Text.{trim, is_blank}
use multi_agent_brain.Common.Results.{Result, ok, err, err≢ok, ok-injective, Result-cases}
use multi_agent_brain.Common.Maps.{set_add, includes-set_add}
use multi_agent_brain.Contracts.{ActorContext, revoke_auth_token}
use multi_agent_brain.Auth.Platform.{Platform}
use multi_agent_brain.Auth.Policy.{Policy, revoke_issued_token_id, is_token_revoked}
use multi_agent_brain.Auth.Authorize.{Refusal, authorize_administrative_action}
use multi_agent_brain.Auth.Inspect.{ActorTokenInspection, inspect_token}
use multi_agent_brain.Auth.Summary.{get_revoked_issued_token_ids}
use multi_agent_brain.Revocation.Store.{
  Json, Disk, FileStore, StoreError, RevokeIssuedTokenResult, usable, create, new_store, load_if,
  revoke_token_id, finish_revocation, persist_at, persist, with_id, write_file,
  list_revoked_token_ids,
}
use multi_agent_brain.Revocation.Store.Laws.{includes-list}
use multi_agent_brain.Ledger.{
  IssuedTokenRow, Faults, statement_failed, mark_token_revoked, mark_existing, with_token_id,
  present, set_revoked,
}
use multi_agent_brain.Ledger.Listing.{find-Marked, set_revoked-Marked, present-is_some}
use multi_agent_brain.Control.{
  Services, RevokeActorTokenControlRequest, ControlError, invalid_token, ledger_failed,
  RevokeTokenResponse, in_ledger, in_policy, in_file, with_store, at_path, when_authorized,
  resolve_issued_token_id_for_revocation, inspected_id, claimed_id, supplied, no_expectations,
  revoke_token,
}
unfoldable pub use Outcome.*

-- The store that is created keeps the path it is given.
create-path :
    (j : Json) (d : Disk) (path : Option String) (initial : List String) {store : FileStore}
    → create j d path initial ≡ ok store
    → store.file_path ≡ path
unfolding create new_store
create-path j d path initial {store} h = elim (Result-cases (load_if j d (usable path))) [
  | inr (e, failed) ↦ absurd (err≢ok (rw failed at h))
  | inl (persisted, loaded) ↦ sym (ap (λ s. s.file_path) (ok-injective (rw loaded at h)))
]

-- A request that names no issued token is the only one without an id.
inspected-invalid :
    (inspection : ActorTokenInspection) (e : ControlError)
    → inspected_id inspection ≡ err e
    → e ≡ invalid_token
inspected-invalid inspection e h =
    elim (Option-cases (claimed_id inspection.token_kind inspection.claims)) [
      | inl unnamed ↦ named_invalid (rw (unnamed, inspected_id) at h)
      | inr (id, named) ↦ absurd (err≢ok (sym (rw (named, inspected_id) at h)))
    ]
  where
    named_invalid :
        ◌≡◌ {A = Result ControlError String} (err invalid_token) (err e) → e ≡ invalid_token
    named_invalid h = cc

resolve-invalid :
    (pf : Platform) (now : ℕ) (request : RevokeActorTokenControlRequest) (p : Policy)
    (e : ControlError)
    → resolve_issued_token_id_for_revocation pf now request p ≡ err e
    → e ≡ invalid_token
unfolding resolve_issued_token_id_for_revocation
resolve-invalid pf now request p e h = elim (Option-cases (supplied request.token_id)) [
  | inl absent ↦
      inspected-invalid (inspect_token pf p now (or_else request.token "") no_expectations) e
        (rw (absent, resolve_issued_token_id_for_revocation) at h)
  | inr (id, given) ↦
      absurd (err≢ok (sym (rw (given, resolve_issued_token_id_for_revocation) at h)))
]

-- The handler that revokes a token ends in one of three ways. It answers with the id that the request
-- resolves to: then the policy refuses it, the file at the configured path was written with ids among
-- which it is, the row of the ledger under it, where there is one, is marked, and the answer says
-- whether there is one. Or SQLite fails a statement of the ledger: then policy and file hold the id
-- that the request resolves to, and the ledger is as it was. Or it is another error, and policy, file
-- and ledger are as they were: an actor who may not, no path configured, a file that cannot be read or
-- written, a request that names no issued token, a blank id.
pub revoke_token-IsOutcome :
    (pf : Platform) (j : Json) (now : ℕ) (now_iso : String) (path : Option String)
    (actor : ActorContext) (request : RevokeActorTokenControlRequest) (svc : Services)
    → IsOutcome j path
        (resolve_issued_token_id_for_revocation pf now request svc.policy)
        svc
        (revoke_token pf j now now_iso path actor request svc)
unfolding revoke_token
revoke_token-IsOutcome pf j now now_iso path actor request svc =
    authorized (authorize_administrative_action pf svc.policy now revoke_auth_token actor)
      (usable path) refl
  where
    stored :
        (p : String) (store : Result StoreError FileStore) (resolved : Result ControlError String)
        → path ≡ some p
        → ((s : FileStore) → store ≡ ok s → usable s.file_path ≡ some p)
        → ((e : ControlError) → resolved ≡ err e → e ≡ invalid_token)
        → IsOutcome j path resolved svc (with_store j svc request now_iso store resolved)
    stored p (err e) resolved at kept invalid = refl
    stored p (ok store) (err e) at kept invalid =
        subst (λ x. IsOutcome j path (err e) svc (svc, err x)) (sym (invalid e refl)) refl
    stored p (ok store) (ok id) at kept invalid =
        file-IsOutcome j path (ok id) svc request now_iso id refl store p at (kept store refl)

    at_usable :
        (q : Option String)
        → usable path ≡ q
        → IsOutcome j path
            (resolve_issued_token_id_for_revocation pf now request svc.policy)
            svc
            (at_path pf j now now_iso q request svc)
    at_usable none e = refl
    at_usable (some p) e =
        let initial = get_revoked_issued_token_ids svc.policy in
        stored p (create j svc.disk (some p) initial)
          (resolve_issued_token_id_for_revocation pf now request svc.policy) (usable_path path p e)
          (λ s h.
            subst (λ f. usable f ≡ some p) (sym (create-path j svc.disk (some p) initial h))
              (usable_again path p e))
          (resolve-invalid pf now request svc.policy)

    authorized :
        (allowed : Result Refusal (Unit {0})) (q : Option String)
        → usable path ≡ q
        → IsOutcome j path
            (resolve_issued_token_id_for_revocation pf now request svc.policy)
            svc
            (when_authorized svc allowed (at_path pf j now now_iso q request svc))
    authorized (err e) q h = refl
    authorized (ok done) q h = at_usable q h
