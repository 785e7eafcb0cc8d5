-- ===== src/Control/Laws/Outcome.antt =====
-- The outcomes of a revocation, and the statements of the handler from the call of the file store on.
use mathlib.Core.Option.{some-injective, none-ne-some}
use multi_agent_brain.Common.{
  String, ◌≡◌, ◌∙◌, map, ◌⊎◌, refl, sym, subst, inl, inr, Bool, true, false, Option, none, some,
  List, string_eq, includes, ==_refl, Bool-cases, is_some, arith,
}
use multi_agent_brain.Common.Text.{trim, is_blank}
use multi_agent_brain.Common.Results.{Result, ok, err}
use multi_agent_brain.Common.Maps.{set_add, includes-set_add}
use multi_agent_brain.Auth.Policy.{Policy, revoke_issued_token_id, is_token_revoked}
use multi_agent_brain.Revocation.Store.{
  Json, Disk, FileStore, RevokeIssuedTokenResult, usable, revoke_token_id, finish_revocation,
  persist_at, persist, with_id, write_file, list_revoked_token_ids,
}
use multi_agent_brain.Revocation.Store.Laws.{includes-list}
use multi_agent_brain.Ledger.{
  IssuedTokenRow, Faults, statement_failed, mark_token_revoked, mark_existing, with_token_id,
  present, set_revoked,
}
use multi_agent_brain.Ledger.Listing.{find-Marked, set_revoked-Marked, present-is_some}
use multi_agent_brain.Control.{
  Services, RevokeActorTokenControlRequest, ControlError, ledger_failed, RevokeTokenResponse,
  in_ledger, in_policy, in_file,
}

-- The policy refuses the id, and the file at the configured path was written with ids among which it
-- is.
abbrev pub IsTold : Json → Option String → Disk → Disk → Policy → String → Type 0
IsTold j path before after policy id =
    (is_token_revoked policy id ≡ true)
    × ((p : String) × (ids : List String) × (path ≡ some p)
        × (after ≡ write_file before p (j.print ids))
        × (includes ids (trim id) ≡ true))

-- Whatever row a `SELECT` finds under the id is marked.
abbrev pub IsMarked : List IssuedTokenRow → String → Type 0
IsMarked rows id =
    (row : IssuedTokenRow) → with_token_id rows id ≡ some row → is_some row.revoked_at ≡ true

-- The outcomes of a revocation: an answer, after which policy, file and ledger all hold it; a failure
-- of SQLite, after which policy and file hold it and the ledger does not; any other error, which
-- changes nothing.
abbrev pub IsOutcome :
    Json
    → Option String
    → Result ControlError String
    → Services
    → Services × Result ControlError RevokeTokenResponse
    → Type 0
IsOutcome j path resolved before (after, ok r) =
    (resolved ≡ ok r.revoked_token_id)
    × IsTold j path before.disk after.disk after.policy r.revoked_token_id
    × (r.persisted ≡ true)
    × (r.recorded_token_found ≡ is_some (with_token_id before.ledger (trim r.revoked_token_id)))
    × IsMarked after.ledger (trim r.revoked_token_id)
IsOutcome j path resolved before (after, err (ledger_failed statement_failed)) =
    ((id : String) × (resolved ≡ ok id) × IsTold j path before.disk after.disk after.policy id)
    × (after.ledger ≡ before.ledger)
    × ((before.ledger_faults.select_fails ≡ true) ⊎ (before.ledger_faults.update_fails ≡ true))
IsOutcome j path resolved before (after, err e) = after ≡ before

module _ (faults : Faults) (rows : List IssuedTokenRow) (now_iso id : String)
    (reason : Option String) (kept : is_blank (trim id) ≡ false) where
  mark_unread :
      faults.select_fails ≡ true
      → mark_token_revoked faults rows now_iso id reason none ≡ (rows, err statement_failed)
  unfolding mark_token_revoked
  mark_unread fails = rw (kept, fails) refl

  mark_read :
      faults.select_fails ≡ false
      → mark_token_revoked faults rows now_iso id reason none
        ≡ mark_existing faults rows (trim id) reason now_iso (with_token_id rows (trim id))
  unfolding mark_token_revoked
  mark_read reads = rw (kept, reads) refl

pub usable_again :
    (path : Option String) (p : String) → usable path ≡ some p → usable (some p) ≡ some p
usable_again none p h = absurd (none-ne-some _ h)
usable_again (some String.[]) p h = absurd (none-ne-some _ h)
usable_again (some (String.◌∷◌ c s)) p h =
    subst (λ q. usable (some q) ≡ some q) (some-injective _ _ h) refl

pub usable_path : (path : Option String) (p : String) → usable path ≡ some p → path ≡ some p
usable_path none p h = h
usable_path (some String.[]) p h = absurd (none-ne-some _ h)
usable_path (some (String.◌∷◌ c s)) p h = h

module _ (j : Json) (path : Option String) (resolved : Result ControlError String)
    (before : Services) (request : RevokeActorTokenControlRequest) (now_iso id : String)
    (names : resolved ≡ ok id) where
  -- The ledger's part, once policy and file hold the id.
  module _ (disk : Disk) (policy : Policy) (told : IsTold j path before.disk disk policy id)
      (r : RevokeIssuedTokenResult) (written : r.persisted ≡ true) where
    existing-IsOutcome :
        (existing : Option IssuedTokenRow)
        → with_token_id before.ledger (trim id) ≡ existing
        → IsOutcome j path resolved before (
            in_ledger
              (record before { disk = disk; policy = policy })
              request
              id
              r
              (mark_existing before.ledger_faults before.ledger
                (trim id)
                request.reason
                now_iso
                existing))
    existing-IsOutcome none e =
        (names, told, written, rw e refl, λ row h. absurd (none-ne-some _ (sym e ∙ h)))
    existing-IsOutcome (some row) e = elim (Bool-cases (is_some (present row.revoked_at))) [
      | inl already ↦ rw already (
        names,
        told,
        written,
        rw e refl,
        λ found h.
            subst (λ x. is_some x.revoked_at ≡ true) (some-injective _ _ (sym e ∙ h))
              (present-is_some row.revoked_at already),
      )
      | inr first ↦ elim (Bool-cases before.ledger_faults.update_fails) [
        | inl fails ↦ rw (first, fails) ((id, names, told), refl, inr refl)
        | inr writes ↦
            rw (first, writes)
              (
                names,
                told,
                written,
                rw e refl,
                λ found h.
                    find-Marked (map (set_revoked now_iso request.reason (trim id)) before.ledger)
                      (trim id) (set_revoked-Marked now_iso request.reason (trim id) before.ledger)
                      h,
              )
      ]
    ]

    marked-IsOutcome :
        is_blank (trim id) ≡ false
        → IsOutcome j path resolved before (
            in_ledger
              (record before { disk = disk; policy = policy })
              request
              id
              r
              (mark_token_revoked before.ledger_faults before.ledger now_iso id request.reason
                none))
    marked-IsOutcome kept = elim (Bool-cases before.ledger_faults.select_fails) [
      | inl fails ↦
          rw (mark_unread before.ledger_faults before.ledger now_iso id request.reason kept fails)
            ((id, names, told), refl, inl fails)
      | inr reads ↦
          rw (mark_read before.ledger_faults before.ledger now_iso id request.reason kept reads)
            (existing-IsOutcome (with_token_id before.ledger (trim id)) refl)
    ]

  policy-IsOutcome :
      (p : String) (ids : List String) (already : Bool)
      → path ≡ some p
      → includes ids (trim id) ≡ true
      → is_blank (trim id) ≡ false
      → IsOutcome j path resolved before (
          in_policy
            (record before { disk = write_file before.disk p (j.print ids) })
            request
            now_iso
            id
            (record { token_id = trim id; already_revoked = already; persisted = true })
            (revoke_issued_token_id before.policy id))
  unfolding revoke_issued_token_id is_token_revoked
  policy-IsOutcome p ids already at listed kept =
      let revoked = before.policy.revoked_issued_token_ids in
      let known : includes (set_add revoked (trim id)) (trim id) ≡ true =
        ground (arith, includes-set_add revoked (trim id) (trim id), ==_refl (trim id)) in
      let policy = record (before.policy) {
        revoked_issued_token_ids = set_add revoked (trim id);
      } in
      rw kept (
        marked-IsOutcome (write_file before.disk p (j.print ids)) policy
          (rw known refl, (p, ids, at, refl, listed))
          (record { token_id = trim id; already_revoked = already; persisted = true }) refl kept)

  persisted-IsOutcome :
      (store : FileStore) (already : Bool) (p : String)
      → path ≡ some p
      → includes store.revoked_token_ids (trim id) ≡ true
      → is_blank (trim id) ≡ false
      → IsOutcome j path resolved before (
          in_file before request now_iso id (
            finish_revocation before.disk store
              (trim id)
              already
              (persist_at j before.disk store (some p))))
  unfolding persist_at
  persisted-IsOutcome store already p at held kept =
      elim (Bool-cases (before.disk.rejects_write p)) [
        | inl rejected ↦ rw rejected refl
        | inr written ↦ rw written (
            policy-IsOutcome p (list_revoked_token_ids store) already at
              (includes-list store (trim id) ∙ held) kept)
      ]

  pub file-IsOutcome :
      (store : FileStore) (p : String)
      → path ≡ some p
      → usable store.file_path ≡ some p
      → IsOutcome j path resolved before
          (in_file before request now_iso id (revoke_token_id j before.disk store id))
  unfolding revoke_token_id persist
  file-IsOutcome store p at file = elim (Bool-cases (is_blank (trim id))) [
    | inl blank ↦ rw blank refl
    | inr kept ↦
        let ids = store.revoked_token_ids in
        let held : includes (set_add ids (trim id)) (trim id) ≡ true =
          ground (arith, includes-set_add ids (trim id) (trim id), ==_refl (trim id)) in
        rw (kept, file)
          (persisted-IsOutcome (with_id store (trim id)) (includes ids (trim id)) p at held kept)
  ]
