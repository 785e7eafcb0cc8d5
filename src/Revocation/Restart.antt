-- ===== src/Revocation/Restart.antt =====
-- The reading of revoked ids in packages/infrastructure/src/config/env.ts, and what a store, an
-- environment and a policy that start on the file of an earlier store know.
use multi_agent_brain.Common.{
  String, ◌≡◌, refl, sym, ap, ◌∙◌, inl, inr, Bool, true, false, false≢true, ◌||◌, Option, none,
  some, List, ◌++◌, arith, string_eq, ==_refl, includes, All, Bool-cases,
}
use multi_agent_brain.Common.Text.{trim, is_blank}
use multi_agent_brain.Common.Results.{ok, err≢ok, ok-injective}
use multi_agent_brain.Common.Maps.{includes-set_add, includes-to_set}
use multi_agent_brain.Auth.Policy.{trimmed_ids}
use multi_agent_brain.Revocation.Store.{
  contents, Disk, Json, FileStore, RevokeIssuedTokenResult, load_revoked_token_ids_from_path,
  load_if, usable, new_store, create, list_revoked_token_ids, write_file, persist_at, persist,
  finish_revocation, revoke_token_id, with_id,
}
use multi_agent_brain.Revocation.Store.Laws.{
  IsClean, IsTokenId, ReadsBack, includes-list, trim_entries-texts, filter_non_blank,
  trimmed_ids-append, trimmed_ids_of_clean, sort_texts-IsTokenId, list-IsTokenId,
  revoke_token_id-IsClean, revoked_store,
}

-- The file of the store holds its ids.
abbrev pub IsWritten : Json → Disk → FileStore → Option String → Type 0
IsWritten j d s path =
    (p : String) × (path ≡ some p) × (d.read_file p ≡ contents (j.print (list_revoked_token_ids s)))

finish-IsWritten :
    (j : Json) (d : Disk) (s : FileStore) (id : String) (already : Bool) (path : Option String)
    {s' : FileStore} {d' : Disk} {r : RevokeIssuedTokenResult}
    → finish_revocation d s id already (persist_at j d s path) ≡ (s', d', ok r)
    → r.persisted ≡ true
    → IsWritten j d' s' path
unfolding persist_at write_file
finish-IsWritten j d s id already none {s'} {d'} {r} h k =
    let answer : record { token_id = id; already_revoked = already; persisted = false } ≡ r =
      ok-injective (ap (λ t. t.2) h) in
    absurd (false≢true (ap (λ t. t.persisted) answer ∙ k))
finish-IsWritten j d s id already (some path) {s'} {d'} {r} h k =
    elim (Bool-cases (d.rejects_write path)) [
      | inl rejected ↦ absurd (err≢ok (ap (λ t. t.2) (rw rejected at h)))
      | inr written ↦
          let store : s ≡ s' = ap (λ t. t.0) (rw written at h) in
          let disk : write_file d path (j.print (list_revoked_token_ids s)) ≡ d' =
            ap (λ t. t.1) (rw written at h) in
          (path, refl, rw (← store, ← disk, ==_refl path) refl)
    ]

pub revoke-IsWritten :
    (j : Json) (d : Disk) (s : FileStore) (id : String) {s' : FileStore} {d' : Disk}
    {r : RevokeIssuedTokenResult}
    → revoke_token_id j d s id ≡ (s', d', ok r)
    → r.persisted ≡ true
    → IsWritten j d' s' (usable s.file_path)
unfolding revoke_token_id persist
revoke-IsWritten j d s id h k = elim (Bool-cases (is_blank (trim id))) [
  | inl blank ↦ absurd (err≢ok (ap (λ t. t.2) (rw blank at h)))
  | inr kept ↦
      finish-IsWritten j d (with_id s (trim id)) (trim id) (includes s.revoked_token_ids (trim id))
        (usable s.file_path) (rw kept at h) k
]

read_back :
    (j : Json) (d : Disk) (s : FileStore) (path : Option String)
    → ReadsBack j (list_revoked_token_ids s)
    → All IsTokenId s.revoked_token_ids
    → IsWritten j d s path
    → load_if j d path ≡ ok (list_revoked_token_ids s)
unfolding load_if load_revoked_token_ids_from_path list_revoked_token_ids
read_back j d s path back ids (p, named, written) =
    let sorted = sort_texts-IsTokenId s.revoked_token_ids ids in
    rw (
      named,
      written,
      back,
      trim_entries-texts (list_revoked_token_ids s) sorted,
      filter_non_blank (list_revoked_token_ids s) sorted,
    )

-- After a revocation that was written to the file, a store that is created on that file, with any
-- initial ids, holds exactly the ids of the earlier store and the initial ones, trimmed.
-- Assumed: JSON reads back what was written, and the earlier store's ids are clean.
pub revocation_survives_restart :
    (j : Json) (d : Disk) (s : FileStore) (id : String) (initial : List String) {s' : FileStore}
    {d' : Disk} {r : RevokeIssuedTokenResult}
    → ReadsBack j (list_revoked_token_ids s')
    → IsClean s.revoked_token_ids
    → revoke_token_id j d s id ≡ (s', d', ok r)
    → r.persisted ≡ true
    → (t : FileStore) × (create j d' s.file_path initial ≡ ok t)
      × ((x : String)
          → includes t.revoked_token_ids x
            ≡ (includes s'.revoked_token_ids x || includes (trimmed_ids initial) x))
unfolding create new_store
revocation_survives_restart j d s id initial {s'} {d'} {r} back clean h k =
    let (ids, once) = rw h at (revoke_token_id-IsClean j d s id clean) in
    let loaded = read_back j d' s' (usable s.file_path) back ids (revoke-IsWritten j d s id h k) in
    (
      new_store s.file_path (list_revoked_token_ids s' ++ initial),
      rw loaded refl,
      λ x.
          rw
            (
              includes-to_set (trimmed_ids (list_revoked_token_ids s' ++ initial)) x,
              trimmed_ids-append (list_revoked_token_ids s') initial x,
              trimmed_ids_of_clean (list_revoked_token_ids s') (list-IsTokenId s' ids),
              includes-list s' x,
            )
            refl,
    )

pub revoked-known :
    (j : Json) (d : Disk) (s : FileStore) (id : String) {s' : FileStore} {d' : Disk}
    {r : RevokeIssuedTokenResult}
    → revoke_token_id j d s id ≡ (s', d', ok r)
    → includes s'.revoked_token_ids (trim id) ≡ true
unfolding revoke_token_id
revoked-known j d s id {s'} h = elim (Bool-cases (is_blank (trim id))) [
  | inl blank ↦ absurd (err≢ok (ap (λ t. t.2) (rw blank at h)))
  | inr kept ↦
      let store : with_id s (trim id) ≡ s' =
        sym (revoked_store d _ _ _ _) ∙ ap (λ t. t.0) (rw kept at h) in
      let known = includes-set_add s.revoked_token_ids (trim id) (trim id) in
      rw (← store) (ground (arith, known, ==_refl (trim id)))
]
