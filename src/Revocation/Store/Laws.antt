-- ===== src/Revocation/Store/Laws.antt =====
-- What the file store keeps: trimmed ids, each once, and what a new store reads back.
use multi_agent_brain.Common.{
  String, ◌≡◌, refl, sym, subst, ◌∙◌, inl, inr, Bool, true, false, not, ◌||◌, Option, none, some,
  List, [], ◌∷◌, ◌++◌, map, arith, string_eq, ◌==◌, includes, filter, All, Bool-cases,
}
use multi_agent_brain.Common.Text.{trim, is_blank, trim_idem}
use multi_agent_brain.Common.Results.{Result, ok, err, Result-cases, ok-injective, err≢ok}
use multi_agent_brain.Common.Maps.{set_add, includes-set_add}
use multi_agent_brain.Common.Sets.{
  Distinct, to_set-Distinct, set_add-Distinct, to_set-All, set_add-All,
}
use multi_agent_brain.Common.Sort.{sort_texts, sort_by-All, includes-sort_by}
use multi_agent_brain.Auth.Policy.{trimmed_ids}
use multi_agent_brain.Revocation.Store.{
  Disk, text_entry, token_ids_object, Json, StoreError, FileStore, RevokeIssuedTokenResult,
  trim_entries, new_store, create, load_if, usable, finish_revocation, persist_at,
  list_revoked_token_ids, write_failed, token_id_required, persist, revoke_token_id, with_id,
}

-- The id is trimmed, and not blank.
abbrev pub IsTokenId : String → Type 0
IsTokenId id = (trim id ≡ id) × (is_blank id ≡ false)

-- The ids of a store are trimmed, none is blank, and none stands twice.
abbrev pub IsClean : List String → Type 0
IsClean ids = All IsTokenId ids × Distinct ids

pub trimmed_ids-IsTokenId : (ids : List String) → All IsTokenId (trimmed_ids ids)
unfolding trimmed_ids
trimmed_ids-IsTokenId [] = tt
trimmed_ids-IsTokenId (id ∷ ids) = elim (Bool-cases (is_blank (trim id))) [
  | inl blank ↦ rw blank (trimmed_ids-IsTokenId ids)
  | inr kept ↦ rw kept ((trim_idem id, kept), trimmed_ids-IsTokenId ids)
]

pub new_store-IsClean :
    (path : Option String) (ids : List String) → IsClean (new_store path ids).revoked_token_ids
unfolding new_store
new_store-IsClean path ids = (
  to_set-All IsTokenId (trimmed_ids ids) (trimmed_ids-IsTokenId ids),
  to_set-Distinct (trimmed_ids ids),
)

pub create-IsClean :
    (j : Json) (d : Disk) (path : Option String) (initial : List String) {s : FileStore}
    → create j d path initial ≡ ok s
    → IsClean s.revoked_token_ids
unfolding create
create-IsClean j d path initial {s} h = elim (Result-cases (load_if j d (usable path))) [
  | inl (ids, e) ↦
      let same : new_store path (ids ++ initial) ≡ s = ok-injective (rw e at h) in
      subst (λ t. IsClean t.revoked_token_ids) same (new_store-IsClean path (ids ++ initial))
  | inr (thrown, e) ↦ absurd (err≢ok (rw e at h))
]

pub revoked_store :
    (d : Disk) (s : FileStore) (id : String) (already : Bool) (r : Result StoreError (Disk × Bool))
    → (finish_revocation d s id already r).0 ≡ s
revoked_store d s id already (err e) = refl
revoked_store d s id already (ok written) = refl

pub revoke_token_id-IsClean :
    (j : Json) (d : Disk) (s : FileStore) (id : String)
    → IsClean s.revoked_token_ids
    → IsClean (revoke_token_id j d s id).0.revoked_token_ids
unfolding revoke_token_id
revoke_token_id-IsClean j d s id (ids, once) = elim (Bool-cases (is_blank (trim id))) [
  | inl blank ↦ rw blank ((ids, once))
  | inr kept ↦
      rw (kept, revoked_store d _ _ _ _)
        ((
          set_add-All IsTokenId s.revoked_token_ids (trim id) (trim_idem id, kept) ids,
          set_add-Distinct s.revoked_token_ids (trim id) once,
        ))
]

pub includes-list :
    (s : FileStore) (x : String)
    → includes (list_revoked_token_ids s) x ≡ includes s.revoked_token_ids x
unfolding list_revoked_token_ids sort_texts
includes-list s x = includes-sort_by _ s.revoked_token_ids x

pub trim_entries-texts :
    (ids : List String) → All IsTokenId ids → trim_entries (map text_entry ids) ≡ ok ids
unfolding trim_entries
trim_entries-texts [] h = refl
trim_entries-texts (id ∷ ids) ((trimmed, kept), h) = rw (trimmed, kept, trim_entries-texts ids h)

pub filter_non_blank :
    (ids : List String) → All IsTokenId ids → filter (λ id. not (is_blank id)) ids ≡ ids
filter_non_blank [] h = refl
filter_non_blank (id ∷ ids) ((trimmed, kept), h) = rw (kept, filter_non_blank ids h)

pub trimmed_ids-append :
    (xs ys : List String) (x : String)
    → includes (trimmed_ids (xs ++ ys)) x
      ≡ (includes (trimmed_ids xs) x || includes (trimmed_ids ys) x)
unfolding trimmed_ids
trimmed_ids-append [] ys x = refl
trimmed_ids-append (id ∷ xs) ys x = ground (arith, trimmed_ids-append xs ys x)

pub trimmed_ids_of_clean : (ids : List String) → All IsTokenId ids → trimmed_ids ids ≡ ids
unfolding trimmed_ids
trimmed_ids_of_clean [] h = refl
trimmed_ids_of_clean (id ∷ ids) ((trimmed, kept), h) =
    rw (trimmed, kept, trimmed_ids_of_clean ids h)

pub sort_texts-IsTokenId : (ids : List String) → All IsTokenId ids → All IsTokenId (sort_texts ids)
unfolding sort_texts
sort_texts-IsTokenId ids h = sort_by-All _ IsTokenId ids h

-- The answer of a revocation: which id, whether it was there, and what the write did.
abbrev pub Answers : FileStore → String → Result StoreError RevokeIssuedTokenResult → Type 0
Answers s id (err thrown) = thrown ≡ write_failed
Answers s id (ok r) =
    (r.token_id ≡ trim id) × (r.already_revoked ≡ includes (list_revoked_token_ids s) (trim id))

revoked_answer :
    (j : Json) (d : Disk) (s added : FileStore) (id : String) (path : Option String)
    → Answers s id
        (finish_revocation d added
          (trim id)
          (includes s.revoked_token_ids (trim id))
          (persist_at j d added path)).2
unfolding persist_at
revoked_answer j d s added id none = (refl, sym (includes-list s (trim id)))
revoked_answer j d s added id (some path) = elim (Bool-cases (d.rejects_write path)) [
  | inl rejected ↦ rw rejected refl
  | inr written ↦ rw written ((refl, sym (includes-list s (trim id))))
]

-- Revoking an id that is not blank adds the trimmed id to the store's list and nothing else,
-- whatever the disk does. The answer names that id and says whether the list had it, and the only
-- error is a write that failed. A blank id is an error that changes neither the store nor the disk.
pub revoke_token_id-adds :
    (j : Json) (d : Disk) (s : FileStore) (id : String)
    → let outcome = revoke_token_id j d s id in
      (is_blank (trim id) ≡ true → outcome ≡ (s, d, err token_id_required))
      × (is_blank (trim id) ≡ false
          → ((x : String)
              → includes (list_revoked_token_ids outcome.0) x
                ≡ (includes (list_revoked_token_ids s) x || trim id == x))
            × (outcome.0.file_path ≡ s.file_path)
            × Answers s id outcome.2)
unfolding revoke_token_id persist
revoke_token_id-adds j d s id = (
  λ blank. rw blank refl,
  λ kept. (
    λ x.
        rw (kept, revoked_store d _ _ _ _, includes-list s x)
          (includes-sort_by _ (set_add s.revoked_token_ids (trim id)) x
            ∙ includes-set_add s.revoked_token_ids (trim id) x),
    rw (kept, revoked_store d _ _ _ _) refl,
    rw kept (revoked_answer j d s (with_id s (trim id)) id (usable s.file_path)),
  ),
)

-- `JSON.parse` reads back the object with these ids that was written.
abbrev pub ReadsBack : Json → List String → Type 0
ReadsBack j ids = j.parse (j.print ids) ≡ some (token_ids_object (map text_entry ids))

-- The stores that a process can have: it creates one, and revokes.
pub data Reached (j : Json) : FileStore → Type 0 where
  created :
      {s : FileStore} (d : Disk) (path : Option String) (initial : List String)
      → create j d path initial ≡ ok s
      → Reached j s
  revoking :
      {s : FileStore} (d : Disk) (id : String)
      → Reached j s
      → Reached j (revoke_token_id j d s id).0

-- In every store that creation and revocations reach, on whatever disks, the ids are trimmed, none
-- is blank and none stands twice.
pub Reached-IsClean : (j : Json) (s : FileStore) → Reached j s → IsClean s.revoked_token_ids
Reached-IsClean j s (created d path initial h) = create-IsClean j d path initial h
Reached-IsClean j _ (revoking {s} d id before) =
    revoke_token_id-IsClean j d s id (Reached-IsClean j s before)

pub list-IsTokenId :
    (s : FileStore) → All IsTokenId s.revoked_token_ids → All IsTokenId (list_revoked_token_ids s)
unfolding list_revoked_token_ids
list-IsTokenId s ids = sort_texts-IsTokenId s.revoked_token_ids ids
