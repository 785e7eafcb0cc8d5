-- ===== src/Revocation/Table.antt =====
-- packages/infrastructure/src/sqlite/sqlite-revocation-store.ts
-- The table is a list of rows, and a statement that SQLite runs is a function of it: a `SELECT` by
-- the key, an `INSERT` at the end, a listing in the order of the keys.
use multi_agent_brain.Common.{
  String, ◌≡◌, refl, sym, ap, ◌∙◌, inl, inr, Bool, true, false, ◌||◌, Option, List, [], ◌∷◌, ◌++◌,
  map, arith, string_eq, ◌==◌, ==_iff, ==_refl, not, includes, Bool-cases, if◌then◌else◌,
}
use multi_agent_brain.Common.Text.{trim, is_blank}
use multi_agent_brain.Common.Results.{Result, ok, err}
use multi_agent_brain.Common.Maps.{includes-append_one}
use multi_agent_brain.Common.Sets.{Distinct, Distinct-append_one}
use multi_agent_brain.Common.Sort.{sort_by, binary_le}
use multi_agent_brain.Revocation.Store.{
  Json, Disk, StoreError, token_id_required, write_failed, FileStore, RevokeIssuedTokenResult,
}
use multi_agent_brain.Revocation.Store.{
  revoke_token_id as revoke_in_file, list_revoked_token_ids as list_of_file,
}
use multi_agent_brain.Revocation.Store.Laws.{Answers, includes-list, revoke_token_id-adds}

pub record RevocationRow : Type 0 where
  pub token_id : String
  pub revoked_at : String
  pub reason : Option String

abbrev pub token_ids : List RevocationRow → List String
token_ids rows = map (λ row. row.token_id) rows

-- `now` is `new Date().toISOString()`.
unfoldable pub revoke_token_id :
    List RevocationRow
    → String
    → String
    → Option String
    → List RevocationRow × Result StoreError RevokeIssuedTokenResult
revoke_token_id rows now token_id reason =
    let normalized = trim token_id in
    let row : RevocationRow = record { token_id = normalized; revoked_at = now; reason = reason } in
    if is_blank normalized
    then (rows, err token_id_required)
    else if includes (token_ids rows) normalized
    then (rows, ok (record { token_id = normalized; already_revoked = true; persisted = true }))
    else (
      rows ++ row ∷ [],
      ok (record { token_id = normalized; already_revoked = false; persisted = true }),
    )

unfoldable pub is_token_revoked : List RevocationRow → String → Bool
is_token_revoked rows token_id =
    let normalized = trim token_id in
    if is_blank normalized then false else includes (token_ids rows) normalized

unfoldable pub list_revoked_token_ids : List RevocationRow → List String
unfolding sort_by binary_le
list_revoked_token_ids rows = sort_by binary_le (token_ids rows)

-- The file store and the table hold the same ids.
abbrev pub Agree : FileStore → List RevocationRow → Type 0
Agree s rows = (x : String) → includes s.revoked_token_ids x ≡ includes (token_ids rows) x

-- The two answers name the same id and agree on whether it was there, or are the same error; only
-- the file store has a write that fails.
abbrev pub SameAnswer :
    Result StoreError RevokeIssuedTokenResult → Result StoreError RevokeIssuedTokenResult → Type 0
SameAnswer (ok r) (ok t) = (r.token_id ≡ t.token_id) × (r.already_revoked ≡ t.already_revoked)
SameAnswer (err thrown) (ok t) = thrown ≡ write_failed
SameAnswer (err thrown) (err refused) = thrown ≡ refused
SameAnswer (ok r) (err refused) = ⊥

token_ids-append :
    (rows : List RevocationRow) (row : RevocationRow)
    → token_ids (rows ++ row ∷ []) ≡ token_ids rows ++ row.token_id ∷ []
token_ids-append [] row = refl
token_ids-append (r ∷ rows) row = rw (token_ids-append rows row)

inserted :
    (rows : List RevocationRow) (now id : String) (reason : Option String) (x : String)
    → is_blank (trim id) ≡ false
    → includes (token_ids (revoke_token_id rows now id reason).0) x
      ≡ (includes (token_ids rows) x || trim id == x)
unfolding revoke_token_id
inserted rows now id reason x kept = elim (Bool-cases (includes (token_ids rows) (trim id))) [
  | inl old ↦
      rw (kept, old)
        (elim (Bool-cases (trim id == x)) [
          | inl same ↦ rw (same, ← ((==_iff (trim id) x).0 same), old)
          | inr other ↦ rw other (ground arith)
        ])
  | inr new ↦
      rw (kept, new)
        (rw
          (token_ids-append rows (record { token_id = trim id; revoked_at = now; reason = reason }))
          (includes-append_one (token_ids rows) (trim id) x))
]

-- A revocation keeps the table's key unique.
revoke-Distinct :
    (rows : List RevocationRow) (now id : String) (reason : Option String)
    → Distinct (token_ids rows)
    → Distinct (token_ids (revoke_token_id rows now id reason).0)
unfolding revoke_token_id
revoke-Distinct rows now id reason d = elim (Bool-cases (is_blank (trim id))) [
  | inl blank ↦ rw blank d
  | inr kept ↦ elim (Bool-cases (includes (token_ids rows) (trim id))) [
    | inl old ↦ rw (kept, old) d
    | inr new ↦
        rw (kept, new)
          (rw
            (token_ids-append rows
              (record { token_id = trim id; revoked_at = now; reason = reason }))
            (Distinct-append_one (token_ids rows) (trim id) new d))
  ]
]

blank_refused :
    (rows : List RevocationRow) (now id : String) (reason : Option String)
    → is_blank (trim id) ≡ true
    → revoke_token_id rows now id reason ≡ (rows, err token_id_required)
unfolding revoke_token_id
blank_refused rows now id reason blank = rw blank

same_answer :
    (j : Json) (d : Disk) (s : FileStore) (rows : List RevocationRow) (now id : String)
    (reason : Option String)
    → Agree s rows
    → is_blank (trim id) ≡ false
    → (r : Result StoreError RevokeIssuedTokenResult) → Answers s id r
    → SameAnswer r (revoke_token_id rows now id reason).1
unfolding revoke_token_id
same_answer j d s rows now id reason agree kept r a =
    elim (Bool-cases (includes (token_ids rows) (trim id))) [
      | inl old ↦
          rw (kept, old) (answer r a true (includes-list s (trim id) ∙ agree (trim id) ∙ old))
      | inr new ↦
          rw (kept, new) (answer r a false (includes-list s (trim id) ∙ agree (trim id) ∙ new))
    ]
  where
    answer :
        (r : Result StoreError RevokeIssuedTokenResult)
        → Answers s id r
        → (already : Bool) → includes (list_of_file s) (trim id) ≡ already
        → SameAnswer r
            (ok (record { token_id = trim id; already_revoked = already; persisted = true }))
    answer (err thrown) a already known = a
    answer (ok t) (named, before) already known = (named, before ∙ known)

-- The file store and the table implement the same set: where they hold the same ids, then after both
-- revoke an id, whatever the disk does, they hold the same ids again, and their answers agree. The
-- table says that the id is revoked, unless it is blank, and its key stays unique.
pub file_and_table-Agree :
    (j : Json) (d : Disk) (s : FileStore) (rows : List RevocationRow) (now id : String)
    (reason : Option String)
    → Agree s rows
    → Distinct (token_ids rows)
    → let in_file = revoke_in_file j d s id in
      let in_table = revoke_token_id rows now id reason in
      Agree in_file.0 in_table.0
      × Distinct (token_ids in_table.0)
      × SameAnswer in_file.2 in_table.1
      × (is_token_revoked in_table.0 id ≡ not (is_blank (trim id)))
unfolding is_token_revoked
file_and_table-Agree j d s rows now id reason agree once =
    let (refused, adds) = revoke_token_id-adds j d s id in
    elim (Bool-cases (is_blank (trim id))) [
      | inl blank ↦
          rw (refused blank, blank_refused rows now id reason blank)
            ((agree, once, refl, rw blank refl))
      | inr kept ↦
          let (members, path, answers) = adds kept in
          (
            λ x.
                sym (includes-list _ x)
                ∙ members x
                ∙ ap (λ b. b || trim id == x) (includes-list s x ∙ agree x)
                ∙ sym (inserted rows now id reason x kept),
            revoke-Distinct rows now id reason once,
            same_answer j d s rows now id reason agree kept _ answers,
            rw kept
                (inserted rows now id reason (trim id) kept ∙ ground (arith, ==_refl (trim id))),
          )
    ]
