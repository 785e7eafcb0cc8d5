-- ===== src/Ledger/Laws.antt =====
-- The ledger keeps its key unique, and the counts of its summary add up.
use multi_agent_brain.Common.{
  ℕ, ◌+◌, String, ◌≡◌, refl, sym, ap, suc, or_else, ◌∙◌, subst, inl, inr, Option, none, some, List,
  [], ◌∷◌, ◌++◌, map, arith, string_eq, ◌==◌, includes, length, count, is_some, Bool-cases,
}
use multi_agent_brain.Common.Results.{ok, Result-cases, err≢ok, ok-injective}
use multi_agent_brain.Common.Text.{trim, trimmed, is_blank}
use multi_agent_brain.Common.Sets.{Distinct, Distinct-append_one}
use multi_agent_brain.Auth.Platform.{Platform, IssuedActorTokenClaims}
use multi_agent_brain.Ledger.{
  Faults, ArrayJson, IssuedTokenRow, IssuedTokenLifecycleRecord, IssuedTokenLifecycleSummary,
  active, future, expired, revoked, has_status, map_issued_token_row, map_rows, with_token_id,
  row_of, record_at, record_issued_token, set_revoked, mark_existing, present, mark_token_revoked,
  normalize_evaluation_time, get_issued_token_summary,
}

abbrev pub ids_of : List IssuedTokenRow → List String
ids_of rows = map (λ row. row.token_id) rows

status_partition :
    (records : List IssuedTokenLifecycleRecord)
    → length records
      ≡ count (has_status active) records
        + count (has_status future) records
        + count (has_status expired) records
        + count (has_status revoked) records
status_partition [] = omega arith
status_partition (r ∷ records) = ground (arith, status_partition records)

pub length-map_rows :
    (pf : Platform) (j : ArrayJson) (t : ℕ) (rows : List IssuedTokenRow)
    {records : List IssuedTokenLifecycleRecord}
    → map_rows pf j t rows ≡ ok records
    → length records ≡ length rows
unfolding map_rows
length-map_rows pf j t [] h = rw (← ok-injective h) refl
length-map_rows pf j t (row ∷ rows) h = elim (Result-cases (map_issued_token_row pf j t row)) [
  | inr (thrown, e) ↦ absurd (err≢ok (rw e at h))
  | inl (first, e) ↦ elim (Result-cases (map_rows pf j t rows)) [
    | inr (thrown, k) ↦ absurd (err≢ok (rw (e, k) at h))
    | inl (rest, k) ↦ rw (← ok-injective (rw (e, k) at h)) (ap suc (length-map_rows pf j t rows k))
  ]
]

includes-ids :
    (rows : List IssuedTokenRow) (id : String)
    → includes (ids_of rows) id ≡ is_some (with_token_id rows id)
includes-ids [] id = refl
includes-ids (row ∷ rows) id = ground (arith, includes-ids rows id)

id-set_revoked :
    (at : String) (reason : Option String) (id : String) (row : IssuedTokenRow)
    → (set_revoked at reason id row).token_id ≡ row.token_id
id-set_revoked at reason id row = elim (Bool-cases (row.token_id == id)) [
  | inl same ↦ rw same refl
  | inr other ↦ rw other refl
]

ids-set_revoked :
    (at : String) (reason : Option String) (id : String) (rows : List IssuedTokenRow)
    → ids_of (map (set_revoked at reason id) rows) ≡ ids_of rows
ids-set_revoked at reason id [] = refl
ids-set_revoked at reason id (row ∷ rows) =
    rw (ids-set_revoked at reason id rows)
      (ap (λ x. x ∷ ids_of rows) (id-set_revoked at reason id row))

ids-append :
    (rows : List IssuedTokenRow) (row : IssuedTokenRow)
    → ids_of (rows ++ row ∷ []) ≡ ids_of rows ++ row.token_id ∷ []
ids-append [] row = refl
ids-append (r ∷ rows) row = rw (ids-append rows row)

-- Recording a token keeps the ids of the table unique.
record-Distinct :
    (j : ArrayJson) (rows : List IssuedTokenRow) (claims : IssuedActorTokenClaims)
    (id : Option String)
    → Distinct (ids_of rows)
    → Distinct (ids_of (record_at j rows claims id).0)
unfolding record_at
record-Distinct j rows claims none once = once
record-Distinct j rows claims (some id) once = elim (Bool-cases (is_some (with_token_id rows id))) [
  | inl old ↦ rw old once
  | inr new ↦ rw new (
      rw (ids-append rows (row_of j id claims))
        (Distinct-append_one (ids_of rows) id (includes-ids rows id ∙ new) once))
]

mark-ids :
    (faults : Faults) (rows : List IssuedTokenRow) (now id : String) (reason at : Option String)
    → ids_of (mark_token_revoked faults rows now id reason at).0 ≡ ids_of rows
unfolding mark_token_revoked
mark-ids faults rows now id reason at = elim (Bool-cases (is_blank (trim id))) [
  | inl blank ↦ rw blank refl
  | inr kept ↦ elim (Bool-cases faults.select_fails) [
    | inl fails ↦ rw (kept, fails) refl
    | inr reads ↦ rw (kept, reads) (existing_ids (with_token_id rows (trim id)))
  ]
]
  where
    existing_ids :
        (existing : Option IssuedTokenRow)
        → ids_of (mark_existing faults rows (trim id) reason (or_else at now) existing).0
          ≡ ids_of rows
    existing_ids none = refl
    existing_ids (some row) = elim (Bool-cases (is_some (present row.revoked_at))) [
      | inl already ↦ rw already refl
      | inr first ↦ elim (Bool-cases faults.update_fails) [
        | inl fails ↦ rw (first, fails) refl
        | inr writes ↦ rw (first, writes) (ids-set_revoked (or_else at now) reason (trim id) rows)
      ]
    ]

-- The tables that records and revocations reach from an empty one.
pub data Reached (j : ArrayJson) : List IssuedTokenRow → Type 0 where
  empty : Reached j []
  recorded :
      {rows : List IssuedTokenRow} (claims : IssuedActorTokenClaims)
      → Reached j rows
      → Reached j (record_issued_token j rows claims).0
  marked :
      {rows : List IssuedTokenRow} (faults : Faults) (now id : String) (reason at : Option String)
      → Reached j rows
      → Reached j (mark_token_revoked faults rows now id reason at).0

-- In every table that records and revocations reach, no token id stands twice.
pub Reached-Distinct :
    (j : ArrayJson) (rows : List IssuedTokenRow) → Reached j rows → Distinct (ids_of rows)
unfolding record_issued_token
Reached-Distinct j _ empty = tt
Reached-Distinct j _ (recorded {rows} claims before) =
    record-Distinct j rows claims (trimmed claims.token_id) (Reached-Distinct j rows before)
Reached-Distinct j _ (marked {rows} faults now id reason at before) =
    subst Distinct (sym (mark-ids faults rows now id reason at)) (Reached-Distinct j rows before)

-- A summary that is returned counts every row of the table once: its total is the number of rows and
-- the sum of the active, the future, the expired and the revoked tokens.
pub issued_token_summary_adds_up :
    (pf : Platform) (j : ArrayJson) (now : String) (rows : List IssuedTokenRow)
    (as_of : Option String) {s : IssuedTokenLifecycleSummary}
    → get_issued_token_summary pf j now rows as_of ≡ ok s
    → (s.total ≡ length rows) × (s.total ≡ s.active + s.future + s.expired + s.revoked)
unfolding get_issued_token_summary
issued_token_summary_adds_up pf j now rows as_of {s} h =
    elim (Result-cases (normalize_evaluation_time pf (or_else as_of now))) [
      | inr (thrown, e) ↦ absurd (err≢ok (rw e at h))
      | inl (t, e) ↦ elim (Result-cases (map_rows pf j t rows)) [
        | inr (thrown, k) ↦ absurd (err≢ok (rw (e, k) at h))
        | inl (records, k) ↦
            rw (← ok-injective (rw (e, k) at h))
              ((length-map_rows pf j t rows k, status_partition records))
      ]
    ]
