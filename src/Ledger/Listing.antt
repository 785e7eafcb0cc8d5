-- ===== src/Ledger/Listing.antt =====
-- What a listing of the ledger returns, and what a revocation does to it.
pub mod Mapped
use multi_agent_brain.Common.{
  ℕ, zero, suc, ◌≤◌, String, ◌≡◌, ◌≢◌, refl, sym, ap, subst, ◌∙◌, inl, inr, Bool, true, false, not,
  ◌||◌, false≢true, Option, none, some, List, [], ◌∷◌, map, arith, string_eq, ◌==◌, ==_iff, ==_eq,
  and-eq-true, includes, length, take, filter, is_some, or_else, All, ltb, Bool-cases,
}
use mathlib.Core.Option.{some-injective, none-ne-some}
use multi_agent_brain.Common.Results.{ok, Result-cases, err≢ok, ok-injective}
use multi_agent_brain.Common.Text.{trim, trimmed, is_blank}
use multi_agent_brain.Common.Sets.{Distinct}
use multi_agent_brain.Common.Sort.{sort_by, sort_by-All}
use multi_agent_brain.Auth.Platform.{Platform}
use multi_agent_brain.Ledger.{
  Faults, ArrayJson, IssuedTokenRow, IssuedTokenLifecycleRecord, ListIssuedTokenOptions,
  MarkIssuedTokenRevokedResult, TokenLifecycleStatus, revoked, has_status, is_status, of_actor,
  window_status, optional_instant, present, parse_json_array, derive_lifecycle_status,
  map_issued_token_row, map_rows, with_token_id, set_revoked, mark_existing, mark_token_revoked,
  where_clause, row_le, limited, normalize_evaluation_time, list_issued_tokens,
}
use multi_agent_brain.Common.Members.{length-take_le}
use multi_agent_brain.Ledger.Laws.{ids_of, length-map_rows}
unfoldable pub use Mapped.*

abbrev pub IsOf : Option String → String → Type 0
IsOf none actor_id = Unit
IsOf (some id) actor_id = actor_id ≡ id

-- A record that the options ask for: of the actor, where one is named, and not revoked, unless
-- revoked tokens are included.
abbrev pub Asked : ListIssuedTokenOptions → IssuedTokenLifecycleRecord → Type 0
Asked options r =
    IsOf (trimmed options.actor_id) r.actor_id
    × (or_else options.include_revoked false ≡ false
        → (r.revoked_at ≡ none) × (has_status revoked r ≡ false))

abbrev pub Within : Option ℕ → ℕ → Type 0
Within none n = Unit
Within (some limit) n = ltb 0 limit ≡ true → n ≤ limit

of_actor-IsOf :
    (named : Option String) (actor_id : String)
    → of_actor named actor_id ≡ true
    → IsOf named actor_id
of_actor-IsOf none actor_id h = tt
of_actor-IsOf (some id) actor_id h = ==_eq h

absent_of_not : (o : Option String) → not (is_some o) ≡ true → o ≡ none
absent_of_not none h = refl
absent_of_not (some s) h = absurd (false≢true h)

window_unrevoked :
    (from until : Option ℕ) (t : ℕ) → is_status revoked (window_status from until t) ≡ false
window_unrevoked none none t = refl
window_unrevoked none (some u) t = ground arith
window_unrevoked (some f) none t = ground arith
window_unrevoked (some f) (some u) t = ground arith

unrevoked_status :
    (pf : Platform) (row : IssuedTokenRow) (t : ℕ) {status : TokenLifecycleStatus}
    → row.revoked_at ≡ none
    → derive_lifecycle_status pf row t ≡ ok status
    → is_status revoked status ≡ false
unfolding derive_lifecycle_status
unrevoked_status pf row t {status} h k =
    let l = rw h at k in
    elim (Result-cases (optional_instant pf (present row.valid_from))) [
      | inr (thrown, e) ↦ absurd (err≢ok (rw e at l))
      | inl (from, e) ↦ elim (Result-cases (optional_instant pf (present row.valid_until))) [
        | inr (thrown, f) ↦ absurd (err≢ok (rw (e, f) at l))
        | inl (until, f) ↦ rw (← ok-injective (rw (e, f) at l)) (window_unrevoked from until t)
      ]
    ]

where_clause-Asked :
    (pf : Platform) (j : ArrayJson) (t : ℕ) (options : ListIssuedTokenOptions)
    (row : IssuedTokenRow) (r : IssuedTokenLifecycleRecord)
    → where_clause options row ≡ true
    → map_issued_token_row pf j t row ≡ ok r
    → Asked options r
unfolding where_clause derive_lifecycle_status
where_clause-Asked pf j t options row r h m =
    let (of, shown) = and-eq-true _ _ h in
    let ((id, actor, at), status) = mapped-Keeps pf j t row m in
    (
      rw actor (of_actor-IsOf (trimmed options.actor_id) row.actor_id of),
      λ excluded.
          let absent = absent_of_not row.revoked_at (rw excluded at shown) in
          (at ∙ absent, unrevoked_status pf row t absent status),
    )

length-limited :
    {A : Type 0} (limit : Option ℕ) (xs : List A) → Within limit (length (limited limit xs))
length-limited none xs = tt
length-limited (some n) xs = λ positive. rw positive (length-take_le n xs)

All-rows : (rows : List IssuedTokenRow) → All (λ row. Unit {0}) rows
All-rows [] = tt
All-rows (row ∷ rows) = (tt, All-rows rows)

-- Every listing that is returned holds only records that the options ask for, and no more than the
-- limit where that is positive.
pub list_issued_tokens_sound :
    (pf : Platform) (j : ArrayJson) (now : String) (rows : List IssuedTokenRow)
    (options : ListIssuedTokenOptions) {records : List IssuedTokenLifecycleRecord}
    → list_issued_tokens pf j now rows options ≡ ok records
    → All (Asked options) records × Within options.limit (length records)
unfolding list_issued_tokens
list_issued_tokens_sound pf j now rows options {records} h =
    elim (Result-cases (normalize_evaluation_time pf (or_else options.as_of now))) [
      | inr (thrown, e) ↦ absurd (err≢ok (rw e at h))
      | inl (t, e) ↦
          let selected =
            limited options.limit (sort_by row_le (filter (where_clause options) rows)) in
          let mapped : map_rows pf j t selected ≡ ok records = rw e at h in
          let chosen = filter-All (λ row. Unit {0}) (where_clause options) rows (All-rows rows) in
          let kept =
            limited-All _ options.limit _
              (sort_by-All row_le _ (filter (where_clause options) rows) chosen) in
          (
            map_rows-All pf j t _ (Asked options)
                (λ row r (u, k) m. where_clause-Asked pf j t options row r k m) selected kept
                mapped,
            rw (length-map_rows pf j t selected mapped) (length-limited options.limit _),
          )
    ]

-- The row has its revocation on record, where it is the row of this id.
abbrev pub Marked : String → IssuedTokenRow → Type 0
Marked id row = (row.token_id == id) ≡ true → is_some row.revoked_at ≡ true

row-Marked :
    (at : String) (reason : Option String) (id : String) (row : IssuedTokenRow)
    → Marked id (set_revoked at reason id row)
row-Marked at reason id row = elim (Bool-cases (row.token_id == id)) [
  | inl same ↦ rw same (λ e. refl)
  | inr other ↦ rw other (λ e. absurd (false≢true (sym other ∙ e)))
]

pub set_revoked-Marked :
    (at : String) (reason : Option String) (id : String) (rows : List IssuedTokenRow)
    → All (Marked id) (map (set_revoked at reason id) rows)
set_revoked-Marked at reason id [] = tt
set_revoked-Marked at reason id (row ∷ rows) =
    (row-Marked at reason id row, set_revoked-Marked at reason id rows)

pub present-is_some : (o : Option String) → is_some (present o) ≡ true → is_some o ≡ true
present-is_some none h = h
present-is_some (some s) h = refl

others :
    (rows : List IssuedTokenRow) (id : String)
    → includes (ids_of rows) id ≡ false
    → All (Marked id) rows
others [] id h = tt
others (row ∷ rows) id h =
    (λ e. absurd (false≢true (ground (arith, h, e))), others rows id (ground (arith, h)))

-- The row that a `SELECT` by the key finds is the only one with that key.
only_found :
    (rows : List IssuedTokenRow) (id : String) {row : IssuedTokenRow}
    → Distinct (ids_of rows)
    → with_token_id rows id ≡ some row
    → is_some row.revoked_at ≡ true
    → All (Marked id) rows
only_found [] id once h k = tt
only_found (r ∷ rows) id {row} (new, once) h k = elim (Bool-cases (r.token_id == id)) [
  | inl same ↦
      let found : r ≡ row = some-injective _ _ (rw same at h) in
      (
        λ e. rw found k,
        others rows id (
            let e : r.token_id ≡ id = ==_eq same in
            subst (λ x. includes (ids_of rows) x ≡ false) e new),
      )
  | inr other ↦
      (λ e. absurd (false≢true (sym other ∙ e)), only_found rows id once (rw other at h) k)
]

mark-Marked :
    (faults : Faults) (rows : List IssuedTokenRow) (now id : String) (reason at : Option String)
    {rows' : List IssuedTokenRow} {r : MarkIssuedTokenRevokedResult}
    → Distinct (ids_of rows)
    → mark_token_revoked faults rows now id reason at ≡ (rows', ok r)
    → r.found ≡ true
    → All (Marked (trim id)) rows'
unfolding mark_token_revoked
mark-Marked faults rows now id reason at {rows'} {r} once h k =
    elim (Bool-cases (is_blank (trim id))) [
      | inl blank ↦ absurd (err≢ok (ap (λ p. p.1) (rw blank at h)))
      | inr kept ↦ elim (Bool-cases faults.select_fails) [
        | inl fails ↦ absurd (err≢ok (ap (λ p. p.1) (rw (kept, fails) at h)))
        | inr reads ↦ existing_marked (with_token_id rows (trim id)) refl (rw (kept, reads) at h)
      ]
    ]
  where
    existing_marked :
        (existing : Option IssuedTokenRow)
        → with_token_id rows (trim id) ≡ existing
        → mark_existing faults rows (trim id) reason (or_else at now) existing ≡ (rows', ok r)
        → All (Marked (trim id)) rows'
    existing_marked none e m =
        let answer : record {
          token_id = trim id;
          found = false;
          already_revoked = false;
          persisted = false;
        }
            ≡ r =
          ok-injective (ap (λ p. p.1) m) in
        absurd (false≢true (ap (λ t. t.found) answer ∙ k))
    existing_marked (some row) e m = elim (Bool-cases (is_some (present row.revoked_at))) [
      | inl already ↦
          let same : rows ≡ rows' = ap (λ p. p.0) (rw already at m) in
          subst (All (Marked (trim id))) same
            (only_found rows (trim id) once e (present-is_some row.revoked_at already))
      | inr first ↦ elim (Bool-cases faults.update_fails) [
        | inl fails ↦ absurd (err≢ok (ap (λ p. p.1) (rw (first, fails) at m)))
        | inr writes ↦
            let same : map (set_revoked (or_else at now) reason (trim id)) rows ≡ rows' =
              ap (λ p. p.0) (rw (first, writes) at m) in
            subst (All (Marked (trim id))) same
              (set_revoked-Marked (or_else at now) reason (trim id) rows)
      ]
    ]

pub find-Marked :
    (rows : List IssuedTokenRow) (id : String) {row : IssuedTokenRow}
    → All (Marked id) rows
    → with_token_id rows id ≡ some row
    → is_some row.revoked_at ≡ true
find-Marked [] id all h = absurd (none-ne-some _ h)
find-Marked (r ∷ rows) id {row} (m, all) h = elim (Bool-cases (r.token_id == id)) [
  | inl same ↦
      let found : r ≡ row = some-injective _ _ (rw same at h) in
      subst (λ x. is_some x.revoked_at ≡ true) found (m same)
  | inr other ↦ find-Marked rows id all (rw other at h)
]

shown_unrevoked :
    (options : ListIssuedTokenOptions) (row : IssuedTokenRow)
    → where_clause options row ≡ true
    → or_else options.include_revoked false ≡ false
    → row.revoked_at ≡ none
unfolding where_clause
shown_unrevoked options row shown left_out =
    let (of, unless) =
      and-eq-true (of_actor (trimmed options.actor_id) row.actor_id)
        (or_else options.include_revoked false || not (is_some row.revoked_at)) shown in
    absent_of_not row.revoked_at (rw left_out at unless)

-- After a revocation that found its token, no listing that leaves out revoked tokens returns the
-- token, whatever else it asks for. Assumed: no id stands twice in the table.
pub marked_token_hidden :
    (pf : Platform) (j : ArrayJson) (faults : Faults) (rows : List IssuedTokenRow) (now id : String)
    (reason at : Option String) (later : String) (options : ListIssuedTokenOptions)
    {rows' : List IssuedTokenRow} {r : MarkIssuedTokenRevokedResult}
    {records : List IssuedTokenLifecycleRecord}
    → Distinct (ids_of rows)
    → mark_token_revoked faults rows now id reason at ≡ (rows', ok r)
    → r.found ≡ true
    → or_else options.include_revoked false ≡ false
    → list_issued_tokens pf j later rows' options ≡ ok records
    → All (λ entry. entry.token_id ≢ trim id) records
unfolding list_issued_tokens
marked_token_hidden pf j faults rows now id reason at later options {rows'} {r} {records} once h k
      left_out listed =
    elim (Result-cases (normalize_evaluation_time pf (or_else options.as_of later))) [
      | inr (thrown, e) ↦ absurd (err≢ok (rw e at listed))
      | inl (t, e) ↦
          let marked = mark-Marked faults rows now id reason at once h k in
          let chosen = filter-All (Marked (trim id)) (where_clause options) rows' marked in
          let kept =
            limited-All _ options.limit _
              (sort_by-All row_le _ (filter (where_clause options) rows') chosen) in
          map_rows-All pf j t (λ row. Marked (trim id) row × (where_clause options row ≡ true))
            (λ entry. entry.token_id ≢ trim id)
            (λ row entry (m, shown) mapped. hidden t row entry m shown mapped) _ kept
            (rw e at listed)
    ]
  where
    hidden :
        (t : ℕ) (row : IssuedTokenRow) (entry : IssuedTokenLifecycleRecord)
        → Marked (trim id) row
        → where_clause options row ≡ true
        → map_issued_token_row pf j t row ≡ ok entry
        → entry.token_id ≢ trim id
    hidden t row entry m shown mapped same =
        let ((kept_id, actor, time), status) = mapped-Keeps pf j t row mapped in
        let known = m ((==_iff row.token_id (trim id)).1 (sym kept_id ∙ same)) in
        let absent = shown_unrevoked options row shown left_out in
        absurd (false≢true (rw absent at known))
