-- ===== src/Ledger.antt =====
-- packages/infrastructure/src/sqlite/sqlite-issued-token-store.ts: the ledger of issued tokens.
-- The table is a list of rows; a `SELECT` filters and orders it, an `INSERT` appends, an `UPDATE`
-- maps it.
pub mod Rows
pub mod Laws
pub mod Listing
mod Examples
use multi_agent_brain.Common.{
  ℕ, String, Bool, true, false, not, ◌&&◌, Option, none, some, List, [], ◌∷◌, ◌++◌, map, string_eq,
  ◌||◌, ◌==◌, find, filter, take, length, count, is_some, is_empty, or_else, ltb, if◌then◌else◌,
}
use mathlib.Core.Option.{map as map_option}
use multi_agent_brain.Common.Text.{trim, is_blank, trimmed, non_blank}
use multi_agent_brain.Common.Results.{Result, ok, err, ◌>>=◌, ◌>>◌}
use multi_agent_brain.Common.Sort.{sort_by, binary_le}
use multi_agent_brain.Contracts.{ActorRole, transport_text, command_text, admin_action_text}
use multi_agent_brain.Auth.Platform.{Platform, IssuedActorTokenClaims}
use multi_agent_brain.Revocation.Store.{Parsed, array, Entry, text_entry, other_entry}
unfoldable pub use Rows.*

-- `SELECT ... WHERE token_id = ?`
abbrev pub with_token_id : List IssuedTokenRow → String → Option IssuedTokenRow
with_token_id rows id = find (λ row. row.token_id == id) rows

-- The row that the `INSERT` of `recordIssuedToken` adds.
unfoldable pub row_of : ArrayJson → String → IssuedActorTokenClaims → IssuedTokenRow
unfolding serialize_json_array
row_of j token_id claims = record {
  token_id = token_id;
  actor_id = claims.actor_id;
  actor_role = claims.actor_role;
  source = claims.source;
  allowed_transports_json =
      serialize_json_array j (map_option (map transport_text) claims.allowed_transports);
  allowed_commands_json =
      serialize_json_array j (map_option (map command_text) claims.allowed_commands);
  allowed_admin_actions_json =
      serialize_json_array j (map_option (map admin_action_text) claims.allowed_admin_actions);
  allowed_corpora_json = serialize_json_array j claims.allowed_corpora;
  issued_at = claims.issued_at;
  valid_from = claims.valid_from;
  valid_until = claims.valid_until;
  revoked_at = none;
  revoked_reason = none;
}

abbrev pub record_answer : String → Bool → Result LedgerError RecordIssuedTokenResult
record_answer id already =
    ok (record { token_id = id; already_recorded = already; persisted = true })

unfoldable pub record_at :
    ArrayJson
    → List IssuedTokenRow
    → IssuedActorTokenClaims
    → Option String
    → List IssuedTokenRow × Result LedgerError RecordIssuedTokenResult
unfolding row_of
record_at j rows claims none = (rows, err token_id_required)
record_at j rows claims (some id) =
    if is_some (with_token_id rows id)
    then (rows, record_answer id true)
    else (rows ++ row_of j id claims ∷ [], record_answer id false)

-- The new table and the answer.
unfoldable pub record_issued_token :
    ArrayJson
    → List IssuedTokenRow
    → IssuedActorTokenClaims
    → List IssuedTokenRow × Result LedgerError RecordIssuedTokenResult
unfolding record_at
record_issued_token j rows claims = record_at j rows claims (trimmed claims.token_id)

-- `UPDATE ... SET revoked_at = ?, revoked_reason = ? WHERE token_id = ?`
abbrev pub set_revoked : String → Option String → String → IssuedTokenRow → IssuedTokenRow
set_revoked revoked_at reason id row =
    if row.token_id == id
    then record row { revoked_at = some revoked_at; revoked_reason = reason }
    else row

abbrev pub mark_answer :
    String → Bool → Bool → Bool → Result LedgerError MarkIssuedTokenRevokedResult
mark_answer id found already persisted =
    ok (record { token_id = id; found = found; already_revoked = already; persisted = persisted })

abbrev pub mark_existing :
    Faults
    → List IssuedTokenRow
    → String
    → Option String
    → String
    → Option IssuedTokenRow
    → List IssuedTokenRow × Result LedgerError MarkIssuedTokenRevokedResult
mark_existing faults rows id reason revoked_at none = (rows, mark_answer id false false false)
mark_existing faults rows id reason revoked_at (some existing) =
    if is_some (present existing.revoked_at)
    then (rows, mark_answer id true true true)
    else if faults.update_fails
    then (rows, err statement_failed)
    else (map (set_revoked revoked_at reason id) rows, mark_answer id true false true)

-- `now` is `new Date().toISOString()`, the default of the argument `revokedAt`.
unfoldable pub mark_token_revoked :
    Faults
    → List IssuedTokenRow
    → String
    → String
    → Option String
    → Option String
    → List IssuedTokenRow × Result LedgerError MarkIssuedTokenRevokedResult
mark_token_revoked faults rows now token_id reason revoked_at =
    let normalized = trim token_id in
    if is_blank normalized
    then (rows, err token_id_required)
    else if faults.select_fails
    then (rows, err statement_failed)
    else mark_existing faults rows normalized reason (or_else revoked_at now)
        (with_token_id rows normalized)

-- `actor_id = ?`, where an actor is named
abbrev pub of_actor : Option String → String → Bool
of_actor none actor_id = true
of_actor (some id) actor_id = actor_id == id

-- The `WHERE` clause of `listIssuedTokens`.
unfoldable pub where_clause : ListIssuedTokenOptions → IssuedTokenRow → Bool
where_clause options row =
    of_actor (trimmed options.actor_id) row.actor_id
    && (or_else options.include_revoked false || not (is_some row.revoked_at))

-- `ORDER BY issued_at DESC, token_id ASC`
unfoldable pub row_le : IssuedTokenRow → IssuedTokenRow → Bool
unfolding binary_le
row_le r s =
    if binary_le s.issued_at r.issued_at
    then if binary_le r.issued_at s.issued_at then binary_le r.token_id s.token_id else true
    else false

-- `LIMIT`, left out where there is none or it is 0
abbrev pub limited : {A : Type 0} → Option ℕ → List A → List A
limited none xs = xs
limited (some n) xs = if ltb 0 n then take n xs else xs

unfoldable pub list_issued_tokens :
    Platform
    → ArrayJson
    → String
    → List IssuedTokenRow
    → ListIssuedTokenOptions
    → Result LedgerError (List IssuedTokenLifecycleRecord)
unfolding map_rows where_clause row_le sort_by normalize_evaluation_time
list_issued_tokens pf j now rows options = do
  t ← normalize_evaluation_time pf (or_else options.as_of now)
  map_rows pf j t (limited options.limit (sort_by row_le (filter (where_clause options) rows)))

-- `record.lifecycleStatus === status`
abbrev pub is_status : TokenLifecycleStatus → TokenLifecycleStatus → Bool
is_status active status = elim status [ active ↦ true | _ ↦ false ]
is_status future status = elim status [ future ↦ true | _ ↦ false ]
is_status expired status = elim status [ expired ↦ true | _ ↦ false ]
is_status revoked status = elim status [ revoked ↦ true | _ ↦ false ]

abbrev pub has_status : TokenLifecycleStatus → IssuedTokenLifecycleRecord → Bool
has_status status r = is_status status r.lifecycle_status

unfoldable pub get_issued_token_summary :
    Platform
    → ArrayJson
    → String
    → List IssuedTokenRow
    → Option String
    → Result LedgerError IssuedTokenLifecycleSummary
unfolding map_rows normalize_evaluation_time
get_issued_token_summary pf j now rows as_of = do
  t ← normalize_evaluation_time pf (or_else as_of now)
  records ← map_rows pf j t rows
  ok (record {
    as_of = or_else as_of now;
    total = length records;
    active = count (has_status active) records;
    future = count (has_status future) records;
    expired = count (has_status expired) records;
    revoked = count (has_status revoked) records;
  })
