-- ===== src/Ledger/Rows.antt =====
-- The rows of the ledger table of packages/infrastructure/src/sqlite/sqlite-issued-token-store.ts and
-- how they are read.
use multi_agent_brain.Common.{
  ℕ, String, Bool, false, Option, none, some, List, [], ◌∷◌, string_eq, is_some, ltb, if◌then◌else◌,
}
use multi_agent_brain.Common.Text.{non_blank}
use multi_agent_brain.Common.Results.{Result, ok, err, ◌>>=◌}
use multi_agent_brain.Contracts.{ActorRole}
use multi_agent_brain.Auth.Platform.{Platform}
use multi_agent_brain.Revocation.Store.{Parsed, array, Entry, text_entry, other_entry}

-- `JSON.stringify` of an array of texts, and `JSON.parse`, `none` where it throws.
pub record ArrayJson : Type 0 where
  pub stringify : List String → String
  pub parse : String → Option Parsed

pub data LedgerError : Type 0 where
  token_id_required invalid_evaluation_time invalid_json statement_failed : LedgerError

-- Which statements of `markTokenRevoked` SQLite fails: the table is then as it was.
pub record Faults : Type 0 where
  pub select_fails : Bool
  pub update_fails : Bool

pub record IssuedTokenRow : Type 0 where
  pub token_id : String
  pub actor_id : String
  pub actor_role : ActorRole
  pub source : Option String
  pub allowed_transports_json : Option String
  pub allowed_commands_json : Option String
  pub allowed_admin_actions_json : Option String
  pub allowed_corpora_json : Option String
  pub issued_at : String
  pub valid_from : Option String
  pub valid_until : Option String
  pub revoked_at : Option String
  pub revoked_reason : Option String

pub data TokenLifecycleStatus : Type 0 where
  active future expired revoked : TokenLifecycleStatus

-- The texts of the arrays are not checked against the enumerations.
pub record IssuedTokenLifecycleRecord : Type 0 where
  pub token_id : String
  pub actor_id : String
  pub actor_role : ActorRole
  pub source : Option String
  pub allowed_transports : Option (List String)
  pub allowed_commands : Option (List String)
  pub allowed_admin_actions : Option (List String)
  pub allowed_corpora : Option (List String)
  pub issued_at : String
  pub valid_from : Option String
  pub valid_until : Option String
  pub revoked_at : Option String
  pub revoked_reason : Option String
  pub lifecycle_status : TokenLifecycleStatus

pub record RecordIssuedTokenResult : Type 0 where
  pub token_id : String
  pub already_recorded : Bool
  pub persisted : Bool

pub record MarkIssuedTokenRevokedResult : Type 0 where
  pub token_id : String
  pub found : Bool
  pub already_revoked : Bool
  pub persisted : Bool

-- A limit that is no positive integer is `none` here: the source ignores it.
pub record ListIssuedTokenOptions : Type 0 where
  pub as_of : Option String
  pub actor_id : Option String
  pub include_revoked : Option Bool
  pub limit : Option ℕ

pub record IssuedTokenLifecycleSummary : Type 0 where
  pub as_of : String
  pub total : ℕ
  pub active : ℕ
  pub future : ℕ
  pub expired : ℕ
  pub revoked : ℕ

-- `value ? value : undefined` of a column that may be NULL
abbrev pub present : Option String → Option String
present none = none
present (some value) = non_blank value

unfoldable pub serialize_json_array : ArrayJson → Option (List String) → Option String
serialize_json_array j none = none
serialize_json_array j (some []) = none
serialize_json_array j (some (value ∷ values)) = some (j.stringify (value ∷ values))

abbrev pub texts : List Entry → List String
texts [] = []
texts (text_entry s ∷ entries) = s ∷ texts entries
texts (other_entry ∷ entries) = texts entries

abbrev parsed_texts : Option Parsed → Result LedgerError (Option (List String))
parsed_texts none = err invalid_json
parsed_texts (some (array entries)) = ok (some (texts entries))
parsed_texts (some _) = ok none

abbrev parse_present : ArrayJson → Option String → Result LedgerError (Option (List String))
parse_present j none = ok none
parse_present j (some value) = parsed_texts (j.parse value)

unfoldable pub parse_json_array :
    ArrayJson → Option String → Result LedgerError (Option (List String))
parse_json_array j value = parse_present j (present value)

unfoldable pub normalize_evaluation_time : Platform → String → Result LedgerError ℕ
normalize_evaluation_time pf value = elim (pf.date_parse value) [
  | none ↦ err invalid_evaluation_time
  | some t ↦ ok t
]

abbrev pub optional_instant : Platform → Option String → Result LedgerError (Option ℕ)
unfolding normalize_evaluation_time
optional_instant pf none = ok none
optional_instant pf (some value) = normalize_evaluation_time pf value >>= λ t. ok (some t)

abbrev pub window_status : Option ℕ → Option ℕ → ℕ → TokenLifecycleStatus
window_status from until t =
    if elim from [ none ↦ false | some f ↦ ltb t f ]
    then future
    else if elim until [ none ↦ false | some u ↦ ltb u t ]
    then expired
    else active

unfoldable pub derive_lifecycle_status :
    Platform → IssuedTokenRow → ℕ → Result LedgerError TokenLifecycleStatus
unfolding optional_instant
derive_lifecycle_status pf row t = if is_some (present row.revoked_at) then ok revoked else do
  from ← optional_instant pf (present row.valid_from)
  until ← optional_instant pf (present row.valid_until)
  ok (window_status from until t)

unfoldable pub map_issued_token_row :
    Platform → ArrayJson → ℕ → IssuedTokenRow → Result LedgerError IssuedTokenLifecycleRecord
unfolding parse_json_array derive_lifecycle_status
map_issued_token_row pf j t row = do
  transports ← parse_json_array j row.allowed_transports_json
  commands ← parse_json_array j row.allowed_commands_json
  admin_actions ← parse_json_array j row.allowed_admin_actions_json
  corpora ← parse_json_array j row.allowed_corpora_json
  status ← derive_lifecycle_status pf row t
  ok (record {
    token_id = row.token_id;
    actor_id = row.actor_id;
    actor_role = row.actor_role;
    source = row.source;
    allowed_transports = transports;
    allowed_commands = commands;
    allowed_admin_actions = admin_actions;
    allowed_corpora = corpora;
    issued_at = row.issued_at;
    valid_from = row.valid_from;
    valid_until = row.valid_until;
    revoked_at = row.revoked_at;
    revoked_reason = row.revoked_reason;
    lifecycle_status = status;
  })

unfoldable pub map_rows :
    Platform
    → ArrayJson
    → ℕ
    → List IssuedTokenRow
    → Result LedgerError (List IssuedTokenLifecycleRecord)
unfolding map_issued_token_row
map_rows pf j t [] = ok []
map_rows pf j t (row ∷ rows) = do
  first ← map_issued_token_row pf j t row
  rest ← map_rows pf j t rows
  ok (first ∷ rest)
