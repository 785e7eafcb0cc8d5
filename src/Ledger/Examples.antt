-- ===== src/Ledger/Examples.antt =====
-- A ledger of two tokens at which the theorems about it are applied.
use multi_agent_brain.Common.{
  ◌+◌, String, ◌≡◌, ◌≢◌, refl, true, false, none, some, List, [], ◌∷◌, string_eq, ◌==◌, length, All,
  if◌then◌else◌,
}
use multi_agent_brain.Common.Text.{trim}
use multi_agent_brain.Common.Results.{ok, err}
use multi_agent_brain.Common.Sets.{Distinct}
use multi_agent_brain.Contracts.{operator, search_context}
use multi_agent_brain.Auth.Platform.{Platform, IssuedActorTokenClaims, other}
use multi_agent_brain.Revocation.Store.{array, text_entry}
use multi_agent_brain.Ledger.{
  ArrayJson, IssuedTokenRow, IssuedTokenLifecycleRecord, ListIssuedTokenOptions,
  IssuedTokenLifecycleSummary, Faults, statement_failed, active, record_issued_token,
  mark_token_revoked, list_issued_tokens, get_issued_token_summary,
}
use multi_agent_brain.Ledger.Laws.{
  ids_of, Reached, empty, recorded, marked, Reached-Distinct, issued_token_summary_adds_up,
}
use multi_agent_brain.Ledger.Listing.{Asked, Within, list_issued_tokens_sound, marked_token_hidden}

abbrev node : Platform
node = record {
  date_parse = λ s. if s == "t5" then some 5 else none;
  to_iso = λ ms. "t5";
  hmac = λ payload secret. "sig";
  to_base64url = λ s. s;
  from_base64url = λ s. s;
  stringify = λ claims. claims.actor_id;
  json_parse = λ s. some other;
}

abbrev json : ArrayJson
json = record {
  stringify = λ values. "[]";
  parse = λ s. some (array (text_entry "search_context" ∷ []));
}

abbrev claims_of : String → IssuedActorTokenClaims
claims_of id = record {
  token_id = some id;
  actor_id = "ann";
  actor_role = operator;
  source = none;
  allowed_transports = none;
  allowed_commands = some (search_context ∷ []);
  allowed_admin_actions = none;
  allowed_corpora = none;
  valid_from = none;
  valid_until = none;
  issued_at = "t5";
}

abbrev row : String → IssuedTokenRow
row id = record {
  token_id = id;
  actor_id = "ann";
  actor_role = operator;
  source = none;
  allowed_transports_json = none;
  allowed_commands_json = some "[]";
  allowed_admin_actions_json = none;
  allowed_corpora_json = none;
  issued_at = "t5";
  valid_from = none;
  valid_until = none;
  revoked_at = none;
  revoked_reason = none;
}

abbrev entry : String → IssuedTokenLifecycleRecord
entry id = record {
  token_id = id;
  actor_id = "ann";
  actor_role = operator;
  source = none;
  allowed_transports = none;
  allowed_commands = some ("search_context" ∷ []);
  allowed_admin_actions = none;
  allowed_corpora = none;
  issued_at = "t5";
  valid_from = none;
  valid_until = none;
  revoked_at = none;
  revoked_reason = none;
  lifecycle_status = active;
}

abbrev rows : List IssuedTokenRow
rows = row "a" ∷ row "b" ∷ []

abbrev rows_after : List IssuedTokenRow
rows_after =
    record (row "a") { revoked_at = some "t6"; revoked_reason = some "lost" } ∷ row "b" ∷ []

abbrev anns : ListIssuedTokenOptions
anns = record { as_of = none; actor_id = some " ann"; include_revoked = none; limit = some 1 }

abbrev sound : Faults
sound = record { select_fails = false; update_fails = false }

run : Unit {0}
unfolding record_issued_token mark_token_revoked list_issued_tokens get_issued_token_summary trim
run = tt

-- Where SQLite fails the `UPDATE`, the table stays as it was.
update_failed :
    mark_token_revoked (record sound { update_fails = true }) rows "t6" " a" none none
    ≡ (rows, err statement_failed)
unfolding run
update_failed = refl

rows-Reached : Reached json rows
unfolding run
rows-Reached = recorded (claims_of " b ") (recorded (claims_of "a") empty)

rows-Distinct : Distinct (ids_of rows)
rows-Distinct = (refl, (refl, tt))

marked_a : mark_token_revoked sound rows "t6" " a" (some "lost") none ≡ (
  rows_after,
  ok (record { token_id = "a"; found = true; already_revoked = false; persisted = true }),
)
unfolding run
marked_a = refl

listed : list_issued_tokens node json "t5" rows_after anns ≡ ok (entry "b" ∷ [])
unfolding run
listed = refl

abbrev summary : IssuedTokenLifecycleSummary
summary = record { as_of = "t5"; total = 2; active = 1; future = 0; expired = 0; revoked = 1 }

summarized : get_issued_token_summary node json "t5" rows_after none ≡ ok summary
unfolding run
summarized = refl

Reached-Distinct_example :
    Distinct (ids_of (mark_token_revoked sound rows "t6" " a" (some "lost") none).0)
Reached-Distinct_example =
    Reached-Distinct json (mark_token_revoked sound rows "t6" " a" (some "lost") none).0
      (marked sound "t6" " a" (some "lost") none rows-Reached)

issued_token_summary_adds_up_example :
    (summary.total ≡ length rows_after)
    × (summary.total ≡ summary.active + summary.future + summary.expired + summary.revoked)
issued_token_summary_adds_up_example =
    issued_token_summary_adds_up node json "t5" rows_after none summarized

list_issued_tokens_sound_example :
    All (Asked anns) (entry "b" ∷ []) × Within anns.limit (length (entry "b" ∷ []))
list_issued_tokens_sound_example = list_issued_tokens_sound node json "t5" rows_after anns listed

marked_token_hidden_example : All (λ e. e.token_id ≢ trim " a") (entry "b" ∷ [])
marked_token_hidden_example =
    marked_token_hidden node json sound rows "t6" " a" (some "lost") none "t5" anns rows-Distinct
      marked_a refl refl listed
