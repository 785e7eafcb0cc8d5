-- ===== src/Revocation/Examples.antt =====
-- A file, a table and a policy at which the theorems about revocation are applied.
use multi_agent_brain.Common.{
  String, ◌≡◌, refl, not, true, false, none, some, List, [], ◌∷◌, ◌||◌, string_eq, ◌==◌, includes,
  if◌then◌else◌,
}
use multi_agent_brain.Common.Text.{trim, is_blank}
use multi_agent_brain.Common.Text.Split.{◌<>◌}
use multi_agent_brain.Common.Results.{ok, err}
use multi_agent_brain.Common.Maps.{to_set, set_add}
use multi_agent_brain.Common.Sets.{Distinct}
use multi_agent_brain.Auth.Platform.{Platform, other}
use multi_agent_brain.Auth.Policy.{
  ActorAuthorizationOptions, Policy, permissive, create_policy, is_token_revoked, trimmed_ids,
}
use multi_agent_brain.Revocation.Store.{
  token_id_required, Json, Disk, FileStore, RevokeIssuedTokenResult, missing, text_entry,
  token_ids_object, create, revoke_token_id, write_file, list_revoked_token_ids,
}
use multi_agent_brain.Revocation.Store.Laws.{
  IsClean, ReadsBack, Reached, created, revoking, Reached-IsClean, Answers, revoke_token_id-adds,
}
use multi_agent_brain.Revocation.Restart.{revocation_survives_restart}
use multi_agent_brain.Revocation.Config.{configured_revocations, revocation_reaches_new_policy}
use multi_agent_brain.Revocation.Table.{
  revoke_token_id as revoke_in_table, is_token_revoked as is_row_revoked, RevocationRow, token_ids,
  Agree, SameAnswer, file_and_table-Agree,
}

-- A writer that joins the ids, and a reader of the one text that the examples read.
abbrev json : Json
json = record {
  parse = λ s.
      if s == "new,old,"
      then some (token_ids_object (text_entry "new" ∷ text_entry "old" ∷ []))
      else none;
  print = λ ids. joined ids;
}
  where
    joined : List String → String
    joined [] = ""
    joined (id ∷ ids) = id <> "," <> joined ids

abbrev empty_disk : Disk
empty_disk = record { read_file = λ path. missing; rejects_write = λ path. false }

abbrev store : FileStore
store = record { file_path = some "revoked.json"; revoked_token_ids = "old" ∷ [] }

abbrev after : FileStore
after = record { file_path = some "revoked.json"; revoked_token_ids = "old" ∷ "new" ∷ [] }

abbrev written : Disk
written = write_file empty_disk "revoked.json" "new,old,"

abbrev answer : RevokeIssuedTokenResult
answer = record { token_id = "new"; already_revoked = false; persisted = true }

run : Unit {0}
unfolding create revoke_token_id trim list_revoked_token_ids write_file trimmed_ids to_set set_add
    create_policy is_token_revoked configured_revocations
run = tt

store_created : create json empty_disk (some "revoked.json") (" old" ∷ "" ∷ "old" ∷ []) ≡ ok store
unfolding run
store_created = refl

store-Reached : Reached json store
store-Reached = created empty_disk (some "revoked.json") (" old" ∷ "" ∷ "old" ∷ []) store_created

new_revoked : revoke_token_id json empty_disk store " new " ≡ (after, written, ok answer)
unfolding run
new_revoked = refl

reads_back : ReadsBack json (list_revoked_token_ids after)
unfolding run
reads_back = refl

abbrev node : Platform
node = record {
  date_parse = λ s. none;
  to_iso = λ ms. "t0";
  hmac = λ payload secret. "sig";
  to_base64url = λ s. s;
  from_base64url = λ s. s;
  stringify = λ claims. claims.actor_id;
  json_parse = λ s. some other;
}

abbrev options : ActorAuthorizationOptions
options = record {
  mode = none;
  allow_anonymous_internal = none;
  registry = none;
  issuer_secret = none;
  issued_token_require_registry_match = none;
  revoked_issued_token_ids = some ("new" ∷ "old" ∷ []);
  is_token_revoked = none;
}

abbrev policy : Policy
policy = record {
  mode = permissive;
  allow_anonymous_internal = true;
  registry = [];
  issuer_secret = none;
  issued_token_require_registry_match = true;
  revoked_issued_token_ids = "new" ∷ "old" ∷ [];
  is_token_revoked_callback = none;
}

configured :
    configured_revocations json written (some "revoked.json") (some " ") ≡ ok ("new" ∷ "old" ∷ [])
unfolding run
configured = refl

policy_started : create_policy node options ≡ ok policy
unfolding run
policy_started = refl

revoke_token_id-adds_example :
    let outcome = revoke_token_id json empty_disk store " new " in
    (is_blank (trim " new ") ≡ true → outcome ≡ (store, empty_disk, err token_id_required))
    × (is_blank (trim " new ") ≡ false
        → ((x : String)
            → includes (list_revoked_token_ids outcome.0) x
              ≡ (includes (list_revoked_token_ids store) x || trim " new " == x))
          × (outcome.0.file_path ≡ store.file_path)
          × Answers store " new " outcome.2)
revoke_token_id-adds_example = revoke_token_id-adds json empty_disk store " new "

Reached-IsClean_example :
    IsClean (revoke_token_id json empty_disk store " new ").0.revoked_token_ids
Reached-IsClean_example =
    Reached-IsClean json (revoke_token_id json empty_disk store " new ").0
      (revoking empty_disk " new " store-Reached)

revocation_survives_restart_example :
    (t : FileStore) × (create json written (some "revoked.json") (" other" ∷ []) ≡ ok t)
    × ((x : String)
        → includes t.revoked_token_ids x
          ≡ (includes after.revoked_token_ids x || includes (trimmed_ids (" other" ∷ [])) x))
revocation_survives_restart_example =
    revocation_survives_restart json empty_disk store " new " (" other" ∷ []) reads_back
      (Reached-IsClean json store store-Reached) new_revoked refl

revocation_reaches_new_policy_example :
    (is_token_revoked policy " new " ≡ true)
    × ((x : String)
        → includes after.revoked_token_ids (trim x) ≡ true
        → is_token_revoked policy x ≡ true)
revocation_reaches_new_policy_example =
    revocation_reaches_new_policy json empty_disk store " new " (some " ") node options reads_back
      (Reached-IsClean json store store-Reached) new_revoked refl configured refl policy_started

abbrev rows : List RevocationRow
rows = record { token_id = "old"; revoked_at = "t0"; reason = none } ∷ []

file_and_table-Agree_example :
    let in_file = revoke_token_id json empty_disk store " new " in
    let in_table = revoke_in_table rows "t1" " new " none in
    Agree in_file.0 in_table.0
    × Distinct (token_ids in_table.0)
    × SameAnswer in_file.2 in_table.1
    × (is_row_revoked in_table.0 " new " ≡ not (is_blank (trim " new ")))
file_and_table-Agree_example =
    file_and_table-Agree json empty_disk store rows "t1" " new " none (λ x. refl) (refl, tt)
