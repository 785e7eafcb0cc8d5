-- ===== src/Revocation/Store.antt =====
-- packages/infrastructure/src/auth/file-issued-token-revocation-store.ts
pub mod Laws
use multi_agent_brain.Common.{
  String, Bool, true, false, not, Option, none, some, List, [], ◌∷◌, ◌++◌, string_eq, ◌==◌,
  includes, filter, if◌then◌else◌,
}
use multi_agent_brain.Common.Text.{trim, is_blank, non_blank}
use multi_agent_brain.Common.Results.{Result, ok, err, ◌>>=◌}
use multi_agent_brain.Common.Maps.{to_set, set_add}
use multi_agent_brain.Common.Sort.{sort_texts}
use multi_agent_brain.Auth.Policy.{trimmed_ids}

-- What `readFile` of a path does: the text, `ENOENT`, or another error.
pub data ReadOutcome : Type 0 where
  contents : String → ReadOutcome
  missing : ReadOutcome
  read_failed : ReadOutcome

-- A write that is rejected leaves every file as it was.
pub record Disk : Type 0 where
  pub read_file : String → ReadOutcome
  pub rejects_write : String → Bool

-- An entry of a JSON array, as far as the loader tells them apart.
pub data Entry : Type 0 where
  text_entry : String → Entry
  other_entry : Entry

-- What `JSON.parse` made of a file: an array, an object whose `tokenIds` is one, or neither.
pub data Parsed : Type 0 where
  array : List Entry → Parsed
  token_ids_object : List Entry → Parsed
  other_value : Parsed

-- `JSON.parse`, `none` where it throws, and `JSON.stringify({ tokenIds }, null, 2)` with a newline.
pub record Json : Type 0 where
  pub parse : String → Option Parsed
  pub print : List String → String

pub data StoreError : Type 0 where
  token_id_required unreadable_file invalid_json wrong_shape invalid_entry : StoreError
  write_failed : StoreError

pub record FileStore : Type 0 where
  pub file_path : Option String
  pub revoked_token_ids : List String

pub record RevokeIssuedTokenResult : Type 0 where
  pub token_id : String
  pub already_revoked : Bool
  pub persisted : Bool

-- `tokenIds.map(...)`: the first entry that is no text, or blank, throws.
unfoldable pub trim_entries : List Entry → Result StoreError (List String)
trim_entries [] = ok []
trim_entries (other_entry ∷ entries) = err invalid_entry
trim_entries (text_entry id ∷ entries) =
    let rest = trim_entries entries in
    if is_blank (trim id) then err invalid_entry else rest >>= λ ids. ok (trim id ∷ ids)

abbrev pub entries_of : Option Parsed → Result StoreError (List Entry)
entries_of none = err invalid_json
entries_of (some (array entries)) = ok entries
entries_of (some (token_ids_object entries)) = ok entries
entries_of (some other_value) = err wrong_shape

abbrev load_contents : Json → ReadOutcome → Result StoreError (List String)
load_contents j missing = ok []
load_contents j read_failed = err unreadable_file
load_contents j (contents raw) = do
  entries ← entries_of (j.parse raw)
  ids ← trim_entries entries
  ok (filter (λ id. not (is_blank id)) ids)

unfoldable pub load_revoked_token_ids_from_path :
    Json → Disk → String → Result StoreError (List String)
unfolding trim_entries
load_revoked_token_ids_from_path j d path = load_contents j (d.read_file path)

-- `filePath ? ... : ...`
abbrev pub usable : Option String → Option String
usable none = none
usable (some path) = non_blank path

unfoldable pub new_store : Option String → List String → FileStore
new_store path initial = record {
  file_path = path;
  revoked_token_ids = to_set (trimmed_ids initial);
}

unfoldable pub load_if : Json → Disk → Option String → Result StoreError (List String)
unfolding load_revoked_token_ids_from_path
load_if j d none = ok []
load_if j d (some path) = load_revoked_token_ids_from_path j d path

unfoldable pub create : Json → Disk → Option String → List String → Result StoreError FileStore
unfolding load_if new_store
create j d path initial = do
  persisted ← load_if j d (usable path)
  ok (new_store path (persisted ++ initial))

unfoldable pub list_revoked_token_ids : FileStore → List String
unfolding sort_texts
list_revoked_token_ids s = sort_texts s.revoked_token_ids

-- `writeFile(path, text)`
unfoldable pub write_file : Disk → String → String → Disk
write_file d path text = record d {
  read_file = λ p. if p == path then contents text else d.read_file p;
}

unfoldable pub persist_at :
    Json → Disk → FileStore → Option String → Result StoreError (Disk × Bool)
unfolding write_file list_revoked_token_ids
persist_at j d s none = ok (d, false)
persist_at j d s (some path) =
    if d.rejects_write path
    then err write_failed
    else ok (write_file d path (j.print (list_revoked_token_ids s)), true)

-- The new disk, and whether a file was written.
unfoldable pub persist : Json → Disk → FileStore → Result StoreError (Disk × Bool)
unfolding persist_at
persist j d s = persist_at j d s (usable s.file_path)

abbrev pub finish_revocation :
    Disk
    → FileStore
    → String
    → Bool
    → Result StoreError (Disk × Bool)
    → FileStore × Disk × Result StoreError RevokeIssuedTokenResult
finish_revocation d s token_id already (err e) = (s, d, err e)
finish_revocation d s token_id already (ok (written, persisted)) = (
  s,
  written,
  ok (record { token_id = token_id; already_revoked = already; persisted = persisted }),
)

abbrev pub with_id : FileStore → String → FileStore
with_id s id = record s { revoked_token_ids = set_add s.revoked_token_ids id }

-- The new store, the new disk, and the answer. A write that fails leaves the id in the store.
unfoldable pub revoke_token_id :
    Json → Disk → FileStore → String → FileStore × Disk × Result StoreError RevokeIssuedTokenResult
unfolding persist
revoke_token_id j d s token_id =
    let normalized = trim token_id in
    let already = includes s.revoked_token_ids normalized in
    let added = with_id s normalized in
    if is_blank normalized
    then (s, d, err token_id_required)
    else finish_revocation d added normalized already (persist j d added)
