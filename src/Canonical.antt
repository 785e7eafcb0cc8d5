-- ===== src/Canonical.antt =====
-- packages/application/src/services/canonical-note-service.ts
-- The note repository and the metadata control store are ports over a state `W`; `hash_text` and
-- `to_lower_case` are the platform's.
pub mod Laws
mod Examples
use multi_agent_brain.Common.{
  ℕ, String, Bool, true, false, not, ◌&&◌, ◌||◌, Option, none, some, List, [], ◌∷◌, string_eq, ◌==◌,
  filter, includes, if◌then◌else◌,
}
use multi_agent_brain.Common.Text.{trim}
use multi_agent_brain.Common.Text.Split.{◌<>◌, join_with}
use multi_agent_brain.Common.Text.Slices.{slice_to}
use multi_agent_brain.Common.Text.Search.{starts_with, to_slashes}
use multi_agent_brain.Common.Maps.{set_add, set_delete, to_set}
use multi_agent_brain.Common.Sort.{sort_by, text_le}
use multi_agent_brain.Common.Results.{Result, ok, err}
use multi_agent_brain.Common.Effects.{Effect, Program, ◌>>=◌, ◌>>◌, pure}
use multi_agent_brain.Notes.{
  CorpusId, context_brain, general_notes, NoteFrontmatter, CanonicalNoteRecord, MetadataNoteRecord,
  reference, promoted, corpus_text, is_general, note_type_text,
}
use multi_agent_brain.Notes.Slug.{slugify}

pub record Texts : Type 0 where
  pub to_lower_case : String → String
  pub hash_text : String → String

pub record CanonicalPorts (W : Type 0) : Type 0 where
  pub get_by_id : String → Effect W (Option CanonicalNoteRecord)
  pub get_by_path : String → Effect W (Option CanonicalNoteRecord)
  pub list_by_corpus : CorpusId → Effect W (List CanonicalNoteRecord)
  pub write_canonical_note : CanonicalNoteRecord → Effect W CanonicalNoteRecord
  pub upsert_note : MetadataNoteRecord → Effect W (Unit {0})

pub data PolicyViolation : Type 0 where
  outside_corpus_root general_current_state general_current_tag : PolicyViolation

pub data CanonicalNoteError : Type 0 where
  not_found : CanonicalNoteError
  violates_policy : PolicyViolation → CanonicalNoteError
  not_persisted : (reason : String) → CanonicalNoteError
  not_current_context : CanonicalNoteError
  already_snapshot : CanonicalNoteError

abbrev pub snapshot_tag : String
snapshot_tag = "topic/current-state-snapshot"

unfoldable pub validate_canonical_corpus_policy : CanonicalNoteRecord → Option PolicyViolation
unfolding starts_with to_slashes
validate_canonical_corpus_policy note =
    if not (starts_with (to_slashes note.note_path) (corpus_text note.corpus_id <> "/"))
    then some outside_corpus_root
    else if is_general note.corpus_id && note.frontmatter.current_state
    then some general_current_state
    else if is_general note.corpus_id && includes note.frontmatter.tags "status/current"
    then some general_current_tag
    else none

unfoldable pub normalize_snapshot_tags : List String → List String
unfolding to_set set_add sort_by text_le
normalize_snapshot_tags tags =
    let kept =
      set_delete (set_delete (set_delete (to_set tags) "status/current") "status/superseded")
        "status/draft" in
    sort_by text_le (set_add (set_add kept "status/promoted") snapshot_tag)

module _ (texts : Texts) where
  abbrev pub build_semantic_signature : String → String → String → String
  build_semantic_signature title summary scope =
      texts.hash_text (join_with "\n" (title ∷ summary ∷ scope ∷ []))

  unfoldable pub build_snapshot_path : CanonicalNoteRecord → String
  unfolding slugify
  build_snapshot_path note =
      corpus_text note.corpus_id
      <> "/current-state/"
      <> slugify texts.to_lower_case note.frontmatter.project
      <> "/"
      <> slugify texts.to_lower_case note.frontmatter.title
      <> "-current.md"

  abbrev snapshot_body : CanonicalNoteRecord → String
  snapshot_body note = join_with "\n" (
      "## Summary"
      ∷ ""
      ∷ note.frontmatter.summary
      ∷ ""
      ∷ "## Details"
      ∷ ""
      ∷ ("- Canonical note: " <> note.note_path)
      ∷ ("- Canonical note ID: " <> note.note_id)
      ∷ ("- Note type: " <> note_type_text note.frontmatter.note_type)
      ∷ ("- Scope: " <> note.frontmatter.scope)
      ∷ ("- Updated: " <> note.frontmatter.updated)
      ∷ ("- Project: " <> note.frontmatter.project)
      ∷ ""
      ∷ "## Sources"
      ∷ ""
      ∷ ("- " <> note.note_path)
      ∷ [])

  unfoldable pub build_current_state_snapshot : CanonicalNoteRecord → CanonicalNoteRecord
  unfolding build_snapshot_path normalize_snapshot_tags trim
  build_current_state_snapshot note =
      let path = build_snapshot_path note in
      let id =
        slice_to 32 (texts.hash_text ("snapshot:" <> corpus_text note.corpus_id <> ":" <> path)) in
      record {
        note_id = id;
        corpus_id = note.corpus_id;
        note_path = path;
        revision = "";
        frontmatter = record {
          note_id = id;
          title = note.frontmatter.title <> " Current";
          project = note.frontmatter.project;
          note_type = reference;
          status = promoted;
          updated = note.frontmatter.updated;
          summary = trim (
              "Current-state snapshot for " <> note.frontmatter.title <> ". "
              <> note.frontmatter.summary);
          tags = normalize_snapshot_tags note.frontmatter.tags;
          scope = note.frontmatter.scope;
          corpus_id = note.corpus_id;
          current_state = false;
          valid_from = note.frontmatter.valid_from;
          valid_until = note.frontmatter.valid_until;
          supersedes = none;
          superseded_by = none;
        };
        body = snapshot_body note;
      }

  unfoldable pub prepare_current_state_snapshot :
      CanonicalNoteRecord → Result CanonicalNoteError CanonicalNoteRecord
  unfolding build_current_state_snapshot
  prepare_current_state_snapshot note =
      if is_general note.corpus_id || not note.frontmatter.current_state
      then err not_current_context
      else if includes note.frontmatter.tags snapshot_tag
      then err already_snapshot
      else ok (build_current_state_snapshot note)

  abbrev pub metadata_record : CanonicalNoteRecord → MetadataNoteRecord
  metadata_record persisted = record {
    note_id = persisted.note_id;
    corpus_id = persisted.corpus_id;
    note_path = persisted.note_path;
    note_type = persisted.frontmatter.note_type;
    lifecycle_state = persisted.frontmatter.status;
    revision = persisted.revision;
    updated_at = persisted.frontmatter.updated;
    current_state = persisted.frontmatter.current_state;
    valid_from = persisted.frontmatter.valid_from;
    valid_until = persisted.frontmatter.valid_until;
    summary = some persisted.frontmatter.summary;
    scope = some persisted.frontmatter.scope;
    tags = some persisted.frontmatter.tags;
    content_hash = some (texts.hash_text persisted.body);
    semantic_signature = some (
        build_semantic_signature persisted.frontmatter.title persisted.frontmatter.summary
          persisted.frontmatter.scope);
  }

  -- The `catch` around the persistence.
  abbrev pub caught : {W A : Type 0} → W × Result String A → W × Result CanonicalNoteError A
  caught (w, ok a) = (w, ok a)
  caught (w, err reason) = (w, err (not_persisted reason))

  module _ {W : Type 0} (ports : CanonicalPorts W) where
    unfoldable pub persist_canonical_note : CanonicalNoteRecord → Effect W CanonicalNoteRecord
    persist_canonical_note note = do
      persisted ← ports.write_canonical_note note
      ports.upsert_note (metadata_record persisted)
      pure persisted

    unfoldable pub write_unless :
        Option PolicyViolation
        → CanonicalNoteRecord
        → Program W CanonicalNoteError CanonicalNoteRecord
    unfolding persist_canonical_note
    write_unless (some violation) note w = (w, err (violates_policy violation))
    write_unless none note w = caught (persist_canonical_note note w)

    unfoldable pub write_canonical_note :
        CanonicalNoteRecord → Program W CanonicalNoteError CanonicalNoteRecord
    unfolding write_unless validate_canonical_corpus_policy
    write_canonical_note note = write_unless (validate_canonical_corpus_policy note) note

    unfoldable pub write_canonical_notes :
        List CanonicalNoteRecord → Program W CanonicalNoteError (List CanonicalNoteRecord)
    unfolding write_canonical_note
    write_canonical_notes [] = pure []
    write_canonical_notes (note ∷ notes) = do
      persisted ← write_canonical_note note
      rest ← write_canonical_notes notes
      pure (persisted ∷ rest)

    unfoldable pub write_prepared :
        Result CanonicalNoteError CanonicalNoteRecord
        → Program W CanonicalNoteError CanonicalNoteRecord
    unfolding persist_canonical_note
    write_prepared (err refused) w = (w, err refused)
    write_prepared (ok snapshot) w = caught (persist_canonical_note snapshot w)

    unfoldable pub write_current_state_snapshot :
        CanonicalNoteRecord → Program W CanonicalNoteError CanonicalNoteRecord
    unfolding write_prepared prepare_current_state_snapshot
    write_current_state_snapshot note = write_prepared (prepare_current_state_snapshot note)
