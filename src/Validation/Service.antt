-- ===== src/Validation/Service.antt =====
-- `validate` of packages/application/src/services/note-validation-service.ts: the issues of a note, in
-- the order in which they are found.
pub mod Rules
pub mod Laws
use multi_agent_brain.Common.{
  ℕ, String, ◌≡◌, refl, Bool, true, false, not, ◌&&◌, ◌||◌, Option, none, some, List, [], ◌∷◌, ◌++◌,
  map, string_eq, ◌==◌, includes, is_empty, is_some, or_else, if◌then◌else◌,
}
use multi_agent_brain.Common.Text.{trim, is_blank, trimmed}
use multi_agent_brain.Common.Text.Split.{◌<>◌}
use multi_agent_brain.Common.Text.Search.{starts_with, ends_with, contains}
use multi_agent_brain.Common.Maps.{to_set}
use multi_agent_brain.Common.Sort.{sort_by, text_le}
use multi_agent_brain.Notes.{
  NoteType, decision, constraint, bug, investigation, runbook, architecture, glossary, handoff,
  reference, policy, NoteLifecycleState, draft, staged, validated, promoted, superseded, rejected,
  archived, CorpusId, context_brain, general_notes, NoteFrontmatter, corpus_text, is_general,
  is_superseded,
}
use multi_agent_brain.Validation.Headings.{extract_headings, normalize_heading}
use multi_agent_brain.Validation.Texts.{
  is_date, normalize_path_string, normalize_tag, normalize_line_endings,
}
unfoldable pub use Rules.*

module _ (to_lower_case : String → String) (allowed_tags : List String) where
  unfoldable pub normalize_tags : List String → List String
  unfolding dedupe_strings normalize_tag sort_by text_le
  normalize_tags tags =
      if is_empty tags
      then []
      else sort_by text_le (dedupe_strings (keep_some (map (normalize_tag to_lower_case) tags)))

  unfoldable pub tag_issues : List String → List Issue
  unfolding normalize_tags
  tag_issues tags =
      if is_empty tags then no_tags ∷ [] else uncontrolled allowed_tags (normalize_tags tags)

  unfoldable pub normalize_frontmatter : NoteFrontmatter → NoteFrontmatter
  unfolding normalize_tags dedupe_strings trim
  normalize_frontmatter input = record input {
    note_id = required_text input.note_id;
    title = required_text input.title;
    project = required_text input.project;
    summary = required_text input.summary;
    scope = required_text input.scope;
    updated = required_text input.updated;
    tags = normalize_tags input.tags;
    valid_from = trimmed input.valid_from;
    valid_until = trimmed input.valid_until;
    supersedes = some (dedupe_strings (or_else input.supersedes []));
    superseded_by = trimmed input.superseded_by;
  }

  unfoldable pub frontmatter_issues : NoteFrontmatter → CorpusId → List Issue
  unfolding tag_issues is_date trim
  frontmatter_issues input target_corpus =
      required_issues note_id input.note_id
      +++ required_issues title input.title
      +++ required_issues project input.project
      +++ required_issues summary input.summary
      +++ required_issues scope input.scope
      +++ date_issues updated input.updated
      +++ date_form valid_from (trimmed input.valid_from)
      +++ date_form valid_until (trimmed input.valid_until)
      +++ tag_issues input.tags
      +++ when (not (same_corpus input.corpus_id target_corpus)) wrong_corpus

  unfoldable pub section_issues : NoteType → String → List Issue
  unfolding extract_headings normalize_heading normalize_line_endings
  section_issues note_type body =
      missing_sections to_lower_case (extract_headings to_lower_case (normalize_line_endings body))
        (required_sections note_type)

  unfoldable pub violations_of : ValidateNoteRequest → List Issue
  unfolding frontmatter_issues normalize_frontmatter section_issues path_issues corpus_policy_issues
      text_le
  violations_of request =
      let normalized = normalize_frontmatter request.frontmatter in
      frontmatter_issues request.frontmatter request.target_corpus
      +++ path_issues request.target_corpus request.note_path
      +++ section_issues normalized.note_type request.body
      +++ corpus_policy_issues normalized request.note_path
      +++ when (ends_before normalized.valid_from normalized.valid_until) ends_before_start
      +++ supersede_issues normalized
      +++ mode_issues request.validation_mode normalized.status

  unfoldable pub validate : ValidateNoteRequest → ValidateNoteResponse
  unfolding violations_of normalize_frontmatter
  validate request =
      let normalized = normalize_frontmatter request.frontmatter in
      let violations = violations_of request in
      record {
        valid = is_empty violations;
        normalized_frontmatter = normalized;
        violations = violations;
        blocked_from_promotion =
            not (is_empty violations)
            || is_promotion request.validation_mode && is_draft normalized.status;
      }
