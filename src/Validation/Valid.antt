-- ===== src/Validation/Valid.antt =====
-- What a valid note is, in words of its own, against `validate` of
-- packages/application/src/services/note-validation-service.ts.
pub mod Rules
use mathlib.Core.Option.{some-injective, none-ne-some}
use multi_agent_brain.Common.{
  String, arith, ◌≡◌, ◌≢◌, ◌⊎◌, inl, inr, Bool, false, not, ◌&&◌, ◌∙◌, Option, none, some, List, [],
  All, Elem, here, there, includes-Elem, Elem-includes, Bool-cases, is_some, string_eq, subst,
}
use multi_agent_brain.Common.Text.Split.{◌<>◌}
use multi_agent_brain.Common.Text.Search.{starts_with}
use multi_agent_brain.Common.Text.Parts.{starts_with_iff, ends_with_iff, lacks_iff}
use multi_agent_brain.Common.Sort.{text_le}
use multi_agent_brain.Notes.{
  NoteLifecycleState, draft, staged, validated, promoted, superseded, rejected, archived, CorpusId,
  context_brain, general_notes, NoteFrontmatter, corpus_text, is_general,
}
use multi_agent_brain.Validation.Headings.{extract_headings, normalize_heading}
use multi_agent_brain.Validation.Texts.{
  IsDateText, is_date_iff, normalize_path_string, normalize_line_endings,
}
use multi_agent_brain.Validation.Service.{
  ValidationMode, draft_mode, promotion_mode, ValidateNoteRequest, required_sections, same_corpus,
  ends_before, normalize_tags,
}
use multi_agent_brain.Validation.Service.Laws.{
  ◌also◌, HasText, OptionalDate, IsInCorpus, AllowsState,
}
unfoldable pub use Rules.*

module _ (to_lower_case : String → String) (allowed_tags : List String) where
  -- Tags are given, and each of them is allowed once it is normalised.
  abbrev pub HasAllowedTags : List String → Type 0
  HasAllowedTags tags =
      (tags ≢ [])
      × ((tag : String)
          → Elem tag (normalize_tags to_lower_case allowed_tags tags)
          → Elem tag allowed_tags)

  -- A general note is not current: not by its flag, its tags or its path.
  abbrev pub IsPlainIfGeneral : NoteFrontmatter → String → Type 0
  IsPlainIfGeneral note path =
      note.corpus_id ≡ general_notes
      → (note.current_state ≡ false)
        also (Elem "status/current" (normalize_tags to_lower_case allowed_tags note.tags) → ⊥)
        also ((name : String) → path ≢ "general_notes/current-state/" <> name)

  -- The note's own fields.
  abbrev pub HasFields : NoteFrontmatter → CorpusId → Type 0
  HasFields note corpus =
      HasText note.note_id
      also HasText note.title
      also HasText note.project
      also HasText note.summary
      also HasText note.scope
      also (HasText note.updated also IsDateField (some note.updated))
      also IsDateField note.valid_from
      also IsDateField note.valid_until
      also HasAllowedTags note.tags
      also (note.corpus_id ≡ corpus)

  -- What a valid note is.
  abbrev pub IsValidNote : ValidateNoteRequest → Type 0
  IsValidNote request =
      let note = request.frontmatter in
      let path = normalize_path_string request.note_path in
      HasFields note request.target_corpus
      also IsMarkdownBelow request.target_corpus path
      also ((section : String)
          → Elem section (required_sections note.note_type)
          → Elem (normalize_heading to_lower_case section)
              (extract_headings to_lower_case (normalize_line_endings request.body)))
      also IsPlainIfGeneral note path
      also IsOrderedSpan note.valid_from note.valid_until
      also HasRightSuccessor note
      also FitsMode request.validation_mode note.status
