-- ===== src/Validation/Service/Laws.antt =====
-- When a note has no issue, check by check.
pub mod Rules
use multi_agent_brain.Common.{
  String, ◌≡◌, ◌↔◌, refl, sym, subst, inl, inr, Bool, true, false, not, ◌&&◌, false≢true, Option,
  none, some, List, [], ◌∷◌, ◌++◌, All, includes, is_empty, is_some, Bool-cases, string_eq,
}
use mathlib.Core.Option.{some-injective, none-ne-some}
use multi_agent_brain.Common.Text.{trimmed}
use multi_agent_brain.Common.Text.Split.{◌<>◌}
use multi_agent_brain.Common.Text.Search.{starts_with, ends_with, contains}
use multi_agent_brain.Notes.{
  NoteLifecycleState, CorpusId, NoteFrontmatter, corpus_text, is_general, is_superseded,
}
use multi_agent_brain.Validation.Headings.{extract_headings, normalize_heading}
use multi_agent_brain.Validation.Texts.{is_date, normalize_path_string, normalize_line_endings}
use multi_agent_brain.Validation.Service.{
  Field, Issue, ValidationMode, draft_mode, promotion_mode, ValidateNoteRequest, required_sections,
  when, required_issues, date_form, date_issues, same_corpus, may_be_drafted, may_be_promoted,
  mode_issues, ends_before, path_issues, corpus_policy_issues, supersede_issues, missing_sections,
  uncontrolled, normalize_tags, tag_issues, normalize_frontmatter, frontmatter_issues,
  section_issues, violations_of, validate,
}
unfoldable pub use Rules.*

-- A current note names no successor, and a superseded one does.
abbrev pub KeepsSuccession : NoteFrontmatter → Type 0
KeepsSuccession frontmatter =
    ((frontmatter.current_state && is_some frontmatter.superseded_by) ≡ false)
    × ((not frontmatter.current_state
          && not (is_some frontmatter.superseded_by)
          && is_superseded frontmatter.status)
        ≡ false)

succession_iff :
    (frontmatter : NoteFrontmatter)
    → (NoneOf (supersede_issues frontmatter) ↔ KeepsSuccession frontmatter)
succession_iff frontmatter =
    append_iff
      (when (frontmatter.current_state && is_some frontmatter.superseded_by)
        Issue.superseded_current)
      (when
        (not frontmatter.current_state
          && not (is_some frontmatter.superseded_by)
          && is_superseded frontmatter.status)
        Issue.superseded_by_none)
      (when_iff (frontmatter.current_state && is_some frontmatter.superseded_by)
        Issue.superseded_current)
      (when_iff
        (not frontmatter.current_state
          && not (is_some frontmatter.superseded_by)
          && is_superseded frontmatter.status)
        Issue.superseded_by_none)

abbrev pub AllowsState : ValidationMode → NoteLifecycleState → Type 0
AllowsState draft_mode state = may_be_drafted state ≡ true
AllowsState promotion_mode state = may_be_promoted state ≡ true

mode_iff :
    (mode : ValidationMode) (state : NoteLifecycleState)
    → (NoneOf (mode_issues mode state) ↔ AllowsState mode state)
mode_iff draft_mode state = unless_iff (may_be_drafted state) Issue.not_a_draft
mode_iff promotion_mode state = unless_iff (may_be_promoted state) Issue.not_promotable

module _ (to_lower_case : String → String) (allowed_tags : List String) where
  -- Tags are given, and each is controlled once it is normalised.
  abbrev pub HasControlledTags : List String → Type 0
  HasControlledTags tags =
      (is_empty tags ≡ false)
      × All (λ t. includes allowed_tags t ≡ true) (normalize_tags to_lower_case allowed_tags tags)

  tags_iff :
      (tags : List String)
      → (NoneOf (tag_issues to_lower_case allowed_tags tags) ↔ HasControlledTags tags)
  unfolding tag_issues
  tags_iff [] = (λ h. absurd (false≢true h), λ (h, k). absurd (false≢true (sym h)))
  tags_iff (t ∷ tags) =
      let (to, from) =
        uncontrolled_iff allowed_tags (normalize_tags to_lower_case allowed_tags (t ∷ tags)) in
      (λ h. (refl, to h), λ (h, k). from k)

  abbrev pub HasFrontmatter : NoteFrontmatter → CorpusId → Type 0
  HasFrontmatter input target_corpus =
      HasText input.note_id
      also HasText input.title
      also HasText input.project
      also HasText input.summary
      also HasText input.scope
      also (HasText input.updated also OptionalDate (some input.updated))
      also OptionalDate input.valid_from
      also OptionalDate input.valid_until
      also HasControlledTags input.tags
      also (same_corpus input.corpus_id target_corpus ≡ true)

  frontmatter_iff :
      (input : NoteFrontmatter) (target : CorpusId)
      → (NoneOf (frontmatter_issues to_lower_case allowed_tags input target)
          ↔ HasFrontmatter input target)
  unfolding frontmatter_issues
  frontmatter_iff input target =
      append_iff (required_issues Field.note_id input.note_id) _
        (required_iff Field.note_id input.note_id)
        (append_iff (required_issues Field.title input.title) _
          (required_iff Field.title input.title)
          (append_iff (required_issues Field.project input.project) _
            (required_iff Field.project input.project)
            (append_iff (required_issues Field.summary input.summary) _
              (required_iff Field.summary input.summary)
              (append_iff (required_issues Field.scope input.scope) _
                (required_iff Field.scope input.scope)
                (append_iff (date_issues Field.updated input.updated) _
                  (append_iff (required_issues Field.updated input.updated)
                    (date_form Field.updated (trimmed (some input.updated)))
                    (required_iff Field.updated input.updated)
                    (date_form_iff Field.updated (trimmed (some input.updated))))
                  (append_iff (date_form Field.valid_from (trimmed input.valid_from)) _
                    (date_form_iff Field.valid_from (trimmed input.valid_from))
                    (append_iff (date_form Field.valid_until (trimmed input.valid_until)) _
                      (date_form_iff Field.valid_until (trimmed input.valid_until))
                      (append_iff (tag_issues to_lower_case allowed_tags input.tags)
                        (when (not (same_corpus input.corpus_id target)) Issue.wrong_corpus)
                        (tags_iff input.tags)
                        (unless_iff (same_corpus input.corpus_id target) Issue.wrong_corpus)))))))))

  -- The checks that a valid note passes.
  abbrev pub PassesChecks : ValidateNoteRequest → Type 0
  PassesChecks request =
      let normalized = normalize_frontmatter to_lower_case allowed_tags request.frontmatter in
      HasFrontmatter request.frontmatter request.target_corpus
      also IsInCorpus request.target_corpus request.note_path
      also All
          (λ section.
            includes (extract_headings to_lower_case (normalize_line_endings request.body))
              (normalize_heading to_lower_case section)
            ≡ true)
          (required_sections normalized.note_type)
      also KeepsGeneralPolicy normalized request.note_path
      also (ends_before normalized.valid_from normalized.valid_until ≡ false)
      also KeepsSuccession normalized
      also AllowsState request.validation_mode normalized.status

  -- A note is valid exactly where it passes them.
  pub validate_checks_iff :
      (request : ValidateNoteRequest)
      → ((validate to_lower_case allowed_tags request).valid ≡ true) ↔ PassesChecks request
  unfolding validate violations_of section_issues
  validate_checks_iff request =
      let normalized = normalize_frontmatter to_lower_case allowed_tags request.frontmatter in
      append_iff
        (frontmatter_issues to_lower_case allowed_tags request.frontmatter request.target_corpus) _
        (frontmatter_iff request.frontmatter request.target_corpus)
        (append_iff (path_issues request.target_corpus request.note_path) _
          (path_iff request.target_corpus request.note_path)
          (append_iff (section_issues to_lower_case allowed_tags normalized.note_type request.body)
            _
            (missing_iff to_lower_case
              (extract_headings to_lower_case (normalize_line_endings request.body))
              (required_sections normalized.note_type))
            (append_iff (corpus_policy_issues normalized request.note_path) _
              (policy_iff normalized request.note_path)
              (append_iff
                (when (ends_before normalized.valid_from normalized.valid_until)
                  Issue.ends_before_start)
                _
                (when_iff (ends_before normalized.valid_from normalized.valid_until)
                  Issue.ends_before_start)
                (append_iff (supersede_issues normalized)
                  (mode_issues request.validation_mode normalized.status)
                  (succession_iff normalized)
                  (mode_iff request.validation_mode normalized.status))))))
