-- ===== src/Validation/Writable.antt =====
-- Validation against the policy that the canonical note service applies when it writes: a promotion
-- that passes the one passes the other, where its path is plain.
use multi_agent_brain.Common.{
  String, ◌≡◌, refl, sym, ap, ◌∙◌, Bool, true, false, not, ◌&&◌, false≢true, none, some, List,
  includes, string_eq, if◌then◌else◌,
}
use multi_agent_brain.Common.Text.Split.{◌<>◌}
use multi_agent_brain.Common.Text.Search.{starts_with, to_slashes}
use multi_agent_brain.Common.Maps.{to_set, set_add, set_delete, includes-set_delete}
use multi_agent_brain.Notes.{
  CorpusId, context_brain, general_notes, CanonicalNoteRecord, is_general, corpus_text,
}
use multi_agent_brain.Canonical.{
  validate_canonical_corpus_policy, outside_corpus_root, general_current_state, general_current_tag,
}
use multi_agent_brain.Promotion.Plan.{
  PromoteNoteRequest, Fresh, canonical_note, normalize_promoted_tags,
}
use multi_agent_brain.Validation.Texts.{normalize_path_string}
use multi_agent_brain.Validation.Service.{
  ValidateNoteRequest, same_corpus, normalize_frontmatter, normalize_tags, validate,
}
use multi_agent_brain.Validation.Service.Laws.{validate_checks_iff}

same_general : (a b : CorpusId) → same_corpus a b ≡ true → is_general b ≡ true → is_general a ≡ true
same_general general_notes b same general = refl
same_general context_brain general_notes same general = same
same_general context_brain context_brain same general = general

not_current_tag :
    (tags : List String) (current : Bool)
    → current ≡ false
    → includes (normalize_promoted_tags tags current) "status/current" ≡ false
unfolding normalize_promoted_tags
not_current_tag tags true off = absurd (false≢true (sym off))
not_current_tag tags false off =
    let kept =
      set_delete (set_delete (set_delete (to_set tags) "status/draft") "status/staged")
        "status/superseded" in
    includes-set_delete (set_add kept "status/promoted") "status/current"

policy_passes :
    (inside general current tagged : Bool)
    → inside ≡ true
    → (general ≡ true → (current ≡ false) × (tagged ≡ false))
    → (if not inside
        then some outside_corpus_root
        else if general && current
        then some general_current_state
        else if general && tagged
        then some general_current_tag
        else none)
      ≡ none
policy_passes true false current tagged within rule = refl
policy_passes true true current tagged within rule =
    let (off, bare) = rule refl in rw (off, bare) refl
policy_passes false general current tagged within rule = absurd (false≢true within)

module _ (to_lower_case : String → String) (allowed_tags : List String) where
  -- Where a note is valid, its path has no slash or space before the corpus and no space at its end,
  -- and it is promoted to the corpus and the state for which it was validated, the canonical note
  -- that is planned is not refused by the corpus policy when it is written.
  pub valid_promotion-IsWritable :
      (request : ValidateNoteRequest) (fresh : Fresh) (promotion : PromoteNoteRequest)
      (superseded_records : List CanonicalNoteRecord)
      → (validate to_lower_case allowed_tags request).valid ≡ true
      → normalize_path_string request.note_path ≡ to_slashes request.note_path
      → promotion.target_corpus ≡ request.target_corpus
      → promotion.promote_as_current_state ≡ request.frontmatter.current_state
      → validate_canonical_corpus_policy (
          canonical_note fresh promotion request.note_path
            (validate to_lower_case allowed_tags request).normalized_frontmatter
            request.body
            superseded_records)
        ≡ none
  unfolding validate_canonical_corpus_policy canonical_note validate normalize_frontmatter
  valid_promotion-IsWritable request fresh promotion superseded_records valid plain corpus state =
      let (fields, ((named, (within, clean)), (sections, (general_policy, rest)))) =
        (validate_checks_iff to_lower_case allowed_tags request).0 valid in
      let same = fields.1.1.1.1.1.1.1.1.1 in
      let root : starts_with (to_slashes request.note_path)
            (corpus_text promotion.target_corpus <> "/")
          ≡ true =
        ap (λ c. starts_with (to_slashes request.note_path) (corpus_text c <> "/")) corpus
        ∙ ap (λ p. starts_with p (corpus_text request.target_corpus <> "/")) (sym plain)
        ∙ within in
      let note =
        canonical_note fresh promotion request.note_path
          (normalize_frontmatter to_lower_case allowed_tags request.frontmatter) request.body
          superseded_records in
      policy_passes
        (starts_with (to_slashes request.note_path) (corpus_text promotion.target_corpus <> "/"))
        (is_general promotion.target_corpus) request.frontmatter.current_state
        (includes note.frontmatter.tags "status/current") root
        λ general.
          let off =
            (general_policy (
              same_general request.frontmatter.corpus_id request.target_corpus same
                (ap is_general (sym corpus) ∙ general))).0 in
          (
            off,
            not_current_tag (normalize_tags to_lower_case allowed_tags request.frontmatter.tags)
                promotion.promote_as_current_state (state ∙ off),
          )
