-- ===== src/Promotion/Plan.antt =====
-- What `promoteDraft` of packages/application/src/services/promotion-orchestrator-service.ts plans to
-- write.
pub mod Laws
use multi_agent_brain.Common.{
  ℕ, String, Bool, true, false, not, ◌&&◌, ◌||◌, Option, none, some, List, [], ◌∷◌, ◌++◌, map,
  string_eq, ◌==◌, filter, or_else, if◌then◌else◌,
}
use multi_agent_brain.Common.Text.{trim}
use multi_agent_brain.Common.Text.Split.{◌<>◌}
use multi_agent_brain.Common.Text.Slices.{slice_to}
use multi_agent_brain.Common.Maps.{to_set, set_add, set_delete}
use multi_agent_brain.Common.Results.{Result, ok, err}
use multi_agent_brain.Contracts.{ActorContext}
use multi_agent_brain.Notes.{
  CorpusId, NoteFrontmatter, CanonicalNoteRecord, StagingDraftRecord, promoted, superseded,
  corpus_text, same_note_type,
}
use multi_agent_brain.Notes.Slug.{slugify}
use multi_agent_brain.Canonical.{Texts, CanonicalNoteError, prepare_current_state_snapshot}
use multi_agent_brain.Promotion.Process.{PromotionOutboxPayload, PromotionDecisionRecord}

pub record PromoteNoteRequest : Type 0 where
  pub actor : ActorContext
  pub draft_note_id : String
  pub target_corpus : CorpusId
  pub expected_draft_revision : Option String
  pub target_path : Option String
  pub promote_as_current_state : Bool

-- What `randomUUID` and the clock give to a promotion.
pub record Fresh : Type 0 where
  pub promoted_note_id : String
  pub outbox_id : String
  pub event_id : String
  pub validated_on : String
  pub planned_on : String
  pub planned_at : String
  pub queued_at : String
  pub processed_at : String
  pub audited_at : String

unfoldable pub normalize_promoted_tags : List String → Bool → List String
unfolding to_set set_add
normalize_promoted_tags tags current_state =
    let kept =
      set_delete (set_delete (set_delete (to_set tags) "status/draft") "status/staged")
        "status/superseded" in
    let next = set_add kept "status/promoted" in
    if current_state then set_add next "status/current" else set_delete next "status/current"

unfoldable pub normalize_superseded_tags : List String → List String
unfolding to_set set_add
normalize_superseded_tags tags =
    set_add (set_delete (set_delete (to_set tags) "status/current") "status/promoted")
      "status/superseded"

abbrev pub candidate_frontmatter : Fresh → PromoteNoteRequest → NoteFrontmatter → NoteFrontmatter
candidate_frontmatter fresh request frontmatter = record frontmatter {
  note_id = fresh.promoted_note_id;
  status = promoted;
  updated = fresh.validated_on;
  corpus_id = request.target_corpus;
  current_state = request.promote_as_current_state;
  superseded_by = none;
  supersedes = some [];
}

-- The note as it is after another has taken its place.
unfoldable pub superseded_write : Fresh → CanonicalNoteRecord → CanonicalNoteRecord
unfolding normalize_superseded_tags
superseded_write fresh note = record note {
  frontmatter = record note.frontmatter {
    status = superseded;
    current_state = false;
    superseded_by = some fresh.promoted_note_id;
    updated = fresh.planned_on;
    tags =
        normalize_superseded_tags
          (filter (λ tag. not (tag == "status/current")) note.frontmatter.tags);
  };
}

unfoldable pub canonical_note :
    Fresh
    → PromoteNoteRequest
    → String
    → NoteFrontmatter
    → String
    → List CanonicalNoteRecord
    → CanonicalNoteRecord
unfolding normalize_promoted_tags
canonical_note fresh request target_path normalized body superseded_records = record {
  note_id = fresh.promoted_note_id;
  corpus_id = request.target_corpus;
  note_path = target_path;
  revision = "";
  frontmatter = record normalized {
    supersedes = some (map (λ note. note.note_id) superseded_records);
    tags = normalize_promoted_tags normalized.tags request.promote_as_current_state;
  };
  body = body;
}

abbrev pub promoted_draft_plan : Fresh → StagingDraftRecord → StagingDraftRecord
promoted_draft_plan fresh draft = record draft {
  lifecycle_state = promoted;
  frontmatter = record draft.frontmatter {
    status = promoted;
    updated = fresh.planned_on;
    current_state = false;
  };
}

unfoldable pub promotion_payload :
    Fresh
    → PromoteNoteRequest
    → StagingDraftRecord
    → CanonicalNoteRecord
    → List CanonicalNoteRecord
    → List CanonicalNoteRecord
    → PromotionOutboxPayload
unfolding superseded_write
promotion_payload fresh request draft note superseded_records snapshots = record {
  actor = request.actor;
  target_corpus = request.target_corpus;
  canonical_writes = map (superseded_write fresh) superseded_records ++ (note ∷ snapshots);
  draft_update = promoted_draft_plan fresh draft;
  promotion_decision = record {
    promotion_event_id = some fresh.outbox_id;
    draft_note_id = draft.note_id;
    canonical_note_id = fresh.promoted_note_id;
    superseded_note_ids = map (λ superseded_note. superseded_note.note_id) superseded_records;
    promoted_at = fresh.planned_at;
  };
}

module _ (texts : Texts) where
  unfoldable pub build_canonical_path : CorpusId → String → String → String
  unfolding slugify
  build_canonical_path target_corpus title note_id =
      corpus_text target_corpus
      <> "/"
      <> slugify texts.to_lower_case title
      <> "-"
      <> slice_to 8 note_id
      <> ".md"

  -- The current note of the same type and project with the same title or scope.
  unfoldable pub takes_place_of : NoteFrontmatter → CanonicalNoteRecord → Bool
  unfolding trim
  takes_place_of source note =
      let same = λ (s t : String). texts.to_lower_case (trim s) == texts.to_lower_case (trim t) in
      note.frontmatter.current_state
      && same_note_type note.frontmatter.note_type source.note_type
      && note.frontmatter.project == source.project
      && (same note.frontmatter.title source.title || same note.frontmatter.scope source.scope)

  unfoldable pub find_superseded_records :
      NoteFrontmatter → List CanonicalNoteRecord → List CanonicalNoteRecord
  unfolding takes_place_of
  find_superseded_records source notes = filter (takes_place_of source) notes

  abbrev pub one_snapshot :
      Result CanonicalNoteError CanonicalNoteRecord
      → Result CanonicalNoteError (List CanonicalNoteRecord)
  one_snapshot (ok snapshot) = ok (snapshot ∷ [])
  one_snapshot (err e) = err e

  unfoldable pub snapshot_writes :
      Bool → CanonicalNoteRecord → Result CanonicalNoteError (List CanonicalNoteRecord)
  unfolding prepare_current_state_snapshot
  snapshot_writes promote_as_current_state note =
      if promote_as_current_state
      then one_snapshot (prepare_current_state_snapshot texts note)
      else ok []
