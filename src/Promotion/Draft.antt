-- ===== src/Promotion/Draft.antt =====
-- `promoteDraft` of packages/application/src/services/promotion-orchestrator-service.ts.
-- The services that it calls are ports over the state `W`. The audit log answers, and does not throw.
pub mod Laws
mod Examples
use multi_agent_brain.Common.{
  ℕ, String, Bool, true, false, not, ◌&&◌, ◌||◌, Option, none, some, List, [], ◌∷◌, ◌++◌, map,
  string_eq, ◌==◌, find, or_else, if◌then◌else◌,
}
use multi_agent_brain.Common.Text.{is_blank}
use multi_agent_brain.Common.Results.{Result, ok, err}
use multi_agent_brain.Common.Effects.{Effect, Program, ◌>>=◌, ◌>>◌, pure, throw}
use multi_agent_brain.Contracts.{ActorContext, ActorRole, orchestrator, operator, system}
use multi_agent_brain.Notes.{
  CorpusId, NoteFrontmatter, CanonicalNoteRecord, StagingDraftRecord, MetadataNoteRecord,
  ChunkRecord, is_superseded,
}
use multi_agent_brain.Canonical.{Texts, CanonicalNoteError, build_semantic_signature}
use multi_agent_brain.Promotion.Outbox.{enqueue_promotion_outbox}
use multi_agent_brain.Promotion.Process.{
  PromotionPorts, PromotionState, PromotionOutboxPayload, ProcessedPromotionResult, ProcessError,
  process_promotion_outbox_entry,
}
use multi_agent_brain.Promotion.Plan.{
  PromoteNoteRequest, Fresh, candidate_frontmatter, canonical_note, promotion_payload,
  build_canonical_path, find_superseded_records, snapshot_writes,
}

pub record ValidateNoteResponse : Type 0 where
  pub valid : Bool
  pub normalized_frontmatter : Option NoteFrontmatter

pub record AuditAction : Type 0 where
  pub actor : ActorContext
  pub occurred_at : String
  pub accepted : Bool
  pub affected_note_ids : List String
  pub affected_chunk_ids : List String

pub record PromoteServices (W : Type 0) : Type 0 where
  pub get_draft : String → Effect W (Option StagingDraftRecord)
  pub validate : PromoteNoteRequest → String → NoteFrontmatter → String → ValidateNoteResponse
  pub find_potential_duplicates : CorpusId → String → String → Effect W (List MetadataNoteRecord)
  pub list_canonical_notes : CorpusId → Effect W (List CanonicalNoteRecord)
  pub record_action : AuditAction → W → W × Result String String

-- Why nothing was queued.
pub data Rejection : Type 0 where
  forbidden not_found revision_conflict validation_failed : Rejection
  duplicate_detected : (note_id note_path : String) → Rejection
  no_snapshot : CanonicalNoteError → Rejection
  thrown : (reason : String) → Rejection

pub data PromoteFailure : Type 0 where
  rejected : Rejection → PromoteFailure
  not_processed : (outbox_id : String) → ProcessError → PromoteFailure

pub record PromoteNoteResponse : Type 0 where
  pub promoted_note_id : String
  pub canonical_path : String
  pub superseded_note_ids : List String
  pub chunk_count : ℕ
  pub audit_entry_id : String

-- `PROMOTION_ROLES`
abbrev pub may_promote : ActorRole → Bool
may_promote role = elim role [ orchestrator ↦ true | operator ↦ true | system ↦ true | _ ↦ false ]

abbrev pub revision_differs : Option String → String → Bool
revision_differs none revision = false
revision_differs (some expected) revision = not (is_blank expected) && not (revision == expected)

-- `duplicates.find(...)`
abbrev pub exact_duplicate : String → List MetadataNoteRecord → Option MetadataNoteRecord
exact_duplicate content_hash duplicates =
    find
      (λ duplicate.
        not (is_superseded duplicate.lifecycle_state)
        && (elim duplicate.content_hash [ none ↦ false | some hash ↦ hash == content_hash ]))
      duplicates

abbrev pub accepted_frontmatter : ValidateNoteResponse → Option NoteFrontmatter
accepted_frontmatter response = if response.valid then response.normalized_frontmatter else none

module _ {W E : Type 0} (texts : Texts) (services : PromoteServices W) (ports : PromotionPorts W E)
    (fresh : Fresh) where
  abbrev pub Step : Type 0 → Type 0
  Step A = Program (PromotionState W) PromoteFailure A

  abbrev pub lifted :
      {A : Type 0}
      → PromotionState W
      → W × Result String A
      → PromotionState W × Result PromoteFailure A
  lifted s (w, ok a) = (record s { world = w }, ok a)
  lifted s (w, err reason) = (record s { world = w }, err (rejected (thrown reason)))

  abbrev pub lift : {A : Type 0} → Effect W A → Step A
  lift m s = lifted s (m s.world)

  -- `recordAuditForRejection`, and the error that is answered.
  unfoldable pub reject : {A : Type 0} → PromoteNoteRequest → List String → Rejection → Step A
  reject request affected_note_ids why s =
      let entry : AuditAction = record {
        actor = request.actor;
        occurred_at = fresh.audited_at;
        accepted = false;
        affected_note_ids = affected_note_ids;
        affected_chunk_ids = [];
      } in
      (record s { world = (services.record_action entry s.world).0 }, err (rejected why))

  unfoldable pub found_draft :
      PromoteNoteRequest → Option StagingDraftRecord → Step StagingDraftRecord
  unfolding reject
  found_draft request none = reject request [] not_found
  found_draft request (some draft) =
      if revision_differs request.expected_draft_revision draft.revision
      then reject request (draft.note_id ∷ []) revision_conflict
      else pure draft

  unfoldable pub accept :
      PromoteNoteRequest → StagingDraftRecord → Option NoteFrontmatter → Step NoteFrontmatter
  unfolding reject
  accept request draft none = reject request (draft.note_id ∷ []) validation_failed
  accept request draft (some normalized) = pure normalized

  unfoldable pub refuse_duplicate :
      PromoteNoteRequest → StagingDraftRecord → Option MetadataNoteRecord → Step (Unit {0})
  unfolding reject
  refuse_duplicate request draft none = pure tt
  refuse_duplicate request draft (some duplicate) =
      reject request (draft.note_id ∷ duplicate.note_id ∷ [])
        (duplicate_detected duplicate.note_id duplicate.note_path)

  unfoldable pub superseded_records :
      PromoteNoteRequest → NoteFrontmatter → Step (List CanonicalNoteRecord)
  unfolding find_superseded_records
  superseded_records request source = if not request.promote_as_current_state then pure [] else do
    notes ← lift (services.list_canonical_notes request.target_corpus)
    pure (find_superseded_records texts source notes)

  unfoldable pub prepared :
      PromoteNoteRequest
      → StagingDraftRecord
      → Result CanonicalNoteError (List CanonicalNoteRecord)
      → Step (List CanonicalNoteRecord)
  unfolding reject
  prepared request draft (ok snapshots) = pure snapshots
  prepared request draft (err e) = reject request (draft.note_id ∷ []) (no_snapshot e)

  unfoldable pub plan_promotion : PromoteNoteRequest → Step PromotionOutboxPayload
  unfolding found_draft accept refuse_duplicate superseded_records prepared build_canonical_path
      canonical_note promotion_payload snapshot_writes
  plan_promotion request = do
    found ← lift (services.get_draft request.draft_note_id)
    draft ← found_draft request found
    let path = or_else request.target_path (
        build_canonical_path texts request.target_corpus draft.frontmatter.title
          fresh.promoted_note_id)
    normalized ← accept request draft (
        accepted_frontmatter (
          services.validate request path (candidate_frontmatter fresh request draft.frontmatter)
            draft.body))
    let content_hash = texts.hash_text draft.body
    duplicates ← lift (
        services.find_potential_duplicates request.target_corpus content_hash
          (build_semantic_signature texts normalized.title normalized.summary normalized.scope))
    refuse_duplicate request draft (exact_duplicate content_hash duplicates)
    superseded ← superseded_records request draft.frontmatter
    let note = canonical_note fresh request path normalized draft.body superseded
    snapshots ← prepared request draft (snapshot_writes texts request.promote_as_current_state note)
    pure (promotion_payload fresh request draft note superseded snapshots)

  abbrev pub response_of : ProcessedPromotionResult → Result String String → PromoteNoteResponse
  response_of processed audit = record {
    promoted_note_id = processed.promoted_note_id;
    canonical_path = processed.canonical_path;
    superseded_note_ids = processed.superseded_note_ids;
    chunk_count = processed.chunk_count;
    audit_entry_id = elim audit [ ok id ↦ id | err message ↦ "" ];
  }

  abbrev accepted_entry : PromoteNoteRequest → ProcessedPromotionResult → AuditAction
  accepted_entry request processed = record {
    actor = request.actor;
    occurred_at = fresh.audited_at;
    accepted = true;
    affected_note_ids = processed.affected_note_ids;
    affected_chunk_ids =
        map (λ chunk. chunk.chunk_id) processed.promoted_chunks
        ++ map (λ chunk. chunk.chunk_id) processed.snapshot_chunks;
  }

  unfoldable pub after_processing :
      PromoteNoteRequest
      → PromotionState W × Result ProcessError ProcessedPromotionResult
      → PromotionState W × Result PromoteFailure PromoteNoteResponse
  after_processing request (s, err e) = (s, err (not_processed fresh.outbox_id e))
  after_processing request (s, ok processed) =
      let (w, audit) = services.record_action (accepted_entry request processed) s.world in
      (record s { world = w }, ok (response_of processed audit))

  unfoldable pub queue_and_process :
      PromoteNoteRequest → PromotionOutboxPayload → Step PromoteNoteResponse
  unfolding after_processing process_promotion_outbox_entry enqueue_promotion_outbox
  queue_and_process request payload s =
      let (outbox, queued) =
        enqueue_promotion_outbox s.outbox fresh.queued_at fresh.outbox_id payload in
      after_processing request (
        process_promotion_outbox_entry ports fresh.processed_at fresh.event_id queued.outbox_id
          (record s { outbox = outbox }))

  unfoldable pub promote_draft : PromoteNoteRequest → Step PromoteNoteResponse
  unfolding plan_promotion queue_and_process
  promote_draft request =
      if not (may_promote request.actor.actor_role)
      then throw (rejected forbidden)
      else do payload ← plan_promotion request; queue_and_process request payload
