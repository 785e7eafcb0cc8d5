-- ===== src/Promotion/Process.antt =====
-- `processPromotionOutboxEntry` and `syncChunkState` of
-- packages/application/src/services/promotion-orchestrator-service.ts.
-- The services, indexes and notes behind the ports are a state `W`; the outbox and the promotion
-- events are the tables of the metadata control store.
pub mod Records
pub mod Laws
use multi_agent_brain.Common.{
  ℕ, String, Bool, true, false, Option, none, some, List, [], ◌∷◌, ◌++◌, map, string_eq, ◌==◌, find,
  filter, includes, length, or_else, is_empty, if◌then◌else◌,
}
use multi_agent_brain.Common.Text.{is_blank}
use multi_agent_brain.Common.Text.Split.{join_with}
use multi_agent_brain.Common.Results.{Result, ok, err}
use multi_agent_brain.Common.Effects.{Effect, ◌>>=◌, ◌>>◌, pure}
use multi_agent_brain.Common.Maps.{put}
use multi_agent_brain.Contracts.{ActorContext}
use multi_agent_brain.Notes.{
  CorpusId, NoteFrontmatter, CanonicalNoteRecord, StagingDraftRecord, MetadataNoteRecord,
  ChunkRecord, note_type_text,
}
use multi_agent_brain.Promotion.Outbox.{
  PromotionOutboxRecord, pending, failed, processing, claim_promotion_outbox_entry,
  complete_promotion_outbox_entry, fail_promotion_outbox_entry, list_promotion_outbox_entries,
}
unfoldable pub use Records.*

module _ {W E : Type 0} (ports : PromotionPorts W E) where
  abbrev pub sync_lexical :
      Option (LexicalIndex W) → String → List ChunkRecord → Effect W (Unit {0})
  sync_lexical none note_id chunks = pure tt
  sync_lexical (some index) note_id chunks = do
    index.remove_by_note_id note_id
    index.upsert_chunks chunks

  unfoldable pub sync_vector :
      Option (VectorIndex W E) → String → List ChunkRecord → Effect W (Unit {0})
  unfolding build_embedding_text
  sync_vector none note_id chunks = pure tt
  sync_vector (some index) note_id chunks = do
    index.remove_by_note_id note_id
    embeddings ← index.embed_texts (map build_embedding_text chunks)
    index.upsert_embeddings (with_embeddings chunks embeddings)

  unfoldable pub sync_chunk_state : String → List ChunkRecord → Effect W (Unit {0})
  unfolding sync_vector
  sync_chunk_state note_id chunks = do
    ports.remove_chunks_by_note_id note_id
    ports.upsert_chunks chunks
    sync_lexical ports.lexical_index note_id chunks
    sync_vector ports.vector_index note_id chunks

  unfoldable pub write_canonical_notes :
      String → Written → List CanonicalNoteRecord → Effect W Written
  unfolding sync_chunk_state
  write_canonical_notes canonical_id seen [] = pure seen
  write_canonical_notes canonical_id seen (note ∷ notes) = do
    persisted ← ports.write_canonical_note note
    chunks ← ports.chunk_canonical_note persisted
    sync_chunk_state persisted.note_id chunks
    write_canonical_notes canonical_id
        (collect_snapshot persisted chunks (collect_promoted canonical_id persisted chunks seen))
        notes

  unfoldable pub update_promoted_draft : StagingDraftRecord → Effect W (Unit {0})
  update_promoted_draft draft = do
    promoted_draft ← ports.update_draft draft
    ports.upsert_note (map_draft_metadata_record promoted_draft)

  -- What is thrown here is caught and dropped.
  abbrev pub regenerate :
      Option (CanonicalNoteRecord → Effect W (Unit {0})) → Option CanonicalNoteRecord → W → W
  regenerate (some service) (some promoted_note) w = (service promoted_note w).0
  regenerate none _ w = w
  regenerate (some service) none w = w

  -- The `catch` of the processing.
  unfoldable pub fail_entry :
      String
      → String
      → String
      → PromotionState W
      → PromotionState W × Result ProcessError ProcessedPromotionResult
  unfolding fail_promotion_outbox_entry
  fail_entry now id reason s = (
    record s { outbox = fail_promotion_outbox_entry s.outbox now id reason },
    err (processing_failed reason),
  )

  unfoldable pub after_draft :
      String
      → String
      → PromotionOutboxPayload
      → Written
      → PromotionState W
      → W × Result String (Unit {0})
      → PromotionState W × Result ProcessError ProcessedPromotionResult
  unfolding fail_entry complete_promotion_outbox_entry
  after_draft now id payload written s (w, err reason) =
      fail_entry now id reason (record s { world = w })
  after_draft now id payload written s (w, ok done) = (
    record s {
      world = regenerate ports.regenerate_for_canonical_note written.promoted_canonical_note w;
      outbox = complete_promotion_outbox_entry s.outbox now id;
    },
    ok (processed_result id payload written),
  )

  unfoldable pub after_writes :
      String
      → String
      → String
      → PromotionOutboxPayload
      → PromotionState W
      → W × Result String Written
      → PromotionState W × Result ProcessError ProcessedPromotionResult
  unfolding after_draft record_promotion update_promoted_draft
  after_writes now new_id id payload s (w, err reason) =
      fail_entry now id reason (record s { world = w })
  after_writes now new_id id payload s (w, ok written) =
      after_draft now id payload written
        (record s {
          world = w;
          events = record_promotion s.events new_id payload.promotion_decision;
        })
        (update_promoted_draft payload.draft_update w)

  unfoldable pub process_claimed :
      String
      → String
      → String
      → PromotionState W
      → List Row × Option Row
      → PromotionState W × Result ProcessError ProcessedPromotionResult
  unfolding after_writes write_canonical_notes
  process_claimed now new_id id s (outbox, none) =
      (record s { outbox = outbox }, err could_not_be_claimed)
  process_claimed now new_id id s (outbox, some row) =
      after_writes now new_id id row.payload (record s { outbox = outbox })
        (write_canonical_notes row.payload.promotion_decision.canonical_note_id nothing_written
          row.payload.canonical_writes s.world)

  unfoldable pub process_promotion_outbox_entry :
      String
      → String
      → String
      → PromotionState W
      → PromotionState W × Result ProcessError ProcessedPromotionResult
  unfolding process_claimed claim_promotion_outbox_entry
  process_promotion_outbox_entry now new_id id s =
      process_claimed now new_id id s (claim_promotion_outbox_entry s.outbox now id)
