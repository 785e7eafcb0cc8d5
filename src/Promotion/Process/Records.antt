-- ===== src/Promotion/Process/Records.antt =====
-- The records of a promotion: packages/application/src/ports/metadata-control-store.ts, and what
-- promotion-orchestrator-service.ts builds of them.
use multi_agent_brain.Common.{
  ℕ, String, true, false, Option, none, some, List, [], ◌∷◌, ◌++◌, map, string_eq, ◌==◌, find,
  filter, includes, length, or_else, if◌then◌else◌,
}
use multi_agent_brain.Common.Text.{is_blank}
use multi_agent_brain.Common.Text.Split.{join_with}
use multi_agent_brain.Common.Effects.{Effect}
use multi_agent_brain.Common.Maps.{put}
use multi_agent_brain.Contracts.{ActorContext}
use multi_agent_brain.Notes.{
  CorpusId, CanonicalNoteRecord, StagingDraftRecord, MetadataNoteRecord, ChunkRecord,
  note_type_text,
}
use multi_agent_brain.Promotion.Outbox.{PromotionOutboxRecord}

pub record PromotionDecisionRecord : Type 0 where
  pub promotion_event_id : Option String
  pub draft_note_id : String
  pub canonical_note_id : String
  pub superseded_note_ids : List String
  pub promoted_at : String

pub record PromotionOutboxPayload : Type 0 where
  pub actor : ActorContext
  pub target_corpus : CorpusId
  pub canonical_writes : List CanonicalNoteRecord
  pub draft_update : StagingDraftRecord
  pub promotion_decision : PromotionDecisionRecord

abbrev pub Row : Type 0
Row = PromotionOutboxRecord PromotionOutboxPayload

pub record LexicalIndex (W : Type 0) : Type 0 where
  pub remove_by_note_id : String → Effect W (Unit {0})
  pub upsert_chunks : List ChunkRecord → Effect W (Unit {0})

-- `E` is an embedding, `none` where the provider returned too few.
pub record VectorIndex (W E : Type 0) : Type 0 where
  pub remove_by_note_id : String → Effect W (Unit {0})
  pub embed_texts : List String → Effect W (List E)
  pub upsert_embeddings : List (ChunkRecord × Option E) → Effect W (Unit {0})

-- The ports that the processing of an entry calls. The vector index stands for the index together
-- with the embedding provider, which are used where both are given. The chunking of a note and the
-- canonical note service are ports too.
pub record PromotionPorts (W E : Type 0) : Type 0 where
  pub write_canonical_note : CanonicalNoteRecord → Effect W CanonicalNoteRecord
  pub chunk_canonical_note : CanonicalNoteRecord → Effect W (List ChunkRecord)
  pub remove_chunks_by_note_id : String → Effect W (Unit {0})
  pub upsert_chunks : List ChunkRecord → Effect W (Unit {0})
  pub lexical_index : Option (LexicalIndex W)
  pub vector_index : Option (VectorIndex W E)
  pub update_draft : StagingDraftRecord → Effect W StagingDraftRecord
  pub upsert_note : MetadataNoteRecord → Effect W (Unit {0})
  pub regenerate_for_canonical_note : Option (CanonicalNoteRecord → Effect W (Unit {0}))

pub record PromotionState (W : Type 0) : Type 0 where
  pub world : W
  pub outbox : List Row
  pub events : List (String × PromotionDecisionRecord)

pub record ProcessedPromotionResult : Type 0 where
  pub outbox_id : String
  pub promoted_note_id : String
  pub canonical_path : String
  pub superseded_note_ids : List String
  pub chunk_count : ℕ
  pub promoted_chunks : List ChunkRecord
  pub snapshot_chunks : List ChunkRecord
  pub affected_note_ids : List String
  pub snapshot_note_path : Option String

pub data ProcessError : Type 0 where
  could_not_be_claimed : ProcessError
  processing_failed : (reason : String) → ProcessError

abbrev pub snapshot_tag : String
snapshot_tag = "topic/current-state-snapshot"

-- `parts.filter(Boolean).join("\n")`
abbrev non_blank_parts : List String → List String
non_blank_parts parts = filter (λ part. elim (is_blank part) [ true ↦ false | false ↦ true ]) parts

unfoldable pub build_embedding_text : ChunkRecord → String
build_embedding_text chunk = join_with "\n" (
    non_blank_parts (
      note_type_text chunk.note_type
      ∷ chunk.note_path
      ∷ join_with " > " chunk.heading_path
      ∷ chunk.summary
      ∷ chunk.scope
      ∷ (chunk.qualifiers ++ chunk.raw_text ∷ [])))

-- `chunks.map((chunk, index) => ({ ..., embedding: embeddings[index] }))`
abbrev pub with_embeddings :
    {E : Type 0} → List ChunkRecord → List E → List (ChunkRecord × Option E)
with_embeddings [] embeddings = []
with_embeddings (c ∷ chunks) [] = (c, none) ∷ with_embeddings chunks []
with_embeddings (c ∷ chunks) (e ∷ embeddings) = (c, some e) ∷ with_embeddings chunks embeddings

abbrev pub map_draft_metadata_record : StagingDraftRecord → MetadataNoteRecord
map_draft_metadata_record draft = record {
  note_id = draft.note_id;
  corpus_id = draft.corpus_id;
  note_path = draft.draft_path;
  note_type = draft.frontmatter.note_type;
  lifecycle_state = draft.lifecycle_state;
  revision = draft.revision;
  updated_at = draft.frontmatter.updated;
  current_state = draft.frontmatter.current_state;
  valid_from = draft.frontmatter.valid_from;
  valid_until = draft.frontmatter.valid_until;
  summary = some draft.frontmatter.summary;
  scope = some draft.frontmatter.scope;
  tags = some draft.frontmatter.tags;
  content_hash = none;
  semantic_signature = none;
}

-- What the loop over the canonical writes collects.
pub record Written : Type 0 where
  pub promoted_chunks : List ChunkRecord
  pub snapshot_chunks : List ChunkRecord
  pub snapshot_note_path : Option String
  pub promoted_canonical_note : Option CanonicalNoteRecord

abbrev pub nothing_written : Written
nothing_written = record {
  promoted_chunks = [];
  snapshot_chunks = [];
  snapshot_note_path = none;
  promoted_canonical_note = none;
}

abbrev pub collect_promoted : String → CanonicalNoteRecord → List ChunkRecord → Written → Written
collect_promoted canonical_id note chunks seen =
    if note.note_id == canonical_id
    then record seen { promoted_chunks = chunks; promoted_canonical_note = some note }
    else seen

abbrev pub collect_snapshot : CanonicalNoteRecord → List ChunkRecord → Written → Written
collect_snapshot note chunks seen =
    if includes note.frontmatter.tags snapshot_tag
    then record seen { snapshot_chunks = chunks; snapshot_note_path = some note.note_path }
    else seen

-- `canonicalWrites.find((note) => note.noteId === ...)?.notePath ?? ""`
abbrev pub canonical_path_of : PromotionOutboxPayload → String
canonical_path_of payload =
    elim (find (λ note. note.note_id == payload.promotion_decision.canonical_note_id)
      payload.canonical_writes) [ none ↦ "" | some note ↦ note.note_path ]

-- The ids of the notes at the snapshot's path, where there is one.
abbrev pub snapshot_note_ids : PromotionOutboxPayload → Option String → List String
snapshot_note_ids payload none = []
snapshot_note_ids payload (some path) =
    if is_blank path
    then []
    else map (λ note. note.note_id)
        (filter (λ note. note.note_path == path) payload.canonical_writes)

abbrev pub processed_result : String → PromotionOutboxPayload → Written → ProcessedPromotionResult
processed_result outbox_id payload w = record {
  outbox_id = outbox_id;
  promoted_note_id = payload.promotion_decision.canonical_note_id;
  canonical_path = canonical_path_of payload;
  superseded_note_ids = payload.promotion_decision.superseded_note_ids;
  chunk_count = length w.promoted_chunks;
  promoted_chunks = w.promoted_chunks;
  snapshot_chunks = w.snapshot_chunks;
  affected_note_ids =
      payload.promotion_decision.draft_note_id
      ∷ payload.promotion_decision.canonical_note_id
      ∷ (payload.promotion_decision.superseded_note_ids
          ++ snapshot_note_ids payload w.snapshot_note_path);
  snapshot_note_path = w.snapshot_note_path;
}

-- `INSERT ... ON CONFLICT(promotion_event_id) DO UPDATE`; `new_id` is `randomUUID()`.
unfoldable pub record_promotion :
    List (String × PromotionDecisionRecord)
    → String
    → PromotionDecisionRecord
    → List (String × PromotionDecisionRecord)
record_promotion events new_id decision =
    put events (or_else decision.promotion_event_id new_id) decision
