-- ===== src/Promotion/Examples.antt =====
-- Ports, an outbox and a draft at which the theorems about promotions are applied.
use multi_agent_brain.Common.{
  ℕ, String, ◌≡◌, refl, ap, false, none, some, List, [], ◌∷◌, ◌++◌, arith, string_eq,
}
use multi_agent_brain.Common.Effects.{Effect}
use multi_agent_brain.Common.Results.{ok, err}
use multi_agent_brain.Common.Sort.{sort_by}
use multi_agent_brain.Common.Maps.{put}
use multi_agent_brain.Contracts.{ActorContext, operator, internal}
use multi_agent_brain.Notes.{
  context_brain, decision, promoted, NoteFrontmatter, CanonicalNoteRecord, StagingDraftRecord,
}
use multi_agent_brain.Promotion.Outbox.{
  failed, completed, get_promotion_outbox_entry, claim_promotion_outbox_entry, claim_found,
  update_row, complete_promotion_outbox_entry, fail_promotion_outbox_entry,
  list_promotion_outbox_entries,
}
use multi_agent_brain.Promotion.Process.{
  Row, PromotionPorts, PromotionState, PromotionDecisionRecord, PromotionOutboxPayload,
  could_not_be_claimed, process_promotion_outbox_entry, process_claimed, after_writes, after_draft,
  fail_entry, record_promotion, write_canonical_notes, update_promoted_draft, sync_chunk_state,
  sync_vector,
}
use multi_agent_brain.Promotion.Process.Laws.{
  IsSettled, process-IsSettled, process_finished, process_other,
}
use multi_agent_brain.Promotion.Replay.{replay_entries, replay_pending_promotions}
use multi_agent_brain.Promotion.Replay.Laws.{IsReliable, replay_completes_all}

-- A service that writes its call down and returns.
abbrev pub logged : {A : Type 0} → String → A → Effect (List String) A
logged name answer log = (log ++ name ∷ [], ok answer)

abbrev pub ports : PromotionPorts (List String) ℕ
ports = record {
  write_canonical_note = λ note. logged "write" note;
  chunk_canonical_note = λ note. logged "chunk" [];
  remove_chunks_by_note_id = λ id. logged "remove" tt;
  upsert_chunks = λ chunks. logged "chunks" tt;
  lexical_index = none;
  vector_index = none;
  update_draft = λ draft. logged "draft" draft;
  upsert_note = λ note. logged "note" tt;
  regenerate_for_canonical_note = none;
}

-- The vault cannot be written.
abbrev read_only : PromotionPorts (List String) ℕ
read_only = record ports { write_canonical_note = λ note log. (log, err "EROFS") }

abbrev pub frontmatter : NoteFrontmatter
frontmatter = record {
  note_id = "n1";
  title = "Plan";
  project = "brain";
  note_type = decision;
  status = promoted;
  updated = "2026-01-01";
  summary = "The plan.";
  tags = [];
  scope = "all";
  corpus_id = context_brain;
  current_state = false;
  valid_from = none;
  valid_until = none;
  supersedes = none;
  superseded_by = none;
}

abbrev pub note : CanonicalNoteRecord
note = record {
  note_id = "n1";
  corpus_id = context_brain;
  note_path = "context_brain/plan.md";
  revision = "";
  frontmatter = frontmatter;
  body = "## Plan";
}

abbrev pub draft_record : StagingDraftRecord
draft_record = record {
  note_id = "d1";
  corpus_id = context_brain;
  draft_path = "plan.md";
  revision = "r1";
  lifecycle_state = promoted;
  frontmatter = frontmatter;
  body = "## Plan";
}

abbrev decision_record : PromotionDecisionRecord
decision_record = record {
  promotion_event_id = some "o1";
  draft_note_id = "d1";
  canonical_note_id = "n1";
  superseded_note_ids = [];
  promoted_at = "t1";
}

abbrev pub ann : ActorContext
ann = record {
  actor_id = "ann";
  actor_role = operator;
  transport = internal;
  source = "cli";
  request_id = "r1";
  initiated_at = "t1";
  tool_name = none;
  auth_token = none;
  allowed_corpora = none;
}

abbrev payload : PromotionOutboxPayload
payload = record {
  actor = ann;
  target_corpus = context_brain;
  canonical_writes = note ∷ [];
  draft_update = draft_record;
  promotion_decision = decision_record;
}

abbrev failed_row : Row
failed_row = record {
  outbox_id = "o1";
  state = failed;
  attempts = 1;
  last_error = some "EROFS";
  created_at = "t1";
  updated_at = "t1";
  payload = payload;
}

abbrev completed_row : Row
completed_row = record failed_row { outbox_id = "o0"; state = completed; last_error = none }

abbrev pub state : PromotionState (List String)
state = record { world = []; outbox = completed_row ∷ failed_row ∷ []; events = [] }

abbrev retried_row : Row
retried_row = record failed_row {
  state = completed;
  attempts = 2;
  last_error = none;
  updated_at = "t2";
}

-- The second attempt completes the entry that failed, and counts.
retried : (replay_pending_promotions ports "t2" "e1" none state).0 ≡ record {
  world = "write" ∷ "chunk" ∷ "remove" ∷ "chunks" ∷ "draft" ∷ "note" ∷ [];
  outbox = completed_row ∷ retried_row ∷ [];
  events = ("o1", decision_record) ∷ [];
}
unfolding replay_pending_promotions replay_entries process_promotion_outbox_entry process_claimed
    after_writes after_draft claim_promotion_outbox_entry claim_found get_promotion_outbox_entry
    update_row complete_promotion_outbox_entry record_promotion write_canonical_notes
    update_promoted_draft sync_chunk_state sync_vector list_promotion_outbox_entries sort_by put
retried = refl

-- A vault that cannot be written leaves the entry failed, with the reason.
refused : (process_promotion_outbox_entry read_only "t2" "e1" "o1" state).0 ≡ record {
  world = [];
  outbox = completed_row ∷ record failed_row { attempts = 2; updated_at = "t2" } ∷ [];
  events = [];
}
unfolding process_promotion_outbox_entry process_claimed after_writes claim_promotion_outbox_entry
    claim_found get_promotion_outbox_entry update_row fail_entry fail_promotion_outbox_entry
    write_canonical_notes
refused = refl

process-IsSettled_example :
    let (after, r) = process_promotion_outbox_entry read_only "t2" "e1" "o1" state in
    IsSettled "o1" failed_row after r
unfolding get_promotion_outbox_entry
process-IsSettled_example = process-IsSettled read_only "t2" "e1" "o1" state failed_row refl refl

process_finished_example :
    process_promotion_outbox_entry ports "t2" "e1" "o9" state ≡ (state, err could_not_be_claimed)
unfolding get_promotion_outbox_entry
process_finished_example = process_finished ports "t2" "e1" "o9" state (λ row found. cc)

process_other_example :
    get_promotion_outbox_entry
      (process_promotion_outbox_entry ports "t2" "e1" "o1" state).0.outbox
      "o0"
    ≡ get_promotion_outbox_entry state.outbox "o0"
process_other_example = process_other ports "t2" "e1" "o1" state "o0" refl

ports-IsReliable : IsReliable ports
ports-IsReliable = record {
  writes = λ note log. (_, _, refl);
  chunks = λ note log. (_, _, refl);
  removes = λ id log. (_, _, refl);
  upserts = λ chunks log. (_, _, refl);
  lexical = tt;
  vector = tt;
  drafts = λ draft log. (_, _, refl);
  notes = λ note log. (_, _, refl);
}

replay_completes_all_example : retried_row.state ≡ completed
unfolding get_promotion_outbox_entry
replay_completes_all_example =
    replay_completes_all ports ports-IsReliable "t2" "e1" none state (omega arith) "o1" retried_row
      (ap (λ s. get_promotion_outbox_entry s.outbox "o1") retried)
