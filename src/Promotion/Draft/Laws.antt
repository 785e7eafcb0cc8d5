-- ===== src/Promotion/Draft/Laws.antt =====
-- What an answer of `promoteDraft` says of the outbox and of the promotion events.
pub mod Early
use multi_agent_brain.Common.{
  ◌+◌, String, ◌≡◌, refl, sym, ap, ◌∙◌, inl, inr, Option, none, some, List, [], ◌∷◌, Bool-cases,
  or_else,
}
use multi_agent_brain.Common.Results.{Result, ok, err}
use multi_agent_brain.Common.Maps.{get}
use multi_agent_brain.Common.Effects.{Effect, Program, ◌>>=◌, and_then, pure}
use multi_agent_brain.Notes.{
  NoteFrontmatter, CanonicalNoteRecord, StagingDraftRecord, MetadataNoteRecord,
}
use multi_agent_brain.Canonical.{Texts, CanonicalNoteError, build_semantic_signature}
use multi_agent_brain.Promotion.Outbox.{
  completed, failed, pending, get_promotion_outbox_entry, enqueue_promotion_outbox, upsert_row,
}
use multi_agent_brain.Promotion.Outbox.Laws.{get_upsert_same}
use multi_agent_brain.Promotion.Process.{
  Row, PromotionPorts, PromotionState, PromotionOutboxPayload, ProcessedPromotionResult,
  ProcessError, could_not_be_claimed, processing_failed, process_promotion_outbox_entry,
}
use multi_agent_brain.Promotion.Process.Laws.{IsSettled, process-IsSettled}
use multi_agent_brain.Promotion.Plan.{
  PromoteNoteRequest, Fresh, promotion_payload, canonical_note, build_canonical_path,
  candidate_frontmatter, snapshot_writes, find_superseded_records,
}
use multi_agent_brain.Promotion.Draft.{
  PromoteServices, Rejection, PromoteFailure, rejected, not_processed, not_found, revision_conflict,
  validation_failed, duplicate_detected, no_snapshot, PromoteNoteResponse, lift, lifted, reject,
  found_draft, accept, refuse_duplicate, superseded_records, prepared, plan_promotion,
  after_processing, queue_and_process, promote_draft, revision_differs, may_promote,
  accepted_frontmatter, exact_duplicate,
}
unfoldable pub use Early.*

-- What the outbox and the events hold after an answer: the promotion is completed and recorded where
-- it is accepted, is kept with its reason where it was queued and failed, and left no trace where it
-- was rejected.
abbrev pub IsOutcome :
    {W : Type 0}
    → String
    → PromotionState W
    → PromotionState W × Result PromoteFailure PromoteNoteResponse
    → Type 0
IsOutcome outbox_id s (after, ok response) =
    (row : Row) × (get_promotion_outbox_entry after.outbox outbox_id ≡ some row)
    × (row.state ≡ completed)
    × (get after.events outbox_id ≡ some row.payload.promotion_decision)
    × (row.payload.promotion_decision.canonical_note_id ≡ response.promoted_note_id)
IsOutcome outbox_id s (after, err (rejected why)) = SameTables s after
IsOutcome outbox_id s (after, err (not_processed id could_not_be_claimed)) = ⊥
IsOutcome outbox_id s (after, err (not_processed id (processing_failed reason))) =
    (id ≡ outbox_id)
    × (row : Row) × (get_promotion_outbox_entry after.outbox outbox_id ≡ some row)
    × (row.state ≡ failed)
    × (row.attempts ≡ 1)
    × (row.last_error ≡ some reason)

module _ {W E : Type 0} (texts : Texts) (services : PromoteServices W) (ports : PromotionPorts W E)
    (fresh : Fresh) where
  after-IsOutcome :
      (request : PromoteNoteRequest) (s : PromotionState W) (row : Row)
      → row.attempts ≡ 0
      → row.payload.promotion_decision.promotion_event_id ≡ some fresh.outbox_id
      → (r : PromotionState W × Result ProcessError ProcessedPromotionResult)
      → IsSettled fresh.outbox_id row r.0 r.1
      → IsOutcome fresh.outbox_id s (after_processing texts services ports fresh request r)
  unfolding after_processing
  after-IsOutcome request s row first event (t, ok processed)
        (named, promoted, after, found, state, payload, attempts, recorded) =
      (
        after,
        found,
        state,
        recorded fresh.outbox_id event ∙ ap (λ p. some p.promotion_decision) (sym payload),
        ap (λ p. p.promotion_decision.canonical_note_id) payload ∙ sym promoted,
      )
  after-IsOutcome request s row first event (t, err could_not_be_claimed) bad = absurd bad
  after-IsOutcome request s row first event (t, err (processing_failed reason))
        (after, found, state, payload, attempts, why) =
      (refl, after, found, state, attempts ∙ ap (λ n. n + 1) first, why)

  queue-IsOutcome :
      (request : PromoteNoteRequest) (payload : PromotionOutboxPayload) (s : PromotionState W)
      → payload.promotion_decision.promotion_event_id ≡ some fresh.outbox_id
      → IsOutcome fresh.outbox_id s (queue_and_process texts services ports fresh request payload s)
  unfolding queue_and_process enqueue_promotion_outbox
  queue-IsOutcome request payload s event =
      let row : Row = record {
        outbox_id = fresh.outbox_id;
        state = pending;
        attempts = 0;
        last_error = none;
        created_at = fresh.queued_at;
        updated_at = fresh.queued_at;
        payload = payload;
      } in
      let queued : PromotionState W = record s { outbox = upsert_row s.outbox row } in
      after-IsOutcome request s row refl event
        (process_promotion_outbox_entry ports fresh.processed_at fresh.event_id fresh.outbox_id
          queued)
        (process-IsSettled ports fresh.processed_at fresh.event_id fresh.outbox_id queued row
          (get_upsert_same s.outbox row) refl)

  -- However the services behave, the answer says what became of the promotion: an accepted one is
  -- completed in the outbox and recorded among the events under its note; one that fails after it was
  -- queued stays in the outbox as failed, with the reason and one attempt; any other answer leaves
  -- outbox and events as they were.
  pub promote_draft-IsOutcome :
      (request : PromoteNoteRequest) (s : PromotionState W)
      → IsOutcome fresh.outbox_id s (promote_draft texts services ports fresh request s)
  unfolding promote_draft
  promote_draft-IsOutcome request s = elim (Bool-cases (may_promote request.actor.actor_role)) [
    | inr barred ↦ rw barred (refl, refl)
    | inl allowed ↦ rw allowed (
        go (plan_promotion texts services ports fresh request s)
          ((plan-Early texts services ports fresh request).leaves s))
  ]
    where
      moved :
          (t : PromotionState W) (r : PromotionState W × Result PromoteFailure PromoteNoteResponse)
          → SameTables s t
          → IsOutcome fresh.outbox_id t r
          → IsOutcome fresh.outbox_id s r
      moved t (u, ok response) same k = k
      moved t (u, err (rejected why)) (o, e) (p, f) = (p ∙ o, f ∙ e)
      moved t (u, err (not_processed id could_not_be_claimed)) same k = k
      moved t (u, err (not_processed id (processing_failed reason))) same k = k

      go :
          (r : PromotionState W × Result PromoteFailure PromotionOutboxPayload)
          → LeavesTables (IsPlanned texts services ports fresh) s r
          → IsOutcome fresh.outbox_id s
              (and_then (queue_and_process texts services ports fresh request) r)
      go (t, ok payload) (same, event) =
          moved t (queue_and_process texts services ports fresh request payload t) same
            (queue-IsOutcome request payload t event)
      go (t, err (rejected why)) same = same
      go (t, err (not_processed id e)) bad = absurd bad
