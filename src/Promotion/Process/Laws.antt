-- ===== src/Promotion/Process/Laws.antt =====
-- What the processing of an outbox entry leaves behind, on every branch.
use multi_agent_brain.Common.{
  ◌+◌, String, ◌≡◌, refl, sym, ap, subst, ◌∙◌, inl, inr, true, false, some, List, string_eq, ◌==◌,
  ==_refl, or_else, Bool-cases, Option-cases,
}
use multi_agent_brain.Common.Results.{Result, ok, err}
use multi_agent_brain.Common.Maps.{get, put, get-put}
use multi_agent_brain.Promotion.Outbox.{
  completed, failed, same_state, get_promotion_outbox_entry, update_row, claimed, claim_found,
  claim_promotion_outbox_entry, complete_promotion_outbox_entry, fail_promotion_outbox_entry,
}
use multi_agent_brain.Promotion.Outbox.Laws.{get_update_same, get_update_other}
use multi_agent_brain.Promotion.Process.{
  Row, PromotionPorts, PromotionState, PromotionOutboxPayload, PromotionDecisionRecord,
  ProcessedPromotionResult, ProcessError, processing_failed, could_not_be_claimed, Written,
  nothing_written, fail_entry, after_draft, after_writes, process_claimed, record_promotion,
  write_canonical_notes, update_promoted_draft, process_promotion_outbox_entry,
}

-- The entry is completed, with its decision among the events, or failed, with the reason.
abbrev pub IsSettled :
    {W : Type 0}
    → String
    → Row
    → PromotionState W
    → Result ProcessError ProcessedPromotionResult
    → Type 0
IsSettled id row s (ok r) =
    (r.outbox_id ≡ id)
    × (r.promoted_note_id ≡ row.payload.promotion_decision.canonical_note_id)
    × (after : Row) × (get_promotion_outbox_entry s.outbox id ≡ some after)
    × (after.state ≡ completed)
    × (after.payload ≡ row.payload)
    × (after.attempts ≡ row.attempts + 1)
    × ((event_id : String)
        → row.payload.promotion_decision.promotion_event_id ≡ some event_id
        → get s.events event_id ≡ some row.payload.promotion_decision)
IsSettled id row s (err could_not_be_claimed) = ⊥
IsSettled id row s (err (processing_failed reason)) =
    (after : Row) × (get_promotion_outbox_entry s.outbox id ≡ some after)
    × (after.state ≡ failed)
    × (after.payload ≡ row.payload)
    × (after.attempts ≡ row.attempts + 1)
    × (after.last_error ≡ some reason)

recorded :
    (events : List (String × PromotionDecisionRecord)) (new_id event_id : String)
    (decision : PromotionDecisionRecord)
    → decision.promotion_event_id ≡ some event_id
    → get (record_promotion events new_id decision) event_id ≡ some decision
unfolding record_promotion
recorded events new_id event_id decision e =
    let key : or_else decision.promotion_event_id new_id ≡ event_id =
      ap (λ o. or_else o new_id) e in
    subst (λ k. get (put events k decision) event_id ≡ some decision) (sym key)
      (get-put events event_id event_id decision ∙ rw (==_refl event_id) refl)

module _ {W E : Type 0} (ports : PromotionPorts W E) (now new_id id : String) where
  fail-IsSettled :
      (row : Row) (reason : String) (s : PromotionState W)
      → get_promotion_outbox_entry s.outbox id ≡ some (claimed now row)
      → let (after, r) = fail_entry ports now id reason s in IsSettled id row after r
  unfolding fail_entry fail_promotion_outbox_entry
  fail-IsSettled row reason s h =
      (_, get_update_same s.outbox id _ (λ r. refl) h, refl, refl, refl, refl)

  draft-IsSettled :
      (row : Row) (written : Written) (s : PromotionState W)
      (outcome : W × Result String (Unit {0}))
      → get_promotion_outbox_entry s.outbox id ≡ some (claimed now row)
      → ((event_id : String)
          → row.payload.promotion_decision.promotion_event_id ≡ some event_id
          → get s.events event_id ≡ some row.payload.promotion_decision)
      → let (after, r) = after_draft ports now id row.payload written s outcome in
        IsSettled id row after r
  unfolding after_draft complete_promotion_outbox_entry
  draft-IsSettled row written s (w, err reason) h k =
      fail-IsSettled row reason (record s { world = w }) h
  draft-IsSettled row written s (w, ok done) h k =
      (refl, refl, _, get_update_same s.outbox id _ (λ r. refl) h, refl, refl, refl, k)

  writes-IsSettled :
      (row : Row) (s : PromotionState W) (outcome : W × Result String Written)
      → get_promotion_outbox_entry s.outbox id ≡ some (claimed now row)
      → let (after, r) = after_writes ports now new_id id row.payload s outcome in
        IsSettled id row after r
  unfolding after_writes record_promotion
  writes-IsSettled row s (w, err reason) h = fail-IsSettled row reason (record s { world = w }) h
  writes-IsSettled row s (w, ok written) h =
      let decision = row.payload.promotion_decision in
      draft-IsSettled row written
        (record s { world = w; events = record_promotion s.events new_id decision })
        (update_promoted_draft ports row.payload.draft_update w) h
        λ event_id e. recorded s.events new_id event_id decision e

  -- An entry that is not completed is settled by its processing: it is completed, with its payload
  -- kept and its decision among the events, or failed, with the reason of the answer. The attempt is
  -- counted.
  pub process-IsSettled :
      (s : PromotionState W) (row : Row)
      → get_promotion_outbox_entry s.outbox id ≡ some row
      → same_state completed row.state ≡ false
      → let (after, r) = process_promotion_outbox_entry ports now new_id id s in
        IsSettled id row after r
  unfolding process_promotion_outbox_entry claim_promotion_outbox_entry process_claimed claim_found
  process-IsSettled s row found unfinished =
      rw (found, unfinished)
        (writes-IsSettled row (record s { outbox = update_row id (claimed now) s.outbox })
          (write_canonical_notes ports row.payload.promotion_decision.canonical_note_id
            nothing_written row.payload.canonical_writes s.world)
          (get_update_same s.outbox id (claimed now) (λ r. refl) found))

  -- A completed entry, and one that is not there, is not processed: no port is called, and nothing
  -- changes.
  pub process_finished :
      (s : PromotionState W)
      → ((row : Row)
          → get_promotion_outbox_entry s.outbox id ≡ some row
          → same_state completed row.state ≡ true)
      → process_promotion_outbox_entry ports now new_id id s ≡ (s, err could_not_be_claimed)
  unfolding process_promotion_outbox_entry claim_promotion_outbox_entry process_claimed claim_found
  process_finished s finished = elim (Option-cases (get_promotion_outbox_entry s.outbox id)) [
    | inl absent ↦ rw absent refl
    | inr (row, found) ↦ rw (found, finished row found) refl
  ]

  -- The processing of an entry leaves every other entry as it was.
  pub process_other :
      (s : PromotionState W) (j : String)
      → (id == j) ≡ false
      → get_promotion_outbox_entry (process_promotion_outbox_entry ports now new_id id s).0.outbox j
        ≡ get_promotion_outbox_entry s.outbox j
  unfolding process_promotion_outbox_entry claim_promotion_outbox_entry process_claimed claim_found
      after_writes after_draft fail_entry fail_promotion_outbox_entry
      complete_promotion_outbox_entry
  process_other s j differ = elim (Option-cases (get_promotion_outbox_entry s.outbox id)) [
    | inl absent ↦ rw absent refl
    | inr (row, found) ↦ elim (Bool-cases (same_state completed row.state)) [
      | inl done ↦ rw (found, done) refl
      | inr unfinished ↦
          rw (found, unfinished)
            (kept row.payload (
              write_canonical_notes ports row.payload.promotion_decision.canonical_note_id
                nothing_written row.payload.canonical_writes s.world))
    ]
  ]
    where
      claimed_rows : List Row
      claimed_rows = update_row id (claimed now) s.outbox

      claimed_kept :
          get_promotion_outbox_entry claimed_rows j ≡ get_promotion_outbox_entry s.outbox j
      claimed_kept = get_update_other s.outbox id j (claimed now) (λ r. refl) differ

      drafted :
          (payload : PromotionOutboxPayload) (written : Written) (before : PromotionState W)
          → before.outbox ≡ claimed_rows
          → (outcome : W × Result String (Unit {0}))
          → get_promotion_outbox_entry
              (after_draft ports now id payload written before outcome).0.outbox
              j
            ≡ get_promotion_outbox_entry s.outbox j
      drafted payload written before e (w, err reason) =
          get_update_other before.outbox id j _ (λ r. refl) differ
          ∙ ap (λ rows. get_promotion_outbox_entry rows j) e
          ∙ claimed_kept
      drafted payload written before e (w, ok done) =
          get_update_other before.outbox id j _ (λ r. refl) differ
          ∙ ap (λ rows. get_promotion_outbox_entry rows j) e
          ∙ claimed_kept

      kept :
          (payload : PromotionOutboxPayload) (outcome : W × Result String Written)
          → get_promotion_outbox_entry
              (after_writes ports now new_id id payload
                (record s { outbox = claimed_rows })
                outcome).0.outbox
              j
            ≡ get_promotion_outbox_entry s.outbox j
      kept payload (w, err reason) =
          get_update_other claimed_rows id j _ (λ r. refl) differ ∙ claimed_kept
      kept payload (w, ok written) =
          drafted payload written
            (record s {
              world = w;
              outbox = claimed_rows;
              events = record_promotion s.events new_id payload.promotion_decision;
            })
            refl (update_promoted_draft ports payload.draft_update w)
