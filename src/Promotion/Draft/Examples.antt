-- ===== src/Promotion/Draft/Examples.antt =====
-- Services and a request at which the theorems about a promotion are applied.
use multi_agent_brain.Common.{
  String, ◌≡◌, refl, true, none, some, List, [], ◌∷◌, ◌++◌, string_eq, filter, Elem,
}
use multi_agent_brain.Common.Results.{ok, err}
use multi_agent_brain.Notes.{staged, StagingDraftRecord, CanonicalNoteRecord, context_brain}
use multi_agent_brain.Canonical.{
  Texts, build_current_state_snapshot, prepare_current_state_snapshot,
}
use multi_agent_brain.Promotion.Plan.{
  PromoteNoteRequest, Fresh, promotion_payload, takes_place_of, find_superseded_records,
  snapshot_writes,
}
use multi_agent_brain.Promotion.Plan.Laws.{is_current, stored_all, promotion_leaves_one_current}
use multi_agent_brain.Promotion.Draft.{
  PromoteServices, promote_draft, rejected, revision_conflict, found_draft, reject, plan_promotion,
}
use multi_agent_brain.Promotion.Draft.Laws.{IsOutcome, promote_draft-IsOutcome}
use multi_agent_brain.Promotion.Examples.{
  logged, ports, frontmatter, note, draft_record, ann, state,
}

abbrev texts : Texts
texts = record { to_lower_case = λ s. s; hash_text = λ s. "0f" }

abbrev draft : StagingDraftRecord
draft = record draft_record { lifecycle_state = staged }

abbrev current_note : CanonicalNoteRecord
current_note = record note { frontmatter = record frontmatter { current_state = true } }

abbrev services : PromoteServices (List String)
services = record {
  get_draft = λ id. logged "get" (some draft);
  validate = λ request path candidate body. record {
    valid = true;
    normalized_frontmatter = some candidate;
  };
  find_potential_duplicates = λ corpus hash signature. logged "duplicates" [];
  list_canonical_notes = λ corpus. logged "list" (current_note ∷ []);
  record_action = λ entry log. (log ++ "audit" ∷ [], ok "a1");
}

abbrev fresh : Fresh
fresh = record {
  promoted_note_id = "n2";
  outbox_id = "o2";
  event_id = "e2";
  validated_on = "2026-01-02";
  planned_on = "2026-01-02";
  planned_at = "t2";
  queued_at = "t3";
  processed_at = "t4";
  audited_at = "t5";
}

abbrev request : PromoteNoteRequest
request = record {
  actor = ann;
  draft_note_id = "d1";
  target_corpus = context_brain;
  expected_draft_revision = some "r1";
  target_path = none;
  promote_as_current_state = true;
}

-- A draft that has changed is not promoted: only the audit log is written.
changed :
    promote_draft texts services ports fresh
      (record request { expected_draft_revision = some "r0" })
      state
    ≡ (record state { world = "get" ∷ "audit" ∷ [] }, err (rejected revision_conflict))
unfolding promote_draft plan_promotion found_draft reject
changed = refl

promote_draft-IsOutcome_example :
    IsOutcome "o2" state (promote_draft texts services ports fresh request state)
promote_draft-IsOutcome_example = promote_draft-IsOutcome texts services ports fresh request state

-- The note whose place the promoted one takes, which is in another file.
abbrev old_note : CanonicalNoteRecord
old_note = record current_note { note_path = "context_brain/old.md" }

promotion_leaves_one_current_example :
    let snapshots = build_current_state_snapshot texts current_note ∷ [] in
    let payload =
      promotion_payload fresh request draft current_note
        (find_superseded_records texts draft.frontmatter (old_note ∷ []))
        snapshots in
    (filter is_current payload.canonical_writes ≡ current_note ∷ [])
    × ((n : CanonicalNoteRecord)
        → Elem n (stored_all (old_note ∷ []) payload.canonical_writes)
        → takes_place_of texts draft.frontmatter n ≡ true
        → n ≡ current_note)
promotion_leaves_one_current_example =
    promotion_leaves_one_current texts fresh request draft current_note (old_note ∷ [])
      (build_current_state_snapshot texts current_note ∷ []) refl
      (unfold snapshot_writes prepare_current_state_snapshot in refl)
