-- ===== src/Promotion/Draft/Laws/Early.antt =====
-- The steps of a promotion before the outbox leave the tables of the metadata control store.
use multi_agent_brain.Common.{
  String, ◌≡◌, refl, ◌∙◌, inl, inr, Option, none, some, List, [], ◌∷◌, Bool-cases, or_else,
}
use multi_agent_brain.Common.Results.{Result, ok, err}
use multi_agent_brain.Common.Effects.{Effect, Program, ◌>>=◌, and_then, pure}
use multi_agent_brain.Notes.{
  NoteFrontmatter, CanonicalNoteRecord, StagingDraftRecord, MetadataNoteRecord,
}
use multi_agent_brain.Canonical.{Texts, CanonicalNoteError, build_semantic_signature}
use multi_agent_brain.Promotion.Process.{PromotionPorts, PromotionState, PromotionOutboxPayload}
use multi_agent_brain.Promotion.Plan.{
  PromoteNoteRequest, Fresh, promotion_payload, canonical_note, build_canonical_path,
  candidate_frontmatter, snapshot_writes, find_superseded_records,
}
use multi_agent_brain.Promotion.Draft.{
  PromoteServices, Rejection, PromoteFailure, rejected, not_processed, not_found, revision_conflict,
  validation_failed, duplicate_detected, no_snapshot, lift, lifted, reject, found_draft, accept,
  refuse_duplicate, superseded_records, prepared, plan_promotion, revision_differs,
  accepted_frontmatter, exact_duplicate,
}

-- The tables of the metadata control store are as they were.
abbrev pub SameTables : {W : Type 0} → PromotionState W → PromotionState W → Type 0
SameTables s t = (t.outbox ≡ s.outbox) × (t.events ≡ s.events)

-- A step before the outbox: it leaves the tables, gives what `Q` says, and fails only with a
-- rejection.
abbrev pub LeavesTables :
    {W A : Type 0}
    → (A → Type 0)
    → PromotionState W
    → PromotionState W × Result PromoteFailure A
    → Type 0
LeavesTables Q s (t, ok a) = SameTables s t × Q a
LeavesTables Q s (t, err (rejected why)) = SameTables s t
LeavesTables Q s (t, err (not_processed id e)) = ⊥

pub record Early {W A : Type 0} (Q : A → Type 0) (m : Program (PromotionState W) PromoteFailure A)
    : Type 0 where
  pub leaves : (s : PromotionState W) → LeavesTables Q s (m s)

abbrev Any : {A : Type 0} → A → Type 0
Any a = Unit

module _ {W B : Type 0} (Q : B → Type 0) where
  LeavesTables-trans :
      (s t : PromotionState W) (r : PromotionState W × Result PromoteFailure B)
      → SameTables s t
      → LeavesTables Q t r
      → LeavesTables Q s r
  LeavesTables-trans s t (u, ok b) (o, e) ((p, f), q) = ((p ∙ o, f ∙ e), q)
  LeavesTables-trans s t (u, err (rejected why)) (o, e) (p, f) = (p ∙ o, f ∙ e)
  LeavesTables-trans s t (u, err (not_processed id e)) same bad = absurd bad

module _ {W A B : Type 0} where
  >>=-Early :
      {Q : B → Type 0} {m : Program (PromotionState W) PromoteFailure A}
      {next : A → Program (PromotionState W) PromoteFailure B}
      → Early Any m
      → ((a : A) → Early Q (next a))
      → Early Q (m >>= next)
  >>=-Early {Q = Q} {m = m} {next = next} h k = record { leaves = λ s. go s (m s) (h.leaves s) }
    where
      go :
          (s : PromotionState W) (r : PromotionState W × Result PromoteFailure A)
          → LeavesTables Any s r
          → LeavesTables Q s (and_then next r)
      go s (t, ok a) (same, _) = LeavesTables-trans Q s t (next a t) same ((k a).leaves t)
      go s (t, err (rejected why)) same = same
      go s (t, err (not_processed id e)) bad = absurd bad

module _ {W E : Type 0} (texts : Texts) (services : PromoteServices W) (ports : PromotionPorts W E)
    (fresh : Fresh) where
  pure-Early : {A : Type 0} (Q : A → Type 0) (a : A) → Q a → Early {W = W} Q (pure a)
  pure-Early Q a q = record { leaves = λ s. ((refl, refl), q) }

  lift-Early : {A : Type 0} (m : Effect W A) → Early Any (lift texts services ports fresh m)
  lift-Early {A = A} m = record { leaves = λ s. go s (m s.world) }
    where
      go :
          (s : PromotionState W) (r : W × Result String A)
          → LeavesTables Any s (lifted texts services ports fresh s r)
      go s (w, ok a) = ((refl, refl), tt)
      go s (w, err reason) = (refl, refl)

  reject-Early :
      (A : Type 0) (request : PromoteNoteRequest) (ids : List String) (why : Rejection)
      → Early Any (reject texts services ports fresh {A = A} request ids why)
  unfolding reject
  reject-Early A request ids why = record { leaves = λ s. (refl, refl) }

  found_draft-Early :
      (request : PromoteNoteRequest) (found : Option StagingDraftRecord)
      → Early Any (found_draft texts services ports fresh request found)
  unfolding found_draft
  found_draft-Early request none = reject-Early StagingDraftRecord request [] not_found
  found_draft-Early request (some draft) =
      elim (Bool-cases (revision_differs request.expected_draft_revision draft.revision)) [
        | inl differs ↦
            rw differs
              (reject-Early StagingDraftRecord request (draft.note_id ∷ []) revision_conflict)
        | inr agrees ↦ rw agrees (pure-Early Any draft tt)
      ]

  accept-Early :
      (request : PromoteNoteRequest) (draft : StagingDraftRecord)
      (normalized : Option NoteFrontmatter)
      → Early Any (accept texts services ports fresh request draft normalized)
  unfolding accept
  accept-Early request draft none =
      reject-Early NoteFrontmatter request (draft.note_id ∷ []) validation_failed
  accept-Early request draft (some normalized) = pure-Early Any normalized tt

  duplicate-Early :
      (request : PromoteNoteRequest) (draft : StagingDraftRecord)
      (duplicate : Option MetadataNoteRecord)
      → Early Any (refuse_duplicate texts services ports fresh request draft duplicate)
  unfolding refuse_duplicate
  duplicate-Early request draft none = pure-Early Any tt tt
  duplicate-Early request draft (some duplicate) =
      reject-Early Unit request (draft.note_id ∷ duplicate.note_id ∷ [])
        (duplicate_detected duplicate.note_id duplicate.note_path)

  superseded-Early :
      (request : PromoteNoteRequest) (source : NoteFrontmatter)
      → Early Any (superseded_records texts services ports fresh request source)
  unfolding superseded_records
  superseded-Early request source = elim (Bool-cases request.promote_as_current_state) [
    | inr plain ↦ rw plain (pure-Early Any [] tt)
    | inl current ↦ rw current (
        >>=-Early (lift-Early (services.list_canonical_notes request.target_corpus))
          λ notes. pure-Early Any (find_superseded_records texts source notes) tt)
  ]

  prepared-Early :
      (request : PromoteNoteRequest) (draft : StagingDraftRecord)
      (r : Result CanonicalNoteError (List CanonicalNoteRecord))
      → Early Any (prepared texts services ports fresh request draft r)
  unfolding prepared
  prepared-Early request draft (ok snapshots) = pure-Early Any snapshots tt
  prepared-Early request draft (err e) =
      reject-Early (List CanonicalNoteRecord) request (draft.note_id ∷ []) (no_snapshot e)

  abbrev pub IsPlanned : PromotionOutboxPayload → Type 0
  IsPlanned payload = payload.promotion_decision.promotion_event_id ≡ some fresh.outbox_id

  pub plan-Early :
      (request : PromoteNoteRequest)
      → Early IsPlanned (plan_promotion texts services ports fresh request)
  unfolding plan_promotion promotion_payload
  plan-Early request = >>=-Early (lift-Early (services.get_draft request.draft_note_id)) λ found.
      >>=-Early (found_draft-Early request found) λ draft.
        let path = or_else request.target_path (
          build_canonical_path texts request.target_corpus draft.frontmatter.title
            fresh.promoted_note_id) in
        >>=-Early
          (accept-Early request draft (
            accepted_frontmatter (
              services.validate request path (candidate_frontmatter fresh request draft.frontmatter)
                draft.body)))
          λ normalized.
            let hash = texts.hash_text draft.body in
            >>=-Early
              (lift-Early (
                services.find_potential_duplicates request.target_corpus hash (
                  build_semantic_signature texts normalized.title normalized.summary
                    normalized.scope)))
              λ duplicates.
                >>=-Early (duplicate-Early request draft (exact_duplicate hash duplicates)) λ _.
                  >>=-Early (superseded-Early request draft.frontmatter) λ superseded.
                    let note = canonical_note fresh request path normalized draft.body superseded in
                    >>=-Early
                      (prepared-Early request draft
                        (snapshot_writes texts request.promote_as_current_state note))
                      λ snapshots.
                        pure-Early IsPlanned
                          (promotion_payload fresh request draft note superseded snapshots) refl
