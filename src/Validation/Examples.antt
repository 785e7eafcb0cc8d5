-- ===== src/Validation/Examples.antt =====
-- A note at which the theorems about validation are applied.
use multi_agent_brain.Common.{String, ◌≡◌, refl, true, none, some, [], ◌∷◌, string_eq}
use multi_agent_brain.Contracts.{operator, internal}
use multi_agent_brain.Notes.{
  context_brain, reference, promoted, NoteFrontmatter, CanonicalNoteRecord,
}
use multi_agent_brain.Canonical.{validate_canonical_corpus_policy, outside_corpus_root}
use multi_agent_brain.Common.Text.Search.{starts_with, to_slashes}
use multi_agent_brain.Promotion.Plan.{PromoteNoteRequest, Fresh, canonical_note}
use multi_agent_brain.Validation.Texts.{normalize_path_string}
use multi_agent_brain.Validation.Service.{
  ValidateNoteRequest, promotion_mode, controlled_tag_registry, validate,
}
use multi_agent_brain.Validation.Writable.{valid_promotion-IsWritable}

abbrev same : String → String
same s = s

abbrev frontmatter : NoteFrontmatter
frontmatter = record {
  note_id = "n1";
  title = " plan";
  project = "brain";
  note_type = reference;
  status = promoted;
  updated = "2026-01-01";
  summary = "The plan.";
  tags = "topic/mcp" ∷ "status/current" ∷ "topic\\mcp" ∷ [];
  scope = "all";
  corpus_id = context_brain;
  current_state = true;
  valid_from = some "2026-01-01";
  valid_until = some " ";
  supersedes = none;
  superseded_by = none;
}

abbrev request : ValidateNoteRequest
request = record {
  target_corpus = context_brain;
  note_path = "context_brain/plan.md";
  frontmatter = frontmatter;
  body = "# Summary\r\ntext\n## Details ##\n## Sources";
  validation_mode = promotion_mode;
}

accepted : (validate same controlled_tag_registry request).valid ≡ true
unfolding validate
accepted = refl

-- A path with a slash before the corpus is valid, but the policy refuses to write a note there.
abbrev stray : ValidateNoteRequest
stray = record request { note_path = "/context_brain/plan.md" }

stray_accepted : (validate same controlled_tag_registry stray).valid ≡ true
unfolding validate
stray_accepted = refl

stray_not_written :
    (n : CanonicalNoteRecord)
    → n.corpus_id ≡ context_brain
    → n.note_path ≡ stray.note_path
    → validate_canonical_corpus_policy n ≡ some outside_corpus_root
unfolding validate_canonical_corpus_policy starts_with to_slashes
stray_not_written n corpus path = rw (corpus, path) refl

abbrev fresh : Fresh
fresh = record {
  promoted_note_id = "n1";
  outbox_id = "o1";
  event_id = "e1";
  validated_on = "2026-01-01";
  planned_on = "2026-01-01";
  planned_at = "t1";
  queued_at = "t1";
  processed_at = "t2";
  audited_at = "t3";
}

abbrev promotion : PromoteNoteRequest
promotion = record {
  actor = record {
    actor_id = "ann";
    actor_role = operator;
    transport = internal;
    source = "cli";
    request_id = "r1";
    initiated_at = "t1";
    tool_name = none;
    auth_token = none;
    allowed_corpora = none;
  };
  draft_note_id = "d1";
  target_corpus = context_brain;
  expected_draft_revision = none;
  target_path = some "context_brain/plan.md";
  promote_as_current_state = true;
}

valid_promotion-IsWritable_example :
    validate_canonical_corpus_policy (
      canonical_note fresh promotion "context_brain/plan.md"
        (validate same controlled_tag_registry request).normalized_frontmatter
        request.body
        [])
    ≡ none
valid_promotion-IsWritable_example =
    valid_promotion-IsWritable same controlled_tag_registry request fresh promotion [] accepted
      (unfold normalize_path_string to_slashes in refl) refl refl
