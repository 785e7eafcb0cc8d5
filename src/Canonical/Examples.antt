-- ===== src/Canonical/Examples.antt =====
-- A vault of notes at which the theorems about canonical notes are applied.
use multi_agent_brain.Common.{◌≡◌, refl, true, none, List, [], ◌∷◌, ◌++◌, string_eq, includes, All}
use multi_agent_brain.Common.Sets.{All-append}
use multi_agent_brain.Common.Text.Search.{starts_with, to_slashes}
use multi_agent_brain.Common.Results.{ok, err}
use multi_agent_brain.Notes.{
  context_brain, decision, promoted, NoteFrontmatter, CanonicalNoteRecord,
}
use multi_agent_brain.Canonical.{
  Texts, CanonicalPorts, outside_corpus_root, violates_policy, not_current_context, snapshot_tag,
  validate_canonical_corpus_policy, build_current_state_snapshot, prepare_current_state_snapshot,
  write_unless, persist_canonical_note, write_canonical_note, write_canonical_notes,
}
use multi_agent_brain.Canonical.Laws.{prepared_snapshot-IsAccepted, write_canonical_notes-Keeps}

abbrev texts : Texts
texts = record { to_lower_case = λ s. s; hash_text = λ s. "0f" }

-- The state is the notes in the vault.
abbrev vault : CanonicalPorts (List CanonicalNoteRecord)
vault = record {
  get_by_id = λ id w. (w, ok none);
  get_by_path = λ path w. (w, ok none);
  list_by_corpus = λ corpus w. (w, ok w);
  write_canonical_note = λ note w. (w ++ note ∷ [], ok note);
  upsert_note = λ row w. (w, ok tt);
}

abbrev frontmatter : NoteFrontmatter
frontmatter = record {
  note_id = "n1";
  title = "plan";
  project = "brain";
  note_type = decision;
  status = promoted;
  updated = "2026-01-01";
  summary = "The plan.";
  tags = "status/current" ∷ [];
  scope = "all";
  corpus_id = context_brain;
  current_state = true;
  valid_from = none;
  valid_until = none;
  supersedes = none;
  superseded_by = none;
}

abbrev note : CanonicalNoteRecord
note = record {
  note_id = "n1";
  corpus_id = context_brain;
  note_path = "context_brain\\plan.md";
  revision = "";
  frontmatter = frontmatter;
  body = "## Plan";
}

-- A path with a slash before the corpus is refused.
abbrev stray : CanonicalNoteRecord
stray = record note { note_path = "/context_brain/plan.md" }

refused :
    write_canonical_notes texts vault (note ∷ stray ∷ []) []
    ≡ (note ∷ [], err (violates_policy outside_corpus_root))
unfolding write_canonical_notes write_canonical_note write_unless persist_canonical_note
    validate_canonical_corpus_policy starts_with to_slashes
refused = refl

abbrev KeepsPolicy : List CanonicalNoteRecord → Type 0
KeepsPolicy notes = All (λ n. validate_canonical_corpus_policy n ≡ none) notes

write_canonical_notes-Keeps_example :
    KeepsPolicy (write_canonical_notes texts vault (note ∷ stray ∷ []) []).0
write_canonical_notes-Keeps_example =
    write_canonical_notes-Keeps texts vault KeepsPolicy
      (λ n w valid keeps.
        All-append (λ m. validate_canonical_corpus_policy m ≡ none) w (n ∷ []) keeps (valid, tt))
      (λ row w keeps. keeps) (note ∷ stray ∷ []) [] tt

prepared_snapshot-IsAccepted_example :
    let snapshot = build_current_state_snapshot texts note in
    (validate_canonical_corpus_policy snapshot ≡ none)
    × (includes snapshot.frontmatter.tags snapshot_tag ≡ true)
    × (prepare_current_state_snapshot texts snapshot ≡ err not_current_context)
prepared_snapshot-IsAccepted_example =
    prepared_snapshot-IsAccepted texts note (build_current_state_snapshot texts note)
      (unfold prepare_current_state_snapshot in refl)
