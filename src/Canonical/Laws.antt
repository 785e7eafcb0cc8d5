-- ===== src/Canonical/Laws.antt =====
-- Only notes that keep the corpus policy reach the repository, and snapshots are such notes.
use multi_agent_brain.Common.{
  String, ◌≡◌, refl, sym, ap, ◌∙◌, subst, inl, inr, true, false, not, ◌||◌, none, List, [], ◌∷◌,
  arith, string_eq, includes, Bool-cases, Option-cases,
}
use text.Mathlib.TextLemmas.{append_assoc}
use multi_agent_brain.Common.Text.Split.{◌<>◌}
use multi_agent_brain.Common.Text.Search.{
  starts_with, to_slashes, starts_with-append, to_slashes-append,
}
use multi_agent_brain.Common.Maps.{to_set, set_add, set_delete, includes-set_add}
use multi_agent_brain.Common.Sort.{text_le, includes-sort_by}
use multi_agent_brain.Common.Results.{Result, ok, err, ok-injective, err≢ok, Result-cases}
use multi_agent_brain.Common.Effects.{◌>>=◌, ◌>>◌, and_then}
use multi_agent_brain.Notes.{
  CorpusId, context_brain, general_notes, CanonicalNoteRecord, MetadataNoteRecord, corpus_text,
  is_general,
}
use multi_agent_brain.Notes.Slug.{slugify}
use multi_agent_brain.Canonical.{
  Texts, CanonicalPorts, CanonicalNoteError, not_current_context, snapshot_tag,
  validate_canonical_corpus_policy, normalize_snapshot_tags, build_snapshot_path,
  build_current_state_snapshot, prepare_current_state_snapshot, persist_canonical_note,
  write_unless, write_canonical_note, write_canonical_notes, write_prepared,
  write_current_state_snapshot, caught, metadata_record,
}

below-InRoot :
    (root rest : String)
    → to_slashes (root <> "/") ≡ root <> "/"
    → starts_with (to_slashes (root <> "/current-state/" <> rest)) (root <> "/") ≡ true
below-InRoot root rest plain =
    let split : root <> "/current-state/" <> rest ≡ (root <> "/") <> ("current-state/" <> rest) =
      ap (λ s. root <> s) (append_assoc "/" "current-state/" rest)
      ∙ sym (append_assoc root "/" ("current-state/" <> rest)) in
    rw (split, to_slashes-append (root <> "/") ("current-state/" <> rest), plain)
      (starts_with-append (root <> "/") (to_slashes ("current-state/" <> rest)))

corpus-InRoot :
    (corpus : CorpusId) (rest : String)
    → starts_with
        (to_slashes (corpus_text corpus <> "/current-state/" <> rest))
        (corpus_text corpus <> "/")
      ≡ true
corpus-InRoot context_brain rest = below-InRoot "context_brain" rest (unfold to_slashes in refl)
corpus-InRoot general_notes rest = below-InRoot "general_notes" rest (unfold to_slashes in refl)

includes-snapshot_tag :
    (tags : List String) → includes (normalize_snapshot_tags tags) snapshot_tag ≡ true
unfolding normalize_snapshot_tags
includes-snapshot_tag tags =
    let kept =
      set_delete (set_delete (set_delete (to_set tags) "status/current") "status/superseded")
        "status/draft" in
    let marked = set_add kept "status/promoted" in
    includes-sort_by text_le (set_add marked snapshot_tag) snapshot_tag
    ∙ includes-set_add marked snapshot_tag snapshot_tag
    ∙ ground arith

module _ (texts : Texts) where
  abbrev IsAccepted : CanonicalNoteRecord → Type 0
  IsAccepted snapshot =
      (validate_canonical_corpus_policy snapshot ≡ none)
      × (includes snapshot.frontmatter.tags snapshot_tag ≡ true)
      × (prepare_current_state_snapshot texts snapshot ≡ err not_current_context)

  built-IsAccepted :
      (note : CanonicalNoteRecord)
      → is_general note.corpus_id ≡ false
      → IsAccepted (build_current_state_snapshot texts note)
  unfolding prepare_current_state_snapshot build_current_state_snapshot
      validate_canonical_corpus_policy build_snapshot_path
  built-IsAccepted note context = (
    rw
        (
          corpus-InRoot note.corpus_id (
              slugify texts.to_lower_case note.frontmatter.project
              <> "/"
              <> slugify texts.to_lower_case note.frontmatter.title
              <> "-current.md"),
          context,
        )
        refl,
    includes-snapshot_tag note.frontmatter.tags,
    rw context refl,
  )

  -- What is prepared is the snapshot of a note of context_brain.
  prepared_snapshot-InContext :
      (note snapshot : CanonicalNoteRecord)
      → prepare_current_state_snapshot texts note ≡ ok snapshot
      → (build_current_state_snapshot texts note ≡ snapshot) × (is_general note.corpus_id ≡ false)
  unfolding prepare_current_state_snapshot
  prepared_snapshot-InContext note snapshot h =
      elim (Bool-cases (is_general note.corpus_id || not note.frontmatter.current_state)) [
        | inl wrong ↦ absurd (err≢ok (rw wrong at h))
        | inr current ↦ elim (Bool-cases (includes note.frontmatter.tags snapshot_tag)) [
          | inl tagged ↦ absurd (err≢ok (rw (current, tagged) at h))
          | inr fresh ↦ (ok-injective (rw (current, fresh) at h), ground (arith, current))
        ]
      ]

  pub prepared_snapshot-Built :
      (note snapshot : CanonicalNoteRecord)
      → prepare_current_state_snapshot texts note ≡ ok snapshot
      → build_current_state_snapshot texts note ≡ snapshot
  prepared_snapshot-Built note snapshot h = (prepared_snapshot-InContext note snapshot h).0

  -- A snapshot that is prepared keeps the corpus policy, carries the tag by which the promotion
  -- recognises it, and gives no further snapshot.
  pub prepared_snapshot-IsAccepted :
      (note snapshot : CanonicalNoteRecord)
      → prepare_current_state_snapshot texts note ≡ ok snapshot
      → (validate_canonical_corpus_policy snapshot ≡ none)
        × (includes snapshot.frontmatter.tags snapshot_tag ≡ true)
        × (prepare_current_state_snapshot texts snapshot ≡ err not_current_context)
  prepared_snapshot-IsAccepted note snapshot h =
      let (built, context) = prepared_snapshot-InContext note snapshot h in
      subst IsAccepted built (built-IsAccepted note context)

  -- `Keeps` holds of the state, and goes on to hold where a note that keeps the policy is written and
  -- where a metadata record is.
  module _ {W : Type 0} (ports : CanonicalPorts W) (Keeps : W → Type 0)
      (writes : (note : CanonicalNoteRecord) (w : W)
        → validate_canonical_corpus_policy note ≡ none
        → Keeps w
        → Keeps (ports.write_canonical_note note w).0)
      (upserts : (row : MetadataNoteRecord) (w : W)
        → Keeps w
        → Keeps (ports.upsert_note row w).0) where
    persist-Keeps :
        (note : CanonicalNoteRecord) (w : W)
        → validate_canonical_corpus_policy note ≡ none
        → Keeps w
        → Keeps (caught texts (persist_canonical_note texts ports note w)).0
    unfolding persist_canonical_note
    persist-Keeps note w valid keeps =
        written (ports.write_canonical_note note w) (writes note w valid keeps)
      where
        upserted :
            (persisted : CanonicalNoteRecord) (r : W × Result String (Unit {0}))
            → Keeps r.0
            → Keeps (caught texts (and_then (λ _ v. (v, ok persisted)) r)).0
        upserted persisted (v, ok done) k = k
        upserted persisted (v, err reason) k = k

        written :
            (r : W × Result String CanonicalNoteRecord)
            → Keeps r.0
            → Keeps
                (caught texts (
                  and_then
                    (λ persisted.
                      ports.upsert_note (metadata_record texts persisted) >> λ v. (v, ok persisted))
                    r)).0
        written (v, err reason) k = k
        written (v, ok persisted) k =
            upserted persisted (ports.upsert_note (metadata_record texts persisted) v)
              (upserts (metadata_record texts persisted) v k)

    write-Keeps :
        (note : CanonicalNoteRecord) (w : W)
        → Keeps w
        → Keeps (write_canonical_note texts ports note w).0
    unfolding write_canonical_note write_unless
    write-Keeps note w keeps = elim (Option-cases (validate_canonical_corpus_policy note)) [
      | inl valid ↦ rw valid (persist-Keeps note w valid keeps)
      | inr (violation, e) ↦ rw e keeps
    ]

    -- Whatever the notes and however the repository answers, what is written keeps the policy: an
    -- invariant that only such writes are known to preserve is preserved by a batch of notes.
    pub write_canonical_notes-Keeps :
        (notes : List CanonicalNoteRecord) (w : W)
        → Keeps w
        → Keeps (write_canonical_notes texts ports notes w).0
    unfolding write_canonical_notes
    write_canonical_notes-Keeps [] w keeps = keeps
    write_canonical_notes-Keeps (note ∷ notes) w keeps =
        first (write_canonical_notes-Keeps notes) (write_canonical_note texts ports note w)
          (write-Keeps note w keeps)
      where
        rest :
            (persisted : CanonicalNoteRecord)
            (r : W × Result CanonicalNoteError (List CanonicalNoteRecord))
            → Keeps r.0
            → Keeps (and_then (λ more v. (v, ok (persisted ∷ more))) r).0
        rest persisted (v, ok more) k = k
        rest persisted (v, err e) k = k

        first :
            ((v : W) → Keeps v → Keeps (write_canonical_notes texts ports notes v).0)
            → (r : W × Result CanonicalNoteError CanonicalNoteRecord) → Keeps r.0
            → Keeps
                (and_then
                  (λ persisted. write_canonical_notes texts ports notes >>= λ more v.
                    (v, ok (persisted ∷ more)))
                  r).0
        first later (v, err e) k = k
        first later (v, ok persisted) k =
            rest persisted (write_canonical_notes texts ports notes v) (later v k)

    -- So is it by a snapshot, which is written without a check of the policy.
    pub write_snapshot-Keeps :
        (note : CanonicalNoteRecord) (w : W)
        → Keeps w
        → Keeps (write_current_state_snapshot texts ports note w).0
    unfolding write_current_state_snapshot write_prepared
    write_snapshot-Keeps note w keeps =
        elim (Result-cases (prepare_current_state_snapshot texts note)) [
          | inl (snapshot, e) ↦
              rw e (persist-Keeps snapshot w (prepared_snapshot-IsAccepted note snapshot e).0 keeps)
          | inr (refused, e) ↦ rw e keeps
        ]
