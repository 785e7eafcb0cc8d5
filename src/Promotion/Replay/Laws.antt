-- ===== src/Promotion/Replay/Laws.antt =====
-- Where the services answer, a replay leaves no promotion unfinished.
use multi_agent_brain.Common.{
  ℕ, ◌≤◌, String, ◌≡◌, refl, sym, ap, subst, ◌∙◌, inl, inr, true, false, Option, none, some, List,
  [], ◌∷◌, map, arith, string_eq, ◌==◌, ==_eq, or_else, Elem, here, there, find_sound, filter,
  length, Bool-cases, Option-cases,
}
use multi_agent_brain.Common.Results.{ok}
use mathlib.Core.Option.{some-injective}
use multi_agent_brain.Common.Effects.{Effect, ◌>>=◌, and_then}
use multi_agent_brain.Common.Sort.{sort_by, binary_le}
use multi_agent_brain.Common.Members.{filter-Elem, sort_by-Elem, length-sort_by, take_all, map-Elem}
use multi_agent_brain.Notes.{
  CanonicalNoteRecord, StagingDraftRecord, MetadataNoteRecord, ChunkRecord,
}
use multi_agent_brain.Promotion.Outbox.{
  PromotionOutboxState, pending, processing, completed, failed, same_state, any_state, in_states,
  list_limit, get_promotion_outbox_entry, claim_found, claim_promotion_outbox_entry,
  list_promotion_outbox_entries,
}
use multi_agent_brain.Promotion.Process.{
  Row, PromotionPorts, PromotionState, LexicalIndex, VectorIndex, ProcessedPromotionResult, Written,
  process_promotion_outbox_entry, write_canonical_notes, sync_chunk_state, nothing_written,
  processed_result, process_claimed, after_writes, after_draft, sync_lexical, sync_vector,
  update_promoted_draft,
}
use multi_agent_brain.Promotion.Process.Laws.{
  IsSettled, process-IsSettled, process_finished, process_other,
}
use multi_agent_brain.Promotion.Replay.{
  ReplayReport, empty_report, replay_entries, replay_pending_promotions, unfinished_states,
}

-- The operation returns, in every state.
abbrev pub Succeeds : {W A : Type 0} → Effect W A → Type 0
Succeeds {W} {A} m = (w : W) → (w' : W) × (a : A) × (m w ≡ (w', ok a))

module _ {W A B : Type 0} where
  >>=-Succeeds :
      (m : Effect W A) (next : A → Effect W B)
      → Succeeds m
      → ((a : A) → Succeeds (next a))
      → Succeeds (m >>= next)
  >>=-Succeeds m next h k w =
      let (w', a, e) = h w in let (w'', b, f) = k a w' in (w'', b, ap (and_then next) e ∙ f)

abbrev pub LexicalSucceeds : {W : Type 0} → Option (LexicalIndex W) → Type 0
LexicalSucceeds none = Unit
LexicalSucceeds (some index) =
    ((id : String) → Succeeds (index.remove_by_note_id id))
    × ((chunks : List ChunkRecord) → Succeeds (index.upsert_chunks chunks))

abbrev pub VectorSucceeds : {W E : Type 0} → Option (VectorIndex W E) → Type 0
VectorSucceeds none = Unit
VectorSucceeds {W} {E} (some index) =
    ((id : String) → Succeeds (index.remove_by_note_id id))
    × ((texts : List String) → Succeeds (index.embed_texts texts))
    × ((rows : List (ChunkRecord × Option E)) → Succeeds (index.upsert_embeddings rows))

-- Every service that the processing calls returns. The one whose errors are dropped need not.
pub record IsReliable {W E : Type 0} (ports : PromotionPorts W E) : Type 0 where
  pub writes : (note : CanonicalNoteRecord) → Succeeds (ports.write_canonical_note note)
  pub chunks : (note : CanonicalNoteRecord) → Succeeds (ports.chunk_canonical_note note)
  pub removes : (id : String) → Succeeds (ports.remove_chunks_by_note_id id)
  pub upserts : (chunks : List ChunkRecord) → Succeeds (ports.upsert_chunks chunks)
  pub lexical : LexicalSucceeds ports.lexical_index
  pub vector : VectorSucceeds ports.vector_index
  pub drafts : (draft : StagingDraftRecord) → Succeeds (ports.update_draft draft)
  pub notes : (note : MetadataNoteRecord) → Succeeds (ports.upsert_note note)

module _ {W E : Type 0} (ports : PromotionPorts W E) (reliable : IsReliable ports) where
  lexical-Succeeds :
      (index : Option (LexicalIndex W)) (id : String) (chunks : List ChunkRecord)
      → LexicalSucceeds index
      → Succeeds (sync_lexical ports index id chunks)
  lexical-Succeeds none id chunks h = λ w. (w, tt, refl)
  lexical-Succeeds (some index) id chunks (removes, upserts) =
      >>=-Succeeds (index.remove_by_note_id id) (λ _. index.upsert_chunks chunks) (removes id)
        λ _. upserts chunks

  vector-Succeeds :
      (index : Option (VectorIndex W E)) (id : String) (chunks : List ChunkRecord)
      → VectorSucceeds index
      → Succeeds (sync_vector ports index id chunks)
  unfolding sync_vector
  vector-Succeeds none id chunks h = λ w. (w, tt, refl)
  vector-Succeeds (some index) id chunks (removes, embeds, upserts) =
      >>=-Succeeds (index.remove_by_note_id id) _ (removes id)
        λ _. >>=-Succeeds _ _ (embeds _) λ embeddings. upserts _

  sync-Succeeds :
      (id : String) (chunks : List ChunkRecord) → Succeeds (sync_chunk_state ports id chunks)
  unfolding sync_chunk_state
  sync-Succeeds id chunks = >>=-Succeeds _ _ (reliable.removes id) λ _.
      >>=-Succeeds _ _ (reliable.upserts chunks) λ _.
        >>=-Succeeds _ _ (lexical-Succeeds ports.lexical_index id chunks reliable.lexical)
          λ _. vector-Succeeds ports.vector_index id chunks reliable.vector

  writes-Succeeds :
      (canonical_id : String) (notes : List CanonicalNoteRecord) (seen : Written)
      → Succeeds (write_canonical_notes ports canonical_id seen notes)
  unfolding write_canonical_notes
  writes-Succeeds canonical_id [] seen = λ w. (w, seen, refl)
  writes-Succeeds canonical_id (note ∷ notes) seen =
      >>=-Succeeds _ _ (reliable.writes note) λ persisted.
        >>=-Succeeds _ _ (reliable.chunks persisted) λ chunks.
          >>=-Succeeds _ _ (sync-Succeeds persisted.note_id chunks)
            λ _. writes-Succeeds canonical_id notes _

  draft-Succeeds : (draft : StagingDraftRecord) → Succeeds (update_promoted_draft ports draft)
  unfolding update_promoted_draft
  draft-Succeeds draft = >>=-Succeeds _ _ (reliable.drafts draft) λ promoted. reliable.notes _

  -- Where the services return, the processing of an entry that is not completed completes it.
  process_completes :
      (now new_id id : String) (s : PromotionState W) {row : Row}
      → get_promotion_outbox_entry s.outbox id ≡ some row
      → same_state completed row.state ≡ false
      → (r : ProcessedPromotionResult) × ((process_promotion_outbox_entry ports now new_id id s).1
          ≡ ok r)
  unfolding process_promotion_outbox_entry claim_promotion_outbox_entry process_claimed claim_found
      after_writes after_draft
  process_completes now new_id id s {row} found unfinished =
      let payload = row.payload in
      let (w, written, wrote) =
        writes-Succeeds payload.promotion_decision.canonical_note_id payload.canonical_writes
          nothing_written s.world in
      let (w', done, drafted) = draft-Succeeds payload.draft_update w in
      (processed_result id payload written, rw (found, unfinished, wrote, drafted) refl)

  -- If the entry is there, it is completed.
  abbrev pub IsDone : String → PromotionState W → Type 0
  IsDone j s =
      (row : Row)
      → get_promotion_outbox_entry s.outbox j ≡ some row
      → same_state completed row.state ≡ true

  module _ (now new_id j : String) where
    process_keeps-IsDone :
        (id : String) (s : PromotionState W)
        → IsDone j s
        → IsDone j (process_promotion_outbox_entry ports now new_id id s).0
    process_keeps-IsDone id s done = elim (Bool-cases (id == j)) [
      | inl same ↦
          let e : id ≡ j = ==_eq same in
          let untouched =
            process_finished ports now new_id id s (subst (λ i. IsDone i s) (sym e) done) in
          subst (λ t. IsDone j t.0) (sym untouched) done
      | inr differ ↦
          λ row found. done row (sym (process_other ports now new_id id s j differ) ∙ found)
    ]

    process-IsDone :
        (s : PromotionState W) → IsDone j (process_promotion_outbox_entry ports now new_id j s).0
    process-IsDone s = elim (Option-cases (get_promotion_outbox_entry s.outbox j)) [
      | inl absent ↦ process_keeps-IsDone j s (λ row found. cc)
      | inr (row, found) ↦ elim (Bool-cases (same_state completed row.state)) [
        | inl done ↦ process_keeps-IsDone j s (λ other found'.
            let same : row ≡ other = some-injective _ _ (sym found ∙ found') in
            subst (λ r. same_state completed r.state ≡ true) same done)
        | inr unfinished ↦
            let (r, answered) = process_completes now new_id j s found unfinished in
            let settled = process-IsSettled ports now new_id j s row found unfinished in
            let (named, note, after, found_after, state, payload, attempts, event) =
              subst (λ o. IsSettled j row (process_promotion_outbox_entry ports now new_id j s).0 o)
                answered settled in
            λ other found'.
              let same : after ≡ other = some-injective _ _ (sym found_after ∙ found') in
              subst (λ t. same_state completed t.state ≡ true) same (rw state refl)
      ]
    ]

    replay_keeps-IsDone :
        (entries : List Row) (s : PromotionState W) (report : ReplayReport)
        → IsDone j s
        → IsDone j (replay_entries ports now new_id entries s report).0
    unfolding replay_entries
    replay_keeps-IsDone [] s report done = done
    replay_keeps-IsDone (queued ∷ entries) s report done =
        replay_keeps-IsDone entries _ _ (process_keeps-IsDone queued.outbox_id s done)

    replay-IsDone :
        (entries : List Row) (s : PromotionState W) (report : ReplayReport)
        → Elem j (map (λ row. row.outbox_id) entries)
        → IsDone j (replay_entries ports now new_id entries s report).0
    unfolding replay_entries
    replay-IsDone [] s report m = elim m [ ]
    replay-IsDone (queued ∷ entries) s report (here e) = replay_keeps-IsDone entries _ _ (
        subst (λ i. IsDone j (process_promotion_outbox_entry ports now new_id i s).0) e
          (process-IsDone s))
    replay-IsDone (queued ∷ entries) s report (there m) = replay-IsDone entries _ _ m

  unfinished-in_states :
      (row : Row) → same_state completed row.state ≡ false → in_states unfinished_states row ≡ true
  unfinished-in_states row h = named row.state h
    where
      named :
          (state : PromotionOutboxState)
          → same_state completed state ≡ false
          → any_state unfinished_states state ≡ true
      named pending k = refl
      named processing k = refl
      named failed k = refl
      named completed k = cc

  listed-Elem :
      (limit : Option ℕ) (rows : List Row) (j : String) (r : Row)
      → length (filter (in_states unfinished_states) rows) ≤ list_limit limit
      → get_promotion_outbox_entry rows j ≡ some r
      → same_state completed r.state ≡ false
      → Elem j
          (map (λ row. row.outbox_id) (list_promotion_outbox_entries rows unfinished_states limit))
  unfolding list_promotion_outbox_entries get_promotion_outbox_entry
  listed-Elem limit rows j r enough found unfinished =
      let (member, named) = find_sound (λ row. row.outbox_id == j) rows found in
      let wanted = filter (in_states unfinished_states) rows in
      let le = λ (a b : Row). binary_le a.created_at b.created_at in
      let chosen =
        filter-Elem (in_states unfinished_states) rows member (unfinished-in_states r unfinished) in
      let all =
        take_all (list_limit limit) (sort_by le wanted) (omega (arith, length-sort_by le wanted)) in
      let id : r.outbox_id ≡ j = ==_eq named in
      rw (← id, all) (map-Elem (λ row. row.outbox_id) _ (sort_by-Elem le wanted chosen))

  all-IsDone :
      (now new_id : String) (limit : Option ℕ) (s : PromotionState W)
      → length (filter (in_states unfinished_states) s.outbox)
        ≤ list_limit (some (or_else limit 25))
      → (j : String) → IsDone j (replay_pending_promotions ports now new_id limit s).0
  unfolding replay_pending_promotions
  all-IsDone now new_id limit s enough j =
      let queue =
        list_promotion_outbox_entries s.outbox unfinished_states (some (or_else limit 25)) in
      elim (Option-cases (get_promotion_outbox_entry s.outbox j)) [
        | inl absent ↦ replay_keeps-IsDone now new_id j queue s empty_report (λ r found. cc)
        | inr (r, found) ↦ elim (Bool-cases (same_state completed r.state)) [
          | inl done ↦ replay_keeps-IsDone now new_id j queue s empty_report (λ other found'.
              subst (λ t. same_state completed t.state ≡ true)
                (some-injective _ _ (sym found ∙ found')) done)
          | inr unfinished ↦
              replay-IsDone now new_id j queue s empty_report
                (listed-Elem (some (or_else limit 25)) s.outbox j r enough found unfinished)
        ]
      ]

  -- Where every service that the processing calls returns, and the limit is no less than the number
  -- of unfinished entries, a replay leaves every entry of the outbox completed.
  pub replay_completes_all :
      (now new_id : String) (limit : Option ℕ) (s : PromotionState W)
      → length (filter (in_states unfinished_states) s.outbox)
        ≤ list_limit (some (or_else limit 25))
      → (j : String) (row : Row)
      → get_promotion_outbox_entry (replay_pending_promotions ports now new_id limit s).0.outbox j
        ≡ some row
      → row.state ≡ completed
  replay_completes_all now new_id limit s enough j row after =
      is_completed row.state (all-IsDone now new_id limit s enough j row after)
    where
      is_completed :
          (state : PromotionOutboxState) → same_state completed state ≡ true → state ≡ completed
      is_completed completed h = refl
      is_completed pending h = cc
      is_completed processing h = cc
      is_completed failed h = cc
