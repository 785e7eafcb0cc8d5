-- ===== src/Packet/Selection/Laws.antt =====
-- No source stands twice in a packet, and the neighbourhoods stay within their window.
use multi_agent_brain.Common.{
  ℕ, ◌≤◌, String, ◌≡◌, refl, sym, ap, ◌∙◌, subst, inl, inr, true, false, ◌||◌, false≢true, Option,
  none, some, List, [], ◌∷◌, ◌++◌, map, arith, string_eq, ◌==◌, ==_refl, ==_eq, includes, length,
  length-append, ltb, or_else, Bool-cases, if◌then◌else◌,
}
use multi_agent_brain.Common.Text.{is_blank}
use multi_agent_brain.Common.Maps.{includes-append_one}
use multi_agent_brain.Common.Sets.{Distinct, set_add-Distinct}
use multi_agent_brain.Common.Members.{take_all, map-append}
use multi_agent_brain.Notes.{ChunkRecord}
use multi_agent_brain.Packet.{ContextCandidate}
use multi_agent_brain.Packet.Selection.{
  source_key, seen_key, sources_from, dedupe_sources, Expansion, push_candidate, push_new,
  push_chunks, push_neighborhood, expand_candidate, expand_candidates, expand_neighborhood,
  neighbor,
}

module _ {S : Type 0} where
  sources_skip_seen :
      (seen : List String) (candidates : List (ContextCandidate S)) (k : String)
      → includes seen k ≡ true
      → includes (map source_key (sources_from seen candidates)) k ≡ false
  unfolding sources_from
  sources_skip_seen seen [] k h = refl
  sources_skip_seen seen (c ∷ candidates) k h =
      let key = source_key c.provenance in
      elim (Bool-cases (includes seen key)) [
        | inl old ↦ rw old (sources_skip_seen seen candidates k h)
        | inr new ↦ rw new (elim (Bool-cases (key == k)) [
          | inl same ↦ absurd (false≢true (sym new ∙ ap (includes seen) (==_eq same) ∙ h))
          | inr other ↦ rw other (
              sources_skip_seen (seen ++ key ∷ []) candidates k
                (includes-append_one seen key k ∙ rw h refl))
        ])
      ]

  sources_from-Distinct :
      (seen : List String) (candidates : List (ContextCandidate S))
      → Distinct (map source_key (sources_from seen candidates))
  unfolding sources_from
  sources_from-Distinct seen [] = tt
  sources_from-Distinct seen (c ∷ candidates) =
      let key = source_key c.provenance in
      elim (Bool-cases (includes seen key)) [
        | inl old ↦ rw old (sources_from-Distinct seen candidates)
        | inr new ↦ rw new (
          sources_skip_seen (seen ++ key ∷ []) candidates key
              (includes-append_one seen key key ∙ rw (==_refl key) (ground arith)),
          sources_from-Distinct (seen ++ key ∷ []) candidates,
        )
      ]

  length-sources_from :
      (seen : List String) (candidates : List (ContextCandidate S))
      → length (sources_from seen candidates) ≤ length candidates
  unfolding sources_from
  length-sources_from seen [] = omega arith
  length-sources_from seen (c ∷ candidates) =
      let key = source_key c.provenance in
      elim (Bool-cases (includes seen key)) [
        | inl old ↦ rw old (omega (arith, length-sources_from seen candidates))
        | inr new ↦ rw new (omega (arith, length-sources_from (seen ++ key ∷ []) candidates))
      ]

  pub length-dedupe_sources :
      (candidates : List (ContextCandidate S))
      → length (dedupe_sources candidates) ≤ length candidates
  unfolding dedupe_sources
  length-dedupe_sources candidates = length-sources_from [] candidates

  -- No two sources of a packet have the same key.
  pub dedupe_sources-Distinct :
      (candidates : List (ContextCandidate S))
      → Distinct (map source_key (dedupe_sources candidates))
  unfolding dedupe_sources
  dedupe_sources-Distinct candidates = sources_from-Distinct [] candidates

-- What the expansion keeps: the keys seen are those of the output, each once, within the window.
abbrev pub IsBounded : {S : Type 0} → ℕ → Expansion S → Type 0
IsBounded window e =
    (e.seen ≡ map (λ c. seen_key c.provenance) e.output)
    × Distinct e.seen
    × (length e.output ≤ window)

module _ {S : Type 0} (get_chunk_neighborhood : String → ℕ → List ChunkRecord) (window : ℕ) where
  push-IsBounded :
      (key : String) (c : ContextCandidate S) (e : Expansion S)
      → seen_key c.provenance ≡ key
      → includes e.seen key ≡ false
      → IsBounded window e
      → IsBounded window (push_candidate get_chunk_neighborhood window key c e)
  unfolding push_candidate
  push-IsBounded key c e named new (keys, once, small) =
      elim (Bool-cases (ltb (length e.output) window)) [
        | inr full ↦ rw full (keys, once, small)
        | inl room ↦ rw room (
          rw new (
              ap (λ xs. xs ++ key ∷ []) keys
              ∙ ap (λ k. map (λ d. seen_key d.provenance) e.output ++ k ∷ []) (sym named)
              ∙ sym (map-append (λ d. seen_key d.provenance) e.output (c ∷ []))),
          set_add-Distinct e.seen key once,
          ground (arith, length-append e.output (c ∷ []), room),
        )
      ]

  new-IsBounded :
      (key : String) (c : ContextCandidate S) (e : Expansion S)
      → seen_key c.provenance ≡ key
      → IsBounded window e
      → IsBounded window (push_new get_chunk_neighborhood window key c e)
  unfolding push_new
  new-IsBounded key c e named bounded = elim (Bool-cases (includes e.seen key)) [
    | inl old ↦ rw old bounded
    | inr new ↦
        subst
          (λ b.
            IsBounded window
              (if b then e else push_candidate get_chunk_neighborhood window key c e))
          (sym new) (push-IsBounded key c e named new bounded)
  ]

  chunks-IsBounded :
      (c : ContextCandidate S) (chunks : List ChunkRecord) (e : Expansion S)
      → IsBounded window e
      → IsBounded window (push_chunks get_chunk_neighborhood window c chunks e)
  unfolding push_chunks
  chunks-IsBounded c [] e bounded = bounded
  chunks-IsBounded c (chunk ∷ chunks) e bounded =
      chunks-IsBounded c chunks
        (push_new get_chunk_neighborhood window chunk.chunk_id
          (neighbor get_chunk_neighborhood window c chunk) e)
        (new-IsBounded chunk.chunk_id (neighbor get_chunk_neighborhood window c chunk) e refl
          bounded)

  neighborhood-IsBounded :
      (id : String) (c : ContextCandidate S) (chunks : List ChunkRecord) (e : Expansion S)
      → seen_key c.provenance ≡ id
      → includes e.seen id ≡ false
      → IsBounded window e
      → IsBounded window (push_neighborhood get_chunk_neighborhood window id c chunks e)
  unfolding push_neighborhood
  neighborhood-IsBounded id c [] e named new bounded = push-IsBounded id c e named new bounded
  neighborhood-IsBounded id c (chunk ∷ chunks) e named new bounded =
      chunks-IsBounded c (chunk ∷ chunks) e bounded

  candidate-IsBounded :
      (id : Option String) (c : ContextCandidate S) (e : Expansion S)
      → or_else id c.provenance.note_id ≡ seen_key c.provenance
      → IsBounded window e
      → IsBounded window (expand_candidate get_chunk_neighborhood window id c e)
  unfolding expand_candidate
  candidate-IsBounded none c e named bounded =
      new-IsBounded c.provenance.note_id c e (sym named) bounded
  candidate-IsBounded (some id) c e named bounded =
      elim (Bool-cases (is_blank id || includes e.seen id)) [
        | inl known ↦ rw known (new-IsBounded id c e (sym named) bounded)
        | inr new ↦ rw new (
            neighborhood-IsBounded id c (get_chunk_neighborhood id 1) e (sym named)
              (ground (arith, new)) bounded)
      ]

  expand-IsBounded :
      (candidates : List (ContextCandidate S)) (e : Expansion S)
      → IsBounded window e
      → IsBounded window (expand_candidates get_chunk_neighborhood window candidates e)
  unfolding expand_candidates
  expand-IsBounded [] e bounded = bounded
  expand-IsBounded (c ∷ candidates) e bounded =
      expand-IsBounded candidates
        (expand_candidate get_chunk_neighborhood window c.provenance.chunk_id c e)
        (candidate-IsBounded c.provenance.chunk_id c e refl bounded)

  -- The neighbourhoods of the candidates give no more candidates than the window allows, and no two
  -- with the same chunk id, or note id where there is no chunk.
  pub expand_neighborhood-IsBounded :
      (candidates : List (ContextCandidate S))
      → let expanded = expand_neighborhood get_chunk_neighborhood window candidates in
        Distinct (map (λ c. seen_key c.provenance) expanded) × (length expanded ≤ window)
  unfolding expand_neighborhood
  expand_neighborhood-IsBounded candidates =
      let start : Expansion S = record { output = []; seen = [] } in
      let (keys, once, small) = expand-IsBounded candidates start (refl, tt, omega arith) in
      rw (take_all window _ small) (subst Distinct keys once, small)
