-- ===== src/Packet/Selection.antt =====
-- `selectCandidates`, `expandNeighborhood` and `dedupeSources` of
-- packages/application/src/services/context-packet-service.ts.
-- `getChunkNeighborhood` of the metadata control store is a parameter: a
-- pure function, so an error of the store, which the service passes on, is left out.
pub mod Laws
use multi_agent_brain.Common.{
  ℕ, String, Bool, true, false, ◌||◌, Option, none, some, List, [], ◌∷◌, ◌++◌, string_eq, includes,
  length, take, ltb, or_else, if◌then◌else◌,
}
use multi_agent_brain.Common.Text.{is_blank}
use multi_agent_brain.Common.Text.Split.{◌<>◌}
use multi_agent_brain.Common.Maps.{set_add}
use multi_agent_brain.Notes.{ChunkRecord}
use multi_agent_brain.Packet.{ContextCandidate, ProvenanceRef}

-- `${noteId}:${chunkId ?? "note"}`
abbrev pub source_key : ProvenanceRef → String
source_key source = source.note_id <> ":" <> or_else source.chunk_id "note"

-- `chunkId ?? noteId`
abbrev pub seen_key : ProvenanceRef → String
seen_key source = or_else source.chunk_id source.note_id

module _ {S : Type 0} where
  -- The map keeps the first candidate of each key.
  unfoldable pub select_from : List String → List (ContextCandidate S) → List (ContextCandidate S)
  unfolding set_add
  select_from seen [] = []
  select_from seen (c ∷ candidates) =
      let key = source_key c.provenance in
      let rest = select_from (set_add seen key) candidates in
      if includes seen key then rest else c ∷ rest

  unfoldable pub select_candidates : List (ContextCandidate S) → List (ContextCandidate S)
  unfolding select_from
  select_candidates candidates = select_from [] candidates

  unfoldable pub sources_from : List String → List (ContextCandidate S) → List ProvenanceRef
  unfolding set_add
  sources_from seen [] = []
  sources_from seen (c ∷ candidates) =
      let key = source_key c.provenance in
      let rest = sources_from (set_add seen key) candidates in
      if includes seen key then rest else c.provenance ∷ rest

  unfoldable pub dedupe_sources : List (ContextCandidate S) → List ProvenanceRef
  unfolding sources_from
  dedupe_sources candidates = sources_from [] candidates

pub record Expansion (S : Type 0) : Type 0 where
  pub output : List (ContextCandidate S)
  pub seen : List String

module _ {S : Type 0} (get_chunk_neighborhood : String → ℕ → List ChunkRecord)
    (max_candidates : ℕ) where
  unfoldable pub push_candidate : String → ContextCandidate S → Expansion S → Expansion S
  unfolding set_add
  push_candidate key candidate e =
      if ltb (length e.output) max_candidates
      then record { output = e.output ++ candidate ∷ []; seen = set_add e.seen key }
      else e

  unfoldable pub push_new : String → ContextCandidate S → Expansion S → Expansion S
  unfolding push_candidate
  push_new key candidate e = if includes e.seen key then e else push_candidate key candidate e

  abbrev pub neighbor : ContextCandidate S → ChunkRecord → ContextCandidate S
  neighbor candidate chunk = record {
    note_type = chunk.note_type;
    score = candidate.score;
    summary = chunk.summary;
    raw_text = some chunk.raw_text;
    scope = chunk.scope;
    qualifiers = chunk.qualifiers;
    tags = chunk.tags;
    staleness_class = chunk.staleness_class;
    valid_from = none;
    valid_until = none;
    provenance = record {
      note_id = chunk.note_id;
      chunk_id = some chunk.chunk_id;
      note_path = chunk.note_path;
      heading_path = chunk.heading_path;
      excerpt = none;
    };
  }

  unfoldable pub push_chunks : ContextCandidate S → List ChunkRecord → Expansion S → Expansion S
  unfolding push_new
  push_chunks candidate [] e = e
  push_chunks candidate (chunk ∷ chunks) e =
      push_chunks candidate chunks (push_new chunk.chunk_id (neighbor candidate chunk) e)

  unfoldable pub push_neighborhood :
      String → ContextCandidate S → List ChunkRecord → Expansion S → Expansion S
  unfolding push_chunks
  push_neighborhood chunk_id candidate [] e = push_candidate chunk_id candidate e
  push_neighborhood chunk_id candidate (chunk ∷ chunks) e = push_chunks candidate (chunk ∷ chunks) e

  unfoldable pub expand_candidate : Option String → ContextCandidate S → Expansion S → Expansion S
  unfolding push_neighborhood
  expand_candidate none candidate e = push_new candidate.provenance.note_id candidate e
  expand_candidate (some chunk_id) candidate e =
      if is_blank chunk_id || includes e.seen chunk_id
      then push_new chunk_id candidate e
      else push_neighborhood chunk_id candidate (get_chunk_neighborhood chunk_id 1) e

  unfoldable pub expand_candidates : List (ContextCandidate S) → Expansion S → Expansion S
  unfolding expand_candidate
  expand_candidates [] e = e
  expand_candidates (c ∷ candidates) e =
      expand_candidates candidates (expand_candidate c.provenance.chunk_id c e)

  unfoldable pub expand_neighborhood : List (ContextCandidate S) → List (ContextCandidate S)
  unfolding expand_candidates
  expand_neighborhood candidates =
      take max_candidates (expand_candidates candidates (record { output = []; seen = [] })).output
