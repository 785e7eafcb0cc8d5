-- ===== src/Packet/Words.antt =====
-- The texts of a packet: excerpts, sentences and summaries, and the estimate of their tokens, of
-- packages/application/src/services/context-packet-service.ts.
use multi_agent_brain.Common.{
  ℕ, ◌+◌, ◌-◌, ◌*◌, ◌/◌, max, String, true, false, List, [], ◌∷◌, ◌++◌, map, string_eq, filter,
  take, leb, if◌then◌else◌, Option, or_else,
}
use multi_agent_brain.Common.Text.{is_blank, trim}
use multi_agent_brain.Common.Text.Split.{◌<>◌, join_with}
use multi_agent_brain.Common.Text.Slices.{
  text_length, slice_to, normalize_whitespace, split_sentences,
}
use multi_agent_brain.Common.Maps.{to_set}
use multi_agent_brain.Packet.{
  QueryIntent, fact_lookup, decision_lookup, implementation_guidance, status_timeline, debugging,
  architecture_recall, ContextCandidate, ProvenanceRef, AnswerabilityDisposition, local_answer,
  partial, needs_escalation,
}

abbrev pub estimate_tokens : String → ℕ
estimate_tokens value = max 1 ((text_length value + 3) / 4)

-- `values.filter(Boolean)`
abbrev pub non_empty : List String → List String
non_empty values = filter (λ value. elim (is_blank value) [ true ↦ false | false ↦ true ]) values

unfoldable pub dedupe_strings : List String → List String
unfolding trim to_set
dedupe_strings values = to_set (non_empty (map trim values))

-- A slice with a negative end leaves characters out from the end.
abbrev slice_until : ℕ → String → String
slice_until max_length value =
    if leb 3 max_length
    then slice_to (max_length - 3) value
    else slice_to (text_length value - (3 - max_length)) value

unfoldable pub excerpt_text : String → ℕ → String
unfolding normalize_whitespace
excerpt_text value max_length =
    let normalized = normalize_whitespace value in
    if leb (text_length normalized) max_length
    then normalized
    else slice_until max_length normalized <> "..."

unfoldable pub clip_text_to_token_budget : String → ℕ → String
unfolding excerpt_text
clip_text_to_token_budget value max_tokens = excerpt_text value (max 1 (max_tokens * 4))

unfoldable pub split_summary_sentences : String → List String
unfolding normalize_whitespace split_sentences trim
split_summary_sentences value =
    let normalized = normalize_whitespace value in
    if is_blank normalized then [] else non_empty (map trim (split_sentences normalized))

abbrev pub flat_map {ℓ} : {A : Type ℓ} → (A → List String) → List A → List String
flat_map f [] = []
flat_map f (x ∷ xs) = f x ++ flat_map f xs

abbrev pub summary_prefix : QueryIntent → String
summary_prefix decision_lookup = "Relevant decision context:"
summary_prefix implementation_guidance = "Implementation-relevant context:"
summary_prefix debugging = "Implementation-relevant context:"
summary_prefix status_timeline = "Current timeline and status context:"
summary_prefix architecture_recall = "Architecture context:"
summary_prefix fact_lookup = "Relevant local context:"

abbrev summary_of : String → List String → String
summary_of prefix [] = prefix <> " No high-confidence local context was found."
summary_of prefix (s ∷ sentences) = prefix <> " " <> join_with " " (s ∷ sentences)

unfoldable pub summarize_candidates :
    {S : Type 0} → List (ContextCandidate S) → QueryIntent → ℕ → String
unfolding dedupe_strings split_summary_sentences
summarize_candidates candidates intent max_summary_sentences = summary_of (summary_prefix intent) (
    take max_summary_sentences (
      dedupe_strings
        (flat_map (λ candidate. split_summary_sentences candidate.summary) candidates)))

abbrev pub build_uncertainties :
    {S : Type 0} → AnswerabilityDisposition → List (ContextCandidate S) → List String
build_uncertainties local_answer candidates = []
build_uncertainties partial [] = "No local evidence met the minimum ranking threshold." ∷ []
build_uncertainties needs_escalation [] =
    "No local evidence met the minimum ranking threshold." ∷ []
build_uncertainties needs_escalation (c ∷ candidates) =
    "Local context is insufficient and should be supplemented with code or external search." ∷ []
build_uncertainties partial (c ∷ candidates) =
    "Local context is partial; exact implementation details may need deeper code search." ∷ []

abbrev pub provenance_tokens : ProvenanceRef → ℕ
provenance_tokens source = estimate_tokens (
    join_with "\n"
      (non_empty (source.note_id ∷ source.note_path ∷ join_with " > " source.heading_path ∷ [])))

abbrev pub sum_by {ℓ} : {A : Type ℓ} → (A → ℕ) → List A → ℕ
sum_by f [] = 0
sum_by f (x ∷ xs) = f x + sum_by f xs

abbrev pub estimate_provenance_tokens : List ProvenanceRef → ℕ
estimate_provenance_tokens sources = sum_by provenance_tokens sources

abbrev pub estimate_packet_tokens :
    String → List String → List String → List ProvenanceRef → Option (List String) → ℕ
estimate_packet_tokens summary constraints uncertainties sources raw_excerpts =
    estimate_tokens summary
    + estimate_tokens (join_with "\n" constraints)
    + estimate_tokens (join_with "\n" uncertainties)
    + estimate_provenance_tokens sources
    + sum_by estimate_tokens (or_else raw_excerpts [])
