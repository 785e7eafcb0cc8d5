-- ===== src/Packet/Examples.antt =====
-- Candidates and budgets at which the theorems about packets are applied.
use multi_agent_brain.Common.{
  ℕ, ◌≤◌, String, ◌≡◌, refl, Bool, true, none, some, List, [], ◌∷◌, map, arith, leb, length,
  string_eq,
}
use multi_agent_brain.Common.Sets.{Distinct}
use multi_agent_brain.Contracts.{ActorContext, ContextBudget, operator, internal}
use multi_agent_brain.Notes.{ChunkRecord, current}
use multi_agent_brain.Notes
use multi_agent_brain.Packet.{
  ContextCandidate, ProvenanceRef, AssembleContextPacketRequest, ContextPacket, decision_lookup,
  local_answer, partial,
}
use multi_agent_brain.Packet.Selection.{source_key, seen_key, dedupe_sources, expand_neighborhood}
use multi_agent_brain.Packet.Selection.Laws.{dedupe_sources-Distinct, expand_neighborhood-IsBounded}
use multi_agent_brain.Packet.Budget.{BudgetInput, clipped_packet}
use multi_agent_brain.Packet.Budget.Laws.{tokens_of}
use multi_agent_brain.Packet.Assembly.{assemble_packet}
use multi_agent_brain.Packet.Assembly.Laws.{KeepsBudget, assemble_packet-KeepsBudget}

abbrev source : String → ProvenanceRef
source chunk = record {
  note_id = "n1";
  chunk_id = some chunk;
  note_path = "context_brain/plan.md";
  heading_path = "Plan" ∷ "Details" ∷ [];
  excerpt = none;
}

abbrev candidate : String → ContextCandidate ℕ
candidate chunk = record {
  note_type = Notes.NoteType.decision;
  score = 80;
  summary = "Keep it. Write it down.";
  raw_text = some "Keep it  short.";
  scope = "all";
  qualifiers = "never twice" ∷ [];
  tags = [];
  staleness_class = current;
  valid_from = none;
  valid_until = none;
  provenance = source chunk;
}

abbrev candidates : List (ContextCandidate ℕ)
candidates = candidate "c1" ∷ candidate "c1" ∷ candidate "c2" ∷ []

abbrev ann : ActorContext
ann = record {
  actor_id = "ann";
  actor_role = operator;
  transport = internal;
  source = "cli";
  request_id = "r1";
  initiated_at = "t1";
  tool_name = none;
  auth_token = none;
  allowed_corpora = none;
}

abbrev budget : ContextBudget
budget = record {
  max_tokens = 60;
  max_sources = 2;
  max_raw_excerpts = 1;
  max_summary_sentences = 2;
}

abbrev request : AssembleContextPacketRequest ℕ
request = record {
  actor = ann;
  intent = decision_lookup;
  budget = budget;
  candidates = candidates;
  include_raw_excerpts = true;
}

abbrev alone : String → ℕ → List ChunkRecord
alone id radius = []

abbrev is_high : ℕ → Bool
is_high score = leb 72 score

abbrev input : BudgetInput ℕ
input = record {
  candidates = candidates;
  intent = decision_lookup;
  answerability = partial;
  budget = record budget { max_tokens = 1 };
  include_raw_excerpts = true;
}

-- A clipped packet reports the one token allowed, but holds three by the same estimate.
understated :
    let p = clipped_packet input "Relevant decision context: Keep it." in
    (p.token_estimate ≡ 1) × (tokens_of p ≡ 3)
unfolding clipped_packet
understated = (refl, refl)

assemble_packet-KeepsBudget_example :
    (packet : ContextPacket) × (assemble_packet is_high alone request local_answer ≡ some packet)
    × KeepsBudget request local_answer packet
assemble_packet-KeepsBudget_example =
    assemble_packet-KeepsBudget is_high alone request local_answer (omega arith)

dedupe_sources-Distinct_example : Distinct (map source_key (dedupe_sources candidates))
dedupe_sources-Distinct_example = dedupe_sources-Distinct candidates

expand_neighborhood-IsBounded_example :
    let expanded = expand_neighborhood alone 8 candidates in
    Distinct (map (λ c. seen_key c.provenance) expanded) × (length expanded ≤ 8)
expand_neighborhood-IsBounded_example = expand_neighborhood-IsBounded alone 8 candidates
