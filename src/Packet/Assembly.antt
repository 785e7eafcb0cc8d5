-- ===== src/Packet/Assembly.antt =====
-- `assemblePacket` of packages/application/src/services/context-packet-service.ts.
-- `is_high` says whether a score is at least 0.72.
pub mod Laws
use multi_agent_brain.Common.{
  ℕ, ◌*◌, max, String, Bool, true, false, ◌||◌, Option, none, some, List, [], ◌∷◌, length, or_else,
  if◌then◌else◌,
}
use mathlib.Core.Option
use multi_agent_brain.Contracts.{ContextBudget}
use multi_agent_brain.Notes.{ChunkRecord}
use multi_agent_brain.Packet.{
  ContextCandidate, AnswerabilityDisposition, local_answer, partial, needs_escalation,
  AnswerConfidence, low, medium, high, AssembleContextPacketRequest, ContextPacket,
  packet_type_for_intent,
}
use multi_agent_brain.Packet.Selection.{select_candidates, expand_neighborhood}
use multi_agent_brain.Packet.Budget.{BudgetInput, BudgetedPacket, enforce_context_budget}

abbrev pub is_local : AnswerabilityDisposition → Bool
is_local local_answer = true
is_local partial = false
is_local needs_escalation = false

abbrev pub should_include_raw_excerpts : Bool → AnswerabilityDisposition → Bool
should_include_raw_excerpts include_raw_excerpts answerability =
    include_raw_excerpts || (elim (is_local answerability) [ true ↦ false | false ↦ true ])

abbrev pub candidate_window_size : ContextBudget → ℕ
candidate_window_size budget = max 8 (
    max (budget.max_sources * 3)
      (max (budget.max_raw_excerpts * 3) (budget.max_summary_sentences * 3)))

module _ {S : Type 0} (is_high : S → Bool) where
  -- The best score, where there is none, is 0.
  abbrev pub top_is_high : List (ContextCandidate S) → Bool
  top_is_high [] = false
  top_is_high (c ∷ candidates) = is_high c.score

  abbrev pub determine_confidence :
      AnswerabilityDisposition → List (ContextCandidate S) → AnswerConfidence
  determine_confidence needs_escalation candidates = low
  determine_confidence local_answer candidates = if top_is_high candidates then high else medium
  determine_confidence partial candidates = medium

  module _ (get_chunk_neighborhood : String → ℕ → List ChunkRecord) where
    unfoldable pub budget_input :
        AssembleContextPacketRequest S → AnswerabilityDisposition → BudgetInput S
    unfolding select_candidates expand_neighborhood
    budget_input request answerability = record {
      candidates =
          expand_neighborhood get_chunk_neighborhood (candidate_window_size request.budget)
            (select_candidates request.candidates);
      intent = request.intent;
      answerability = answerability;
      budget = request.budget;
      include_raw_excerpts = should_include_raw_excerpts request.include_raw_excerpts answerability;
    }

    unfoldable pub packet_from :
        AssembleContextPacketRequest S → AnswerabilityDisposition → BudgetedPacket S → ContextPacket
    packet_from request answerability budgeted = record {
      packet_type = packet_type_for_intent request.intent;
      intent = request.intent;
      confidence = determine_confidence answerability budgeted.selected_candidates;
      answerability = answerability;
      summary = budgeted.summary;
      constraints = budgeted.constraints;
      evidence = budgeted.sources;
      raw_excerpts = budgeted.raw_excerpts;
      uncertainties = budgeted.uncertainties;
      budget_usage = record {
        token_estimate = budgeted.token_estimate;
        source_count = length budgeted.sources;
        raw_excerpt_count = length (or_else budgeted.raw_excerpts []);
      };
    }

    unfoldable pub assemble_packet :
        AssembleContextPacketRequest S → AnswerabilityDisposition → Option ContextPacket
    unfolding budget_input packet_from enforce_context_budget
    assemble_packet request answerability =
        Option.map (packet_from request answerability)
          (enforce_context_budget (budget_input request answerability))
