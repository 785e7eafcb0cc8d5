-- ===== src/Packet/Budget.antt =====
-- `enforceContextBudget` of packages/application/src/services/context-packet-service.ts: what a packet
-- holds is cut down, one limit at a time, until it fits.
pub mod Laws
use multi_agent_brain.Common.{
  ℕ, zero, suc, ◌+◌, ◌-◌, min, String, Bool, true, false, Option, none, some, List, [], ◌∷◌, map,
  take, length, ltb, leb, or_else, if◌then◌else◌,
}
use multi_agent_brain.Contracts.{ContextBudget}
use multi_agent_brain.Packet.{
  ContextCandidate, ProvenanceRef, QueryIntent, AnswerabilityDisposition,
}
use multi_agent_brain.Packet.Words.{
  non_empty, dedupe_strings, excerpt_text, clip_text_to_token_budget, flat_map,
  summarize_candidates, build_uncertainties, estimate_packet_tokens,
}
use multi_agent_brain.Packet.Selection.{dedupe_sources}

pub record BudgetInput (S : Type 0) : Type 0 where
  pub candidates : List (ContextCandidate S)
  pub intent : QueryIntent
  pub answerability : AnswerabilityDisposition
  pub budget : ContextBudget
  pub include_raw_excerpts : Bool

pub record BudgetedPacket (S : Type 0) : Type 0 where
  pub selected_candidates : List (ContextCandidate S)
  pub summary : String
  pub constraints : List String
  pub uncertainties : List String
  pub sources : List ProvenanceRef
  pub raw_excerpts : Option (List String)
  pub token_estimate : ℕ

-- The variables of the loop.
pub record Limits : Type 0 where
  pub source_limit : ℕ
  pub raw_excerpt_limit : ℕ
  pub summary_sentence_limit : ℕ
  pub constraint_limit : ℕ
  pub include_uncertainties : Bool

module _ {S : Type 0} (input : BudgetInput S) where
  abbrev pub initial_limits : Limits
  initial_limits = record {
    source_limit = min input.budget.max_sources (length input.candidates);
    raw_excerpt_limit =
        if input.include_raw_excerpts
        then min input.budget.max_raw_excerpts (length input.candidates)
        else 0;
    summary_sentence_limit = input.budget.max_summary_sentences;
    constraint_limit = 8;
    include_uncertainties = true;
  }

  unfoldable pub raw_excerpts_of : ℕ → List (ContextCandidate S) → Option (List String)
  unfolding excerpt_text
  raw_excerpts_of limit selected =
      if ltb 0 limit
      then some (
          non_empty (
            map (λ candidate. excerpt_text (or_else candidate.raw_text "") 320)
              (take limit selected)))
      else none

  -- What the body of the loop puts together under the limits.
  unfoldable pub packet_within : Limits → BudgetedPacket S
  unfolding raw_excerpts_of dedupe_sources dedupe_strings summarize_candidates
  packet_within limits =
      let selected = take limits.source_limit input.candidates in
      let sources = dedupe_sources selected in
      let raw_excerpts = raw_excerpts_of limits.raw_excerpt_limit selected in
      let constraints =
        take limits.constraint_limit
          (dedupe_strings (flat_map (λ candidate. candidate.qualifiers) selected)) in
      let uncertainties =
        if limits.include_uncertainties
        then build_uncertainties input.answerability selected
        else [] in
      let summary = summarize_candidates selected input.intent limits.summary_sentence_limit in
      record {
        selected_candidates = selected;
        summary = summary;
        constraints = constraints;
        uncertainties = uncertainties;
        sources = sources;
        raw_excerpts = raw_excerpts;
        token_estimate =
            estimate_packet_tokens summary constraints uncertainties sources raw_excerpts;
      }

  -- The limit that is lowered next, where one can be.
  unfoldable pub next_limits : Limits → Option Limits
  next_limits l =
      if ltb 0 l.raw_excerpt_limit
      then some (record l { raw_excerpt_limit = l.raw_excerpt_limit - 1 })
      else if ltb 0 l.summary_sentence_limit
      then some (record l { summary_sentence_limit = l.summary_sentence_limit - 1 })
      else if ltb 1 l.source_limit
      then some (record l { source_limit = l.source_limit - 1 })
      else if ltb 0 l.constraint_limit
      then some (record l { constraint_limit = l.constraint_limit - 1 })
      else if l.include_uncertainties
      then some (record l { include_uncertainties = false })
      else none

  -- What is left where no limit can be lowered.
  unfoldable pub clipped_packet : String → BudgetedPacket S
  unfolding clip_text_to_token_budget
  clipped_packet summary =
      let clipped_summary = clip_text_to_token_budget summary input.budget.max_tokens in
      record {
        selected_candidates = [];
        summary = clipped_summary;
        constraints = [];
        uncertainties = [];
        sources = [];
        raw_excerpts = none;
        token_estimate =
            min (estimate_packet_tokens clipped_summary [] [] [] (some [])) input.budget.max_tokens;
      }

  -- `while (true)`, on fuel.
  unfoldable pub budget_loop : ℕ → Limits → Option (BudgetedPacket S)
  unfolding packet_within next_limits clipped_packet
  budget_loop zero limits = none
  budget_loop (suc fuel) limits =
      let packet = packet_within limits in
      elim (leb packet.token_estimate input.budget.max_tokens) [
        | true ↦ some packet
        | false ↦ elim (next_limits limits) [
          | none ↦ some (clipped_packet packet.summary)
          | some next ↦ budget_loop fuel next
        ]
      ]

  -- Every pass but the last lowers a limit, so their sum bounds the passes.
  abbrev pub passes : Limits → ℕ
  passes l = suc (
      l.raw_excerpt_limit
      + l.summary_sentence_limit
      + l.source_limit
      + l.constraint_limit
      + (if l.include_uncertainties then 1 else 0))

  unfoldable pub enforce_context_budget : Option (BudgetedPacket S)
  unfolding budget_loop
  enforce_context_budget = budget_loop (passes initial_limits) initial_limits
