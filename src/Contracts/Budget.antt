-- ===== src/Contracts/Budget.antt =====
-- packages/contracts/src/common/context-budget.ts
use multi_agent_brain.Common.{ℕ}

pub record ContextBudget : Type 0 where
  pub max_tokens : ℕ
  pub max_sources : ℕ
  pub max_raw_excerpts : ℕ
  pub max_summary_sentences : ℕ

abbrev pub default_context_budget : ContextBudget
default_context_budget = record {
  max_tokens = 1200;
  max_sources = 4;
  max_raw_excerpts = 1;
  max_summary_sentences = 4;
}
