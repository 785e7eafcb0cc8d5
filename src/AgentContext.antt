-- ===== src/AgentContext.antt =====
-- packages/application/src/services/agent-context-assembly-service.ts
-- The retrieval and the session archives are ports over a state `W`; they answer and do not throw.
-- `canonical_share` and `session_share` are `Math.floor` of 0.7 and 0.3 times a number, and
-- `number_text` prints one.
pub mod Block
pub mod Budget
mod Examples
use multi_agent_brain.Common.{
  ℕ, String, Bool, true, false, ◌||◌, Option, none, some, List, [], ◌∷◌, ◌++◌, length, or_else,
  if◌then◌else◌,
}
use multi_agent_brain.Common.Results.{Result, ok, err}
use multi_agent_brain.Contracts.{ActorContext, ContextBudget}
use multi_agent_brain.Packet.{ContextPacket}
use multi_agent_brain.Packet.Words.{estimate_tokens}
use multi_agent_brain.Orchestrator.Types.{AssembleAgentContextRequest}
use multi_agent_brain.AgentContext.Block.{SessionRecall, build_context_block}
use multi_agent_brain.AgentContext.Budget.{
  Shares, BudgetPlan, create_budget_plan, enforce_context_block_budget,
}

pub record RetrieveContextRequest : Type 0 where
  pub actor : ActorContext
  pub query : String
  pub budget : ContextBudget
  pub corpus_ids : List String
  pub include_trace : Option Bool
  pub require_evidence : Bool

-- What is read of a retrieval: its health is its status.
pub record RetrieveContextResponse : Type 0 where
  pub packet : ContextPacket
  pub retrieval_health : Option String
  pub has_trace : Bool
  pub warnings : List String

pub record SearchSessionArchivesRequest : Type 0 where
  pub actor : ActorContext
  pub query : String
  pub session_id : Option String
  pub limit : Option ℕ
  pub max_tokens : Option ℕ

pub record AgentContextPorts (W : Type 0) : Type 0 where
  pub retrieve_context :
      RetrieveContextRequest → W → W × Result (List String) RetrieveContextResponse
  pub search_archives : SearchSessionArchivesRequest → W → W × Result String SessionRecall

pub data AgentContextSourceSummary : Type 0 where
  canonical_memory session_archive : (count : ℕ) → AgentContextSourceSummary

pub record AssembleAgentContextResponse : Type 0 where
  pub context_block : String
  pub token_estimate : ℕ
  pub truncated : Bool
  pub source_summary : List AgentContextSourceSummary
  pub retrieval_health : Option String
  pub has_trace : Bool
  pub warnings : List String

abbrev pub archive_summary : Option SessionRecall → List AgentContextSourceSummary
archive_summary none = []
archive_summary (some recall) = session_archive (length recall.hits) ∷ []

abbrev pub recall_truncated : Option SessionRecall → Bool
recall_truncated none = false
recall_truncated (some recall) = recall.truncated

-- The recall that is used, with the warning where the archives fail.
abbrev pub recalled :
    {W : Type 0} → W × Result String SessionRecall → W × Option SessionRecall × List String
recalled (w, ok recall) = (w, some recall, [])
recalled (w, err message) = (w, none, message ∷ [])

module _ {W : Type 0} (ports : AgentContextPorts W) (shares : Shares)
    (number_text : ℕ → String) where
  unfoldable pub search_session :
      AssembleAgentContextRequest → BudgetPlan → W → W × Option SessionRecall × List String
  search_session request plan w =
      if or_else request.include_session_archives false
      then recalled (
          ports.search_archives
            (record {
              actor = request.actor;
              query = request.query;
              session_id = request.session_id;
              limit = request.session_limit;
              max_tokens = plan.session_tokens;
            })
            w)
      else (w, none, [])

  unfoldable pub with_recall :
      BudgetPlan
      → RetrieveContextResponse
      → W × Option SessionRecall × List String
      → W × Result (List String) AssembleAgentContextResponse
  unfolding build_context_block enforce_context_block_budget
  with_recall plan retrieval (w, recall, warnings) =
      let (block, cut) =
        enforce_context_block_budget (build_context_block number_text retrieval.packet recall)
          plan.total_tokens in
      (
        w,
        ok (record {
          context_block = block;
          token_estimate = estimate_tokens block;
          truncated = recall_truncated recall || cut;
          source_summary =
              canonical_memory (length retrieval.packet.evidence) ∷ archive_summary recall;
          retrieval_health = retrieval.retrieval_health;
          has_trace = retrieval.has_trace;
          warnings = retrieval.warnings ++ warnings;
        }),
      )

  unfoldable pub after_retrieval :
      AssembleAgentContextRequest
      → BudgetPlan
      → W × Result (List String) RetrieveContextResponse
      → W × Result (List String) AssembleAgentContextResponse
  unfolding with_recall search_session
  after_retrieval request plan (w, err warnings) = (w, err warnings)
  after_retrieval request plan (w, ok retrieval) =
      with_recall plan retrieval (search_session request plan w)

  -- A failure has the warnings of the retrieval.
  unfoldable pub assemble_agent_context :
      AssembleAgentContextRequest → W → W × Result (List String) AssembleAgentContextResponse
  unfolding after_retrieval create_budget_plan
  assemble_agent_context request w =
      let plan = create_budget_plan shares request in
      after_retrieval request plan (
        ports.retrieve_context
          (record {
            actor = request.actor;
            query = request.query;
            budget = record request.budget { max_tokens = plan.canonical_tokens };
            corpus_ids = request.corpus_ids;
            include_trace = request.include_trace;
            require_evidence = true;
          })
          w)
