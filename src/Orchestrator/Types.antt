-- ===== src/Orchestrator/Types.antt =====
-- The requests and answers that packages/orchestration/src/root/multi-agent-orchestrator.ts handles.
-- The two controllers are interfaces: a method takes a request and the state of everything behind
-- the controllers, and returns the new state with its answer or what it throws. A request is known
-- by its actor; the ones that the orchestrator builds or rewrites have their fields.
use multi_agent_brain.Common.{ℕ, String, Bool, Option, List}
use multi_agent_brain.Common.Results.{Result}
use multi_agent_brain.Contracts.{ActorContext, ContextBudget}
use multi_agent_brain.Auth.Platform.{Platform}
use multi_agent_brain.Auth.Policy.{Policy}
use multi_agent_brain.Auth.Authorize.{Refusal}

pub record CodingMemoryContextRequest : Type 0 where
  pub query : Option String
  pub corpus_ids : Option (List String)
  pub budget : Option ContextBudget
  pub include_session_archives : Option Bool
  pub session_id : Option String
  pub include_trace : Option Bool

pub record AssembleAgentContextRequest : Type 0 where
  pub actor : ActorContext
  pub query : String
  pub corpus_ids : List String
  pub budget : ContextBudget
  pub include_session_archives : Option Bool
  pub session_id : Option String
  pub include_trace : Option Bool
  pub session_limit : Option ℕ
  pub session_max_tokens : Option ℕ

-- What the orchestrator reads of an assembled context: the health is its status.
pub record AssembledContext : Type 0 where
  pub context_block : String
  pub token_estimate : ℕ
  pub truncated : Bool
  pub retrieval_health : Option String
  pub has_trace : Bool

-- The answer of the service: `ok: false` with a message, or `ok: true` with context.
pub data ServiceResult : Type 0 where
  failed : String → ServiceResult
  assembled : AssembledContext → ServiceResult

pub data CodingMemoryContextStatus : Type 0 where
  not_included : (error_message : String) → CodingMemoryContextStatus
  included :
      (retrieval_health : Option String)
      → (trace_included : Bool) → (token_estimate : ℕ) → (truncated : Bool)
      → CodingMemoryContextStatus

pub record ExecuteCodingTaskRequest : Type 0 where
  pub actor : ActorContext
  pub task_type : String
  pub task : String
  pub context : Option String
  pub memory_context : Option CodingMemoryContextRequest
  pub memory_context_status : Option CodingMemoryContextStatus
  pub repo_root : Option String
  pub file_path : Option String
  pub symbol_name : Option String
  pub diff_text : Option String
  pub pytest_target : Option String
  pub lint_target : Option String

pub record BrainController (S R A : Type 0) : Type 0 where
  pub search_context : R → S → S × Result String A
  pub search_session_archives : R → S → S × Result String A
  pub fetch_decision_summary : R → S → S × Result String A
  pub get_context_packet : R → S → S × Result String A
  pub assemble_agent_context : AssembleAgentContextRequest → S → S × Result String ServiceResult
  pub draft_note : R → S → S × Result String A
  pub create_session_archive : R → S → S × Result String A
  pub create_refresh_draft : R → S → S × Result String A
  pub create_refresh_draft_batch : R → S → S × Result String A
  pub import_resource : R → S → S × Result String A
  pub validate_note : R → S → S × Result String A
  pub promote_note : R → S → S × Result String A
  pub query_history : R → S → S × Result String A

pub record CodingController (S A : Type 0) : Type 0 where
  pub execute_task : ExecuteCodingTaskRequest → S → S × Result String A
  pub list_traces : String → S → S × Result String (List A)
  pub show_tool_output : String → S → S × Result String (Option A)

pub record Orchestrator (S R A : Type 0) : Type 0 where
  pub platform : Platform
  pub policy : Policy
  pub brain_controller : BrainController S R A
  pub coding_controller : CodingController S A
  -- `request.actor`
  pub actor_of : R → ActorContext

pub data OrchestratorError : Type 0 where
  refused : Refusal → OrchestratorError
  misrouted : OrchestratorError
  thrown : String → OrchestratorError

pub data ToolOutput (A : Type 0) : Type 0 where
  found : A → ToolOutput A
  not_found : ToolOutput A
