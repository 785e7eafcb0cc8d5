-- ===== src/Orchestrator/Memory.antt =====
-- `injectMemoryContext` and `appendContextBlock` of
-- packages/orchestration/src/root/multi-agent-orchestrator.ts: what they compute.
use multi_agent_brain.Common.{
  String, false, not, Option, none, some, List, [], ◌∷◌, or_else, if◌then◌else◌,
}
use multi_agent_brain.Common.Text.{trim, is_blank, trimmed}
use multi_agent_brain.Common.Text.Split.{◌<>◌, join}
use multi_agent_brain.Contracts.{default_context_budget}
use multi_agent_brain.Orchestrator.Types.{
  CodingMemoryContextRequest, AssembleAgentContextRequest, ServiceResult, failed, assembled,
  not_included, included, ExecuteCodingTaskRequest,
}

-- `[request.task, request.filePath, request.symbolName]`, the blank ones left out
abbrev pub query_parts : List (Option String) → List String
query_parts [] = []
query_parts (none ∷ parts) = query_parts parts
query_parts (some part ∷ parts) =
    let rest = query_parts parts in if is_blank (trim part) then rest else part ∷ rest

unfoldable pub memory_request :
    ExecuteCodingTaskRequest → CodingMemoryContextRequest → AssembleAgentContextRequest
memory_request request memory = record {
  actor = request.actor;
  query =
      or_else memory.query
        (join " " (query_parts (some request.task ∷ request.file_path ∷ request.symbol_name ∷ [])));
  corpus_ids = or_else memory.corpus_ids ("context_brain" ∷ "general_notes" ∷ []);
  budget = or_else memory.budget default_context_budget;
  include_session_archives = some (
      or_else memory.include_session_archives
        (elim memory.session_id [ none ↦ false | some id ↦ not (is_blank id) ]));
  session_id = memory.session_id;
  include_trace = memory.include_trace;
  session_limit = none;
  session_max_tokens = none;
}

abbrev pub append_to : Option String → String → String
append_to none block = block
append_to (some existing) block = existing <> "\n\n" <> block

unfoldable pub append_context_block : Option String → String → String
append_context_block existing block = append_to (trimmed existing) block

abbrev pub unavailable_block : String → String
unavailable_block message =
    "<agent-context source=\"multi-agent-brain\" authority=\"unavailable\">Failed to assemble memory context: "
    <> message <> "</agent-context>"

unfoldable pub with_memory : ExecuteCodingTaskRequest → ServiceResult → ExecuteCodingTaskRequest
unfolding append_context_block
with_memory request (failed message) = record request {
  memory_context = none;
  memory_context_status = some (not_included message);
  context = some (append_context_block request.context (unavailable_block message));
}
with_memory request (assembled context) = record request {
  memory_context = none;
  memory_context_status = some (
      included context.retrieval_health context.has_trace context.token_estimate context.truncated);
  context = some (append_context_block request.context context.context_block);
}
