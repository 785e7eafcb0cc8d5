-- ===== src/Routing.antt =====
-- packages/orchestration/src/routing/task-family-router.ts
use multi_agent_brain.Contracts.{
  OrchestratorCommand, search_context, search_session_archives, assemble_agent_context,
  get_context_packet, fetch_decision_summary, draft_note, create_session_archive,
  create_refresh_draft, create_refresh_drafts, import_resource, validate_note, promote_note,
  query_history, execute_coding_task, list_agent_traces, show_tool_output,
}

pub data Domain : Type 0 where
  brain coding : Domain

pub data TaskFamily : Type 0 where
  brain_retrieval brain_context_packet brain_memory_update brain_validation : TaskFamily
  brain_history coding_family : TaskFamily

pub record RoutedTask : Type 0 where
  pub command : OrchestratorCommand
  pub domain : Domain
  pub family : TaskFamily

abbrev brain_task : OrchestratorCommand → TaskFamily → RoutedTask
brain_task c f = record { command = c; domain = brain; family = f }

abbrev coding_task : OrchestratorCommand → RoutedTask
coding_task c = record { command = c; domain = coding; family = coding_family }

-- `TaskFamilyRouter.route`, a lookup in `ROUTE_TABLE`.
unfoldable pub route : OrchestratorCommand → RoutedTask
route search_context = brain_task search_context brain_retrieval
route search_session_archives = brain_task search_session_archives brain_retrieval
route assemble_agent_context = brain_task assemble_agent_context brain_context_packet
route get_context_packet = brain_task get_context_packet brain_context_packet
route fetch_decision_summary = brain_task fetch_decision_summary brain_context_packet
route draft_note = brain_task draft_note brain_memory_update
route create_session_archive = brain_task create_session_archive brain_memory_update
route create_refresh_draft = brain_task create_refresh_draft brain_memory_update
route create_refresh_drafts = brain_task create_refresh_drafts brain_memory_update
route import_resource = brain_task import_resource brain_memory_update
route validate_note = brain_task validate_note brain_validation
route promote_note = brain_task promote_note brain_memory_update
route query_history = brain_task query_history brain_history
route execute_coding_task = coding_task execute_coding_task
route list_agent_traces = coding_task list_agent_traces
route show_tool_output = coding_task show_tool_output
