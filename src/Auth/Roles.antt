-- ===== src/Auth/Roles.antt =====
-- `COMMAND_ROLE_POLICY` and `ADMIN_ACTION_ROLE_POLICY` of
-- packages/orchestration/src/root/actor-authorization-policy.ts.
use multi_agent_brain.Common.{List, [], ◌∷◌}
use multi_agent_brain.Contracts.{
  ActorRole, retrieval, writer, orchestrator, system, operator, OrchestratorCommand, search_context,
  search_session_archives, assemble_agent_context, get_context_packet, fetch_decision_summary,
  draft_note, create_session_archive, create_refresh_draft, create_refresh_drafts, import_resource,
  validate_note, promote_note, query_history, execute_coding_task, list_agent_traces,
  show_tool_output, AdministrativeAction, view_auth_status, view_issued_tokens, issue_auth_token,
  inspect_auth_token, revoke_auth_token, view_freshness_status,
}

abbrev operators : List ActorRole
operators = operator ∷ system ∷ []

abbrev controllers : List ActorRole
controllers = operator ∷ orchestrator ∷ system ∷ []

abbrev readers : List ActorRole
readers = retrieval ∷ operator ∷ orchestrator ∷ system ∷ []

unfoldable pub command_role_policy : OrchestratorCommand → List ActorRole
command_role_policy execute_coding_task = operators
command_role_policy list_agent_traces = controllers
command_role_policy show_tool_output = operators
command_role_policy search_context = readers
command_role_policy search_session_archives = readers
command_role_policy assemble_agent_context = readers
command_role_policy get_context_packet = readers
command_role_policy fetch_decision_summary = readers
command_role_policy draft_note = writer ∷ operator ∷ orchestrator ∷ system ∷ []
command_role_policy create_session_archive = operators
command_role_policy create_refresh_draft = controllers
command_role_policy create_refresh_drafts = controllers
command_role_policy import_resource = controllers
command_role_policy validate_note = controllers
command_role_policy promote_note = controllers
command_role_policy query_history = controllers

unfoldable pub admin_action_role_policy : AdministrativeAction → List ActorRole
admin_action_role_policy view_auth_status = operators
admin_action_role_policy view_issued_tokens = operators
admin_action_role_policy issue_auth_token = operators
admin_action_role_policy inspect_auth_token = operators
admin_action_role_policy revoke_auth_token = operators
admin_action_role_policy view_freshness_status = controllers
