-- ===== src/Contracts/Names.antt =====
-- The texts that are the values of the enumerations, as JSON arrays hold them.
use multi_agent_brain.Common.{String}
use multi_agent_brain.Contracts.Actor.{TransportKind, internal, cli, http, mcp, automation}
use multi_agent_brain.Contracts.Commands.{
  OrchestratorCommand, AdministrativeAction, search_context, search_session_archives,
  assemble_agent_context, get_context_packet, fetch_decision_summary, draft_note,
  create_session_archive, create_refresh_draft, create_refresh_drafts, import_resource,
  validate_note, promote_note, query_history, execute_coding_task, list_agent_traces,
  show_tool_output, view_auth_status, view_issued_tokens, issue_auth_token, inspect_auth_token,
  revoke_auth_token, view_freshness_status,
}

abbrev pub transport_text : TransportKind → String
transport_text internal = "internal"
transport_text cli = "cli"
transport_text http = "http"
transport_text mcp = "mcp"
transport_text automation = "automation"

abbrev pub command_text : OrchestratorCommand → String
command_text search_context = "search_context"
command_text search_session_archives = "search_session_archives"
command_text assemble_agent_context = "assemble_agent_context"
command_text get_context_packet = "get_context_packet"
command_text fetch_decision_summary = "fetch_decision_summary"
command_text draft_note = "draft_note"
command_text create_session_archive = "create_session_archive"
command_text create_refresh_draft = "create_refresh_draft"
command_text create_refresh_drafts = "create_refresh_drafts"
command_text import_resource = "import_resource"
command_text validate_note = "validate_note"
command_text promote_note = "promote_note"
command_text query_history = "query_history"
command_text execute_coding_task = "execute_coding_task"
command_text list_agent_traces = "list_agent_traces"
command_text show_tool_output = "show_tool_output"

abbrev pub admin_action_text : AdministrativeAction → String
admin_action_text view_auth_status = "view_auth_status"
admin_action_text view_issued_tokens = "view_issued_tokens"
admin_action_text issue_auth_token = "issue_auth_token"
admin_action_text inspect_auth_token = "inspect_auth_token"
admin_action_text revoke_auth_token = "revoke_auth_token"
admin_action_text view_freshness_status = "view_freshness_status"
