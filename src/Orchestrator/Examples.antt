-- ===== src/Orchestrator/Examples.antt =====
-- Controllers that count their calls, at which the theorems about the orchestrator are applied.
use multi_agent_brain.Common.{
  ℕ, suc, String, ◌≡◌, refl, true, none, some, [], string_eq, ◌==◌, if◌then◌else◌,
}
use multi_agent_brain.Common.Text.{trim, trimmed}
use multi_agent_brain.Common.Text.Split.{◌<>◌}
use multi_agent_brain.Common.Maps.{get}
use multi_agent_brain.Common.Results.{Result, ok}
use multi_agent_brain.Contracts.{
  default_context_budget, ActorContext, OrchestratorCommand, operator, internal,
}
use multi_agent_brain.Auth.Platform.{Platform, other}
use multi_agent_brain.Auth.Window.{normalize_evaluation_time}
use multi_agent_brain.Auth.Roles.{command_role_policy}
use multi_agent_brain.Auth.Policy.{Policy, permissive}
use multi_agent_brain.Auth.Authorize.{authorize, try_authorize_issued_token}
use multi_agent_brain.Orchestrator.Types.{
  Orchestrator, BrainController, CodingController, ExecuteCodingTaskRequest,
  AssembleAgentContextRequest, CodingMemoryContextRequest, failed, not_included,
}
use multi_agent_brain.Orchestrator.Handlers.{
  raised, shown, inject_memory_context, execute_injected, search_context, search_session_archives,
  fetch_decision_summary, get_context_packet, assemble_agent_context, draft_note,
  create_session_archive, create_refresh_draft, create_refresh_draft_batch, import_resource,
  validate_note, promote_note, query_history, execute_coding_task, list_agent_traces,
  show_tool_output,
}
use multi_agent_brain.Orchestrator.Laws.{
  allowed, if_authorized, handlers_ask_first, memory_answer_still_executes,
}

abbrev node : Platform
node = record {
  date_parse = λ s. if s == "t5" then some 5 else none;
  to_iso = λ ms. "t5";
  hmac = λ payload secret. "sig";
  to_base64url = λ s. s;
  from_base64url = λ s. s;
  stringify = λ claims. claims.actor_id;
  json_parse = λ s. some other;
}

abbrev policy : Policy
policy = record {
  mode = permissive;
  allow_anonymous_internal = true;
  registry = [];
  issuer_secret = none;
  issued_token_require_registry_match = true;
  revoked_issued_token_ids = [];
  is_token_revoked_callback = none;
}

abbrev ann : ActorContext
ann = record {
  actor_id = "ann";
  actor_role = operator;
  transport = internal;
  source = "cli";
  request_id = "r1";
  initiated_at = "t5";
  tool_name = none;
  auth_token = none;
  allowed_corpora = none;
}

abbrev call : {R : Type 0} → String → R → ℕ → ℕ × Result String String
call answer request calls = (suc calls, ok answer)

abbrev brain_controller : BrainController ℕ ActorContext String
brain_controller = record {
  search_context = call "search_context";
  search_session_archives = call "search_session_archives";
  fetch_decision_summary = call "fetch_decision_summary";
  get_context_packet = call "get_context_packet";
  assemble_agent_context = λ request calls. (suc calls, ok (failed "no index"));
  draft_note = call "draft_note";
  create_session_archive = call "create_session_archive";
  create_refresh_draft = call "create_refresh_draft";
  create_refresh_draft_batch = call "create_refresh_draft_batch";
  import_resource = call "import_resource";
  validate_note = call "validate_note";
  promote_note = call "promote_note";
  query_history = call "query_history";
}

abbrev coding_controller : CodingController ℕ String
coding_controller = record {
  execute_task = call "done";
  list_traces = λ id calls. (suc calls, ok []);
  show_tool_output = λ id calls. (suc calls, ok none);
}

abbrev system : Orchestrator ℕ ActorContext String
system = record {
  platform = node;
  policy = policy;
  brain_controller = brain_controller;
  coding_controller = coding_controller;
  actor_of = λ actor. actor;
}

abbrev context : AssembleAgentContextRequest
context = record {
  actor = ann;
  query = "why";
  corpus_ids = [];
  budget = default_context_budget;
  include_session_archives = none;
  session_id = none;
  include_trace = none;
  session_limit = none;
  session_max_tokens = none;
}

abbrev memory : CodingMemoryContextRequest
memory = record {
  query = none;
  corpus_ids = none;
  budget = none;
  include_session_archives = none;
  session_id = none;
  include_trace = none;
}

abbrev task : ExecuteCodingTaskRequest
task = record {
  actor = ann;
  task_type = "review";
  task = "look";
  context = some " given ";
  memory_context = some memory;
  memory_context_status = none;
  repo_root = none;
  file_path = none;
  symbol_name = none;
  diff_text = none;
  pytest_target = none;
  lint_target = none;
}

ann-allowed : allowed system 0 OrchestratorCommand.execute_coding_task ann ≡ ok tt
unfolding authorize command_role_policy trim normalize_evaluation_time get
    try_authorize_issued_token
ann-allowed = refl

handlers_ask_first_example :
    (search_context system 0 ann 0
      ≡ if_authorized
          (allowed system 0 OrchestratorCommand.search_context ann)
          (λ t. raised (brain_controller.search_context ann t))
          0)
    × (search_session_archives system 0 ann 0
        ≡ if_authorized
            (allowed system 0 OrchestratorCommand.search_session_archives ann)
            (λ t. raised (brain_controller.search_session_archives ann t))
            0)
    × (fetch_decision_summary system 0 ann 0
        ≡ if_authorized
            (allowed system 0 OrchestratorCommand.fetch_decision_summary ann)
            (λ t. raised (brain_controller.fetch_decision_summary ann t))
            0)
    × (get_context_packet system 0 ann 0
        ≡ if_authorized
            (allowed system 0 OrchestratorCommand.get_context_packet ann)
            (λ t. raised (brain_controller.get_context_packet ann t))
            0)
    × (assemble_agent_context system 0 context 0
        ≡ if_authorized
            (allowed system 0 OrchestratorCommand.assemble_agent_context ann)
            (λ t. raised (brain_controller.assemble_agent_context context t))
            0)
    × (draft_note system 0 ann 0
        ≡ if_authorized
            (allowed system 0 OrchestratorCommand.draft_note ann)
            (λ t. raised (brain_controller.draft_note ann t))
            0)
    × (create_session_archive system 0 ann 0
        ≡ if_authorized
            (allowed system 0 OrchestratorCommand.create_session_archive ann)
            (λ t. raised (brain_controller.create_session_archive ann t))
            0)
    × (create_refresh_draft system 0 ann 0
        ≡ if_authorized
            (allowed system 0 OrchestratorCommand.create_refresh_draft ann)
            (λ t. raised (brain_controller.create_refresh_draft ann t))
            0)
    × (create_refresh_draft_batch system 0 ann 0
        ≡ if_authorized
            (allowed system 0 OrchestratorCommand.create_refresh_drafts ann)
            (λ t. raised (brain_controller.create_refresh_draft_batch ann t))
            0)
    × (import_resource system 0 ann 0
        ≡ if_authorized
            (allowed system 0 OrchestratorCommand.import_resource ann)
            (λ t. raised (brain_controller.import_resource ann t))
            0)
    × (validate_note system 0 ann 0
        ≡ if_authorized
            (allowed system 0 OrchestratorCommand.validate_note ann)
            (λ t. raised (brain_controller.validate_note ann t))
            0)
    × (promote_note system 0 ann 0
        ≡ if_authorized
            (allowed system 0 OrchestratorCommand.promote_note ann)
            (λ t. raised (brain_controller.promote_note ann t))
            0)
    × (query_history system 0 ann 0
        ≡ if_authorized
            (allowed system 0 OrchestratorCommand.query_history ann)
            (λ t. raised (brain_controller.query_history ann t))
            0)
    × (execute_coding_task system 0 task 0
        ≡ if_authorized
            (allowed system 0 OrchestratorCommand.execute_coding_task ann)
            (λ t. execute_injected system 0 (inject_memory_context system 0 task t))
            0)
    × (list_agent_traces system 0 ann "x" 0
        ≡ if_authorized
            (allowed system 0 OrchestratorCommand.list_agent_traces ann)
            (λ t. raised (coding_controller.list_traces "x" t))
            0)
    × (show_tool_output system 0 ann "x" 0
        ≡ if_authorized
            (allowed system 0 OrchestratorCommand.show_tool_output ann)
            (λ t. shown system 0 (raised (coding_controller.show_tool_output "x" t)))
            0)
handlers_ask_first_example = handlers_ask_first system 0 ann context task "x" 0

memory_answer_still_executes_example :
    (request : ExecuteCodingTaskRequest) × (execute_coding_task system 0 task 0
      ≡ raised (coding_controller.execute_task request 1))
    × (request.actor ≡ ann)
    × (request.task ≡ "look")
    × (request.memory_context ≡ none)
    × ((message : String)
        → failed "no index" ≡ failed message
        → request.memory_context_status ≡ some (not_included message))
    × ((existing : String)
        → trimmed (some " given ") ≡ some existing
        → (rest : String) × (request.context ≡ some (existing <> rest)))
memory_answer_still_executes_example =
    memory_answer_still_executes system 0 task memory (failed "no index") 0 1 ann-allowed refl refl
