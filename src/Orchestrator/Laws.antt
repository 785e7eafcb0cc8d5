-- ===== src/Orchestrator/Laws.antt =====
-- What the handlers of the orchestrator have in common, and the coding task's memory context.
use multi_agent_brain.Common.{ℕ, String, ◌≡◌, ◌≢◌, ◌∙◌, refl, ap, none, some}
use multi_agent_brain.Common.Text.{trimmed}
use multi_agent_brain.Common.Text.Split.{◌<>◌}
use multi_agent_brain.Common.Results.{Result, ok, err}
use multi_agent_brain.Contracts.{ActorContext, OrchestratorCommand}
use multi_agent_brain.Routing.{route}
use multi_agent_brain.Auth.Authorize.{Refusal, authorize}
use multi_agent_brain.Orchestrator.Types.{
  Orchestrator, OrchestratorError, refused, ExecuteCodingTaskRequest, AssembleAgentContextRequest,
  CodingMemoryContextRequest, ServiceResult, AssembledContext, failed, assembled, not_included,
}
use multi_agent_brain.Orchestrator.Memory.{
  memory_request, with_memory, append_context_block, unavailable_block,
}
use multi_agent_brain.Orchestrator.Handlers.{
  assert_authorized, refusal_raised, assert_route, after, raised, shown, inject_memory_context,
  execute_injected, search_context, search_session_archives, fetch_decision_summary,
  get_context_packet, assemble_agent_context, draft_note, create_session_archive,
  create_refresh_draft, create_refresh_draft_batch, import_resource, validate_note, promote_note,
  query_history, execute_coding_task, list_agent_traces, show_tool_output,
}

-- A call for an actor whom the policy lets through; for another the state stays, and the refusal is
-- thrown.
abbrev pub if_authorized :
    {S B : Type 0}
    → Result Refusal (Unit {0})
    → (S → S × Result OrchestratorError B)
    → S
    → S × Result OrchestratorError B
if_authorized (err e) call s = (s, err (refused e))
if_authorized (ok done) call s = call s

failed-injective : {a b : String} → failed a ≡ failed b → a ≡ b
failed-injective h = cc

assembled≢failed : {c : AssembledContext} {a : String} → assembled c ≢ failed a
assembled≢failed h = cc

-- What stays of a request when the memory is added.
with_memory_keeps :
    (task : ExecuteCodingTaskRequest) (result : ServiceResult)
    → let request = with_memory task result in
      (request.actor ≡ task.actor)
      × (request.task ≡ task.task)
      × (request.memory_context ≡ none)
      × ((message : String)
          → result ≡ failed message
          → request.memory_context_status ≡ some (not_included message))
      × ((existing : String)
          → trimmed task.context ≡ some existing
          → (rest : String) × (request.context ≡ some (existing <> rest)))
unfolding with_memory append_context_block
with_memory_keeps task (failed told) = (
  refl,
  refl,
  refl,
  λ message same. ap (λ t. some (not_included t)) (failed-injective same),
  λ existing e. ("\n\n" <> unavailable_block told, rw e refl),
)
with_memory_keeps task (assembled context) = (
  refl,
  refl,
  refl,
  λ message same. absurd (assembled≢failed same),
  λ existing e. ("\n\n" <> context.context_block, rw e refl),
)

module _ {S R A : Type 0} (o : Orchestrator S R A) (now : ℕ) where
  abbrev pub allowed : OrchestratorCommand → ActorContext → Result Refusal (Unit {0})
  allowed command actor = authorize o.platform o.policy now command actor

  after_assertion :
      {B : Type 0} (command : OrchestratorCommand) (actor : ActorContext)
      (call : S → S × Result OrchestratorError B) (s : S)
      → after o now (assert_authorized o now command actor) (ok tt) call s
        ≡ if_authorized (allowed command actor) call s
  unfolding assert_authorized
  after_assertion command actor call s = asserted (allowed command actor)
    where
      asserted :
          (r : Result Refusal (Unit {0}))
          → after o now (refusal_raised r) (ok tt) call s ≡ if_authorized r call s
      asserted (err e) = refl
      asserted (ok done) = refl

  -- Every handler asks the policy for its own command and the actor of its request. Where the policy
  -- refuses, no controller is called: the state stays and the refusal is thrown. Where it lets the
  -- actor through, the handler does what its controller does, and throws only what that throws: no
  -- command is routed to the wrong domain.
  pub handlers_ask_first :
      (r : R) (context : AssembleAgentContextRequest) (task : ExecuteCodingTaskRequest)
      (id : String) (s : S)
      → (search_context o now r s
          ≡ if_authorized
              (allowed OrchestratorCommand.search_context (o.actor_of r))
              (λ t. raised (o.brain_controller.search_context r t))
              s)
        × (search_session_archives o now r s
            ≡ if_authorized
                (allowed OrchestratorCommand.search_session_archives (o.actor_of r))
                (λ t. raised (o.brain_controller.search_session_archives r t))
                s)
        × (fetch_decision_summary o now r s
            ≡ if_authorized
                (allowed OrchestratorCommand.fetch_decision_summary (o.actor_of r))
                (λ t. raised (o.brain_controller.fetch_decision_summary r t))
                s)
        × (get_context_packet o now r s
            ≡ if_authorized
                (allowed OrchestratorCommand.get_context_packet (o.actor_of r))
                (λ t. raised (o.brain_controller.get_context_packet r t))
                s)
        × (assemble_agent_context o now context s
            ≡ if_authorized
                (allowed OrchestratorCommand.assemble_agent_context context.actor)
                (λ t. raised (o.brain_controller.assemble_agent_context context t))
                s)
        × (draft_note o now r s
            ≡ if_authorized
                (allowed OrchestratorCommand.draft_note (o.actor_of r))
                (λ t. raised (o.brain_controller.draft_note r t))
                s)
        × (create_session_archive o now r s
            ≡ if_authorized
                (allowed OrchestratorCommand.create_session_archive (o.actor_of r))
                (λ t. raised (o.brain_controller.create_session_archive r t))
                s)
        × (create_refresh_draft o now r s
            ≡ if_authorized
                (allowed OrchestratorCommand.create_refresh_draft (o.actor_of r))
                (λ t. raised (o.brain_controller.create_refresh_draft r t))
                s)
        × (create_refresh_draft_batch o now r s
            ≡ if_authorized
                (allowed OrchestratorCommand.create_refresh_drafts (o.actor_of r))
                (λ t. raised (o.brain_controller.create_refresh_draft_batch r t))
                s)
        × (import_resource o now r s
            ≡ if_authorized
                (allowed OrchestratorCommand.import_resource (o.actor_of r))
                (λ t. raised (o.brain_controller.import_resource r t))
                s)
        × (validate_note o now r s
            ≡ if_authorized
                (allowed OrchestratorCommand.validate_note (o.actor_of r))
                (λ t. raised (o.brain_controller.validate_note r t))
                s)
        × (promote_note o now r s
            ≡ if_authorized
                (allowed OrchestratorCommand.promote_note (o.actor_of r))
                (λ t. raised (o.brain_controller.promote_note r t))
                s)
        × (query_history o now r s
            ≡ if_authorized
                (allowed OrchestratorCommand.query_history (o.actor_of r))
                (λ t. raised (o.brain_controller.query_history r t))
                s)
        × (execute_coding_task o now task s
            ≡ if_authorized
                (allowed OrchestratorCommand.execute_coding_task task.actor)
                (λ t. execute_injected o now (inject_memory_context o now task t))
                s)
        × (list_agent_traces o now r id s
            ≡ if_authorized
                (allowed OrchestratorCommand.list_agent_traces (o.actor_of r))
                (λ t. raised (o.coding_controller.list_traces id t))
                s)
        × (show_tool_output o now r id s
            ≡ if_authorized
                (allowed OrchestratorCommand.show_tool_output (o.actor_of r))
                (λ t. shown o now (raised (o.coding_controller.show_tool_output id t)))
                s)
  unfolding assert_route route search_context search_session_archives fetch_decision_summary
      get_context_packet assemble_agent_context draft_note create_session_archive
      create_refresh_draft create_refresh_draft_batch import_resource validate_note promote_note
      query_history execute_coding_task list_agent_traces show_tool_output
  handlers_ask_first r context task id s = (
    after_assertion _ _ _ s,
    after_assertion _ _ _ s,
    after_assertion _ _ _ s,
    after_assertion _ _ _ s,
    after_assertion _ _ _ s,
    after_assertion _ _ _ s,
    after_assertion _ _ _ s,
    after_assertion _ _ _ s,
    after_assertion _ _ _ s,
    after_assertion _ _ _ s,
    after_assertion _ _ _ s,
    after_assertion _ _ _ s,
    after_assertion _ _ _ s,
    after_assertion _ _ _ s,
    after_assertion _ _ _ s,
    after_assertion _ _ _ s,
  )

  -- A coding task that asks for memory and whose actor the policy lets through is executed whatever
  -- the memory service answers, a failure included, in the state that the service leaves. The
  -- executed request has the actor and the task of the given one and asks for no memory. A failure
  -- is its status, and the context that was given, trimmed, comes first.
  pub memory_answer_still_executes :
      (task : ExecuteCodingTaskRequest) (memory : CodingMemoryContextRequest)
      (result : ServiceResult) (s s' : S)
      → allowed OrchestratorCommand.execute_coding_task task.actor ≡ ok tt
      → task.memory_context ≡ some memory
      → o.brain_controller.assemble_agent_context (memory_request task memory) s ≡ (s', ok result)
      → (request : ExecuteCodingTaskRequest) × (execute_coding_task o now task s
          ≡ raised (o.coding_controller.execute_task request s'))
        × (request.actor ≡ task.actor)
        × (request.task ≡ task.task)
        × (request.memory_context ≡ none)
        × ((message : String)
            → result ≡ failed message
            → request.memory_context_status ≡ some (not_included message))
        × ((existing : String)
            → trimmed task.context ≡ some existing
            → (rest : String) × (request.context ≡ some (existing <> rest)))
  unfolding execute_coding_task inject_memory_context assert_route route
  memory_answer_still_executes task memory result s s' passes asks answers =
      let (actor, same_task, cleared, noted, first) = with_memory_keeps task result in
      (
        with_memory task result,
        after_assertion _ _ _ s ∙ rw (passes, asks, answers) refl,
        actor,
        same_task,
        cleared,
        noted,
        first,
      )
