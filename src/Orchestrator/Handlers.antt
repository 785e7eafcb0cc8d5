-- ===== src/Orchestrator/Handlers.antt =====
-- The handlers of packages/orchestration/src/root/multi-agent-orchestrator.ts.
use multi_agent_brain.Common.{
  ℕ, String, Bool, true, false, not, Option, none, some, List, if◌then◌else◌,
}
use multi_agent_brain.Common.Results.{Result, ok, err}
use multi_agent_brain.Contracts.{ActorContext, OrchestratorCommand}
use multi_agent_brain.Routing.{Domain, brain, coding, route}
use multi_agent_brain.Auth.Authorize.{Refusal, authorize}
use multi_agent_brain.Orchestrator.Types.{
  AssembleAgentContextRequest, ServiceResult, ExecuteCodingTaskRequest, Orchestrator,
  OrchestratorError, refused, misrouted, thrown, ToolOutput, found, not_found,
}
use multi_agent_brain.Orchestrator.Memory.{memory_request, with_memory}

abbrev pub is_brain : Domain → Bool
is_brain brain = true
is_brain coding = false

abbrev pub refusal_raised : Result Refusal (Unit {0}) → Result OrchestratorError (Unit {0})
refusal_raised (err e) = err (refused e)
refusal_raised (ok done) = ok done

-- An error of a controller is passed on.
abbrev pub raised : {S B : Type 0} → S × Result String B → S × Result OrchestratorError B
raised (s, err e) = (s, err (thrown e))
raised (s, ok b) = (s, ok b)

module _ {S R A : Type 0} (o : Orchestrator S R A) (now : ℕ) where
  unfoldable pub assert_authorized :
      OrchestratorCommand → ActorContext → Result OrchestratorError (Unit {0})
  assert_authorized command actor = refusal_raised (authorize o.platform o.policy now command actor)

  unfoldable pub assert_route : Bool → Result OrchestratorError (Unit {0})
  assert_route right_domain = if right_domain then ok tt else err misrouted

  -- The statements of a handler after its two assertions.
  abbrev pub after :
      {B : Type 0}
      → Result OrchestratorError (Unit {0})
      → Result OrchestratorError (Unit {0})
      → (S → S × Result OrchestratorError B)
      → S
      → S × Result OrchestratorError B
  after (err e) routed call s = (s, err e)
  after (ok done) (err e) call s = (s, err e)
  after (ok done) (ok there) call s = call s

  unfoldable pub through_brain :
      {B : Type 0}
      → OrchestratorCommand
      → ActorContext
      → (S → S × Result String B)
      → S
      → S × Result OrchestratorError B
  unfolding assert_authorized assert_route route
  through_brain command actor call s =
      after (assert_authorized command actor) (assert_route (is_brain (route command).domain))
        (λ t. raised (call t)) s

  unfoldable pub through_coding :
      {B : Type 0}
      → OrchestratorCommand
      → ActorContext
      → (S → S × Result OrchestratorError B)
      → S
      → S × Result OrchestratorError B
  unfolding assert_authorized assert_route route
  through_coding command actor call s =
      after (assert_authorized command actor) (assert_route (not (is_brain (route command).domain)))
        call s

  unfoldable pub search_context : R → S → S × Result OrchestratorError A
  unfolding through_brain
  search_context request s =
      through_brain OrchestratorCommand.search_context (o.actor_of request)
        (o.brain_controller.search_context request) s

  unfoldable pub search_session_archives : R → S → S × Result OrchestratorError A
  unfolding through_brain
  search_session_archives request s =
      through_brain OrchestratorCommand.search_session_archives (o.actor_of request)
        (o.brain_controller.search_session_archives request) s

  unfoldable pub fetch_decision_summary : R → S → S × Result OrchestratorError A
  unfolding through_brain
  fetch_decision_summary request s =
      through_brain OrchestratorCommand.fetch_decision_summary (o.actor_of request)
        (o.brain_controller.fetch_decision_summary request) s

  unfoldable pub get_context_packet : R → S → S × Result OrchestratorError A
  unfolding through_brain
  get_context_packet request s =
      through_brain OrchestratorCommand.get_context_packet (o.actor_of request)
        (o.brain_controller.get_context_packet request) s

  unfoldable pub assemble_agent_context :
      AssembleAgentContextRequest → S → S × Result OrchestratorError ServiceResult
  unfolding through_brain
  assemble_agent_context request s =
      through_brain OrchestratorCommand.assemble_agent_context request.actor
        (o.brain_controller.assemble_agent_context request) s

  unfoldable pub draft_note : R → S → S × Result OrchestratorError A
  unfolding through_brain
  draft_note request s =
      through_brain OrchestratorCommand.draft_note (o.actor_of request)
        (o.brain_controller.draft_note request) s

  unfoldable pub create_session_archive : R → S → S × Result OrchestratorError A
  unfolding through_brain
  create_session_archive request s =
      through_brain OrchestratorCommand.create_session_archive (o.actor_of request)
        (o.brain_controller.create_session_archive request) s

  unfoldable pub create_refresh_draft : R → S → S × Result OrchestratorError A
  unfolding through_brain
  create_refresh_draft request s =
      through_brain OrchestratorCommand.create_refresh_draft (o.actor_of request)
        (o.brain_controller.create_refresh_draft request) s

  unfoldable pub create_refresh_draft_batch : R → S → S × Result OrchestratorError A
  unfolding through_brain
  create_refresh_draft_batch request s =
      through_brain OrchestratorCommand.create_refresh_drafts (o.actor_of request)
        (o.brain_controller.create_refresh_draft_batch request) s

  unfoldable pub import_resource : R → S → S × Result OrchestratorError A
  unfolding through_brain
  import_resource request s =
      through_brain OrchestratorCommand.import_resource (o.actor_of request)
        (o.brain_controller.import_resource request) s

  unfoldable pub validate_note : R → S → S × Result OrchestratorError A
  unfolding through_brain
  validate_note request s =
      through_brain OrchestratorCommand.validate_note (o.actor_of request)
        (o.brain_controller.validate_note request) s

  unfoldable pub promote_note : R → S → S × Result OrchestratorError A
  unfolding through_brain
  promote_note request s =
      through_brain OrchestratorCommand.promote_note (o.actor_of request)
        (o.brain_controller.promote_note request) s

  unfoldable pub query_history : R → S → S × Result OrchestratorError A
  unfolding through_brain
  query_history request s =
      through_brain OrchestratorCommand.query_history (o.actor_of request)
        (o.brain_controller.query_history request) s

  abbrev pub injected :
      ExecuteCodingTaskRequest
      → S × Result String ServiceResult
      → S × Result String ExecuteCodingTaskRequest
  unfolding with_memory
  injected request (s, err e) = (s, err e)
  injected request (s, ok result) = (s, ok (with_memory request result))

  unfoldable pub inject_memory_context :
      ExecuteCodingTaskRequest → S → S × Result String ExecuteCodingTaskRequest
  unfolding injected memory_request
  inject_memory_context request s = elim request.memory_context [
    | none ↦ (s, ok request)
    | some memory ↦
        injected request
          (o.brain_controller.assemble_agent_context (memory_request request memory) s)
  ]

  abbrev pub execute_injected :
      S × Result String ExecuteCodingTaskRequest → S × Result OrchestratorError A
  execute_injected (s, err e) = (s, err (thrown e))
  execute_injected (s, ok request) = raised (o.coding_controller.execute_task request s)

  unfoldable pub execute_coding_task : ExecuteCodingTaskRequest → S → S × Result OrchestratorError A
  unfolding through_coding inject_memory_context
  execute_coding_task request s =
      through_coding OrchestratorCommand.execute_coding_task request.actor
        (λ t. execute_injected (inject_memory_context request t)) s

  unfoldable pub list_agent_traces : R → String → S → S × Result OrchestratorError (List A)
  unfolding through_coding
  list_agent_traces request request_id s =
      through_coding OrchestratorCommand.list_agent_traces (o.actor_of request)
        (λ t. raised (o.coding_controller.list_traces request_id t)) s

  abbrev pub shown :
      S × Result OrchestratorError (Option A) → S × Result OrchestratorError (ToolOutput A)
  shown (s, err e) = (s, err e)
  shown (s, ok none) = (s, ok not_found)
  shown (s, ok (some output)) = (s, ok (found output))

  unfoldable pub show_tool_output : R → String → S → S × Result OrchestratorError (ToolOutput A)
  unfolding through_coding
  show_tool_output request output_id s =
      through_coding OrchestratorCommand.show_tool_output (o.actor_of request)
        (λ t. shown (raised (o.coding_controller.show_tool_output output_id t))) s
