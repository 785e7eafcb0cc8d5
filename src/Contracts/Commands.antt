-- ===== src/Contracts/Commands.antt =====
-- The commands of packages/orchestration/src/routing/task-family-router.ts and the actions of
-- packages/orchestration/src/root/administrative-action.ts.
use multi_agent_brain.Common.{
  ℕ, zero, suc, ◌≡◌, refl, sym, ap, ◌∙◌, ◌↔◌, true, StrictEq, nat_beq, nat_beq_iff,
}

pub data OrchestratorCommand : Type 0 where
  search_context search_session_archives assemble_agent_context get_context_packet :
      OrchestratorCommand
  fetch_decision_summary draft_note create_session_archive create_refresh_draft :
      OrchestratorCommand
  create_refresh_drafts import_resource validate_note promote_note : OrchestratorCommand
  query_history execute_coding_task list_agent_traces show_tool_output : OrchestratorCommand

pub data AdministrativeAction : Type 0 where
  view_auth_status view_issued_tokens issue_auth_token : AdministrativeAction
  inspect_auth_token revoke_auth_token view_freshness_status : AdministrativeAction

-- Equality of the string literals, by their positions.
abbrev command_index : OrchestratorCommand → ℕ
command_index search_context = 0
command_index search_session_archives = 1
command_index assemble_agent_context = 2
command_index get_context_packet = 3
command_index fetch_decision_summary = 4
command_index draft_note = 5
command_index create_session_archive = 6
command_index create_refresh_draft = 7
command_index create_refresh_drafts = 8
command_index import_resource = 9
command_index validate_note = 10
command_index promote_note = 11
command_index query_history = 12
command_index execute_coding_task = 13
command_index list_agent_traces = 14
command_index show_tool_output = 15

command_at : ℕ → OrchestratorCommand
command_at zero = search_context
command_at (suc zero) = search_session_archives
command_at (suc (suc zero)) = assemble_agent_context
command_at (suc (suc (suc zero))) = get_context_packet
command_at (suc (suc (suc (suc zero)))) = fetch_decision_summary
command_at (suc (suc (suc (suc (suc zero))))) = draft_note
command_at (suc (suc (suc (suc (suc (suc zero)))))) = create_session_archive
command_at (suc (suc (suc (suc (suc (suc (suc zero))))))) = create_refresh_draft
command_at (suc (suc (suc (suc (suc (suc (suc (suc zero)))))))) = create_refresh_drafts
command_at (suc (suc (suc (suc (suc (suc (suc (suc (suc zero))))))))) = import_resource
command_at (suc (suc (suc (suc (suc (suc (suc (suc (suc (suc zero)))))))))) = validate_note
command_at (suc (suc (suc (suc (suc (suc (suc (suc (suc (suc (suc zero))))))))))) = promote_note
command_at (suc (suc (suc (suc (suc (suc (suc (suc (suc (suc (suc (suc zero)))))))))))) =
    query_history
command_at (suc (suc (suc (suc (suc (suc (suc (suc (suc (suc (suc (suc (suc zero))))))))))))) =
    execute_coding_task
command_at
      (suc (suc (suc (suc (suc (suc (suc (suc (suc (suc (suc (suc (suc (suc zero)))))))))))))) =
    list_agent_traces
command_at
      (suc (suc (suc (suc (suc (suc (suc (suc (suc (suc (suc (suc (suc (suc (suc n))))))))))))))) =
    show_tool_output

command_at-index : (a : OrchestratorCommand) → command_at (command_index a) ≡ a
unfolding command_at
command_at-index search_context = refl
command_at-index search_session_archives = refl
command_at-index assemble_agent_context = refl
command_at-index get_context_packet = refl
command_at-index fetch_decision_summary = refl
command_at-index draft_note = refl
command_at-index create_session_archive = refl
command_at-index create_refresh_draft = refl
command_at-index create_refresh_drafts = refl
command_at-index import_resource = refl
command_at-index validate_note = refl
command_at-index promote_note = refl
command_at-index query_history = refl
command_at-index execute_coding_task = refl
command_at-index list_agent_traces = refl
command_at-index show_tool_output = refl

pub command_beq_iff :
    (a b : OrchestratorCommand) → (nat_beq (command_index a) (command_index b) ≡ true) ↔ (a ≡ b)
command_beq_iff a b = (
  λ h. sym (command_at-index a) ∙ ap command_at ((nat_beq_iff _ _).0 h) ∙ command_at-index b,
  λ e. (nat_beq_iff _ _).1 (ap command_index e),
)

instance abbrev pub command_eq : StrictEq OrchestratorCommand
command_eq = record {
  same = λ a b. nat_beq (command_index a) (command_index b);
  same_iff = command_beq_iff;
}

abbrev admin_action_index : AdministrativeAction → ℕ
admin_action_index view_auth_status = 0
admin_action_index view_issued_tokens = 1
admin_action_index issue_auth_token = 2
admin_action_index inspect_auth_token = 3
admin_action_index revoke_auth_token = 4
admin_action_index view_freshness_status = 5

admin_action_at : ℕ → AdministrativeAction
admin_action_at zero = view_auth_status
admin_action_at (suc zero) = view_issued_tokens
admin_action_at (suc (suc zero)) = issue_auth_token
admin_action_at (suc (suc (suc zero))) = inspect_auth_token
admin_action_at (suc (suc (suc (suc zero)))) = revoke_auth_token
admin_action_at (suc (suc (suc (suc (suc n))))) = view_freshness_status

admin_action_at-index : (a : AdministrativeAction) → admin_action_at (admin_action_index a) ≡ a
unfolding admin_action_at
admin_action_at-index view_auth_status = refl
admin_action_at-index view_issued_tokens = refl
admin_action_at-index issue_auth_token = refl
admin_action_at-index inspect_auth_token = refl
admin_action_at-index revoke_auth_token = refl
admin_action_at-index view_freshness_status = refl

pub admin_action_beq_iff :
    (a b : AdministrativeAction)
    → (nat_beq (admin_action_index a) (admin_action_index b) ≡ true) ↔ (a ≡ b)
admin_action_beq_iff a b = (
  λ h.
      sym (admin_action_at-index a)
      ∙ ap admin_action_at ((nat_beq_iff _ _).0 h)
      ∙ admin_action_at-index b,
  λ e. (nat_beq_iff _ _).1 (ap admin_action_index e),
)

instance abbrev pub admin_action_eq : StrictEq AdministrativeAction
admin_action_eq = record {
  same = λ a b. nat_beq (admin_action_index a) (admin_action_index b);
  same_iff = admin_action_beq_iff;
}
