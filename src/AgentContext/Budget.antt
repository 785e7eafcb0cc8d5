-- ===== src/AgentContext/Budget.antt =====
-- `createBudgetPlan` and `enforceContextBlockBudget` of
-- packages/application/src/services/agent-context-assembly-service.ts.
pub mod Laws
use Prim.Native.Char.{Char, code}
use Prim.Native.String
use multi_agent_brain.Common.{
  ℕ, ◌-◌, ◌*◌, min, max, String, ◌≡◌, refl, Bool, true, false, ◌&&◌, Option, none, some, List, leb,
  or_else, if◌then◌else◌,
}
use multi_agent_brain.Common.Text.{is_space, trim_end}
use multi_agent_brain.Common.Text.Split.{◌<>◌}
use multi_agent_brain.Common.Text.Slices.{text_length, slice_to}
use multi_agent_brain.Packet.Words.{estimate_tokens}
use multi_agent_brain.Orchestrator.Types.{AssembleAgentContextRequest}

pub record Shares : Type 0 where
  pub canonical_share : ℕ → ℕ
  pub session_share : ℕ → ℕ

pub record BudgetPlan : Type 0 where
  pub total_tokens : ℕ
  pub canonical_tokens : ℕ
  pub session_tokens : Option ℕ

abbrev pub clamp_integer : Option ℕ → ℕ → ℕ → ℕ → ℕ
clamp_integer none default_value least most = default_value
clamp_integer (some value) default_value least most = min most (max least value)

unfoldable pub create_budget_plan : Shares → AssembleAgentContextRequest → BudgetPlan
create_budget_plan shares request =
    let total = clamp_integer (some request.budget.max_tokens) 6000 1 20000 in
    if or_else request.include_session_archives false
    then record {
      total_tokens = total;
      canonical_tokens = max 1 (shares.canonical_share total);
      session_tokens = some (
          clamp_integer request.session_max_tokens (max 1 (shares.session_share total)) 1
            (max 1 (shares.session_share total)));
    }
    else record { total_tokens = total; canonical_tokens = total; session_tokens = none }

abbrev pub closing_tag : String
closing_tag = "\n</agent-context>"

abbrev pub marker : String
marker = "\n[truncated to requested agent context budget]"

-- The text is the given part with nothing but space behind it.
ends_in : String → String → Bool
unfolding is_space
ends_in String.[] String.[] = true
ends_in String.[] (String.◌∷◌ d part) = false
ends_in (String.◌∷◌ c s) String.[] = let rest = ends_in s String.[] in is_space (code c) && rest
ends_in (String.◌∷◌ c s) (String.◌∷◌ d part) =
    let rest = ends_in s part in
    (elim (leb (code c) (code d) && leb (code d) (code c)) [ true ↦ rest | false ↦ false ])

-- `replace(/\n<\/agent-context>\s*$/u, "")`
unfoldable pub drop_closing_tag : String → String
unfolding ends_in
drop_closing_tag String.[] = String.[]
drop_closing_tag (String.◌∷◌ c s) =
    let rest = drop_closing_tag s in
    if ends_in (String.◌∷◌ c s) closing_tag then String.[] else String.◌∷◌ c rest

-- The block, and whether it was cut.
unfoldable pub enforce_context_block_budget : String → ℕ → String × Bool
unfolding drop_closing_tag trim_end
enforce_context_block_budget block max_tokens =
    if leb (estimate_tokens block) max_tokens
    then (block, false)
    else let available = max 128 (max_tokens * 4) - text_length closing_tag - text_length marker in
      (trim_end (slice_to available (drop_closing_tag block)) <> marker <> closing_tag, true)
