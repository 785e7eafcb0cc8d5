-- ===== src/AgentContext/Budget/Laws.antt =====
-- The budgets of an agent context: what is planned, and what the block takes.
use Prim.Native.Char.{code}
use multi_agent_brain.Common.{
  ℕ, ◌+◌, ◌-◌, ◌*◌, ◌≤◌, min, max, String, ◌≡◌, refl, inl, inr, false, ◌&&◌, Option, none, some,
  arith, leb, or_else, Bool-cases,
}
use multi_agent_brain.Common.Text.{is_space, is_blank, trim_end}
use multi_agent_brain.Common.Text.Split.{◌<>◌}
use multi_agent_brain.Common.Text.Slices.{
  text_length, slice_to, text_length-append, text_length-slice_to,
}
use multi_agent_brain.Packet.Words.{estimate_tokens}
use multi_agent_brain.Orchestrator.Types.{AssembleAgentContextRequest}
use multi_agent_brain.AgentContext.Budget.{
  Shares, create_budget_plan, clamp_integer, closing_tag, marker, drop_closing_tag,
  enforce_context_block_budget,
}

text_length-trim_end : (s : String) → text_length (trim_end s) ≤ text_length s
unfolding trim_end
text_length-trim_end String.[] = omega arith
text_length-trim_end (String.◌∷◌ c s) =
    elim (Bool-cases (is_space (code c) && is_blank (trim_end s))) [
      | inl dropped ↦ rw dropped (omega arith)
      | inr kept ↦ rw kept (omega (arith, text_length-trim_end s))
    ]

-- The block takes no more tokens than asked for, or 32 where fewer are asked for; a block that fits is
-- passed on as it is.
pub enforce_context_block_budget-IsBounded :
    (block : String) (max_tokens : ℕ)
    → let (bounded, cut) = enforce_context_block_budget block max_tokens in
      (estimate_tokens bounded ≤ max max_tokens 32)
      × (estimate_tokens block ≤ max_tokens → (bounded ≡ block) × (cut ≡ false))
unfolding enforce_context_block_budget
enforce_context_block_budget-IsBounded block max_tokens =
    elim (Bool-cases (leb (estimate_tokens block) max_tokens)) [
      | inl fits ↦ rw fits (ground (arith, fits), λ _. (refl, refl))
      | inr over ↦
          let room = max 128 (max_tokens * 4) - text_length closing_tag - text_length marker in
          let kept = slice_to room (drop_closing_tag block) in
          rw over (
            omega (
              arith,
              text_length-append (trim_end kept) (marker <> closing_tag),
              text_length-trim_end kept,
              text_length-slice_to room (drop_closing_tag block),
            ),
            λ fits. absurd (ground (arith, fits, over)),
          )
    ]

clamped-le : (value : Option ℕ) (most : ℕ) → clamp_integer value most 1 most ≤ most
clamped-le none most = omega arith
clamped-le (some v) most = omega arith

-- Where the shares are no more than seven and three tenths, the two parts of the plan are together
-- within the total, but for one token where the total is 1, and the total is between 1 and 20000.
pub create_budget_plan-IsBounded :
    (shares : Shares) (request : AssembleAgentContextRequest)
    → ((t : ℕ) → shares.canonical_share t * 10 ≤ t * 7)
    → ((t : ℕ) → shares.session_share t * 10 ≤ t * 3)
    → let plan = create_budget_plan shares request in
      (1 ≤ plan.total_tokens)
      × (plan.total_tokens ≤ 20000)
      × (plan.canonical_tokens + or_else plan.session_tokens 0 ≤ max plan.total_tokens 2)
unfolding create_budget_plan
create_budget_plan-IsBounded shares request canonical session =
    let total = min 20000 (max 1 request.budget.max_tokens) in
    let least = max 1 (shares.session_share total) in
    elim (Bool-cases (or_else request.include_session_archives false)) [
      | inr without ↦ rw without (omega arith, omega arith, omega arith)
      | inl with_session ↦ rw with_session (
        omega arith,
        omega arith,
        omega (arith, canonical total, session total, clamped-le request.session_max_tokens least),
      )
    ]
