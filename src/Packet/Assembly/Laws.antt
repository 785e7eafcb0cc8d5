-- ===== src/Packet/Assembly/Laws.antt =====
-- A packet is assembled for every request, and keeps the budget.
use multi_agent_brain.Common.{
  ℕ, ◌+◌, ◌≤◌, String, ◌≡◌, refl, ap, Bool, some, List, length, if◌then◌else◌, string_eq,
}
use mathlib.Core.Option
use multi_agent_brain.Notes.{ChunkRecord}
use multi_agent_brain.Packet.{AnswerabilityDisposition, AssembleContextPacketRequest, ContextPacket}
use multi_agent_brain.Packet.Words.{estimate_packet_tokens}
use multi_agent_brain.Packet.Budget.Laws.{enforce_context_budget-IsWithin}
use multi_agent_brain.Packet.Assembly.{
  should_include_raw_excerpts, budget_input, packet_from, assemble_packet,
}

-- What a request may count on in its packet.
abbrev pub KeepsBudget :
    {S : Type 0}
    → AssembleContextPacketRequest S
    → AnswerabilityDisposition
    → ContextPacket
    → Type 0
KeepsBudget request answerability packet =
    (packet.budget_usage.token_estimate ≤ request.budget.max_tokens)
    × (estimate_packet_tokens packet.summary packet.constraints packet.uncertainties packet.evidence
          packet.raw_excerpts
        ≤ request.budget.max_tokens + 2)
    × (packet.budget_usage.source_count ≡ length packet.evidence)
    × (length packet.evidence ≤ request.budget.max_sources)
    × (packet.budget_usage.raw_excerpt_count ≤ (
        if should_include_raw_excerpts request.include_raw_excerpts answerability
        then request.budget.max_raw_excerpts
        else 0))
    × (length packet.constraints ≤ 8)

module _ {S : Type 0} (is_high : S → Bool)
    (get_chunk_neighborhood : String → ℕ → List ChunkRecord) where
  -- Where at least one token is allowed, a packet is assembled. It reports no more tokens than
  -- allowed, its texts take at most two more by the same estimate, and its sources, excerpts and
  -- constraints are as few as allowed, with no excerpt unless asked for or needed.
  pub assemble_packet-KeepsBudget :
      (request : AssembleContextPacketRequest S) (answerability : AnswerabilityDisposition)
      → 1 ≤ request.budget.max_tokens
      → (packet : ContextPacket) × (assemble_packet is_high get_chunk_neighborhood request
            answerability
          ≡ some packet)
        × KeepsBudget request answerability packet
  unfolding assemble_packet budget_input packet_from
  assemble_packet-KeepsBudget request answerability positive =
      let input = budget_input is_high get_chunk_neighborhood request answerability in
      let (p, ends, (tokens, held, sources, excerpts, constraints)) =
        enforce_context_budget-IsWithin input positive in
      let from = packet_from is_high get_chunk_neighborhood request answerability in
      (from p, ap (Option.map from) ends, (tokens, held, refl, sources, excerpts, constraints))
