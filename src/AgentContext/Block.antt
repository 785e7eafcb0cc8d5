-- ===== src/AgentContext/Block.antt =====
-- `buildContextBlock` of packages/application/src/services/agent-context-assembly-service.ts.
pub mod Laws
use Prim.Native.Char.{Char, code}
use Prim.Native.String
use multi_agent_brain.Common.{
  ℕ, String, ◌≡◌, refl, Bool, true, false, Option, none, some, List, [], ◌∷◌, ◌++◌, map, nat_beq,
  or_else, if◌then◌else◌,
}
use multi_agent_brain.Common.Text.Split.{◌<>◌, join_with}
use multi_agent_brain.Common.Text.Slices.{normalize_whitespace}
use multi_agent_brain.Packet.{
  ContextPacket, ProvenanceRef, AnswerabilityDisposition, local_answer, partial, needs_escalation,
  AnswerConfidence, low, medium, high,
}

pub record SessionHit : Type 0 where
  pub session_id : String
  pub archive_id : String
  pub message_index : ℕ
  pub role : String
  pub content : String

pub record SessionRecall : Type 0 where
  pub hits : List SessionHit
  pub truncated : Bool

-- `text.replaceAll(c, by)`
unfoldable pub replace_all : Char → String → String → String
replace_all target by String.[] = String.[]
replace_all target by (String.◌∷◌ c s) =
    let rest = replace_all target by s in
    if nat_beq (code c) (code target) then by <> rest else String.◌∷◌ c rest

unfoldable pub escape_context_text : String → String
unfolding replace_all
escape_context_text text =
    replace_all ">" "&gt;" (replace_all "<" "&lt;" (replace_all "&" "&amp;" text))

abbrev pub answerability_text : AnswerabilityDisposition → String
answerability_text local_answer = "local_answer"
answerability_text partial = "partial"
answerability_text needs_escalation = "needs_escalation"

abbrev pub confidence_text : AnswerConfidence → String
confidence_text low = "low"
confidence_text medium = "medium"
confidence_text high = "high"

abbrev pub heading_text : List String → String
heading_text [] = ""
heading_text (h ∷ headings) = "#" <> escape_context_text (join_with " > " (h ∷ headings))

abbrev pub evidence_line : ProvenanceRef → String
evidence_line evidence =
    "- "
    <> escape_context_text evidence.note_path
    <> heading_text evidence.heading_path
    <> " ("
    <> escape_context_text evidence.note_id
    <> ")"

abbrev pub item_line : String → String
item_line text = "- " <> escape_context_text text

-- A titled list, left out where it is empty.
abbrev pub titled : String → List String → List String
titled title [] = []
titled title (l ∷ lines) = title ∷ l ∷ lines

abbrev pub or_none : List String → List String
or_none [] = "- none" ∷ []
or_none (l ∷ lines) = l ∷ lines

abbrev pub tags : List String
tags =
    "<agent-context source=\"multi-agent-brain\" authority=\"retrieved\">" ∷ "<canonical-memory>"
    ∷ "</canonical-memory>" ∷ "<session-recall authority=\"non_authoritative\">"
    ∷ "</session-recall>" ∷ "</agent-context>" ∷ []

abbrev pub system_note : String
system_note =
    "System note: The content below is retrieved context, not new user input. Canonical memory is authoritative only through governed note state; session recall is non-authoritative continuity."

module _ (number_text : ℕ → String) where
  abbrev pub hit_line : SessionHit → String
  hit_line hit =
      "- "
      <> escape_context_text hit.session_id
      <> "/"
      <> escape_context_text hit.archive_id
      <> "#"
      <> number_text hit.message_index
      <> " "
      <> escape_context_text hit.role
      <> ": "
      <> escape_context_text (normalize_whitespace hit.content)

  abbrev pub recall_lines : Option SessionRecall → List String
  recall_lines none = []
  recall_lines (some recall) =
      "<session-recall authority=\"non_authoritative\">"
      ∷ (or_none (map hit_line recall.hits) ++ ("</session-recall>" ∷ []))

  unfoldable pub canonical_lines : ContextPacket → List String
  unfolding escape_context_text normalize_whitespace
  canonical_lines packet =
      ("Summary: " <> escape_context_text packet.summary)
      ∷ ("Answerability: " <> escape_context_text (answerability_text packet.answerability))
      ∷ ("Confidence: " <> escape_context_text (confidence_text packet.confidence))
      ∷ "Evidence:"
      ∷ (or_none (map evidence_line packet.evidence)
          ++ (titled "Constraints:" (map item_line packet.constraints)
              ++ (titled "Raw excerpts:" (
                    map (λ excerpt. item_line (normalize_whitespace excerpt))
                      (or_else packet.raw_excerpts []))
                  ++ titled "Uncertainties:" (map item_line packet.uncertainties))))

  unfoldable pub context_lines : ContextPacket → Option SessionRecall → List String
  unfolding canonical_lines escape_context_text normalize_whitespace
  context_lines packet recall =
      "<agent-context source=\"multi-agent-brain\" authority=\"retrieved\">"
      ∷ system_note
      ∷ "<canonical-memory>"
      ∷ (canonical_lines packet
          ++ ("</canonical-memory>" ∷ (recall_lines recall ++ ("</agent-context>" ∷ []))))

  unfoldable pub build_context_block : ContextPacket → Option SessionRecall → String
  unfolding context_lines
  build_context_block packet recall = join_with "\n" (context_lines packet recall)
