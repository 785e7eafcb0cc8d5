-- ===== src/Packet.antt =====
-- Candidates, packets and their parts: packages/domain/src/retrieval/context-packet.ts and
-- packages/contracts/src/retrieval/assemble-context-packet.contract.ts. A score is a number that is
-- only compared, so its type `S` is a parameter.
pub mod Words
pub mod Selection
pub mod Budget
pub mod Assembly
mod Examples
use multi_agent_brain.Common.{ℕ, String, Bool, Option, List}
use multi_agent_brain.Contracts.{ActorContext, ContextBudget}
use multi_agent_brain.Notes.{NoteType, ChunkStalenessClass}

pub data QueryIntent : Type 0 where
  fact_lookup decision_lookup implementation_guidance status_timeline debugging : QueryIntent
  architecture_recall : QueryIntent

pub data AnswerConfidence : Type 0 where
  low medium high : AnswerConfidence

pub data PacketType : Type 0 where
  direct_answer decision implementation timeline_status : PacketType

pub data AnswerabilityDisposition : Type 0 where
  local_answer partial needs_escalation : AnswerabilityDisposition

pub record ProvenanceRef : Type 0 where
  pub note_id : String
  pub chunk_id : Option String
  pub note_path : String
  pub heading_path : List String
  pub excerpt : Option String

pub record ContextCandidate (S : Type 0) : Type 0 where
  pub note_type : NoteType
  pub score : S
  pub summary : String
  pub raw_text : Option String
  pub scope : String
  pub qualifiers : List String
  pub tags : List String
  pub staleness_class : ChunkStalenessClass
  pub valid_from : Option String
  pub valid_until : Option String
  pub provenance : ProvenanceRef

pub record AssembleContextPacketRequest (S : Type 0) : Type 0 where
  pub actor : ActorContext
  pub intent : QueryIntent
  pub budget : ContextBudget
  pub candidates : List (ContextCandidate S)
  pub include_raw_excerpts : Bool

pub record ContextPacketBudgetUsage : Type 0 where
  pub token_estimate : ℕ
  pub source_count : ℕ
  pub raw_excerpt_count : ℕ

pub record ContextPacket : Type 0 where
  pub packet_type : PacketType
  pub intent : QueryIntent
  pub confidence : AnswerConfidence
  pub answerability : AnswerabilityDisposition
  pub summary : String
  pub constraints : List String
  pub evidence : List ProvenanceRef
  pub raw_excerpts : Option (List String)
  pub uncertainties : List String
  pub budget_usage : ContextPacketBudgetUsage

-- `packetTypeForIntent`
abbrev pub packet_type_for_intent : QueryIntent → PacketType
packet_type_for_intent decision_lookup = decision
packet_type_for_intent implementation_guidance = implementation
packet_type_for_intent debugging = implementation
packet_type_for_intent architecture_recall = implementation
packet_type_for_intent status_timeline = timeline_status
packet_type_for_intent fact_lookup = direct_answer
