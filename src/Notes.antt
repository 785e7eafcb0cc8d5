-- ===== src/Notes.antt =====
-- packages/domain/src: notes, their frontmatter and chunks; the records of the note ports in
-- packages/application/src/ports.
pub mod Slug
use multi_agent_brain.Common.{ℕ, String, Bool, true, false, Option, List, nat_beq}

pub data NoteType : Type 0 where
  decision constraint bug investigation runbook architecture glossary handoff reference : NoteType
  policy : NoteType

pub data NoteLifecycleState : Type 0 where
  draft staged validated promoted superseded rejected archived : NoteLifecycleState

pub data CorpusId : Type 0 where
  context_brain general_notes : CorpusId

pub record NoteFrontmatter : Type 0 where
  pub note_id : String
  pub title : String
  pub project : String
  pub note_type : NoteType
  pub status : NoteLifecycleState
  pub updated : String
  pub summary : String
  pub tags : List String
  pub scope : String
  pub corpus_id : CorpusId
  pub current_state : Bool
  pub valid_from : Option String
  pub valid_until : Option String
  pub supersedes : Option (List String)
  pub superseded_by : Option String

pub record CanonicalNoteRecord : Type 0 where
  pub note_id : String
  pub corpus_id : CorpusId
  pub note_path : String
  pub revision : String
  pub frontmatter : NoteFrontmatter
  pub body : String

pub record StagingDraftRecord : Type 0 where
  pub note_id : String
  pub corpus_id : CorpusId
  pub draft_path : String
  pub revision : String
  pub lifecycle_state : NoteLifecycleState
  pub frontmatter : NoteFrontmatter
  pub body : String

pub record MetadataNoteRecord : Type 0 where
  pub note_id : String
  pub corpus_id : CorpusId
  pub note_path : String
  pub note_type : NoteType
  pub lifecycle_state : NoteLifecycleState
  pub revision : String
  pub updated_at : String
  pub current_state : Bool
  pub valid_from : Option String
  pub valid_until : Option String
  pub summary : Option String
  pub scope : Option String
  pub tags : Option (List String)
  pub content_hash : Option String
  pub semantic_signature : Option String

pub data ChunkStalenessClass : Type 0 where
  current stale superseded : ChunkStalenessClass

pub record ChunkRecord : Type 0 where
  pub chunk_id : String
  pub note_id : String
  pub corpus_id : CorpusId
  pub note_type : NoteType
  pub note_path : String
  pub heading_path : List String
  pub parent_heading : Option String
  pub prev_chunk_id : Option String
  pub next_chunk_id : Option String
  pub raw_text : String
  pub summary : String
  pub entities : List String
  pub qualifiers : List String
  pub scope : String
  pub tags : List String
  pub staleness_class : ChunkStalenessClass
  pub valid_from : Option String
  pub valid_until : Option String
  pub token_estimate : ℕ
  pub updated_at : String

-- Equality of the string literals, by their positions.
abbrev pub note_type_index : NoteType → ℕ
note_type_index decision = 0
note_type_index constraint = 1
note_type_index bug = 2
note_type_index investigation = 3
note_type_index runbook = 4
note_type_index architecture = 5
note_type_index glossary = 6
note_type_index handoff = 7
note_type_index reference = 8
note_type_index policy = 9

abbrev pub same_note_type : NoteType → NoteType → Bool
same_note_type a b = nat_beq (note_type_index a) (note_type_index b)

abbrev pub note_type_text : NoteType → String
note_type_text decision = "decision"
note_type_text constraint = "constraint"
note_type_text bug = "bug"
note_type_text investigation = "investigation"
note_type_text runbook = "runbook"
note_type_text architecture = "architecture"
note_type_text glossary = "glossary"
note_type_text handoff = "handoff"
note_type_text reference = "reference"
note_type_text policy = "policy"

abbrev pub corpus_text : CorpusId → String
corpus_text context_brain = "context_brain"
corpus_text general_notes = "general_notes"

abbrev pub is_superseded : NoteLifecycleState → Bool
is_superseded state = elim state [ superseded ↦ true | _ ↦ false ]

abbrev pub is_general : CorpusId → Bool
is_general corpus = elim corpus [ general_notes ↦ true | _ ↦ false ]
