-- ===== src/Validation/Service/Rules.antt =====
-- The issues of packages/application/src/services/note-validation-service.ts, its tables, and the rules that need neither tags nor headings.
use multi_agent_brain.Common.{
  String, Bool, true, false, not, ◌&&◌, Option, none, some, List, [], ◌∷◌, ◌++◌, map, string_eq,
  ◌==◌, includes, is_some, or_else, if◌then◌else◌,
}
use multi_agent_brain.Common.Text.{trim, trimmed}
use multi_agent_brain.Common.Text.Split.{◌<>◌}
use multi_agent_brain.Common.Text.Search.{starts_with, ends_with, contains}
use multi_agent_brain.Common.Maps.{to_set}
use multi_agent_brain.Common.Sort.{text_le}
use multi_agent_brain.Notes.{
  NoteType, decision, constraint, bug, investigation, runbook, architecture, glossary, handoff,
  reference, policy, NoteLifecycleState, draft, staged, rejected, CorpusId, NoteFrontmatter,
  corpus_text, is_general, is_superseded,
}
use multi_agent_brain.Validation.Headings.{normalize_heading}
use multi_agent_brain.Validation.Texts.{is_date, normalize_path_string}

pub data Field : Type 0 where
  note_id title project summary scope updated valid_from valid_until : Field

pub data Issue : Type 0 where
  required not_a_date : Field → Issue
  no_tags wrong_corpus : Issue
  uncontrolled_tag missing_section : String → Issue
  not_markdown outside_corpus parent_traversal : Issue
  general_current_state general_current_tag general_snapshot_path : Issue
  ends_before_start superseded_current superseded_by_none : Issue
  not_a_draft not_promotable : Issue

pub data ValidationMode : Type 0 where
  draft_mode promotion_mode : ValidationMode

pub record ValidateNoteRequest : Type 0 where
  pub target_corpus : CorpusId
  pub note_path : String
  pub frontmatter : NoteFrontmatter
  pub body : String
  pub validation_mode : ValidationMode

pub record ValidateNoteResponse : Type 0 where
  pub valid : Bool
  pub normalized_frontmatter : NoteFrontmatter
  pub violations : List Issue
  pub blocked_from_promotion : Bool

-- `NOTE_TYPE_SECTION_REQUIREMENTS`
abbrev pub required_sections : NoteType → List String
required_sections decision = "Context" ∷ "Decision" ∷ "Rationale" ∷ "Consequences" ∷ []
required_sections constraint = "Constraint" ∷ "Scope" ∷ "Rationale" ∷ "Implications" ∷ []
required_sections bug = "Summary" ∷ "Symptoms" ∷ "Reproduction" ∷ "Impact" ∷ "Status" ∷ []
required_sections investigation = "Question" ∷ "Findings" ∷ "Evidence" ∷ "Next Steps" ∷ []
required_sections runbook = "Purpose" ∷ "Preconditions" ∷ "Procedure" ∷ "Verification" ∷ []
required_sections architecture = "Context" ∷ "Components" ∷ "Data Flow" ∷ "Constraints" ∷ []
required_sections glossary = "Term" ∷ "Definition" ∷ "Related Terms" ∷ []
required_sections handoff = "Context" ∷ "Current State" ∷ "Open Questions" ∷ "Next Steps" ∷ []
required_sections reference = "Summary" ∷ "Details" ∷ "Sources" ∷ []
required_sections policy = "Policy" ∷ "Scope" ∷ "Rules" ∷ "Exceptions" ∷ []

-- `CONTROLLED_TAG_REGISTRY`, the tags that are allowed unless others are given
abbrev pub controlled_tag_registry : List String
controlled_tag_registry =
    "domain/agent" ∷ "domain/architecture" ∷ "domain/chunking" ∷ "domain/metadata"
    ∷ "domain/orchestration" ∷ "domain/retrieval" ∷ "domain/storage" ∷ "domain/vector"
    ∷ "artifact/api" ∷ "artifact/application" ∷ "artifact/backend" ∷ "artifact/cli"
    ∷ "artifact/contracts" ∷ "artifact/domain" ∷ "artifact/infrastructure" ∷ "artifact/qdrant"
    ∷ "artifact/sqlite" ∷ "artifact/vault" ∷ "project/multi-agent-brain" ∷ "project/zengram"
    ∷ "risk/contradiction" ∷ "risk/duplicate-memory" ∷ "risk/over-retrieval" ∷ "risk/raw-context"
    ∷ "risk/regression" ∷ "risk/stale-context" ∷ "risk/trust-boundary" ∷ "status/current"
    ∷ "status/draft" ∷ "status/promoted" ∷ "status/rejected" ∷ "status/staged" ∷ "status/superseded"
    ∷ "topic/corpus-separation" ∷ "topic/docker" ∷ "topic/current-state-snapshot" ∷ "topic/mcp"
    ∷ "topic/note-schema" ∷ "topic/packet-contract" ∷ "topic/promotion-policy"
    ∷ "topic/ranking-policy" ∷ []

-- `if (test) violations.push(issue)`
abbrev pub when : Bool → Issue → List Issue
when test issue = if test then issue ∷ [] else []

-- The issues that are found next.
infixr 60 ◌+++◌
abbrev pub ◌+++◌ : List Issue → List Issue → List Issue
issues +++ further = issues ++ further

abbrev pub keep_some : List (Option String) → List String
keep_some [] = []
keep_some (none ∷ values) = keep_some values
keep_some (some value ∷ values) = value ∷ keep_some values

unfoldable pub dedupe_strings : List String → List String
unfolding to_set trim
dedupe_strings values = to_set (keep_some (map (λ value. trimmed (some value)) values))

abbrev pub required_text : String → String
required_text value = or_else (trimmed (some value)) ""

abbrev pub required_issues : Field → String → List Issue
required_issues field value = when (not (is_some (trimmed (some value)))) (required field)

abbrev pub date_form : Field → Option String → List Issue
date_form field none = []
date_form field (some date) = when (not (is_date date)) (not_a_date field)

abbrev pub date_issues : Field → String → List Issue
date_issues field value = required_issues field value +++ date_form field (trimmed (some value))

abbrev pub same_corpus : CorpusId → CorpusId → Bool
same_corpus a b = corpus_text a == corpus_text b

abbrev pub is_draft : NoteLifecycleState → Bool
is_draft state = elim state [ draft ↦ true | _ ↦ false ]

abbrev pub may_be_drafted : NoteLifecycleState → Bool
may_be_drafted state = elim state [ draft ↦ true | staged ↦ true | _ ↦ false ]

abbrev pub may_be_promoted : NoteLifecycleState → Bool
may_be_promoted state = elim state [ draft ↦ false | rejected ↦ false | _ ↦ true ]

abbrev pub mode_issues : ValidationMode → NoteLifecycleState → List Issue
mode_issues draft_mode state = when (not (may_be_drafted state)) not_a_draft
mode_issues promotion_mode state = when (not (may_be_promoted state)) not_promotable

abbrev pub is_promotion : ValidationMode → Bool
is_promotion mode = elim mode [ promotion_mode ↦ true | draft_mode ↦ false ]

abbrev pub ends_before : Option String → Option String → Bool
ends_before (some from) (some until) = not (text_le from until)
ends_before none until = false
ends_before (some from) none = false

unfoldable pub path_issues : CorpusId → String → List Issue
unfolding normalize_path_string ends_with starts_with contains
path_issues target_corpus note_path =
    let normalized = normalize_path_string note_path in
    when (not (ends_with normalized ".md")) not_markdown
    +++ when (not (starts_with normalized (corpus_text target_corpus <> "/"))) outside_corpus
    +++ when (contains normalized "../") parent_traversal

unfoldable pub corpus_policy_issues : NoteFrontmatter → String → List Issue
unfolding normalize_path_string starts_with
corpus_policy_issues frontmatter note_path =
    let normalized = normalize_path_string note_path in
    if is_general frontmatter.corpus_id
    then when frontmatter.current_state general_current_state
      +++ when (includes frontmatter.tags "status/current") general_current_tag
      +++ when (starts_with normalized "general_notes/current-state/") general_snapshot_path
    else []

abbrev pub supersede_issues : NoteFrontmatter → List Issue
supersede_issues frontmatter =
    when (frontmatter.current_state && is_some frontmatter.superseded_by) superseded_current
    +++ when
        (not frontmatter.current_state
          && not (is_some frontmatter.superseded_by)
          && is_superseded frontmatter.status)
        superseded_by_none

abbrev pub missing_sections : (String → String) → List String → List String → List Issue
missing_sections to_lower_case headings [] = []
missing_sections to_lower_case headings (section ∷ sections) =
    when (not (includes headings (normalize_heading to_lower_case section)))
      (missing_section section)
    +++ missing_sections to_lower_case headings sections

abbrev pub uncontrolled : List String → List String → List Issue
uncontrolled allowed_tags [] = []
uncontrolled allowed_tags (tag ∷ tags) =
    when (not (includes allowed_tags tag)) (uncontrolled_tag tag) +++ uncontrolled allowed_tags tags
