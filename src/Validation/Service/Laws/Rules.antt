-- ===== src/Validation/Service/Laws/Rules.antt =====
-- When the issues of the rules are none.
use multi_agent_brain.Common.{
  String, ◌≡◌, ◌↔◌, refl, sym, subst, inl, inr, Bool, true, false, not, false≢true, Option, none,
  some, List, [], ◌∷◌, ◌++◌, All, includes, is_empty, is_some, Bool-cases, string_eq,
}
use mathlib.Core.Option.{some-injective, none-ne-some}
use multi_agent_brain.Common.Text.{trimmed}
use multi_agent_brain.Common.Text.Split.{◌<>◌}
use multi_agent_brain.Common.Text.Search.{starts_with, ends_with, contains}
use multi_agent_brain.Notes.{CorpusId, NoteFrontmatter, corpus_text, is_general}
use multi_agent_brain.Validation.Headings.{normalize_heading}
use multi_agent_brain.Validation.Texts.{is_date, normalize_path_string}
use multi_agent_brain.Validation.Service.{
  Field, Issue, when, required_issues, date_form, path_issues, corpus_policy_issues,
  missing_sections, uncontrolled,
}

-- No issue is among them.
abbrev pub NoneOf : List Issue → Type 0
NoneOf issues = is_empty issues ≡ true

-- Both, two at a time.
infixr 2 ◌also◌
abbrev pub ◌also◌ : Type 0 → Type 0 → Type 0
A also B = A × B

pub append_iff :
    {A B : Type 0} (xs ys : List Issue)
    → (NoneOf xs ↔ A)
    → (NoneOf ys ↔ B)
    → (NoneOf (xs ++ ys) ↔ (A × B))
append_iff [] ys f g = (λ h. (f.0 refl, g.0 h), λ (a, b). g.1 b)
append_iff (x ∷ xs) ys f g = (λ h. absurd (false≢true h), λ (a, b). absurd (false≢true (f.1 a)))

pub when_iff : (b : Bool) (i : Issue) → (NoneOf (when b i) ↔ (b ≡ false))
when_iff true i = (λ h. absurd (false≢true h), λ h. absurd (false≢true (sym h)))
when_iff false i = (λ h. refl, λ h. refl)

pub unless_iff : (b : Bool) (i : Issue) → (NoneOf (when (not b) i) ↔ (b ≡ true))
unless_iff true i = (λ h. refl, λ h. refl)
unless_iff false i = (λ h. absurd (false≢true h), λ h. absurd (false≢true h))

-- The text is there once it is trimmed.
abbrev pub HasText : String → Type 0
HasText value = (text : String) × (trimmed (some value) ≡ some text)

-- A date that is given is one.
abbrev pub OptionalDate : Option String → Type 0
OptionalDate value = (date : String) → trimmed value ≡ some date → is_date date ≡ true

pub required_iff :
    (field : Field) (value : String) → (NoneOf (required_issues field value) ↔ HasText value)
required_iff field value = go (trimmed (some value))
  where
    go :
        (o : Option String)
        → (NoneOf (when (not (is_some o)) (Issue.required field)) ↔ ((t : String) × (o ≡ some t)))
    go none = (λ h. absurd (false≢true h), λ (t, e). absurd (none-ne-some t e))
    go (some t) = (λ h. (t, refl), λ h. refl)

pub date_form_iff :
    (field : Field) (o : Option String)
    → (NoneOf (date_form field o) ↔ ((d : String) → o ≡ some d → is_date d ≡ true))
date_form_iff field none = (λ h d e. absurd (none-ne-some d e), λ h. refl)
date_form_iff field (some date) =
    let (to, from) = unless_iff (is_date date) (Issue.not_a_date field) in
    (
      λ h d e. subst (λ x. is_date x ≡ true) (some-injective date d e) (to h),
      λ h. from (h date refl),
    )

pub uncontrolled_iff :
    (allowed tags : List String)
    → (NoneOf (uncontrolled allowed tags) ↔ All (λ t. includes allowed t ≡ true) tags)
uncontrolled_iff allowed [] = (λ h. tt, λ h. refl)
uncontrolled_iff allowed (t ∷ tags) =
    append_iff (when (not (includes allowed t)) (Issue.uncontrolled_tag t))
      (uncontrolled allowed tags) (unless_iff (includes allowed t) (Issue.uncontrolled_tag t))
      (uncontrolled_iff allowed tags)

pub missing_iff :
    (to_lower_case : String → String) (headings sections : List String)
    → (NoneOf (missing_sections to_lower_case headings sections)
        ↔ All (λ s. includes headings (normalize_heading to_lower_case s) ≡ true) sections)
missing_iff to_lower_case headings [] = (λ h. tt, λ h. refl)
missing_iff to_lower_case headings (s ∷ sections) =
    append_iff
      (when (not (includes headings (normalize_heading to_lower_case s))) (Issue.missing_section s))
      (missing_sections to_lower_case headings sections)
      (unless_iff (includes headings (normalize_heading to_lower_case s)) (Issue.missing_section s))
      (missing_iff to_lower_case headings sections)

-- The path names a Markdown file below the corpus, with no way out of it.
abbrev pub IsInCorpus : CorpusId → String → Type 0
IsInCorpus corpus path =
    (ends_with (normalize_path_string path) ".md" ≡ true)
    also (starts_with (normalize_path_string path) (corpus_text corpus <> "/") ≡ true)
    also (contains (normalize_path_string path) "../" ≡ false)

pub path_iff :
    (corpus : CorpusId) (path : String)
    → (NoneOf (path_issues corpus path) ↔ IsInCorpus corpus path)
unfolding path_issues
path_iff corpus path =
    let p = normalize_path_string path in
    append_iff (when (not (ends_with p ".md")) Issue.not_markdown)
      (when (not (starts_with p (corpus_text corpus <> "/"))) Issue.outside_corpus
        ++ when (contains p "../") Issue.parent_traversal)
      (unless_iff (ends_with p ".md") Issue.not_markdown)
      (append_iff (when (not (starts_with p (corpus_text corpus <> "/"))) Issue.outside_corpus)
        (when (contains p "../") Issue.parent_traversal)
        (unless_iff (starts_with p (corpus_text corpus <> "/")) Issue.outside_corpus)
        (when_iff (contains p "../") Issue.parent_traversal))

-- A general note is not current, in no way.
abbrev pub KeepsGeneralPolicy : NoteFrontmatter → String → Type 0
KeepsGeneralPolicy frontmatter path =
    is_general frontmatter.corpus_id ≡ true
    → (frontmatter.current_state ≡ false)
      also (includes frontmatter.tags "status/current" ≡ false)
      also (starts_with (normalize_path_string path) "general_notes/current-state/" ≡ false)

pub policy_iff :
    (frontmatter : NoteFrontmatter) (path : String)
    → (NoneOf (corpus_policy_issues frontmatter path) ↔ KeepsGeneralPolicy frontmatter path)
unfolding corpus_policy_issues
policy_iff frontmatter path =
    let p = normalize_path_string path in
    elim (Bool-cases (is_general frontmatter.corpus_id)) [
      | inr other ↦ rw other (λ h general. absurd (false≢true general), λ h. refl)
      | inl general ↦ rw general (
          let (to, from) =
            append_iff (when frontmatter.current_state Issue.general_current_state)
              (when (includes frontmatter.tags "status/current") Issue.general_current_tag
                ++ when (starts_with p "general_notes/current-state/") Issue.general_snapshot_path)
              (when_iff frontmatter.current_state Issue.general_current_state)
              (append_iff
                (when (includes frontmatter.tags "status/current") Issue.general_current_tag)
                (when (starts_with p "general_notes/current-state/") Issue.general_snapshot_path)
                (when_iff (includes frontmatter.tags "status/current") Issue.general_current_tag)
                (when_iff (starts_with p "general_notes/current-state/")
                  Issue.general_snapshot_path)) in
          (λ h _. to h, λ h. from (h refl)))
    ]
