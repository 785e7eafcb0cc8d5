-- ===== src/Validation/Valid/Rules.antt =====
-- When a note keeps the rules that need neither its tags nor its headings, in words of its own, and that the checks of the code say the same.
use mathlib.Core.Option.{some-injective, none-ne-some}
use multi_agent_brain.Common.{
  String, arith, ◌≡◌, ◌≢◌, ◌⊎◌, ◌↔◌, refl, sym, inl, inr, Bool, true, false, false≢true, not, ◌&&◌,
  ◌∙◌, Option, none, some, List, [], ◌∷◌, All, Elem, here, there, includes, includes-Elem,
  Elem-includes, Bool-cases, is_some, string_eq, subst,
}
use multi_agent_brain.Common.Text.{trimmed}
use multi_agent_brain.Common.Text.Split.{◌<>◌}
use multi_agent_brain.Common.Text.Search.{starts_with}
use multi_agent_brain.Common.Text.Parts.{starts_with_iff, ends_with_iff, lacks_iff}
use multi_agent_brain.Common.Sort.{text_le}
use multi_agent_brain.Notes.{
  NoteLifecycleState, draft, staged, validated, promoted, superseded, rejected, archived, CorpusId,
  context_brain, general_notes, NoteFrontmatter, corpus_text, is_general, is_superseded,
}
use multi_agent_brain.Validation.Texts.{IsDateText, is_date_iff, normalize_path_string}
use multi_agent_brain.Validation.Service.{
  ValidationMode, draft_mode, promotion_mode, same_corpus, ends_before,
}
use multi_agent_brain.Validation.Service.Laws.{◌also◌, OptionalDate, IsInCorpus, AllowsState}

-- A date that is given is one.
abbrev pub IsDateField : Option String → Type 0
IsDateField value = (date : String) → trimmed value ≡ some date → IsDateText date

-- Where both dates are given, the end is not before the start.
abbrev pub IsOrderedSpan : Option String → Option String → Type 0
IsOrderedSpan start end =
    (from until : String)
    → trimmed start ≡ some from
    → trimmed end ≡ some until
    → text_le from until ≡ true

-- A Markdown file below the directory of the corpus, with no parent directory in its path.
abbrev pub IsMarkdownBelow : CorpusId → String → Type 0
IsMarkdownBelow corpus path =
    ((name : String) × (path ≡ name <> ".md"))
    also ((name : String) × (path ≡ (corpus_text corpus <> "/") <> name))
    also ((before after : String) → path ≢ before <> "../" <> after)

-- A draft is validated as a draft or as staged, a promotion as neither a draft nor rejected.
abbrev pub FitsMode : ValidationMode → NoteLifecycleState → Type 0
FitsMode draft_mode state = (state ≡ draft) ⊎ (state ≡ staged)
FitsMode promotion_mode state = (state ≢ draft) × (state ≢ rejected)

-- A current note names no successor; one that is superseded, and not current, names one.
abbrev pub HasRightSuccessor : NoteFrontmatter → Type 0
HasRightSuccessor note =
    (note.current_state ≡ true → trimmed note.superseded_by ≡ none)
    × (note.status ≡ superseded
        → note.current_state ≡ false
        → (id : String) × (trimmed note.superseded_by ≡ some id))

pub also_iff : {A B C D : Type 0} → (A ↔ C) → (B ↔ D) → ((A also B) ↔ (C also D))
also_iff f g = (λ (a, b). (f.0 a, g.0 b), λ (c, d). (f.1 c, g.1 d))

pub trans_iff : {A B C : Type 0} → (A ↔ B) → (B ↔ C) → (A ↔ C)
trans_iff f g = (λ a. g.0 (f.0 a), λ c. f.1 (g.1 c))

pub same_iff : {A : Type 0} → (A ↔ A)
same_iff = (λ a. a, λ a. a)

pub includes_iff : (xs : List String) (x : String) → (includes xs x ≡ true) ↔ Elem x xs
includes_iff xs x = (includes-Elem xs, Elem-includes xs)

pub lacking_iff : (xs : List String) (x : String) → (includes xs x ≡ false) ↔ (Elem x xs → ⊥)
lacking_iff xs x = (
  λ h m. false≢true (sym h ∙ Elem-includes xs m),
  λ absent. elim (Bool-cases (includes xs x)) [
    | inr out ↦ out
    | inl held ↦ absurd (absent (includes-Elem xs held))
  ],
)

pub All-iff :
    (P : String → Bool) (Q : String → Type 0)
    → ((x : String) → (P x ≡ true) ↔ Q x)
    → (xs : List String) → (All (λ x. P x ≡ true) xs ↔ ((x : String) → Elem x xs → Q x))
All-iff P Q each [] = (λ h x m. elim m [ ], λ h. tt)
All-iff P Q each (x ∷ xs) =
    let (to, from) = All-iff P Q each xs in
    (
      λ (p, all) y m. elim m [
        | here e ↦ subst Q (sym e) ((each x).0 p)
        | there later ↦ to all y later
      ],
      λ h. ((each x).1 (h x (here refl)), from (λ y m. h y (there m))),
    )

pub date_iff : (value : Option String) → OptionalDate value ↔ IsDateField value
date_iff value = (λ h d e. (is_date_iff d).0 (h d e), λ h d e. (is_date_iff d).1 (h d e))

pub corpus_iff : (a b : CorpusId) → (same_corpus a b ≡ true) ↔ (a ≡ b)
corpus_iff context_brain context_brain = (λ h. refl, λ h. refl)
corpus_iff context_brain general_notes = (λ h. absurd (false≢true h), λ h. cc)
corpus_iff general_notes context_brain = (λ h. absurd (false≢true h), λ h. cc)
corpus_iff general_notes general_notes = (λ h. refl, λ h. refl)

pub general_iff : (c : CorpusId) → (is_general c ≡ true) ↔ (c ≡ general_notes)
general_iff context_brain = (λ h. absurd (false≢true h), λ h. cc)
general_iff general_notes = (λ h. refl, λ h. refl)

pub span_iff :
    (start end : Option String)
    → (ends_before (trimmed start) (trimmed end) ≡ false) ↔ IsOrderedSpan start end
span_iff start end = go (trimmed start) (trimmed end)
  where
    go :
        (s e : Option String)
        → (ends_before s e ≡ false)
          ↔ ((from until : String) → s ≡ some from → e ≡ some until → text_le from until ≡ true)
    go none e = (λ h f u p q. absurd (none-ne-some _ p), λ h. refl)
    go (some s) none = (λ h f u p q. absurd (none-ne-some _ q), λ h. refl)
    go (some s) (some e) = (
      λ h f u p q.
          let kept : text_le s e ≡ true = ground (arith, h) in
          subst (λ x. text_le x u ≡ true) (some-injective _ _ p)
            (subst (λ x. text_le s x ≡ true) (some-injective _ _ q) kept),
      λ h. rw (h s e refl refl) refl,
    )

pub mode_iff :
    (mode : ValidationMode) (state : NoteLifecycleState)
    → AllowsState mode state ↔ FitsMode mode state
mode_iff draft_mode draft = (λ h. inl refl, λ h. refl)
mode_iff draft_mode staged = (λ h. inr refl, λ h. refl)
mode_iff draft_mode validated =
    (λ h. absurd (false≢true h), λ h. elim h [ inl e ↦ cc | inr e ↦ cc ])
mode_iff draft_mode promoted = (λ h. absurd (false≢true h), λ h. elim h [ inl e ↦ cc | inr e ↦ cc ])
mode_iff draft_mode superseded =
    (λ h. absurd (false≢true h), λ h. elim h [ inl e ↦ cc | inr e ↦ cc ])
mode_iff draft_mode rejected = (λ h. absurd (false≢true h), λ h. elim h [ inl e ↦ cc | inr e ↦ cc ])
mode_iff draft_mode archived = (λ h. absurd (false≢true h), λ h. elim h [ inl e ↦ cc | inr e ↦ cc ])
mode_iff promotion_mode draft = (λ h. absurd (false≢true h), λ h. absurd (h.0 refl))
mode_iff promotion_mode rejected = (λ h. absurd (false≢true h), λ h. absurd (h.1 refl))
mode_iff promotion_mode staged = (λ h. (λ e. cc, λ e. cc), λ h. refl)
mode_iff promotion_mode validated = (λ h. (λ e. cc, λ e. cc), λ h. refl)
mode_iff promotion_mode promoted = (λ h. (λ e. cc, λ e. cc), λ h. refl)
mode_iff promotion_mode superseded = (λ h. (λ e. cc, λ e. cc), λ h. refl)
mode_iff promotion_mode archived = (λ h. (λ e. cc, λ e. cc), λ h. refl)

pub superseded_iff :
    (state : NoteLifecycleState) → (is_superseded state ≡ true) ↔ (state ≡ superseded)
superseded_iff draft = (λ h. absurd (false≢true h), λ h. cc)
superseded_iff staged = (λ h. absurd (false≢true h), λ h. cc)
superseded_iff validated = (λ h. absurd (false≢true h), λ h. cc)
superseded_iff promoted = (λ h. absurd (false≢true h), λ h. cc)
superseded_iff superseded = (λ h. refl, λ h. refl)
superseded_iff rejected = (λ h. absurd (false≢true h), λ h. cc)
superseded_iff archived = (λ h. absurd (false≢true h), λ h. cc)

-- The two tests on the successor, of the values that they read.
abbrev SuccessorTests : Bool → Option String → Bool → Type 0
SuccessorTests current successor gone =
    ((current && is_some successor) ≡ false)
    × ((not current && not (is_some successor) && gone) ≡ false)

pub successor_iff :
    (current : Bool) (successor : Option String) (gone : Bool)
    → SuccessorTests current successor gone ↔ (
        (current ≡ true → successor ≡ none)
        × (gone ≡ true → current ≡ false → (id : String) × (successor ≡ some id)))
successor_iff true none gone =
    (λ h. (λ e. refl, λ g e. absurd (false≢true (sym e))), λ h. (refl, refl))
successor_iff true (some id) gone =
    (λ h. absurd (false≢true (sym h.0)), λ h. absurd (none-ne-some _ (sym (h.0 refl))))
successor_iff false none true =
    (λ h. absurd (false≢true (sym h.1)), λ h. absurd (none-ne-some _ (h.1 refl refl).1))
successor_iff false none false = (λ h. (λ e. refl, λ g e. absurd (false≢true g)), λ h. (refl, refl))
successor_iff false (some id) gone =
    (λ h. (λ e. absurd (false≢true e), λ g e. (id, refl)), λ h. (refl, refl))

pub path_iff :
    (corpus : CorpusId) (path : String)
    → IsInCorpus corpus path ↔ IsMarkdownBelow corpus (normalize_path_string path)
path_iff corpus path = also_iff (ends_with_iff (normalize_path_string path) ".md") (
    also_iff (starts_with_iff (normalize_path_string path) (corpus_text corpus <> "/"))
      (lacks_iff (normalize_path_string path) "../"))

pub not_below_iff :
    (path root : String) → (starts_with path root ≡ false) ↔ ((name : String) → path ≢ root <> name)
not_below_iff path root = (
  λ h name e. false≢true (sym h ∙ (starts_with_iff path root).1 (name, e)),
  λ outside. elim (Bool-cases (starts_with path root)) [
    | inr not_there ↦ not_there
    | inl below ↦ let (name, e) = (starts_with_iff path root).0 below in absurd (outside name e)
  ],
)
