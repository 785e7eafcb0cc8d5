-- ===== src/AgentContext/Block/Laws.antt =====
-- What is retrieved cannot open or close a tag of the context block.
use Prim.Native.Char.{Char, code}
use multi_agent_brain.Common.{
  ℕ, String, ◌≡◌, refl, ◌⊎◌, inl, inr, Bool, true, not, ◌&&◌, Option, none, some, List, [], ◌∷◌,
  map, arith, nat_beq, or_else, Bool-cases, All, Elem, here, there,
}
use text.Mathlib.TextLemmas.{nil-append, cons-append}
use multi_agent_brain.Common.Sets.{All-append}
use multi_agent_brain.Common.Text.Split.{◌<>◌, Lacks, join_with}
use multi_agent_brain.Common.Text.Slices.{normalize_whitespace}
use multi_agent_brain.Packet.{ContextPacket, ProvenanceRef}
use multi_agent_brain.AgentContext.Block.{
  SessionHit, SessionRecall, replace_all, escape_context_text, answerability_text, confidence_text,
  heading_text, evidence_line, item_line, titled, or_none, tags, hit_line, recall_lines,
  canonical_lines, context_lines,
}

-- A test for literals.
abbrev lacks : Char → String → Bool
lacks sep String.[] = true
lacks sep (String.◌∷◌ c s) = let rest = lacks sep s in not (nat_beq (code c) (code sep)) && rest

lacks-Lacks : (sep : Char) (s : String) → lacks sep s ≡ true → Lacks sep s
lacks-Lacks sep String.[] h = tt
lacks-Lacks sep (String.◌∷◌ c s) h = (ground (arith, h), lacks-Lacks sep s (ground (arith, h)))

append-Lacks : (sep : Char) (s t : String) → Lacks sep s → Lacks sep t → Lacks sep (s <> t)
append-Lacks sep String.[] t h k = rw (nil-append t) k
append-Lacks sep (String.◌∷◌ c s) t (first, h) k =
    rw (cons-append c s t) (first, append-Lacks sep s t h k)

replaced-Lacks :
    (target : Char) (by s : String) → Lacks target by → Lacks target (replace_all target by s)
unfolding replace_all
replaced-Lacks target by String.[] h = tt
replaced-Lacks target by (String.◌∷◌ c s) h = elim (Bool-cases (nat_beq (code c) (code target))) [
  | inl hit ↦
      rw hit (append-Lacks target by (replace_all target by s) h (replaced-Lacks target by s h))
  | inr miss ↦ rw miss (miss, replaced-Lacks target by s h)
]

replace_all-Lacks :
    (sep target : Char) (by s : String)
    → Lacks sep by
    → Lacks sep s
    → Lacks sep (replace_all target by s)
unfolding replace_all
replace_all-Lacks sep target by String.[] h k = tt
replace_all-Lacks sep target by (String.◌∷◌ c s) h (first, k) =
    elim (Bool-cases (nat_beq (code c) (code target))) [
      | inl hit ↦
          rw hit (
            append-Lacks sep by (replace_all target by s) h (replace_all-Lacks sep target by s h k))
      | inr miss ↦ rw miss (first, replace_all-Lacks sep target by s h k)
    ]

-- The text has no `<`, so no tag starts in it.
pub record IsPlain (text : String) : Type 0 where
  pub lacks_tag : Lacks "<" text

literal : {s : String} → lacks "<" s ≡ true → IsPlain s
literal {s = s} h = record { lacks_tag = lacks-Lacks "<" s h }

infixr 65 ◌beside◌
◌beside◌ : {s t : String} → IsPlain s → IsPlain t → IsPlain (s <> t)
◌beside◌ {s = s} {t = t} h k = record { lacks_tag = append-Lacks "<" s t h.lacks_tag k.lacks_tag }

escaped-IsPlain : (text : String) → IsPlain (escape_context_text text)
unfolding escape_context_text
escaped-IsPlain text = record {
  lacks_tag =
      replace_all-Lacks "<" ">" "&gt;" (replace_all "<" "&lt;" (replace_all "&" "&amp;" text))
        (lacks-Lacks "<" "&gt;" refl)
        (replaced-Lacks "<" "&lt;" (replace_all "&" "&amp;" text) (lacks-Lacks "<" "&lt;" refl));
}

-- A line of the block: one of its own tags, or plain.
abbrev pub IsFenced : String → Type 0
IsFenced line = Elem line tags ⊎ IsPlain line

abbrev Fenced : List String → Type 0
Fenced lines = All IsFenced lines

map-Fenced :
    {A : Type 0} (f : A → String) (xs : List A) → ((a : A) → IsPlain (f a)) → Fenced (map f xs)
map-Fenced f [] h = tt
map-Fenced f (x ∷ xs) h = (inr (h x), map-Fenced f xs h)

titled-Fenced :
    (title : String) (lines : List String)
    → IsPlain title
    → Fenced lines
    → Fenced (titled title lines)
titled-Fenced title [] h k = tt
titled-Fenced title (l ∷ lines) h k = (inr h, k)

or_none-Fenced : (lines : List String) → Fenced lines → Fenced (or_none lines)
or_none-Fenced [] k = (inr (literal refl), tt)
or_none-Fenced (l ∷ lines) k = k

heading-IsPlain : (headings : List String) → IsPlain (heading_text headings)
heading-IsPlain [] = literal refl
heading-IsPlain (h ∷ headings) =
    literal refl beside escaped-IsPlain (join_with " > " (h ∷ headings))

evidence-IsPlain : (evidence : ProvenanceRef) → IsPlain (evidence_line evidence)
evidence-IsPlain evidence =
    literal refl
    beside escaped-IsPlain evidence.note_path
    beside heading-IsPlain evidence.heading_path
    beside literal refl
    beside escaped-IsPlain evidence.note_id
    beside literal refl

item-IsPlain : (text : String) → IsPlain (item_line text)
item-IsPlain text = literal refl beside escaped-IsPlain text

canonical_lines-Fenced :
    (number_text : ℕ → String) (packet : ContextPacket)
    → Fenced (canonical_lines number_text packet)
unfolding canonical_lines
canonical_lines-Fenced number_text packet = (
  inr (literal refl beside escaped-IsPlain packet.summary),
  (
    inr (literal refl beside escaped-IsPlain (answerability_text packet.answerability)),
    (
      inr (literal refl beside escaped-IsPlain (confidence_text packet.confidence)),
      (
        inr (literal refl),
        All-append IsFenced (or_none (map evidence_line packet.evidence)) _
            (or_none-Fenced (map evidence_line packet.evidence)
              (map-Fenced evidence_line packet.evidence evidence-IsPlain))
            (All-append IsFenced (titled "Constraints:" (map item_line packet.constraints)) _
              (titled-Fenced "Constraints:" (map item_line packet.constraints) (literal refl)
                (map-Fenced item_line packet.constraints item-IsPlain))
              (All-append IsFenced
                (titled "Raw excerpts:" (
                  map (λ excerpt. item_line (normalize_whitespace excerpt))
                    (or_else packet.raw_excerpts [])))
                (titled "Uncertainties:" (map item_line packet.uncertainties))
                (titled-Fenced "Raw excerpts:"
                  (map (λ excerpt. item_line (normalize_whitespace excerpt))
                    (or_else packet.raw_excerpts []))
                  (literal refl)
                  (map-Fenced (λ excerpt. item_line (normalize_whitespace excerpt))
                    (or_else packet.raw_excerpts [])
                    (λ excerpt. item-IsPlain (normalize_whitespace excerpt))))
                (titled-Fenced "Uncertainties:" (map item_line packet.uncertainties) (literal refl)
                  (map-Fenced item_line packet.uncertainties item-IsPlain)))),
      ),
    ),
  ),
)

module _ (number_text : ℕ → String) (numbers : (n : ℕ) → IsPlain (number_text n)) where
  hit-IsPlain : (hit : SessionHit) → IsPlain (hit_line number_text hit)
  hit-IsPlain hit =
      literal refl
      beside escaped-IsPlain hit.session_id
      beside literal refl
      beside escaped-IsPlain hit.archive_id
      beside literal refl
      beside numbers hit.message_index
      beside literal refl
      beside escaped-IsPlain hit.role
      beside literal refl
      beside escaped-IsPlain (normalize_whitespace hit.content)

  recall-Fenced : (recall : Option SessionRecall) → Fenced (recall_lines number_text recall)
  recall-Fenced none = tt
  recall-Fenced (some recall) = (
    inl (there (there (there (here refl)))),
    All-append IsFenced (or_none (map (hit_line number_text) recall.hits))
        ("</session-recall>" ∷ [])
        (or_none-Fenced (map (hit_line number_text) recall.hits)
          (map-Fenced (hit_line number_text) recall.hits hit-IsPlain))
        (inl (there (there (there (there (here refl))))), tt),
  )

  -- Whatever is retrieved and recalled, each line of the context block is one of the block's own six
  -- tags, or has no `<` at all: retrieved text cannot close the context or open another. A number is
  -- printed without a `<`.
  pub context_lines-Fenced :
      (packet : ContextPacket) (recall : Option SessionRecall)
      → All IsFenced (context_lines number_text packet recall)
  unfolding context_lines
  context_lines-Fenced packet recall = (
    inl (here refl),
    (
      inr (literal refl),
      (
        inl (there (here refl)),
        All-append IsFenced (canonical_lines number_text packet) _
            (canonical_lines-Fenced number_text packet)
            (
              inl (there (there (here refl))),
              All-append IsFenced (recall_lines number_text recall) ("</agent-context>" ∷ [])
                  (recall-Fenced recall)
                  (inl (there (there (there (there (there (here refl)))))), tt),
            ),
      ),
    ),
  )
