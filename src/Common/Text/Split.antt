-- ===== src/Common/Text/Split.antt =====
-- `s.split(sep)` and `parts.join(sep)` for a separator of one character.
use Prim.Native.Char.{Char, code}
use Prim.Native.String
use Prim.Native.String.{String}
use mathlib.Core.Path.{◌≡◌, refl, sym, ap, ◌∙◌}
use mathlib.Core.Logic.{◌≢◌, inl, inr}
use mathlib.Core.Bool.{Bool, true, false}
use mathlib.Core.List.{List, [], ◌∷◌}
use text.Mathlib.TextEquality.{Char-path}
use text.Mathlib.TextLemmas.{nil-append, cons-append}
use multi_agent_brain.Common.Tests.{if◌then◌else◌, nat_beq, nat_beq_iff, Bool-cases}

-- `a + b`
infixr 65 ◌<>◌
abbrev pub ◌<>◌ : String → String → String
a <> b = String.◌++◌ a b

-- `parts.join(separator)` for any separator
abbrev pub join_with : String → List String → String
join_with separator [] = ""
join_with separator (p ∷ []) = p
join_with separator (p ∷ q ∷ ps) = p <> separator <> join_with separator (q ∷ ps)

abbrev prefix_first : Char → List String → List String
prefix_first c [] = String.◌∷◌ c String.[] ∷ []
prefix_first c (p ∷ ps) = String.◌∷◌ c p ∷ ps

unfoldable pub split : Char → String → List String
split sep String.[] = "" ∷ []
split sep (String.◌∷◌ c s) =
    let rest = split sep s in if nat_beq (code c) (code sep) then "" ∷ rest else prefix_first c rest

pub join : Char → List String → String
join sep [] = ""
join sep (p ∷ []) = p
join sep (p ∷ q ∷ ps) = p <> String.◌∷◌ sep (join sep (q ∷ ps))

-- The character does not occur in the text.
abbrev pub Lacks : Char → String → Type 0
Lacks sep String.[] = Unit
Lacks sep (String.◌∷◌ c s) = (nat_beq (code c) (code sep) ≡ false) × Lacks sep s

pub split_of_Lacks : (sep : Char) (s : String) → Lacks sep s → split sep s ≡ s ∷ []
unfolding split
split_of_Lacks sep String.[] h = refl
split_of_Lacks sep (String.◌∷◌ c s) (h, hs) = rw (h, split_of_Lacks sep s hs)

pub split-append :
    (sep : Char) (s t : String) → Lacks sep s → split sep (s <> String.◌∷◌ sep t) ≡ s ∷ split sep t
unfolding split
split-append sep String.[] t h = rw (nil-append, (nat_beq_iff (code sep) (code sep)).1 refl)
split-append sep (String.◌∷◌ c s) t (h, hs) = rw cons-append (rw (h, split-append sep s t hs))

join-prefix_first :
    (sep c : Char) (ps : List String)
    → ps ≢ []
    → join sep (prefix_first c ps) ≡ String.◌∷◌ c (join sep ps)
unfolding join
join-prefix_first sep c [] h = absurd (h refl)
join-prefix_first sep c (p ∷ []) h = refl
join-prefix_first sep c (p ∷ q ∷ ps) h = cons-append c p _

split-ne-nil : (sep : Char) (s : String) → split sep s ≢ []
unfolding split
split-ne-nil sep String.[] = cc
split-ne-nil sep (String.◌∷◌ c s) = starts (nat_beq (code c) (code sep)) (split sep s)
  where
    starts : (b : Bool) (ps : List String) → (if b then "" ∷ ps else prefix_first c ps) ≢ []
    starts true ps = cc
    starts false [] = cc
    starts false (p ∷ ps) = cc

join-cons :
    (sep : Char) (p : String) (ps : List String)
    → ps ≢ []
    → join sep (p ∷ ps) ≡ p <> String.◌∷◌ sep (join sep ps)
unfolding join
join-cons sep p [] h = absurd (h refl)
join-cons sep p (q ∷ ps) h = refl

-- Joining the parts gives the text back.
pub join-split : (sep : Char) (s : String) → join sep (split sep s) ≡ s
unfolding split
join-split sep String.[] = unfold join in refl
join-split sep (String.◌∷◌ c s) = elim (Bool-cases (nat_beq (code c) (code sep))) [
  | inl same ↦
      let meets : c ≡ sep = Char-path c sep ((nat_beq_iff _ _).0 same) in
      rw same (
        join-cons sep "" (split sep s) (split-ne-nil sep s)
        ∙ nil-append _
        ∙ ap (String.◌∷◌ sep) (join-split sep s)
        ∙ ap (λ d. String.◌∷◌ d s) (sym meets))
  | inr other ↦ rw other (
      join-prefix_first sep c (split sep s) (split-ne-nil sep s)
      ∙ ap (String.◌∷◌ c) (join-split sep s))
]

separator-append : (sep : Char) (s : String) → String.◌∷◌ sep String.[] <> s ≡ String.◌∷◌ sep s
separator-append sep s = cons-append sep String.[] s ∙ ap (String.◌∷◌ sep) (nil-append s)

-- Three parts with the separator between them.
module _ (sep : Char) (a b c : String) where
  abbrev pub three_parts : String
  three_parts = a <> String.◌∷◌ sep String.[] <> b <> String.◌∷◌ sep String.[] <> c

  three_parts-cons : three_parts ≡ a <> String.◌∷◌ sep (b <> String.◌∷◌ sep c)
  three_parts-cons =
      ap (λ s. a <> s)
        (separator-append sep (b <> String.◌∷◌ sep String.[] <> c)
          ∙ ap (λ s. String.◌∷◌ sep (b <> s)) (separator-append sep c))

  pub join-three : join sep (a ∷ b ∷ c ∷ []) ≡ three_parts
  unfolding join
  join-three = sym three_parts-cons

  pub split-three : Lacks sep a → Lacks sep b → Lacks sep c → split sep three_parts ≡ a ∷ b ∷ c ∷ []
  split-three la lb lc =
      ap (split sep) three_parts-cons
      ∙ split-append sep a _ la
      ∙ ap (λ s. a ∷ s) (split-append sep b c lb ∙ ap (λ s. b ∷ s) (split_of_Lacks sep c lc))
