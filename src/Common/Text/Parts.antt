-- ===== src/Common/Text/Parts.antt =====
-- What the searches of Search say of a text: how it is put together.
use mathlib.Core.Path.{◌≡◌, refl, sym, ap, ◌∙◌}
use mathlib.Core.Bool.{true, false, false≢true}
use mathlib.Core.Logic.{◌≢◌, ◌↔◌, inl, inr}
use native.Mathlib.Omega.{arith}
use Prim.Native.Char.{code}
use Prim.Native.String.{String}
use text.Mathlib.TextEquality.{Char-path}
use text.Mathlib.TextLemmas.{nil-append, cons-append}
use multi_agent_brain.Common.Tests.{Bool-cases, nat_beq_iff, and-eq-true}
use multi_agent_brain.Common.Equality.{◌==◌, ==_eq, ==_refl, string_eq}
use multi_agent_brain.Common.Text.Split.{◌<>◌}
use multi_agent_brain.Common.Text.Search.{starts_with, ends_with, contains, starts_with-append}

starts_with-split :
    (text part : String) → starts_with text part ≡ true → (rest : String) × (text ≡ part <> rest)
unfolding starts_with
starts_with-split text String.[] h = (text, sym (nil-append text))
starts_with-split String.[] (String.◌∷◌ d part) h = absurd (false≢true h)
starts_with-split (String.◌∷◌ c text) (String.◌∷◌ d part) h =
    let (same, later) = and-eq-true _ _ h in
    let (rest, e) = starts_with-split text part later in
    let first : c ≡ d = Char-path c d ((nat_beq_iff (code c) (code d)).0 same) in
    (rest, ap (λ x. String.◌∷◌ x text) first ∙ ap (String.◌∷◌ d) e ∙ sym (cons-append d part rest))

-- `text.startsWith(part)`
pub starts_with_iff :
    (text part : String)
    → ((starts_with text part ≡ true) ↔ ((rest : String) × (text ≡ part <> rest)))
starts_with_iff text part =
    (starts_with-split text part, λ (rest, e). rw e (starts_with-append part rest))

ends_with-split :
    (text part : String) → ends_with text part ≡ true → (rest : String) × (text ≡ rest <> part)
unfolding ends_with
ends_with-split String.[] part h = ("", ==_eq h ∙ sym (nil-append part))
ends_with-split (String.◌∷◌ c text) part h = elim (Bool-cases (String.◌∷◌ c text == part)) [
  | inl whole ↦ ("", ==_eq whole ∙ sym (nil-append part))
  | inr longer ↦
      let (rest, e) = ends_with-split text part (rw longer at h) in
      (String.◌∷◌ c rest, ap (String.◌∷◌ c) e ∙ sym (cons-append c rest part))
]

ends_with-whole : (part : String) → ends_with part part ≡ true
unfolding ends_with
ends_with-whole String.[] = refl
ends_with-whole (String.◌∷◌ c part) = rw (==_refl (String.◌∷◌ c part)) refl

ends_with-append : (rest part : String) → ends_with (rest <> part) part ≡ true
unfolding ends_with
ends_with-append String.[] part = rw (nil-append part) (ends_with-whole part)
ends_with-append (String.◌∷◌ c rest) part =
    rw (cons-append c rest part) (ground (arith, ends_with-append rest part))

-- `text.endsWith(part)`
pub ends_with_iff :
    (text part : String)
    → ((ends_with text part ≡ true) ↔ ((rest : String) × (text ≡ rest <> part)))
ends_with_iff text part =
    (ends_with-split text part, λ (rest, e). rw e (ends_with-append rest part))

contains-split :
    (text part : String)
    → contains text part ≡ true
    → (before after : String) × (text ≡ before <> part <> after)
unfolding contains
contains-split String.[] part h =
    let (rest, e) = starts_with-split "" part h in ("", rest, e ∙ sym (nil-append (part <> rest)))
contains-split (String.◌∷◌ c text) part h =
    elim (Bool-cases (starts_with (String.◌∷◌ c text) part)) [
      | inl first ↦
          let (rest, e) = starts_with-split (String.◌∷◌ c text) part first in
          ("", rest, e ∙ sym (nil-append (part <> rest)))
      | inr later ↦
          let (before, after, e) = contains-split text part (rw later at h) in
          (
            String.◌∷◌ c before,
            after,
            ap (String.◌∷◌ c) e ∙ sym (cons-append c before (part <> after)),
          )
    ]

contains-first : (text part : String) → starts_with text part ≡ true → contains text part ≡ true
unfolding contains
contains-first String.[] part h = h
contains-first (String.◌∷◌ c text) part h = rw h refl

contains-append : (before part after : String) → contains (before <> part <> after) part ≡ true
unfolding contains
contains-append String.[] part after =
    rw (nil-append (part <> after))
      (contains-first (part <> after) part (starts_with-append part after))
contains-append (String.◌∷◌ c before) part after =
    rw (cons-append c before (part <> after)) (ground (arith, contains-append before part after))

-- `!text.includes(part)`
pub lacks_iff :
    (text part : String)
    → ((contains text part ≡ false) ↔ ((before after : String) → text ≢ before <> part <> after))
lacks_iff text part = (
  λ h before after e.
      false≢true (sym h ∙ ap (λ t. contains t part) e ∙ contains-append before part after),
  λ none. elim (Bool-cases (contains text part)) [
    | inr lacks ↦ lacks
    | inl found ↦
        let (before, after, e) = contains-split text part found in absurd (none before after e)
  ],
)
