-- ===== src/Common/Text/Search.antt =====
-- `startsWith`, `endsWith`, `includes` and the replacement of a character, on JavaScript strings.
use Prim.Native.Char.{code}
use Prim.Native.String.{String}
use mathlib.Core.Path.{◌≡◌, refl, sym, ap, ◌∙◌}
use mathlib.Core.Bool.{Bool, true, false, ◌&&◌, ◌||◌}
use text.Mathlib.TextLemmas.{nil-append, cons-append}
use multi_agent_brain.Common.Tests.{if◌then◌else◌, nat_beq, nat_beq_iff}
use multi_agent_brain.Common.Equality.{◌==◌, string_eq}
use multi_agent_brain.Common.Text.Split.{◌<>◌}

-- `text.startsWith(part)`
unfoldable pub starts_with : String → String → Bool
starts_with text String.[] = true
starts_with String.[] (String.◌∷◌ d part) = false
starts_with (String.◌∷◌ c text) (String.◌∷◌ d part) =
    let rest = starts_with text part in nat_beq (code c) (code d) && rest

-- `text.endsWith(part)`
unfoldable pub ends_with : String → String → Bool
ends_with String.[] part = String.[] == part
ends_with (String.◌∷◌ c text) part =
    let rest = ends_with text part in String.◌∷◌ c text == part || rest

-- `text.includes(part)`
unfoldable pub contains : String → String → Bool
unfolding starts_with
contains String.[] part = starts_with String.[] part
contains (String.◌∷◌ c text) part =
    let rest = contains text part in starts_with (String.◌∷◌ c text) part || rest

-- `text.replace(/\\/g, "/")`
unfoldable pub to_slashes : String → String
to_slashes String.[] = String.[]
to_slashes (String.◌∷◌ c text) =
    String.◌∷◌ (if nat_beq (code c) 92 then "/" else c) (to_slashes text)

search_test :
    (contains "a/../b" "../" ≡ true)
    × (ends_with "plan.md" ".md" ≡ true)
    × (to_slashes "a\\b" ≡ "a/b")
unfolding contains ends_with to_slashes
search_test = (refl, refl, refl)

-- A text starts with what it was put behind.
pub starts_with-append : (part rest : String) → starts_with (part <> rest) part ≡ true
unfolding starts_with
starts_with-append String.[] rest = refl
starts_with-append (String.◌∷◌ c part) rest =
    rw (cons-append c part rest, (nat_beq_iff (code c) (code c)).1 refl)
      (starts_with-append part rest)

pub to_slashes-append : (s t : String) → to_slashes (s <> t) ≡ to_slashes s <> to_slashes t
unfolding to_slashes
to_slashes-append String.[] t = ap to_slashes (nil-append t) ∙ sym (nil-append (to_slashes t))
to_slashes-append (String.◌∷◌ c s) t =
    let slash = if nat_beq (code c) 92 then "/" else c in
    ap to_slashes (cons-append c s t)
    ∙ ap (String.◌∷◌ slash) (to_slashes-append s t)
    ∙ sym (cons-append slash (to_slashes s) (to_slashes t))
