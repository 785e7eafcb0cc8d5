-- ===== src/Notes/Slug.antt =====
-- `slugify` of packages/application/src/services/canonical-note-service.ts and
-- promotion-orchestrator-service.ts. `to_lower_case` is JavaScript's.
use Prim.Native.Char.{code}
use multi_agent_brain.Common.{
  ℕ, String, ◌≡◌, refl, Bool, false, ◌&&◌, ◌||◌, leb, nat_beq, if◌then◌else◌,
}
use multi_agent_brain.Common.Text.{trim}

-- `[a-z0-9]`
abbrev pub is_slug_char : ℕ → Bool
is_slug_char c = (leb 97 c && leb c 122) || (leb 48 c && leb c 57)

abbrev starts_with_dash : String → Bool
starts_with_dash String.[] = false
starts_with_dash (String.◌∷◌ c s) = nat_beq (code c) 45

-- `replace(/[^a-z0-9]+/g, "-")`: a run of other characters is one dash, put before what follows it.
pub dash_runs : String → String
dash_runs String.[] = String.[]
dash_runs (String.◌∷◌ c s) =
    let rest = dash_runs s in
    if is_slug_char (code c)
    then String.◌∷◌ c rest
    else if starts_with_dash rest
    then rest
    else String.◌∷◌ "-" rest

drop_leading_dash : String → String
drop_leading_dash String.[] = String.[]
drop_leading_dash (String.◌∷◌ c s) = if nat_beq (code c) 45 then s else String.◌∷◌ c s

drop_trailing_dash : String → String
drop_trailing_dash String.[] = String.[]
drop_trailing_dash (String.◌∷◌ c String.[]) =
    if nat_beq (code c) 45 then String.[] else String.◌∷◌ c String.[]
drop_trailing_dash (String.◌∷◌ c (String.◌∷◌ d s)) =
    String.◌∷◌ c (drop_trailing_dash (String.◌∷◌ d s))

-- Dashes for the runs of other characters, with `replace(/^-|-$/g, "")`: none at the start and none at
-- the end.
unfoldable pub dashed : String → String
unfolding dash_runs drop_leading_dash drop_trailing_dash
dashed value = drop_trailing_dash (drop_leading_dash (dash_runs value))

unfoldable pub slugify : (String → String) → String → String
unfolding dashed trim
slugify to_lower_case value = dashed (to_lower_case (trim value))

slug_test : slugify (λ s. s) " the plan: v2! " ≡ "the-plan-v2"
unfolding slugify
slug_test = refl
