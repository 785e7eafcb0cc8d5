-- ===== src/Validation/Texts.antt =====
-- Strings, dates, tags and paths as packages/application/src/services/note-validation-service.ts
-- normalises them.
use Prim.Native.Char.{code}
use multi_agent_brain.Common.{
  String, ◌≡◌, ◌≤◌, ◌↔◌, refl, false≢true, and-eq-true, arith, Bool, true, false, ◌&&◌, ◌||◌,
  Option, none, some, List, [], ◌∷◌, string_eq, nat_beq, leb, if◌then◌else◌,
}
use multi_agent_brain.Common.Text.{trim, is_blank}
use multi_agent_brain.Common.Text.Split.{◌<>◌, split}
use multi_agent_brain.Common.Text.Search.{to_slashes}
use multi_agent_brain.Notes.Slug.{dashed}

-- `/^\d{4}-\d{2}-\d{2}$/`: a shape says where the digits are.
fits_shape : List Bool → String → Bool
fits_shape [] String.[] = true
fits_shape [] (String.◌∷◌ c s) = false
fits_shape (digit ∷ shape) String.[] = false
fits_shape (digit ∷ shape) (String.◌∷◌ c s) =
    let rest = fits_shape shape s in
    (if digit then leb 48 (code c) && leb (code c) 57 else nat_beq (code c) 45) && rest

unfoldable pub is_date : String → Bool
unfolding fits_shape
is_date value =
    fits_shape (true ∷ true ∷ true ∷ true ∷ false ∷ true ∷ true ∷ false ∷ true ∷ true ∷ []) value

drop_slashes : String → String
drop_slashes String.[] = String.[]
drop_slashes (String.◌∷◌ c s) =
    let rest = drop_slashes s in if nat_beq (code c) 47 then rest else String.◌∷◌ c s

-- `value.replace(/\\/g, "/").replace(/^\/+/, "").trim()`
unfoldable pub normalize_path_string : String → String
unfolding to_slashes drop_slashes trim
normalize_path_string value = trim (drop_slashes (to_slashes value))

starts_with_newline : String → Bool
starts_with_newline String.[] = false
starts_with_newline (String.◌∷◌ c s) = nat_beq (code c) 10

drop_returns : String → String
unfolding starts_with_newline
drop_returns String.[] = String.[]
drop_returns (String.◌∷◌ c s) =
    let rest = drop_returns s in
    if nat_beq (code c) 13 && starts_with_newline s then rest else String.◌∷◌ c rest

-- `value.replace(/\r\n/g, "\n").trim()`
unfoldable pub normalize_line_endings : String → String
unfolding drop_returns trim
normalize_line_endings value = trim (drop_returns value)

-- The tag behind its namespace: all that is no letter, digit or dash becomes a dash, and a run of
-- dashes is one.
abbrev tag_of : String → String → Option String
tag_of namespace String.[] = none
tag_of namespace (String.◌∷◌ c s) = some (namespace <> "/" <> String.◌∷◌ c s)

unfoldable pub tag_from : List String → Option String
unfolding dashed trim
tag_from [] = none
tag_from (namespace ∷ []) = none
tag_from (namespace ∷ raw_tag ∷ parts) =
    if is_blank namespace || is_blank raw_tag
    then none
    else tag_of namespace (dashed (trim raw_tag))

unfoldable pub normalize_tag : (String → String) → String → Option String
unfolding tag_from split to_slashes trim
normalize_tag to_lower_case value = tag_from (split "/" (to_slashes (to_lower_case (trim value))))

date_test : (is_date "2026-01-31" ≡ true) × (is_date "2026-1-31" ≡ false)
unfolding is_date
date_test = (refl, refl)

tag_test : normalize_tag (λ s. s) " topic\\Note schema " ≡ some "topic/ote-schema"
unfolding normalize_tag
tag_test = refl

path_test : normalize_path_string "/context_brain\\plan.md" ≡ "context_brain/plan.md"
unfolding normalize_path_string
path_test = refl

-- A digit where the shape says so, a dash elsewhere.
abbrev pub HasShape : List Bool → String → Type 0
HasShape [] String.[] = Unit
HasShape [] (String.◌∷◌ c s) = ⊥
HasShape (digit ∷ shape) String.[] = ⊥
HasShape (true ∷ shape) (String.◌∷◌ c s) = (48 ≤ code c) × (code c ≤ 57) × HasShape shape s
HasShape (false ∷ shape) (String.◌∷◌ c s) = (code c ≡ 45) × HasShape shape s

fits_shape_iff : (shape : List Bool) (s : String) → (fits_shape shape s ≡ true) ↔ HasShape shape s
unfolding fits_shape
fits_shape_iff [] String.[] = (λ h. tt, λ h. refl)
fits_shape_iff [] (String.◌∷◌ c s) = (λ h. false≢true h, λ h. absurd h)
fits_shape_iff (digit ∷ shape) String.[] = (λ h. false≢true h, λ h. absurd h)
fits_shape_iff (true ∷ shape) (String.◌∷◌ c s) =
    let (to, from) = fits_shape_iff shape s in
    (
      λ h.
          let (digit, later) =
            and-eq-true (leb 48 (code c) && leb (code c) 57) (fits_shape shape s) h in
          (ground (arith, digit), ground (arith, digit), to later),
      λ (low, high, later). ground (arith, low, high, from later),
    )
fits_shape_iff (false ∷ shape) (String.◌∷◌ c s) =
    let (to, from) = fits_shape_iff shape s in
    (
      λ h.
          let (dash, later) = and-eq-true (nat_beq (code c) 45) (fits_shape shape s) h in
          (ground (arith, dash), to later),
      λ (dash, later). ground (arith, dash, from later),
    )

-- Four digits, a dash, two digits, a dash, two digits.
abbrev pub IsDateText : String → Type 0
IsDateText value =
    HasShape (true ∷ true ∷ true ∷ true ∷ false ∷ true ∷ true ∷ false ∷ true ∷ true ∷ []) value

pub is_date_iff : (value : String) → (is_date value ≡ true) ↔ IsDateText value
unfolding is_date
is_date_iff value =
    fits_shape_iff (true ∷ true ∷ true ∷ true ∷ false ∷ true ∷ true ∷ false ∷ true ∷ true ∷ [])
      value
