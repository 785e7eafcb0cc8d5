-- ===== src/Validation/Headings.antt =====
-- `extractHeadings` of packages/application/src/services/note-validation-service.ts: the matches of
-- `/^\s{0,3}#{1,6}\s+(.+?)\s*$/gm`, each without its closing `#`s, trimmed and in lower case.
use Prim.Native.Char.{Char, code}
use multi_agent_brain.Common.{
  ℕ, suc, String, ◌≡◌, refl, Bool, true, ◌&&◌, ◌||◌, List, [], ◌∷◌, map, nat_beq, ltb,
  if◌then◌else◌,
}
use multi_agent_brain.Common.Text.{trim, is_space}

-- Where the scan stands: behind so many spaces at the start of a line, behind so many `#`s, in the
-- space behind them, which may go on to further lines, in the text of a heading, or in a line that is
-- none.
pub data Scan : Type 0 where
  indent hashes : ℕ → Scan
  gap heading other : Scan

abbrev is_line_end : ℕ → Bool
is_line_end c = nat_beq c 10 || nat_beq c 13 || nat_beq c 0x2028 || nat_beq c 0x2029

abbrev is_hash : ℕ → Bool
is_hash c = nat_beq c 35

abbrev next_scan : Scan → ℕ → Scan
next_scan (indent k) c =
    if is_line_end c
    then indent 0
    else if is_hash c
    then hashes 1
    else if is_space c && ltb k 3
    then indent (suc k)
    else other
next_scan (hashes n) c =
    if is_space c then gap else if is_hash c && ltb n 6 then hashes (suc n) else other
next_scan gap c = if is_space c then gap else heading
next_scan heading c = if is_line_end c then indent 0 else heading
next_scan other c = if is_line_end c then indent 0 else other

abbrev prefix_first : Char → List String → List String
prefix_first c [] = String.◌∷◌ c String.[] ∷ []
prefix_first c (p ∷ ps) = String.◌∷◌ c p ∷ ps

-- The text that is being read comes first. A heading that is all space is left out: it would be the
-- empty text.
abbrev emit : Scan → Scan → Char → List String → List String
emit heading heading c rest = prefix_first c rest
emit gap heading c rest = prefix_first c rest
emit heading after c rest = "" ∷ rest
emit _ after c rest = rest

scan : Scan → String → List String
unfolding is_space
scan place String.[] = elim place [ heading ↦ "" ∷ [] | _ ↦ [] ]
scan place (String.◌∷◌ c s) =
    let after = next_scan place (code c) in emit place after c (scan after s)

-- The rest is `#`s.
all_hashes : String → Bool
all_hashes String.[] = true
all_hashes (String.◌∷◌ c s) = let rest = all_hashes s in is_hash (code c) && rest

-- The rest is space and then `#`s.
closing : String → Bool
unfolding is_space all_hashes
closing String.[] = true
closing (String.◌∷◌ c s) =
    let rest = closing s in if is_space (code c) then rest else is_hash (code c) && all_hashes s

-- `replace(/\s+#*$/, "")`
drop_closing : String → String
unfolding is_space closing
drop_closing String.[] = String.[]
drop_closing (String.◌∷◌ c s) =
    let rest = drop_closing s in
    if is_space (code c) && closing s then String.[] else String.◌∷◌ c rest

unfoldable pub normalize_heading : (String → String) → String → String
unfolding trim
normalize_heading to_lower_case title = to_lower_case (trim title)

unfoldable pub extract_headings : (String → String) → String → List String
unfolding scan drop_closing normalize_heading
extract_headings to_lower_case markdown =
    map (λ text. normalize_heading to_lower_case (drop_closing (trim text)))
      (scan (indent 0) markdown)

headings_test :
    extract_headings
      (λ s. s)
      "intro\n## context ##\ntext # no\n    # deep\n#\n\n next \n####### seven\n # last"
    ≡ "context" ∷ "next" ∷ "last" ∷ []
unfolding extract_headings
headings_test = refl
