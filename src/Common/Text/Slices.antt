-- ===== src/Common/Text/Slices.antt =====
-- Lengths, slices, white space and sentences of JavaScript strings.
use Prim.Native.Char.{Char, code}
use Prim.Native.Nat.{ℕ, zero, suc, ◌+◌, min}
use Prim.Native.String.{String}
use mathlib.Core.Path.{◌≡◌, refl, ap}
use mathlib.Core.Bool.{Bool, false, ◌||◌}
use mathlib.Core.List.{List, [], ◌∷◌}
use text.Mathlib.TextLemmas.{nil-append, cons-append}
use native.Mathlib.Omega.{arith}
use multi_agent_brain.Common.Tests.{if◌then◌else◌, nat_beq}
use multi_agent_brain.Common.Text.{is_space, trim}
use multi_agent_brain.Common.Text.Split.{◌<>◌}

-- `s.length`
abbrev pub text_length : String → ℕ
text_length String.[] = 0
text_length (String.◌∷◌ c s) = suc (text_length s)

-- `s.slice(0, n)`, for an `n` that is not negative
abbrev pub slice_to : ℕ → String → String
slice_to zero s = String.[]
slice_to (suc n) String.[] = String.[]
slice_to (suc n) (String.◌∷◌ c s) = String.◌∷◌ c (slice_to n s)

abbrev starts_with_space : String → Bool
starts_with_space String.[] = false
starts_with_space (String.◌∷◌ c s) = is_space (code c)

-- `s.replace(/\s+/g, " ")`: the last of a run of spaces stands for the run.
unfoldable pub collapse_spaces : String → String
unfolding is_space
collapse_spaces String.[] = String.[]
collapse_spaces (String.◌∷◌ c s) =
    let rest = collapse_spaces s in
    if is_space (code c)
    then if starts_with_space s then rest else String.◌∷◌ " " rest
    else String.◌∷◌ c rest

-- `s.replace(/\s+/g, " ").trim()`
unfoldable pub normalize_whitespace : String → String
unfolding collapse_spaces trim
normalize_whitespace s = trim (collapse_spaces s)

-- Where a scan for the ends of sentences stands: in a sentence, behind one of `.!?`, or in the space
-- behind that.
pub data Place : Type 0 where
  in_sentence behind_stop in_gap : Place

abbrev is_stop : ℕ → Bool
is_stop c = nat_beq c 46 || nat_beq c 33 || nat_beq c 63

abbrev place_behind : Char → Place
place_behind c = if is_stop (code c) then behind_stop else in_sentence

abbrev prefix_first : Char → List String → List String
prefix_first c [] = String.◌∷◌ c String.[] ∷ []
prefix_first c (p ∷ ps) = String.◌∷◌ c p ∷ ps

split_from : Place → String → List String
unfolding is_space
split_from place String.[] = "" ∷ []
split_from in_sentence (String.◌∷◌ c s) = prefix_first c (split_from (place_behind c) s)
split_from behind_stop (String.◌∷◌ c s) =
    let gap = split_from in_gap s in
    let more = split_from (place_behind c) s in
    if is_space (code c) then "" ∷ gap else prefix_first c more
split_from in_gap (String.◌∷◌ c s) =
    let gap = split_from in_gap s in
    let more = split_from (place_behind c) s in
    if is_space (code c) then gap else prefix_first c more

-- `s.split(/(?<=[.!?])\s+/)`
unfoldable pub split_sentences : String → List String
unfolding split_from
split_sentences s = split_from in_sentence s

sentences_test : split_sentences "One.  Two! 3.1 three" ≡ "One." ∷ "Two!" ∷ "3.1 three" ∷ []
unfolding split_sentences
sentences_test = refl

collapse_test : normalize_whitespace " a \n\t b " ≡ "a b"
unfolding normalize_whitespace
collapse_test = refl

pub text_length-slice_to : (n : ℕ) (s : String) → text_length (slice_to n s) ≡ min n (text_length s)
text_length-slice_to zero s = omega arith
text_length-slice_to (suc n) String.[] = omega arith
text_length-slice_to (suc n) (String.◌∷◌ c s) = omega (arith, text_length-slice_to n s)

pub text_length-append : (s t : String) → text_length (s <> t) ≡ text_length s + text_length t
text_length-append String.[] t = omega (arith, ap text_length (nil-append t))
text_length-append (String.◌∷◌ c s) t = rw cons-append (omega (arith, text_length-append s t))
