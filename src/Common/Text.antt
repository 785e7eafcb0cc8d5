-- ===== src/Common/Text.antt =====
-- What the program uses of JavaScript strings: `trim`, `split` at one character, truthiness.
-- A string is a list of code points.
pub mod Split
pub mod Slices
pub mod Search
pub mod Parts
use Prim.Native.Char.{Char, code}
use Prim.Native.Nat.{ℕ}
use Prim.Native.String.{String, [], ◌∷◌}
use mathlib.Core.Path.{◌≡◌, refl, sym}
use mathlib.Core.Bool.{Bool, true, false, not, ◌&&◌, ◌||◌}
use mathlib.Core.Logic.{◌⊎◌, inl, inr}
use mathlib.Core.Option.{Option, none, some}
use native.Mathlib.Omega.{arith}
use multi_agent_brain.Common.Tests.{if◌then◌else◌, nat_beq, leb, Bool-cases}

-- The white space and line terminators of ECMAScript.
unfoldable pub is_space : ℕ → Bool
is_space c =
    (leb 9 c && leb c 13)
    || nat_beq c 32
    || nat_beq c 160
    || nat_beq c 0x1680
    || (leb 0x2000 c && leb c 0x200a)
    || nat_beq c 0x2028
    || nat_beq c 0x2029
    || nat_beq c 0x202f
    || nat_beq c 0x205f
    || nat_beq c 0x3000
    || nat_beq c 0xfeff

-- `Boolean(s)` of a string.
abbrev pub is_blank : String → Bool
is_blank [] = true
is_blank (c ∷ s) = false

pub trim_start : String → String
trim_start [] = []
trim_start (c ∷ s) = if is_space (code c) then trim_start s else c ∷ s

unfoldable pub trim_end : String → String
trim_end [] = []
trim_end (c ∷ s) =
    let rest = trim_end s in if is_space (code c) && is_blank rest then [] else c ∷ rest

-- `s.trim()`
unfoldable pub trim : String → String
unfolding trim_start trim_end is_space
trim s = trim_end (trim_start s)

-- `s || undefined`
abbrev pub non_blank : String → Option String
non_blank [] = none
non_blank (c ∷ s) = some (c ∷ s)

-- `s?.trim() || undefined`
abbrev pub trimmed : Option String → Option String
trimmed none = none
trimmed (some s) = non_blank (trim s)

-- The text starts with no white space.
abbrev StartsPlain : String → Type 0
StartsPlain [] = Unit
StartsPlain (c ∷ s) = is_space (code c) ≡ false

trim_start-StartsPlain : (s : String) → StartsPlain (trim_start s)
unfolding trim_start
trim_start-StartsPlain [] = tt
trim_start-StartsPlain (c ∷ s) = elim (Bool-cases (is_space (code c))) [
  | inl space ↦ rw space (trim_start-StartsPlain s)
  | inr plain ↦ rw plain plain
]

trim_start_of_StartsPlain : (s : String) → StartsPlain s → trim_start s ≡ s
unfolding trim_start
trim_start_of_StartsPlain [] h = refl
trim_start_of_StartsPlain (c ∷ s) h = rw h

trim_end-StartsPlain : (s : String) → StartsPlain s → StartsPlain (trim_end s)
unfolding trim_end
trim_end-StartsPlain [] h = tt
trim_end-StartsPlain (c ∷ s) h = rw h h

trim_end-blank : (s : String) → is_blank (trim_end s) ≡ true → trim_end s ≡ []
trim_end-blank s h = blank (trim_end s) h
  where
    blank : (t : String) → is_blank t ≡ true → t ≡ []
    blank [] e = refl
    blank (c ∷ t) e = cc

trim_end_idem : (s : String) → trim_end (trim_end s) ≡ trim_end s
unfolding trim_end
trim_end_idem [] = refl
trim_end_idem (c ∷ s) = elim (Bool-cases (is_space (code c) && is_blank (trim_end s))) [
  | inl dropped ↦ rw dropped
  | inr kept ↦ rw kept (rw (trim_end_idem s) (rw kept))
]

-- Trimming a second time changes nothing.
pub trim_idem : (s : String) → trim (trim s) ≡ trim s
unfolding trim
trim_idem s =
    let plain = trim_end-StartsPlain (trim_start s) (trim_start-StartsPlain s) in
    rw (trim_start_of_StartsPlain (trim_end (trim_start s)) plain) (trim_end_idem (trim_start s))

trim_example : trim "\t two words \n" ≡ "two words"
unfolding trim
trim_example = refl
