-- ===== src/Common/Sort.antt =====
-- Insertion sort, `[...strings].sort()` by UTF-16 code units, and the order of text in SQLite.
use Prim.Native.Char.{code}
use Prim.Native.Nat.{ℕ, ◌+◌, ◌-◌, ◌/◌, ◌%◌}
use Prim.Native.String.{String}
use mathlib.Core.Path.{◌≡◌, refl}
use mathlib.Core.Logic.{inl, inr}
use mathlib.Core.Bool.{Bool, true, false, ◌||◌}
use mathlib.Core.List.{List, [], ◌∷◌}
use native.Mathlib.Omega.{arith}
use multi_agent_brain.Common.Tests.{ltb, Bool-cases, if◌then◌else◌}
use multi_agent_brain.Common.Equality.{StrictEq, ◌==◌}
use multi_agent_brain.Common.Lists.{includes, All}

-- The code units of a code point: itself, or a surrogate pair.
abbrev code_units : ℕ → List ℕ → List ℕ
code_units c rest =
    if ltb c 0x10000
    then c ∷ rest
    else (0xd800 + (c - 0x10000) / 0x400) ∷ (0xdc00 + (c - 0x10000) % 0x400) ∷ rest

utf16 : String → List ℕ
utf16 String.[] = []
utf16 (String.◌∷◌ c s) = code_units (code c) (utf16 s)

units_le : List ℕ → List ℕ → Bool
units_le [] ys = true
units_le (x ∷ xs) [] = false
units_le (x ∷ xs) (y ∷ ys) =
    let rest = units_le xs ys in if ltb x y then true else if ltb y x then false else rest

unfoldable pub text_le : String → String → Bool
unfolding utf16 units_le
text_le s t = units_le (utf16 s) (utf16 t)

-- SQLite's order of text, by the bytes of UTF-8, is the order of the code points.
code_points : String → List ℕ
code_points String.[] = []
code_points (String.◌∷◌ c s) = code c ∷ code_points s

unfoldable pub binary_le : String → String → Bool
unfolding code_points units_le
binary_le s t = units_le (code_points s) (code_points t)

module _ {ℓ} {A : Type ℓ} (le : A → A → Bool) where
  unfoldable pub insert_by : A → List A → List A
  insert_by x [] = x ∷ []
  insert_by x (y ∷ ys) = let rest = insert_by x ys in if le x y then x ∷ y ∷ ys else y ∷ rest

  unfoldable pub sort_by : List A → List A
  unfolding insert_by
  sort_by [] = []
  sort_by (x ∷ xs) = insert_by x (sort_by xs)

  includes-insert_by :
      ⦃q : StrictEq A⦄ (x : A) (ys : List A) (z : A)
      → includes (insert_by x ys) z ≡ (x == z || includes ys z)
  unfolding insert_by
  includes-insert_by x [] z = refl
  includes-insert_by x (y ∷ ys) z = ground (arith, includes-insert_by x ys z)

  -- Sorting keeps the members.
  pub includes-sort_by :
      ⦃q : StrictEq A⦄ (xs : List A) (z : A) → includes (sort_by xs) z ≡ includes xs z
  unfolding sort_by
  includes-sort_by [] z = refl
  includes-sort_by (x ∷ xs) z =
      ground (arith, includes-insert_by x (sort_by xs) z, includes-sort_by xs z)

module _ {ℓ κ} {A : Type ℓ} (le : A → A → Bool) (P : A → Type κ) where
  insert_by-All : (x : A) (ys : List A) → P x → All P ys → All P (insert_by le x ys)
  unfolding insert_by
  insert_by-All x [] px h = (px, tt)
  insert_by-All x (y ∷ ys) px (py, h) = elim (Bool-cases (le x y)) [
    | inl before ↦ rw before ((px, (py, h)))
    | inr after ↦ rw after ((py, insert_by-All x ys px h))
  ]

  pub sort_by-All : (xs : List A) → All P xs → All P (sort_by le xs)
  unfolding sort_by
  sort_by-All [] h = tt
  sort_by-All (x ∷ xs) (px, h) = insert_by-All x (sort_by le xs) px (sort_by-All xs h)

unfoldable pub sort_texts : List String → List String
unfolding sort_by text_le
sort_texts ss = sort_by text_le ss
