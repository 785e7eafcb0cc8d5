-- ===== src/Common/Lists.antt =====
-- Lists measured by native numbers, membership by a Boolean test, and predicates over lists.
use Prim.Native.Nat.{ℕ, zero, suc, ◌+◌}
use mathlib.Core.Path.{◌≡◌, sym, subst}
use mathlib.Core.Logic.{inl, inr}
use mathlib.Core.Bool.{Bool, true, false, ◌||◌, false≢true}
use mathlib.Core.Option.{Option, none, some, some-injective, none-ne-some}
use mathlib.Core.List.{List, [], ◌∷◌, ◌++◌}
use native.Mathlib.Omega.{arith}
use multi_agent_brain.Common.Tests.{if◌then◌else◌, Bool-cases}
use multi_agent_brain.Common.Equality.{StrictEq, ◌==◌, ==_eq, ==_refl}

module _ {ℓ} {A : Type ℓ} where
  abbrev pub length : List A → ℕ
  length [] = 0
  length (x ∷ xs) = suc (length xs)

  abbrev pub is_empty : List A → Bool
  is_empty [] = true
  is_empty (x ∷ xs) = false

  abbrev pub take : ℕ → List A → List A
  take zero xs = []
  take (suc n) [] = []
  take (suc n) (x ∷ xs) = x ∷ take n xs

  -- `xs.filter(p)`
  abbrev pub filter : (A → Bool) → List A → List A
  filter p [] = []
  filter p (x ∷ xs) = let rest = filter p xs in if p x then x ∷ rest else rest

  -- `xs.find(p)`
  abbrev pub find : (A → Bool) → List A → Option A
  find p [] = none
  find p (x ∷ xs) = if p x then some x else find p xs

  abbrev pub count : (A → Bool) → List A → ℕ
  count p xs = length (filter p xs)

  pub length-append : (xs ys : List A) → length (xs ++ ys) ≡ length xs + length ys
  length-append [] ys = omega arith
  length-append (x ∷ xs) ys = omega (arith, length-append xs ys)

module _ {ℓ κ} {A : Type ℓ} (P : A → Type κ) where
  abbrev pub All : List A → Type κ
  All [] = Unit
  All (x ∷ xs) = P x × All xs

-- `x` stands somewhere in the list.
pub data Elem {ℓ} {A : Type ℓ} (x : A) : List A → Type ℓ where
  here : {y : A} {ys : List A} → x ≡ y → Elem x (y ∷ ys)
  there : {y : A} {ys : List A} → Elem x ys → Elem x (y ∷ ys)

module _ {ℓ} {A : Type ℓ} where
  pub find_sound :
      (p : A → Bool) (xs : List A) {x : A} → find p xs ≡ some x → Elem x xs × (p x ≡ true)
  find_sound p [] h = cc
  find_sound p (y ∷ xs) {x} h = elim (Bool-cases (p y)) [
    | inl hit ↦
        let same : x ≡ y = sym (some-injective _ _ (rw hit at h)) in (here same, rw same hit)
    | inr miss ↦ let (later, holds) = find_sound p xs (rw miss at h) in (there later, holds)
  ]

  pub find-none :
      (p : A → Bool) (xs : List A) → find p xs ≡ none → {x : A} → Elem x xs → p x ≡ false
  find-none p [] h m = elim m [ ]
  find-none p (y ∷ xs) h (here e) = ground (arith, e)
  find-none p (y ∷ xs) h (there m) = elim (Bool-cases (p y)) [
    | inl hit ↦ absurd (none-ne-some y (sym (rw hit at h)))
    | inr miss ↦ find-none p xs (rw miss at h) m
  ]

  pub find_complete :
      (p : A → Bool) (xs : List A) {x : A} → Elem x xs → p x ≡ true → (y : A) × (find p xs ≡ some y)
  find_complete p [] m h = elim m [ ]
  find_complete p (y ∷ xs) (here e) h = (y, rw (rw e at h))
  find_complete p (y ∷ xs) (there m) h = elim (Bool-cases (p y)) [
    | inl hit ↦ (y, rw hit)
    | inr miss ↦ let (z, found) = find_complete p xs m h in (z, rw miss found)
  ]

module _ {ℓ} {A : Type ℓ} ⦃q : StrictEq A⦄ where
  -- `xs.includes(x)`, `set.has(x)`
  abbrev pub includes : List A → A → Bool
  includes [] x = false
  includes (y ∷ ys) x = y == x || includes ys x

  pub includes-Elem : (xs : List A) {x : A} → includes xs x ≡ true → Elem x xs
  includes-Elem [] h = absurd (false≢true h)
  includes-Elem (y ∷ ys) {x} h = elim (Bool-cases (y == x)) [
    | inl same ↦ here (sym (==_eq same))
    | inr other ↦ there (includes-Elem ys (rw other at h))
  ]

  pub Elem-includes : (xs : List A) {x : A} → Elem x xs → includes xs x ≡ true
  Elem-includes [] m = elim m [ ]
  Elem-includes (y ∷ ys) {x} (here p) = rw (p, ==_refl)
  Elem-includes (y ∷ ys) {x} (there m) = elim (Bool-cases (y == x)) [
    | inl same ↦ rw same
    | inr other ↦ rw other (Elem-includes ys m)
  ]

  pub includes-append :
      (xs ys : List A) (x : A) → includes (xs ++ ys) x ≡ (includes xs x || includes ys x)
  includes-append [] ys x = λ i. includes ys x
  includes-append (y ∷ xs) ys x = ground (arith, includes-append xs ys x)

  module _ {κ} (P : A → Type κ) where
    pub All-includes : (xs : List A) (x : A) → All P xs → includes xs x ≡ true → P x
    All-includes [] x h m = absurd (false≢true m)
    All-includes (y ∷ ys) x (py, h) m = elim (Bool-cases (y == x)) [
      | inl same ↦ subst P (==_eq same) py
      | inr other ↦ All-includes ys x h (rw other at m)
    ]
