-- ===== src/Common/Members.antt =====
-- Where the members of a list go.
use Prim.Native.Nat.{ℕ, zero, suc, ◌≤◌}
use mathlib.Core.Path.{◌≡◌, refl, ap, ◌∙◌}
use mathlib.Core.Logic.{inl, inr}
use mathlib.Core.Bool.{Bool, true}
use mathlib.Core.List.{List, [], ◌∷◌, ◌++◌, map}
use native.Mathlib.Omega.{arith}
use multi_agent_brain.Common.Tests.{Bool-cases}
use multi_agent_brain.Common.Lists.{Elem, here, there, filter, take, length}
use multi_agent_brain.Common.Sort.{sort_by, insert_by}

module _ {A : Type 0} where
  pub filter-Elem :
      (p : A → Bool) (xs : List A) {x : A} → Elem x xs → p x ≡ true → Elem x (filter p xs)
  filter-Elem p [] m h = elim m [ ]
  filter-Elem p (y ∷ ys) {x} (here e) h = rw (rw e at h) (here e)
  filter-Elem p (y ∷ ys) {x} (there m) h = elim (Bool-cases (p y)) [
    | inl kept ↦ rw kept (there (filter-Elem p ys m h))
    | inr dropped ↦ rw dropped (filter-Elem p ys m h)
  ]

  insert_by-Elem_first : (le : A → A → Bool) (x : A) (ys : List A) → Elem x (insert_by le x ys)
  unfolding insert_by
  insert_by-Elem_first le x [] = here refl
  insert_by-Elem_first le x (y ∷ ys) = elim (Bool-cases (le x y)) [
    | inl before ↦ rw before (here refl)
    | inr after ↦ rw after (there (insert_by-Elem_first le x ys))
  ]

  insert_by-Elem :
      (le : A → A → Bool) (x : A) (ys : List A) {z : A} → Elem z ys → Elem z (insert_by le x ys)
  unfolding insert_by
  insert_by-Elem le x [] m = elim m [ ]
  insert_by-Elem le x (y ∷ ys) {z} (here e) = elim (Bool-cases (le x y)) [
    | inl before ↦ rw before (there (here e))
    | inr after ↦ rw after (here e)
  ]
  insert_by-Elem le x (y ∷ ys) {z} (there m) = elim (Bool-cases (le x y)) [
    | inl before ↦ rw before (there (there m))
    | inr after ↦ rw after (there (insert_by-Elem le x ys m))
  ]

  pub sort_by-Elem : (le : A → A → Bool) (xs : List A) {x : A} → Elem x xs → Elem x (sort_by le xs)
  unfolding sort_by
  sort_by-Elem le [] m = elim m [ ]
  sort_by-Elem le (y ∷ ys) {x} (here e) = rw e (insert_by-Elem_first le y (sort_by le ys))
  sort_by-Elem le (y ∷ ys) {x} (there m) =
      insert_by-Elem le y (sort_by le ys) (sort_by-Elem le ys m)

  length-insert_by :
      (le : A → A → Bool) (x : A) (ys : List A) → length (insert_by le x ys) ≡ suc (length ys)
  unfolding insert_by
  length-insert_by le x [] = refl
  length-insert_by le x (y ∷ ys) = ground (arith, length-insert_by le x ys)

  pub length-sort_by : (le : A → A → Bool) (xs : List A) → length (sort_by le xs) ≡ length xs
  unfolding sort_by
  length-sort_by le [] = refl
  length-sort_by le (x ∷ xs) = length-insert_by le x (sort_by le xs) ∙ ap suc (length-sort_by le xs)

  pub take_all : (n : ℕ) (xs : List A) → length xs ≤ n → take n xs ≡ xs
  take_all zero [] h = refl
  take_all zero (x ∷ xs) h = absurd (omega arith)
  take_all (suc n) [] h = refl
  take_all (suc n) (x ∷ xs) h = ap (λ ys. x ∷ ys) (take_all n xs (omega arith))

pub map-Elem : {A B : Type 0} (f : A → B) (xs : List A) {x : A} → Elem x xs → Elem (f x) (map f xs)
map-Elem f [] m = elim m [ ]
map-Elem f (y ∷ ys) (here e) = here (ap f e)
map-Elem f (y ∷ ys) (there m) = there (map-Elem f ys m)

pub Elem-append_left :
    {A : Type 0} {x : A} {xs : List A} → Elem x xs → (ys : List A) → Elem x (xs ++ ys)
Elem-append_left (here e) ys = here e
Elem-append_left (there m) ys = there (Elem-append_left m ys)

pub map-append :
    {A B : Type 0} (f : A → B) (xs ys : List A) → map f (xs ++ ys) ≡ map f xs ++ map f ys
map-append f [] ys = refl
map-append f (x ∷ xs) ys = ap (λ zs. f x ∷ zs) (map-append f xs ys)

module _ {A : Type 0} where
  pub length-filter_le : (p : A → Bool) (xs : List A) → length (filter p xs) ≤ length xs
  length-filter_le p [] = omega arith
  length-filter_le p (x ∷ xs) = ground (arith, length-filter_le p xs)

  pub length-take_le : (n : ℕ) (xs : List A) → length (take n xs) ≤ n
  length-take_le zero xs = omega arith
  length-take_le (suc n) [] = omega arith
  length-take_le (suc n) (x ∷ xs) = omega (arith, length-take_le n xs)

pub length-map : {A B : Type 0} (f : A → B) (xs : List A) → length (map f xs) ≡ length xs
length-map f [] = refl
length-map f (x ∷ xs) = omega (arith, length-map f xs)
