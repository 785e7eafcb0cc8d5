-- ===== src/Common/Maps.antt =====
-- JavaScript's `Set` and `Map` over string keys: entries in the order of first insertion.
use multi_agent_brain.Common.Tests.{if◌then◌else◌, Bool-cases}
use multi_agent_brain.Common.Equality.{StrictEq, ◌==◌, ==_eq, ==_iff, string_eq}
use multi_agent_brain.Common.Lists.{includes, filter}
use Prim.Native.String.{String}
use mathlib.Core.Path.{◌≡◌, refl}
use mathlib.Core.Logic.{inl, inr}
use mathlib.Core.Bool.{false, not, ◌||◌}
use mathlib.Core.Option.{Option, none, some}
use mathlib.Core.List.{List, [], ◌∷◌, ◌++◌}
use native.Mathlib.Omega.{arith}

module _ {ℓ} {A : Type ℓ} ⦃q : StrictEq A⦄ where
  -- `set.add(x)`
  unfoldable pub set_add : List A → A → List A
  set_add xs x = if includes xs x then xs else xs ++ x ∷ []

  -- `set.delete(x)`
  abbrev pub set_delete : List A → A → List A
  set_delete xs x = filter (λ y. not (y == x)) xs

  unfoldable pub set_from : List A → List A → List A
  unfolding set_add
  set_from seen [] = seen
  set_from seen (x ∷ xs) = set_from (set_add seen x) xs

  -- `new Set(xs)`
  unfoldable pub to_set : List A → List A
  unfolding set_from
  to_set xs = set_from [] xs

  pub includes-set_delete : (xs : List A) (x : A) → includes (set_delete xs x) x ≡ false
  includes-set_delete [] x = refl
  includes-set_delete (y ∷ ys) x = elim (Bool-cases (y == x)) [
    | inl same ↦ rw same (includes-set_delete ys x)
    | inr other ↦ rw (other, other) (includes-set_delete ys x)
  ]

  pub includes-append_one :
      (xs : List A) (x y : A) → includes (xs ++ x ∷ []) y ≡ (includes xs y || x == y)
  includes-append_one [] x y = ground arith
  includes-append_one (z ∷ xs) x y = ground (arith, includes-append_one xs x y)

  -- The set has what was added, and what it had.
  pub includes-set_add :
      (xs : List A) (x y : A) → includes (set_add xs x) y ≡ (includes xs y || x == y)
  unfolding set_add
  includes-set_add xs x y = elim (Bool-cases (includes xs x)) [
    | inl old ↦ rw old (elim (Bool-cases (x == y)) [
      | inl same ↦ let e : x ≡ y = ==_eq same in rw (← e) (rw old)
      | inr other ↦ rw other (ground arith)
    ])
    | inr new ↦ rw new (includes-append_one xs x y)
  ]

  pub includes-set_from :
      (seen xs : List A) (y : A)
      → includes (set_from seen xs) y ≡ (includes seen y || includes xs y)
  unfolding set_from
  includes-set_from seen [] y = ground arith
  includes-set_from seen (x ∷ xs) y =
      ground (arith, includes-set_from (set_add seen x) xs y, includes-set_add seen x y)

  pub includes-to_set : (xs : List A) (y : A) → includes (to_set xs) y ≡ includes xs y
  unfolding to_set
  includes-to_set xs y = includes-set_from [] xs y

module _ {ℓ} {V : Type ℓ} where
  -- `map.get(k)`
  unfoldable pub get : List (String × V) → String → Option V
  get [] k = none
  get ((j, v) ∷ m) k = if j == k then some v else get m k

  -- `map.set(k, v)`: an existing key keeps its place.
  unfoldable pub put : List (String × V) → String → V → List (String × V)
  put [] k v = (k, v) ∷ []
  put ((j, w) ∷ m) k v = if j == k then (j, v) ∷ m else (j, w) ∷ put m k v

  pub get-put :
      (m : List (String × V)) (k j : String) (v : V)
      → get (put m k v) j ≡ (if k == j then some v else get m j)
  unfolding get put
  get-put [] k j v = refl
  get-put ((i, w) ∷ m) k j v = ground (arith, ==_iff k j, ==_iff i k, ==_iff i j, get-put m k j v)
