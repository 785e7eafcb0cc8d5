-- ===== src/Common/Sets.antt =====
-- Lists without a repeated member, as JavaScript's `Set` and SQL's primary keys keep them.
use mathlib.Core.Path.{◌≡◌, refl}
use mathlib.Core.Logic.{inl, inr}
use mathlib.Core.Bool.{false}
use mathlib.Core.List.{List, [], ◌∷◌, ◌++◌}
use native.Mathlib.Omega.{arith}
use multi_agent_brain.Common.Tests.{Bool-cases}
use multi_agent_brain.Common.Equality.{StrictEq, ==_iff}
use multi_agent_brain.Common.Lists.{includes, All}
use multi_agent_brain.Common.Maps.{set_add, set_from, to_set, includes-append_one}

module _ {ℓ κ} {A : Type ℓ} (P : A → Type κ) where
  pub All-append : (xs ys : List A) → All P xs → All P ys → All P (xs ++ ys)
  All-append [] ys h k = k
  All-append (x ∷ xs) ys (here, later) k = (here, All-append xs ys later k)

module _ {ℓ} {A : Type ℓ} ⦃q : StrictEq A⦄ where
  abbrev pub Distinct : List A → Type 0
  Distinct [] = Unit
  Distinct (x ∷ xs) = (includes xs x ≡ false) × Distinct xs

  pub Distinct-append_one :
      (xs : List A) (x : A) → includes xs x ≡ false → Distinct xs → Distinct (xs ++ x ∷ [])
  Distinct-append_one [] x new d = (refl, tt)
  Distinct-append_one (y ∷ ys) x new (once, d) = (
    ground (arith, includes-append_one ys x y, new, once, ==_iff x y, ==_iff y x),
    Distinct-append_one ys x (ground (arith, new)) d,
  )

  pub set_add-Distinct : (xs : List A) (x : A) → Distinct xs → Distinct (set_add xs x)
  unfolding set_add
  set_add-Distinct xs x d = elim (Bool-cases (includes xs x)) [
    | inl old ↦ rw old d
    | inr new ↦ rw new (Distinct-append_one xs x new d)
  ]

  set_from-Distinct : (seen xs : List A) → Distinct seen → Distinct (set_from seen xs)
  unfolding set_from
  set_from-Distinct seen [] d = d
  set_from-Distinct seen (x ∷ xs) d =
      set_from-Distinct (set_add seen x) xs (set_add-Distinct seen x d)

  pub to_set-Distinct : (xs : List A) → Distinct (to_set xs)
  unfolding to_set
  to_set-Distinct xs = set_from-Distinct [] xs tt

  module _ {κ} (P : A → Type κ) where
    pub set_add-All : (xs : List A) (x : A) → P x → All P xs → All P (set_add xs x)
    unfolding set_add
    set_add-All xs x px h = elim (Bool-cases (includes xs x)) [
      | inl old ↦ rw old h
      | inr new ↦ rw new (All-append P xs (x ∷ []) h (px, tt))
    ]

    set_from-All : (seen xs : List A) → All P seen → All P xs → All P (set_from seen xs)
    unfolding set_from
    set_from-All seen [] h k = h
    set_from-All seen (x ∷ xs) h (px, k) =
        set_from-All (set_add seen x) xs (set_add-All seen x px h) k

    pub to_set-All : (xs : List A) → All P xs → All P (to_set xs)
    unfolding to_set
    to_set-All xs k = set_from-All [] xs tt k
