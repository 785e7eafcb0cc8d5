-- ===== src/Auth/Authorize/Permits.antt =====
-- The Boolean tests of `authorize` decide the permissions of `Grant`.
use multi_agent_brain.Common.{
  ◌≡◌, ◌↔◌, String, true, refl, Option, none, some, List, [], ◌∷◌, StrictEq, Elem, includes,
  includes-Elem, Elem-includes, ==_iff, string_eq, ◌==◌,
}
use multi_agent_brain.Auth.Authorize.{
  list_permits, list_permits_some, set_permits, set_permits_some, source_permits, truthy,
}
use multi_agent_brain.Auth.Authorize.Grant.{ListPermits, SetPermits, Asked, SourcePermits}

module _ {A : Type 0} ⦃q : StrictEq A⦄ where
  pub includes_iff : (xs : List A) (a : A) → (includes xs a ≡ true) ↔ Elem a xs
  includes_iff xs a = (includes-Elem xs, Elem-includes xs)

  pub list_permits_iff :
      (xs : Option (List A)) (a : A) → (list_permits xs a ≡ true) ↔ ListPermits xs a
  list_permits_iff none a = (λ _. tt, λ _. refl)
  list_permits_iff (some []) a = (λ _. tt, λ _. refl)
  list_permits_iff (some (x ∷ xs)) a = includes_iff (x ∷ xs) a

  pub set_permits_iff : (xs : Option (List A)) (a : A) → (set_permits xs a ≡ true) ↔ SetPermits xs a
  set_permits_iff none a = (λ _. tt, λ _. refl)
  set_permits_iff (some xs) a = includes_iff xs a

  pub list_permits_some_iff :
      (xs : Option (List A)) (a : Option A)
      → (list_permits_some xs a ≡ true) ↔ Asked (ListPermits xs) a
  list_permits_some_iff xs none = (λ _. tt, λ _. refl)
  list_permits_some_iff xs (some a) = list_permits_iff xs a

  pub set_permits_some_iff :
      (xs : Option (List A)) (a : Option A)
      → (set_permits_some xs a ≡ true) ↔ Asked (SetPermits xs) a
  set_permits_some_iff xs none = (λ _. tt, λ _. refl)
  set_permits_some_iff xs (some a) = set_permits_iff xs a

pub source_permits_iff :
    (expected : Option String) (actual : String)
    → (source_permits expected actual ≡ true) ↔ SourcePermits expected actual
source_permits_iff expected actual = decide (truthy expected)
  where
    decide :
        (o : Option String)
        → (elim o [ none ↦ true | some s ↦ s == actual ] ≡ true) ↔ Asked (λ s. s ≡ actual) o
    decide none = (λ _. tt, λ _. refl)
    decide (some s) = ==_iff s actual
