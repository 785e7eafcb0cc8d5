-- ===== src/Common/Equality.antt =====
-- JavaScript's `===` on one type: a Boolean test with the proof that it decides equality.
use mathlib.Core.Path.{◌≡◌, refl}
use mathlib.Core.Logic.{◌↔◌}
use mathlib.Core.Bool.{Bool, true}
use Prim.Native.Nat.{ℕ}
use Prim.Native.String.{String}
use text.Mathlib.TextEquality.{eq_iff}
use text.Mathlib.Text.{◌==◌ as str_eq}
use multi_agent_brain.Common.Tests.{nat_beq, nat_beq_iff}

pub record StrictEq {ℓ} (T : Type ℓ) : Type ℓ where
  pub same : T → T → Bool
  pub same_iff : (x y : T) → (same x y ≡ true) ↔ (x ≡ y)

instance abbrev pub string_eq : StrictEq String
string_eq = record { same = str_eq; same_iff = eq_iff }

instance abbrev pub nat_eq : StrictEq ℕ
nat_eq = record { same = nat_beq; same_iff = nat_beq_iff }

module _ {ℓ} {T : Type ℓ} ⦃q : StrictEq T⦄ where
  infix 50 ◌==◌
  abbrev pub ◌==◌ : T → T → Bool
  x == y = q.same x y

  pub ==_refl : (x : T) → (x == x) ≡ true
  ==_refl x = (q.same_iff x x).1 refl

  pub ==_eq : {x y : T} → (x == y) ≡ true → x ≡ y
  ==_eq {x} {y} h = (q.same_iff x y).0 h

  pub ==_iff : (x y : T) → ((x == y) ≡ true) ↔ (x ≡ y)
  ==_iff = q.same_iff
