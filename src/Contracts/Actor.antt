-- ===== src/Contracts/Actor.antt =====
-- packages/contracts/src/common/actor-context.ts
use multi_agent_brain.Common.{
  ℕ, zero, suc, String, ◌≡◌, refl, sym, ap, ◌∙◌, ◌↔◌, Option, List, true, StrictEq, nat_beq,
  nat_beq_iff,
}

pub data ActorRole : Type 0 where
  retrieval writer orchestrator system operator : ActorRole

pub data TransportKind : Type 0 where
  internal cli http mcp automation : TransportKind

pub record ActorContext : Type 0 where
  pub actor_id : String
  pub actor_role : ActorRole
  pub transport : TransportKind
  pub source : String
  pub request_id : String
  pub initiated_at : String
  pub tool_name : Option String
  pub auth_token : Option String
  pub allowed_corpora : Option (List String)

-- Equality of the string literals, by their positions.
abbrev role_index : ActorRole → ℕ
role_index retrieval = 0
role_index writer = 1
role_index orchestrator = 2
role_index system = 3
role_index operator = 4

role_at : ℕ → ActorRole
role_at zero = retrieval
role_at (suc zero) = writer
role_at (suc (suc zero)) = orchestrator
role_at (suc (suc (suc zero))) = system
role_at (suc (suc (suc (suc n)))) = operator

role_at-index : (r : ActorRole) → role_at (role_index r) ≡ r
unfolding role_at
role_at-index retrieval = refl
role_at-index writer = refl
role_at-index orchestrator = refl
role_at-index system = refl
role_at-index operator = refl

pub role_beq_iff : (a b : ActorRole) → (nat_beq (role_index a) (role_index b) ≡ true) ↔ (a ≡ b)
role_beq_iff a b = (
  λ h. sym (role_at-index a) ∙ ap role_at ((nat_beq_iff _ _).0 h) ∙ role_at-index b,
  λ e. (nat_beq_iff _ _).1 (ap role_index e),
)

instance abbrev pub role_eq : StrictEq ActorRole
role_eq = record { same = λ a b. nat_beq (role_index a) (role_index b); same_iff = role_beq_iff }

abbrev transport_index : TransportKind → ℕ
transport_index internal = 0
transport_index cli = 1
transport_index http = 2
transport_index mcp = 3
transport_index automation = 4

transport_at : ℕ → TransportKind
transport_at zero = internal
transport_at (suc zero) = cli
transport_at (suc (suc zero)) = http
transport_at (suc (suc (suc zero))) = mcp
transport_at (suc (suc (suc (suc n)))) = automation

transport_at-index : (a : TransportKind) → transport_at (transport_index a) ≡ a
unfolding transport_at
transport_at-index internal = refl
transport_at-index cli = refl
transport_at-index http = refl
transport_at-index mcp = refl
transport_at-index automation = refl

pub transport_beq_iff :
    (a b : TransportKind) → (nat_beq (transport_index a) (transport_index b) ≡ true) ↔ (a ≡ b)
transport_beq_iff a b = (
  λ h. sym (transport_at-index a) ∙ ap transport_at ((nat_beq_iff _ _).0 h) ∙ transport_at-index b,
  λ e. (nat_beq_iff _ _).1 (ap transport_index e),
)

instance abbrev pub transport_eq : StrictEq TransportKind
transport_eq = record {
  same = λ a b. nat_beq (transport_index a) (transport_index b);
  same_iff = transport_beq_iff;
}
