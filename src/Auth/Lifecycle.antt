-- ===== src/Auth/Lifecycle.antt =====
-- `deriveActorLifecycleStatus` of packages/orchestration/src/root/actor-authorization-policy.ts.
use multi_agent_brain.Common.{ℕ, ◌≡◌, ◌↔◌, Bool, true, false, not, arith, if◌then◌else◌}
use multi_agent_brain.Auth.Window.{starts_after, ended_before, is_within_validity_window}
use multi_agent_brain.Auth.Registry.{NormalizedEntry}

pub data LifecycleStatus : Type 0 where
  active future expired disabled : LifecycleStatus

unfoldable pub derive_actor_lifecycle_status : NormalizedEntry → ℕ → LifecycleStatus
derive_actor_lifecycle_status entry t =
    if not entry.enabled
    then disabled
    else if starts_after t entry.valid_from_ms
    then future
    else if ended_before t entry.valid_until_ms
    then expired
    else active

abbrev pub is_active : LifecycleStatus → Bool
is_active active = true
is_active _ = false

-- The status is `active` exactly when the entry is enabled and its window holds: the check of the
-- summary and of the inspection is the check of `authorizeOperation`.
pub active_iff :
    (entry : NormalizedEntry) (t : ℕ)
    → (derive_actor_lifecycle_status entry t ≡ active) ↔ (
        (entry.enabled ≡ true)
        × (is_within_validity_window t entry.valid_from_ms entry.valid_until_ms ≡ true))
unfolding derive_actor_lifecycle_status is_within_validity_window
active_iff entry t = ground arith
