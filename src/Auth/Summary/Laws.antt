-- ===== src/Auth/Summary/Laws.antt =====
-- The counts of a summary add up.
use multi_agent_brain.Common.{
  ℕ, ◌+◌, ◌≤◌, String, ◌≡◌, Bool, true, false, not, Option, none, some, List, [], ◌∷◌, arith,
  length, count, or_else, All,
}
use multi_agent_brain.Auth.Platform.{Platform}
use multi_agent_brain.Auth.Window.{
  starts_after, ended_before, is_within_validity_window, normalize_evaluation_time,
}
use multi_agent_brain.Auth.Lifecycle.{active, future, expired, derive_actor_lifecycle_status}
use multi_agent_brain.Auth.Registry.{NormalizedCredential, NormalizedEntry}
use multi_agent_brain.Auth.Policy.{Policy}
use multi_agent_brain.Auth.Authorize.{credential_active}
use multi_agent_brain.Auth.Summary.{
  ActorRegistryEntryStatus, has_status, sum_from, summarize_entry, summarize_all,
  get_registry_summary,
}

-- A window that does not end before it starts.
abbrev pub IsOrdered : Option ℕ → Option ℕ → Type 0
IsOrdered (some from) (some until) = from ≤ until
IsOrdered _ _ = Unit

abbrev bit : Bool → ℕ
bit true = 1
bit false = 0

count-cons :
    {A : Type 0} (p : A → Bool) (x : A) (xs : List A) → count p (x ∷ xs) ≡ bit (p x) + count p xs
count-cons p x xs = ground arith

-- Exactly one of three tests holds of every member.
module _ {A : Type 0} (p q r : A → Bool) where
  count_partition :
      (xs : List A)
      → All (λ x. bit (p x) + bit (q x) + bit (r x) ≡ 1) xs
      → length xs ≡ count p xs + count q xs + count r xs
  count_partition [] h = omega arith
  count_partition (x ∷ xs) (one, h) =
      omega (arith, count_partition xs h, count-cons p x xs, count-cons q x xs, count-cons r x xs)

credential_phase :
    (t : ℕ) (c : NormalizedCredential)
    → IsOrdered c.valid_from_ms c.valid_until_ms
    → bit (credential_active t c)
        + bit (starts_after t c.valid_from_ms)
        + bit (ended_before t c.valid_until_ms)
      ≡ 1
unfolding credential_active is_within_validity_window
credential_phase t c h = phase c.valid_from_ms c.valid_until_ms h
  where
    phase :
        (from until : Option ℕ)
        → IsOrdered from until
        → bit (is_within_validity_window t from until)
            + bit (starts_after t from)
            + bit (ended_before t until)
          ≡ 1
    phase none none k = ground arith
    phase none (some until) k = ground arith
    phase (some from) none k = ground arith
    phase (some from) (some until) k = ground arith

entry_phase :
    (t : ℕ) (entry : NormalizedEntry)
    → let a = summarize_entry entry t in
      bit a.enabled
      ≡ bit (has_status active a) + bit (has_status future a) + bit (has_status expired a)
unfolding summarize_entry derive_actor_lifecycle_status
entry_phase t entry = ground arith

enabled_partition :
    (t : ℕ) (registry : List (String × NormalizedEntry))
    → let actors = summarize_all t registry in
      count (λ a. a.enabled) actors
      ≡ count (has_status active) actors
        + count (has_status future) actors
        + count (has_status expired) actors
unfolding summarize_all
enabled_partition t [] = omega arith
enabled_partition t ((key, entry) ∷ registry) =
    let a = summarize_entry entry t in
    let rest = summarize_all t registry in
    omega (
      arith,
      entry_phase t entry,
      enabled_partition t registry,
      count-cons (λ b. b.enabled) a rest,
      count-cons (has_status active) a rest,
      count-cons (has_status future) a rest,
      count-cons (has_status expired) a rest,
    )

total_partition :
    (actors : List ActorRegistryEntryStatus)
    → length actors ≡ count (λ a. a.enabled) actors + count (λ a. not a.enabled) actors
total_partition [] = omega arith
total_partition (a ∷ actors) = ground (
  arith,
  total_partition actors,
  count-cons (λ b. b.enabled) a actors,
  count-cons (λ b. not b.enabled) a actors,
)

-- The windows of an entry's credentials are ordered.
abbrev pub OrderedCredentials : String × NormalizedEntry → Type 0
OrderedCredentials (key, entry) =
    All (λ c. IsOrdered c.valid_from_ms c.valid_until_ms) (or_else entry.auth_tokens [])

sum_from-add :
    (n : ℕ) (f : ActorRegistryEntryStatus → ℕ) (actors : List ActorRegistryEntryStatus)
    → sum_from n f actors ≡ n + sum_from 0 f actors
sum_from-add n f [] = omega arith
sum_from-add n f (a ∷ actors) =
    omega (arith, sum_from-add (n + f a) f actors, sum_from-add (0 + f a) f actors)

phases :
    (t : ℕ) (cs : List NormalizedCredential)
    → All (λ c. IsOrdered c.valid_from_ms c.valid_until_ms) cs
    → All
        (λ c.
          bit (credential_active t c)
            + bit (starts_after t c.valid_from_ms)
            + bit (ended_before t c.valid_until_ms)
          ≡ 1)
        cs
phases t [] h = tt
phases t (c ∷ cs) (k, h) = (credential_phase t c k, phases t cs h)

entry_credentials :
    (t : ℕ) (key : String) (entry : NormalizedEntry)
    → OrderedCredentials (key, entry)
    → let a = summarize_entry entry t in
      a.static_credential_count
      ≡ a.active_credential_count + a.future_credential_count + a.expired_credential_count
unfolding summarize_entry
entry_credentials t key entry h =
    count_partition _ _ _ (or_else entry.auth_tokens []) (phases t _ h)

credentials_partition :
    (t : ℕ) (registry : List (String × NormalizedEntry))
    → All OrderedCredentials registry
    → let actors = summarize_all t registry in
      sum_from 0 (λ a. a.static_credential_count) actors
      ≡ sum_from 0 (λ a. a.active_credential_count) actors
        + sum_from 0 (λ a. a.future_credential_count) actors
        + sum_from 0 (λ a. a.expired_credential_count) actors
unfolding summarize_all
credentials_partition t [] h = omega arith
credentials_partition t ((key, entry) ∷ registry) (here, later) =
    let a = summarize_entry entry t in
    let rest = summarize_all t registry in
    let n = λ (f : ActorRegistryEntryStatus → ℕ). sum_from-add (0 + f a) f rest in
    omega (
      arith,
      entry_credentials t key entry here,
      credentials_partition t registry later,
      n (λ b. b.static_credential_count),
      n (λ b. b.active_credential_count),
      n (λ b. b.future_credential_count),
      n (λ b. b.expired_credential_count),
    )

-- Where no credential of the registry has a window that ends before it starts, a summary adds up: the
-- actors are the enabled and the disabled ones, the enabled ones are the active, the future and the
-- expired ones, and so are the static credentials.
pub registry_summary_adds_up :
    (pf : Platform) (p : Policy) (now : ℕ) (as_of : String)
    → All OrderedCredentials p.registry
    → let s = get_registry_summary pf p now as_of in
      (s.actor_counts.total ≡ s.actor_counts.enabled + s.actor_counts.disabled)
      × (s.actor_counts.enabled
          ≡ s.actor_counts.active + s.actor_counts.future + s.actor_counts.expired)
      × (s.credential_counts.static
          ≡ s.credential_counts.active + s.credential_counts.future + s.credential_counts.expired)
unfolding get_registry_summary
registry_summary_adds_up pf p now as_of h =
    let t = normalize_evaluation_time pf now as_of in
    (
      total_partition (summarize_all t p.registry),
      enabled_partition t p.registry,
      credentials_partition t p.registry h,
    )
