-- ===== src/Auth/Window.antt =====
-- Validity windows: `parseValidityInstant`, `normalizeEvaluationTime` and `isWithinValidityWindow`
-- of packages/orchestration/src/root/actor-authorization-policy.ts.
use multi_agent_brain.Common.{
  ℕ, ◌≤◌, String, ◌≡◌, Bool, true, false, Option, none, some, arith, ltb, or_else, if◌then◌else◌,
  ◌↔◌,
}
use multi_agent_brain.Common.Text.{trim, is_blank}
use multi_agent_brain.Common.Results.{Result, ok, err}
use multi_agent_brain.Auth.Platform.{Platform}

-- `throw new Error("… must be a valid ISO-8601 timestamp.")`
pub data InvalidTimestamp : Type 0 where
  invalid_timestamp : InvalidTimestamp

unfoldable pub parse_instant_text : Option ℕ → Result InvalidTimestamp (Option ℕ)
parse_instant_text none = err invalid_timestamp
parse_instant_text (some parsed) = ok (some parsed)

unfoldable pub parse_validity_instant :
    Platform → Option String → Result InvalidTimestamp (Option ℕ)
unfolding parse_instant_text
parse_validity_instant pf none = ok none
parse_validity_instant pf (some value) =
    if is_blank (trim value) then ok none else parse_instant_text (pf.date_parse value)

-- `now` is what `Date.now()` returns.
unfoldable pub normalize_evaluation_time : Platform → ℕ → String → ℕ
normalize_evaluation_time pf now value = or_else (pf.date_parse value) now

-- `validFromMs !== undefined && evaluationTimeMs < validFromMs`
unfoldable pub starts_after : ℕ → Option ℕ → Bool
starts_after t none = false
starts_after t (some from) = ltb t from

-- `validUntilMs !== undefined && evaluationTimeMs > validUntilMs`
unfoldable pub ended_before : ℕ → Option ℕ → Bool
ended_before t none = false
ended_before t (some until) = ltb until t

unfoldable pub is_within_validity_window : ℕ → Option ℕ → Option ℕ → Bool
unfolding starts_after ended_before
is_within_validity_window t from until =
    if starts_after t from then false else if ended_before t until then false else true

-- The instant lies in the closed interval; an absent end is no bound.
abbrev pub NotBefore : ℕ → Option ℕ → Type 0
NotBefore t none = Unit
NotBefore t (some from) = from ≤ t

abbrev pub NotAfter : ℕ → Option ℕ → Type 0
NotAfter t none = Unit
NotAfter t (some until) = t ≤ until

abbrev pub InWindow : ℕ → Option ℕ → Option ℕ → Type 0
InWindow t from until = NotBefore t from × NotAfter t until

pub is_within_validity_window_iff :
    (t : ℕ) (from until : Option ℕ)
    → (is_within_validity_window t from until ≡ true) ↔ InWindow t from until
unfolding is_within_validity_window
is_within_validity_window_iff t from until = ground arith
