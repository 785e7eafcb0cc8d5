-- ===== src/Packet/Budget/Laws.antt =====
-- The loop that cuts a packet down ends, and what it ends with is within the budget.
use multi_agent_brain.Common.{
  ℕ, zero, suc, ◌+◌, ◌-◌, ◌*◌, ◌≤◌, max, subst, String, ◌≡◌, inl, inr, true, false, some, List, [],
  map, arith, take, length, ltb, leb, or_else, Bool-cases, Option-cases, if◌then◌else◌,
}
use mathlib.Core.Option.{some-injective, none-ne-some}
use multi_agent_brain.Packet.{ContextCandidate}
use multi_agent_brain.Packet.Words.{
  estimate_packet_tokens, non_empty, excerpt_text, dedupe_strings, flat_map,
  clip_text_to_token_budget,
}
use multi_agent_brain.Common.Text.{is_blank}
use multi_agent_brain.Common.Text.Slices.{
  text_length, slice_to, normalize_whitespace, text_length-slice_to, text_length-append,
}
use multi_agent_brain.Common.Members.{length-filter_le, length-take_le, length-map}
use multi_agent_brain.Packet.Selection.Laws.{length-dedupe_sources}
use multi_agent_brain.Packet.Budget.{
  BudgetInput, BudgetedPacket, Limits, initial_limits, packet_within, raw_excerpts_of, next_limits,
  clipped_packet, budget_loop, passes, enforce_context_budget,
}

-- The limits are within the budget.
abbrev IsLimited : {S : Type 0} → BudgetInput S → Limits → Type 0
IsLimited input l =
    (l.source_limit ≤ input.budget.max_sources)
    × (l.raw_excerpt_limit ≤ (initial_limits input).raw_excerpt_limit)
    × (l.constraint_limit ≤ 8)

module _ {S : Type 0} (input : BudgetInput S) where
  -- Lowering a limit takes one pass off, and stays within the budget.
  next_limits-IsLimited :
      (l next : Limits)
      → next_limits input l ≡ some next
      → IsLimited input l
      → (suc (passes input next) ≡ passes input l) × IsLimited input next
  unfolding next_limits
  next_limits-IsLimited l next h (sources, raw, constraints) =
      elim (Bool-cases (ltb 0 l.raw_excerpt_limit)) [
        | inl p ↦
            lowered _ (rw p at h) (ground (arith, p), (sources, omega (arith, raw), constraints))
        | inr np ↦ elim (Bool-cases (ltb 0 l.summary_sentence_limit)) [
          | inl q ↦ lowered _ (rw (np, q) at h) (ground (arith, q), (sources, raw, constraints))
          | inr nq ↦ elim (Bool-cases (ltb 1 l.source_limit)) [
            | inl r ↦
                lowered _ (rw (np, nq, r) at h)
                  (ground (arith, r), (omega (arith, sources), raw, constraints))
            | inr nr ↦ elim (Bool-cases (ltb 0 l.constraint_limit)) [
              | inl t ↦
                  lowered _ (rw (np, nq, nr, t) at h)
                    (ground (arith, t), (sources, raw, omega (arith, constraints)))
              | inr nt ↦ elim (Bool-cases l.include_uncertainties) [
                | inl u ↦
                    lowered _ (rw (np, nq, nr, nt, u) at h)
                      (ground (arith, u), (sources, raw, constraints))
                | inr nu ↦ absurd (none-ne-some next (rw (np, nq, nr, nt, nu) at h))
              ]
            ]
          ]
        ]
      ]
    where
      lowered :
          (m : Limits)
          → some m ≡ some next
          → (suc (passes input m) ≡ passes input l) × IsLimited input m
          → (suc (passes input next) ≡ passes input l) × IsLimited input next
      lowered m e fine =
          subst (λ n. (suc (passes input n) ≡ passes input l) × IsLimited input n)
            (some-injective m next e) fine

-- The tokens of all that a packet holds, by the estimate that the budget is compared with.
abbrev pub tokens_of : {S : Type 0} → BudgetedPacket S → ℕ
tokens_of p =
    estimate_packet_tokens p.summary p.constraints p.uncertainties p.sources p.raw_excerpts

-- The packet keeps the budget: its own estimate does, its contents do up to two tokens, and each of
-- its lists is as short as asked.
abbrev pub IsWithin : {S : Type 0} → BudgetInput S → BudgetedPacket S → Type 0
IsWithin input p =
    (p.token_estimate ≤ input.budget.max_tokens)
    × (tokens_of p ≤ input.budget.max_tokens + 2)
    × (length p.sources ≤ input.budget.max_sources)
    × (length (or_else p.raw_excerpts [])
        ≤ (if input.include_raw_excerpts then input.budget.max_raw_excerpts else 0))
    × (length p.constraints ≤ 8)

length-non_empty : (values : List String) → length (non_empty values) ≤ length values
length-non_empty values =
    length-filter_le (λ value. elim (is_blank value) [ true ↦ false | false ↦ true ]) values

-- An excerpt is not longer than asked, where there is room for the dots.
text_length-excerpt_text : (value : String) (n : ℕ) → 3 ≤ n → text_length (excerpt_text value n) ≤ n
unfolding excerpt_text
text_length-excerpt_text value n room =
    elim (Bool-cases (leb (text_length (normalize_whitespace value)) n)) [
      | inl short ↦ rw short (ground (arith, short))
      | inr long ↦
          let roomy : leb 3 n ≡ true = ground arith in
          rw (long, roomy)
            (omega (
              arith,
              text_length-append (slice_to (n - 3) (normalize_whitespace value)) "...",
              text_length-slice_to (n - 3) (normalize_whitespace value),
            ))
    ]

module _ {S : Type 0} (input : BudgetInput S) where
  length-raw_excerpts_of :
      (limit : ℕ) (selected : List (ContextCandidate S))
      → length (or_else (raw_excerpts_of input limit selected) []) ≤ limit
  unfolding raw_excerpts_of
  length-raw_excerpts_of limit selected = elim (Bool-cases (ltb 0 limit)) [
    | inr none_left ↦ rw none_left (omega arith)
    | inl some_left ↦ rw some_left (
        let texts =
          map (λ (c : ContextCandidate S). excerpt_text (or_else c.raw_text "") 320)
            (take limit selected) in
        omega (
          arith,
          length-non_empty texts,
          length-map (λ (c : ContextCandidate S). excerpt_text (or_else c.raw_text "") 320)
              (take limit selected),
          length-take_le limit selected,
        ))
  ]

  packet_within-IsWithin :
      (l : Limits)
      → IsLimited input l
      → leb (packet_within input l).token_estimate input.budget.max_tokens ≡ true
      → IsWithin input (packet_within input l)
  unfolding packet_within
  packet_within-IsWithin l (sources, raw, constraints) fits =
      let selected = take l.source_limit input.candidates in
      (
        ground (arith, fits),
        ground (arith, fits),
        omega (
          arith,
          sources,
          length-dedupe_sources selected,
          length-take_le l.source_limit input.candidates,
        ),
        ground (arith, raw, length-raw_excerpts_of l.raw_excerpt_limit selected),
        omega (
          arith,
          constraints,
          length-take_le l.constraint_limit
              (dedupe_strings (flat_map (λ (c : ContextCandidate S). c.qualifiers) selected)),
        ),
      )

  clipped-IsWithin :
      (summary : String)
      → 1 ≤ input.budget.max_tokens
      → IsWithin input (clipped_packet input summary)
  unfolding clipped_packet clip_text_to_token_budget
  clipped-IsWithin summary positive = (
    omega arith,
    omega (
      arith,
      positive,
      text_length-excerpt_text summary (max 1 (input.budget.max_tokens * 4)) (omega arith),
    ),
    omega arith,
    ground arith,
    omega arith,
  )

  -- Enough fuel gives a packet within the budget.
  budget_loop_ends :
      (fuel : ℕ) (l : Limits)
      → 1 ≤ input.budget.max_tokens
      → passes input l ≤ fuel
      → IsLimited input l
      → (p : BudgetedPacket S) × (budget_loop input fuel l ≡ some p) × IsWithin input p
  unfolding budget_loop
  budget_loop_ends zero l positive enough limited = absurd (omega arith)
  budget_loop_ends (suc fuel) l positive enough limited =
      elim (Bool-cases (leb (packet_within input l).token_estimate input.budget.max_tokens)) [
        | inl fits ↦
            (packet_within input l, rw (budget_loop, fits), packet_within-IsWithin l limited fits)
        | inr over ↦ elim (Option-cases (next_limits input l)) [
          | inl last ↦ (
            clipped_packet input (packet_within input l).summary,
            rw (budget_loop, over, last),
            clipped-IsWithin (packet_within input l).summary positive,
          )
          | inr (next, e) ↦
              let (fewer, still) = next_limits-IsLimited input l next e limited in
              let (p, ends, within) = budget_loop_ends fuel next positive (omega arith) still in
              (p, rw (budget_loop, over, e) ends, within)
        ]
      ]

  initial-IsLimited : IsLimited input (initial_limits input)
  initial-IsLimited = (omega arith, omega arith, omega arith)

  -- The packet that the loop returns keeps the budget.
  pub enforce_context_budget-IsWithin :
      1 ≤ input.budget.max_tokens
      → (p : BudgetedPacket S) × (enforce_context_budget input ≡ some p) × IsWithin input p
  unfolding enforce_context_budget
  enforce_context_budget-IsWithin positive =
      budget_loop_ends (passes input (initial_limits input)) (initial_limits input) positive
        (omega arith) initial-IsLimited
