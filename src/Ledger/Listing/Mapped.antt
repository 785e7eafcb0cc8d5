-- ===== src/Ledger/Listing/Mapped.antt =====
-- The records of the listing in
-- packages/infrastructure/src/sqlite/sqlite-issued-token-store.ts against the rows that they are
-- mapped from.
use multi_agent_brain.Common.{
  ℕ, zero, suc, ◌≡◌, refl, inl, inr, Bool, true, Option, none, some, List, [], ◌∷◌, string_eq, take,
  filter, All, ltb, Bool-cases,
}
use multi_agent_brain.Common.Results.{ok, Result-cases, err≢ok, ok-injective}
use multi_agent_brain.Auth.Platform.{Platform}
use multi_agent_brain.Ledger.{
  ArrayJson, IssuedTokenRow, IssuedTokenLifecycleRecord, parse_json_array, derive_lifecycle_status,
  map_issued_token_row, map_rows, limited,
}

-- What a record keeps of its row.
abbrev Keeps : IssuedTokenRow → IssuedTokenLifecycleRecord → Type 0
Keeps row r =
    (r.token_id ≡ row.token_id) × (r.actor_id ≡ row.actor_id) × (r.revoked_at ≡ row.revoked_at)

pub mapped-Keeps :
    (pf : Platform) (j : ArrayJson) (t : ℕ) (row : IssuedTokenRow) {r : IssuedTokenLifecycleRecord}
    → map_issued_token_row pf j t row ≡ ok r
    → Keeps row r × (derive_lifecycle_status pf row t ≡ ok r.lifecycle_status)
unfolding map_issued_token_row
mapped-Keeps pf j t row h = elim (Result-cases (parse_json_array j row.allowed_transports_json)) [
  | inr (thrown, e) ↦ absurd (err≢ok (rw e at h))
  | inl (a, e) ↦ elim (Result-cases (parse_json_array j row.allowed_commands_json)) [
    | inr (thrown, f) ↦ absurd (err≢ok (rw (e, f) at h))
    | inl (b, f) ↦ elim (Result-cases (parse_json_array j row.allowed_admin_actions_json)) [
      | inr (thrown, g) ↦ absurd (err≢ok (rw (e, f, g) at h))
      | inl (c, g) ↦ elim (Result-cases (parse_json_array j row.allowed_corpora_json)) [
        | inr (thrown, k) ↦ absurd (err≢ok (rw (e, f, g, k) at h))
        | inl (d, k) ↦ elim (Result-cases (derive_lifecycle_status pf row t)) [
          | inr (thrown, l) ↦ absurd (err≢ok (rw (e, f, g, k, l) at h))
          | inl (s, l) ↦ rw (← ok-injective (rw (e, f, g, k, l) at h)) (((refl, refl, refl), l))
        ]
      ]
    ]
  ]
]

module _ (pf : Platform) (j : ArrayJson) (t : ℕ) where
  pub map_rows-All :
      (P : IssuedTokenRow → Type 0) (Q : IssuedTokenLifecycleRecord → Type 0)
      → ((row : IssuedTokenRow) (r : IssuedTokenLifecycleRecord)
          → P row
          → map_issued_token_row pf j t row ≡ ok r
          → Q r)
      → (rows : List IssuedTokenRow) {records : List IssuedTokenLifecycleRecord} → All P rows
      → map_rows pf j t rows ≡ ok records
      → All Q records
  unfolding map_rows
  map_rows-All P Q carry [] all h = rw (← ok-injective h) tt
  map_rows-All P Q carry (row ∷ rows) (here, later) h =
      elim (Result-cases (map_issued_token_row pf j t row)) [
        | inr (thrown, e) ↦ absurd (err≢ok (rw e at h))
        | inl (first, e) ↦ elim (Result-cases (map_rows pf j t rows)) [
          | inr (thrown, k) ↦ absurd (err≢ok (rw (e, k) at h))
          | inl (rest, k) ↦
              rw (← ok-injective (rw (e, k) at h))
                ((carry row first here e, map_rows-All P Q carry rows later k))
        ]
      ]

module _ {A : Type 0} (P : A → Type 0) where
  take-All : (n : ℕ) (xs : List A) → All P xs → All P (take n xs)
  take-All zero xs h = tt
  take-All (suc n) [] h = tt
  take-All (suc n) (x ∷ xs) (px, h) = (px, take-All n xs h)

  pub limited-All : (limit : Option ℕ) (xs : List A) → All P xs → All P (limited limit xs)
  limited-All none xs h = h
  limited-All (some n) xs h = elim (Bool-cases (ltb 0 n)) [
    | inl positive ↦ rw positive (take-All n xs h)
    | inr zero_limit ↦ rw zero_limit h
  ]

  pub filter-All :
      (p : A → Bool) (xs : List A) → All P xs → All (λ x. P x × (p x ≡ true)) (filter p xs)
  filter-All p [] h = tt
  filter-All p (x ∷ xs) (px, h) = elim (Bool-cases (p x)) [
    | inl kept ↦ rw kept (((px, kept), filter-All p xs h))
    | inr dropped ↦ rw dropped (filter-All p xs h)
  ]
