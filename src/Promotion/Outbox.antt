-- ===== src/Promotion/Outbox.antt =====
-- The promotion outbox of packages/infrastructure/src/sqlite/sqlite-metadata-control-store.ts. The
-- table is a list of rows with the key `outbox_id`; the payload, which a row holds as JSON, is `P`.
pub mod Laws
use multi_agent_brain.Common.{
  ℕ, zero, suc, ◌+◌, String, Bool, true, false, not, Option, none, some, List, [], ◌∷◌, ◌++◌, map,
  string_eq, ◌==◌, find, filter, take, is_empty, ltb, or_else, is_some, if◌then◌else◌,
}
use multi_agent_brain.Common.Sort.{sort_by, binary_le}

pub data PromotionOutboxState : Type 0 where
  pending processing completed failed : PromotionOutboxState

abbrev pub same_state : PromotionOutboxState → PromotionOutboxState → Bool
same_state pending s = elim s [ pending ↦ true | _ ↦ false ]
same_state processing s = elim s [ processing ↦ true | _ ↦ false ]
same_state completed s = elim s [ completed ↦ true | _ ↦ false ]
same_state failed s = elim s [ failed ↦ true | _ ↦ false ]

pub record PromotionOutboxRecord (P : Type 0) : Type 0 where
  pub outbox_id : String
  pub state : PromotionOutboxState
  pub attempts : ℕ
  pub last_error : Option String
  pub created_at : String
  pub updated_at : String
  pub payload : P

abbrev pub any_state : List PromotionOutboxState → PromotionOutboxState → Bool
any_state [] s = false
any_state (t ∷ states) s = let rest = any_state states s in if same_state t s then true else rest

-- `Math.max(1, input.limit ?? 50)`
abbrev pub list_limit : Option ℕ → ℕ
list_limit none = 50
list_limit (some zero) = 1
list_limit (some (suc n)) = suc n

module _ {P : Type 0} where
  -- `SELECT ... WHERE outbox_id = ?`
  unfoldable pub get_promotion_outbox_entry :
      List (PromotionOutboxRecord P) → String → Option (PromotionOutboxRecord P)
  get_promotion_outbox_entry rows id = find (λ row. row.outbox_id == id) rows

  -- `INSERT ... ON CONFLICT(outbox_id) DO UPDATE`
  unfoldable pub upsert_row :
      List (PromotionOutboxRecord P) → PromotionOutboxRecord P → List (PromotionOutboxRecord P)
  upsert_row [] row = row ∷ []
  upsert_row (r ∷ rows) row =
      if r.outbox_id == row.outbox_id then row ∷ rows else r ∷ upsert_row rows row

  -- The new table and the record that is returned; `now` is the clock.
  unfoldable pub enqueue_promotion_outbox :
      List (PromotionOutboxRecord P)
      → String
      → String
      → P
      → List (PromotionOutboxRecord P) × PromotionOutboxRecord P
  unfolding upsert_row
  enqueue_promotion_outbox rows now outbox_id payload =
      let row : PromotionOutboxRecord P = record {
        outbox_id = outbox_id;
        state = pending;
        attempts = 0;
        last_error = none;
        created_at = now;
        updated_at = now;
        payload = payload;
      } in
      (upsert_row rows row, row)

  -- `UPDATE ... WHERE outbox_id = ?`
  unfoldable pub update_row :
      String
      → (PromotionOutboxRecord P → PromotionOutboxRecord P)
      → List (PromotionOutboxRecord P)
      → List (PromotionOutboxRecord P)
  update_row id change [] = []
  update_row id change (row ∷ rows) =
      (if row.outbox_id == id then change row else row) ∷ update_row id change rows

  -- `WHERE state IN (...)`, left out where no states are given
  abbrev pub in_states : List PromotionOutboxState → PromotionOutboxRecord P → Bool
  in_states [] row = true
  in_states (s ∷ states) row = any_state (s ∷ states) row.state

  unfoldable pub list_promotion_outbox_entries :
      List (PromotionOutboxRecord P)
      → List PromotionOutboxState
      → Option ℕ
      → List (PromotionOutboxRecord P)
  unfolding sort_by binary_le
  list_promotion_outbox_entries rows states limit =
      take (list_limit limit)
        (sort_by (λ r s. binary_le r.created_at s.created_at) (filter (in_states states) rows))

  abbrev pub claimed : String → PromotionOutboxRecord P → PromotionOutboxRecord P
  claimed now row = record row {
    state = processing;
    attempts = row.attempts + 1;
    last_error = none;
    updated_at = now;
  }

  unfoldable pub claim_found :
      List (PromotionOutboxRecord P)
      → String
      → String
      → Option (PromotionOutboxRecord P)
      → List (PromotionOutboxRecord P) × Option (PromotionOutboxRecord P)
  unfolding update_row
  claim_found rows now id none = (rows, none)
  claim_found rows now id (some row) =
      if same_state completed row.state
      then (rows, none)
      else (update_row id (claimed now) rows, some (claimed now row))

  -- One transaction: the new table, and the claimed record.
  unfoldable pub claim_promotion_outbox_entry :
      List (PromotionOutboxRecord P)
      → String
      → String
      → List (PromotionOutboxRecord P) × Option (PromotionOutboxRecord P)
  unfolding claim_found get_promotion_outbox_entry
  claim_promotion_outbox_entry rows now id =
      claim_found rows now id (get_promotion_outbox_entry rows id)

  unfoldable pub complete_promotion_outbox_entry :
      List (PromotionOutboxRecord P) → String → String → List (PromotionOutboxRecord P)
  unfolding update_row
  complete_promotion_outbox_entry rows now id =
      update_row id (λ row. record row { state = completed; last_error = none; updated_at = now })
        rows

  unfoldable pub fail_promotion_outbox_entry :
      List (PromotionOutboxRecord P) → String → String → String → List (PromotionOutboxRecord P)
  unfolding update_row
  fail_promotion_outbox_entry rows now id error =
      update_row id
        (λ row. record row { state = failed; last_error = some error; updated_at = now }) rows
