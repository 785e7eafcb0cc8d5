-- ===== src/Promotion/Outbox/Laws.antt =====
-- What the statements on the outbox change, and what they leave.
use multi_agent_brain.Common.{
  String, ◌≡◌, refl, ap, ◌∙◌, inl, inr, Bool, true, false, some, List, [], ◌∷◌, arith, string_eq,
  ◌==◌, ==_eq, ==_refl, Bool-cases, find,
}
use mathlib.Core.Option.{some-injective}
use multi_agent_brain.Promotion.Outbox.{
  PromotionOutboxRecord, get_promotion_outbox_entry, upsert_row, update_row,
}

find_first :
    {A : Type 0} (p : A → Bool) (x : A) (xs : List A) → p x ≡ true → find p (x ∷ xs) ≡ some x
find_first p x xs h = rw h refl

module _ {P : Type 0} where
  pub get_update_same :
      (rows : List (PromotionOutboxRecord P)) (id : String)
      (change : PromotionOutboxRecord P → PromotionOutboxRecord P) {row : PromotionOutboxRecord P}
      → ((r : PromotionOutboxRecord P) → (change r).outbox_id ≡ r.outbox_id)
      → get_promotion_outbox_entry rows id ≡ some row
      → get_promotion_outbox_entry (update_row id change rows) id ≡ some (change row)
  unfolding get_promotion_outbox_entry update_row
  get_update_same [] id change keeps h = cc
  get_update_same (r ∷ rows) id change {row} keeps h = elim (Bool-cases (r.outbox_id == id)) [
    | inl same ↦
        let found : r ≡ row = some-injective _ _ (rw same at h) in
        rw same (
          find_first (λ x. x.outbox_id == id) (change r) (update_row id change rows)
            (ap (λ o. o == id) (keeps r) ∙ same)
          ∙ ap (λ x. some (change x)) found)
    | inr other ↦ rw (other, other) (get_update_same rows id change keeps (rw other at h))
  ]

  pub get_update_other :
      (rows : List (PromotionOutboxRecord P)) (id j : String)
      (change : PromotionOutboxRecord P → PromotionOutboxRecord P)
      → ((r : PromotionOutboxRecord P) → (change r).outbox_id ≡ r.outbox_id)
      → (id == j) ≡ false
      → get_promotion_outbox_entry (update_row id change rows) j ≡ get_promotion_outbox_entry rows j
  unfolding get_promotion_outbox_entry update_row
  get_update_other [] id j change keeps h = refl
  get_update_other (r ∷ rows) id j change keeps h = elim (Bool-cases (r.outbox_id == id)) [
    | inl same ↦
        let e : r.outbox_id ≡ id = ==_eq same in
        rw (same, keeps r, e, h) (get_update_other rows id j change keeps h)
    | inr other ↦ rw other (ground (arith, get_update_other rows id j change keeps h))
  ]

  pub get_upsert_same :
      (rows : List (PromotionOutboxRecord P)) (row : PromotionOutboxRecord P)
      → get_promotion_outbox_entry (upsert_row rows row) row.outbox_id ≡ some row
  unfolding get_promotion_outbox_entry upsert_row
  get_upsert_same [] row = rw (==_refl row.outbox_id) refl
  get_upsert_same (r ∷ rows) row = elim (Bool-cases (r.outbox_id == row.outbox_id)) [
    | inl same ↦ rw (same, ==_refl row.outbox_id) refl
    | inr other ↦ rw (other, other) (get_upsert_same rows row)
  ]

  pub get_upsert_other :
      (rows : List (PromotionOutboxRecord P)) (row : PromotionOutboxRecord P) (j : String)
      → (row.outbox_id == j) ≡ false
      → get_promotion_outbox_entry (upsert_row rows row) j ≡ get_promotion_outbox_entry rows j
  unfolding get_promotion_outbox_entry upsert_row
  get_upsert_other [] row j h = rw h refl
  get_upsert_other (r ∷ rows) row j h = elim (Bool-cases (r.outbox_id == row.outbox_id)) [
    | inl same ↦ let e : r.outbox_id ≡ row.outbox_id = ==_eq same in rw (same, h, e, h) refl
    | inr other ↦ rw other (ground (arith, get_upsert_other rows row j h))
  ]
