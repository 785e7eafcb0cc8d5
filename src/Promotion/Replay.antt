-- ===== src/Promotion/Replay.antt =====
-- `replayPendingPromotions` of
-- packages/application/src/services/promotion-orchestrator-service.ts.
pub mod Laws
use multi_agent_brain.Common.{ℕ, String, Option, none, some, List, [], ◌∷◌, ◌++◌, or_else}
use multi_agent_brain.Common.Results.{Result, ok, err}
use multi_agent_brain.Promotion.Outbox.{
  PromotionOutboxState, pending, failed, processing, list_promotion_outbox_entries,
}
use multi_agent_brain.Promotion.Process.{
  Row, PromotionPorts, PromotionState, ProcessedPromotionResult, ProcessError,
  process_promotion_outbox_entry,
}

pub record ReplayReport : Type 0 where
  pub processed_outbox_ids : List String
  pub failed_outbox_ids : List String

abbrev pub empty_report : ReplayReport
empty_report = record { processed_outbox_ids = []; failed_outbox_ids = [] }

abbrev pub report_entry :
    String → Result ProcessError ProcessedPromotionResult → ReplayReport → ReplayReport
report_entry id (ok r) report = record report {
  processed_outbox_ids = report.processed_outbox_ids ++ id ∷ [];
}
report_entry id (err e) report = record report {
  failed_outbox_ids = report.failed_outbox_ids ++ id ∷ [];
}

abbrev pub unfinished_states : List PromotionOutboxState
unfinished_states = pending ∷ failed ∷ processing ∷ []

-- `now` is the clock and `new_id` is `randomUUID()`.
module _ {W E : Type 0} (ports : PromotionPorts W E) (now new_id : String) where
  unfoldable pub replay_entries :
      List Row → PromotionState W → ReplayReport → PromotionState W × ReplayReport
  unfolding process_promotion_outbox_entry
  replay_entries [] s report = (s, report)
  replay_entries (queued ∷ entries) s report =
      let (after, r) = process_promotion_outbox_entry ports now new_id queued.outbox_id s in
      replay_entries entries after (report_entry queued.outbox_id r report)

  unfoldable pub replay_pending_promotions :
      Option ℕ → PromotionState W → PromotionState W × ReplayReport
  unfolding replay_entries list_promotion_outbox_entries
  replay_pending_promotions limit s =
      replay_entries
        (list_promotion_outbox_entries s.outbox unfinished_states (some (or_else limit 25))) s
        empty_report
