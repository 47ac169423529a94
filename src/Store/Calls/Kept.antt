-- ===== src/Store/Calls/Kept.antt =====
-- The operations of the store that a pass makes, in a relation that every statement respects.
use general_webhook.Base.{ℕ, ℤ, String, Bool, true, ◌≡◌}
use general_webhook.Store.Rows.{EventStatus, is_terminal}
use general_webhook.Store.Tx.Relation.{Change, Moves}
use general_webhook.Store.Claim.{claim_pending}
use general_webhook.Store.Requeue.{requeue_expired_leases, requeue_event}
use general_webhook.Store.Action.{
  prepare_event, start_action, complete_action, schedule_action_retry, dead_action, expire_action,
  refresh_event_status,
}
use general_webhook.Store.Replay.{update_event_status, clear_payload}
use general_webhook.Store.Calls.Steps.{Steps}
use general_webhook.Store.Calls.Parts

module _ {R : Change} (s : Steps R) where
  pub claim_pending-Moves :
      (lease : ℤ) (now : ℕ) (owner : String) → Moves R (claim_pending lease now owner)
  claim_pending-Moves lease now owner =
      Parts.claim_pending-Moves lease now owner (λ id. s.on_take_lease id _ _ _) s.on_unstart

  pub requeue_expired_leases-Moves : (now : ℕ) → Moves R (requeue_expired_leases now)
  unfolding requeue_expired_leases
  requeue_expired_leases-Moves now =
      Parts.requeue_processing-Moves _ s.on_unstart_within (s.on_requeued _)

  pub requeue_event-Moves : (id : String) → Moves R (requeue_event id)
  requeue_event-Moves id = Parts.requeue_event-Moves id (s.on_requeued_one id) (s.on_unstart id)

  pub prepare_event-Moves :
      (id vars : String) (n : ℕ) (clear : Bool) (now : ℕ)
      → Moves R (prepare_event id vars n clear now)
  prepare_event-Moves id vars n clear now =
      Parts.prepare_event-Moves id vars n clear now (s.on_with_vars id vars)
        (λ i. s.on_insert_action id i _) (s.on_drop_payload id)

  pub start_action-Moves : (id : String) (index now : ℕ) → Moves R (start_action id index now)
  start_action-Moves id index now =
      Parts.start_action-Moves id index now (s.on_start_row id index _)

  pub complete_action-Moves : (id : String) (index now : ℕ) → Moves R (complete_action id index now)
  unfolding complete_action
  complete_action-Moves id index now = Parts.updated-Moves id index _ (s.on_completed id index _)

  pub schedule_action_retry-Moves :
      (id : String) (index next : ℕ) (detail : String) (retry_after : ℕ)
      → Moves R (schedule_action_retry id index next detail retry_after)
  unfolding schedule_action_retry
  schedule_action_retry-Moves id index next detail retry_after =
      Parts.updated-Moves id index _ (s.on_rescheduled id index _ _ _)

  pub dead_action-Moves :
      (id : String) (index : ℕ) (detail : String) (now : ℕ)
      → Moves R (dead_action id index detail now)
  unfolding dead_action
  dead_action-Moves id index detail now = Parts.updated-Moves id index _ (s.on_killed id index _ _)

  pub expire_action-Moves : (id : String) (index now : ℕ) → Moves R (expire_action id index now)
  expire_action-Moves id index now =
      Parts.expire_action-Moves id index now (s.on_expired id index _ _)

  pub refresh_event_status-Moves : (id : String) (now : ℕ) → Moves R (refresh_event_status id now)
  refresh_event_status-Moves id now =
      Parts.refresh_event_status-Moves id now (λ t. s.on_judged id t _)

  pub update_event_status-Moves :
      (id : String) (status : EventStatus) (now : ℕ)
      → is_terminal status ≡ true
      → Moves R (update_event_status id status now)
  update_event_status-Moves id status now t =
      Parts.update_event_status-Moves id status now (s.on_marked id status _ t)

  pub clear_payload-Moves : (id : String) → Moves R (clear_payload id)
  clear_payload-Moves id = Parts.clear_payload-Moves id (s.on_drop_payload id)
