-- ===== src/Store/Calls/Steps.antt =====
-- The statements of the store, as the walk through its calls meets them.
use general_webhook.Base.{ℕ, String, Bool, true, ◌≡◌, ◌&&◌}
use general_webhook.Store.Rows.{
  EventStatus, EventRow, GuardRow, Db, is_processing, is_terminal, is_running, is_startable,
  is_dead, has_id, of_event, at_index,
}
use general_webhook.Store.Tx.{update_events, update_actions}
use general_webhook.Store.Tx.Relation.{Change, Moves}
use general_webhook.Store.Accept.{
  NewEvent, new_row, insert_event, insert_guard, delete_expired_guard,
}
use general_webhook.Store.Claim.{claimable, take_lease, with_lease, unstart, running_of, owned_by}
use general_webhook.Store.Requeue.{requeued, requeue_orphans, unstart_within}
use general_webhook.Store.Action.{
  Tally, with_vars, drop_payload, insert_action, start_row, completed, rescheduled, killed, verdict,
  judged,
}
use general_webhook.Store.Replay.{
  revived, replayed, marked, delete_logs_within, delete_actions_within, delete_events,
  delete_guards_before, delete_heartbeats_before,
}
use general_webhook.Store.Heartbeats.{HeartbeatLog, insert_heartbeat}
use general_webhook.Store.Snapshots.{rewrite_row}
use general_webhook.Store.Audit.{Attempt, save_action_attempt_log, toggle_nonce}

-- The statement relates any database to the one that it leaves.
abbrev pub Respects : {A : Type 0} → Change → (Db → A × Db) → Type 0
Respects R f = (d : Db) → R.rel d (f d).1

-- The statements of every call but PurgeOlderThan and SaveActionAttemptLog.
pub record Steps (R : Change) : Type 0 where
  pub on_insert_event : (e : NewEvent) → Respects R (insert_event (new_row e))
  pub on_insert_guard : (g : GuardRow) → Respects R (insert_guard g)
  pub on_delete_expired_guard : (s b : String) (t : ℕ) → Respects R (delete_expired_guard s b t)
  pub on_insert_action :
      (id : String) (index now_ms : ℕ) → Respects R (insert_action id index now_ms)
  pub on_take_lease :
      (id : String) (now_ms until_ms : ℕ) (owner : String)
      → Respects R
          (update_events (λ r. has_id id r && claimable now_ms r) (take_lease until_ms owner))
  pub on_with_lease :
      (id : String) (until_ms : ℕ) (owner : String)
      → Respects R (
          update_events
            (λ r. has_id id r && (is_processing r.status && owned_by owner r.lease_owner))
            (with_lease until_ms))
  pub on_requeued :
      (p : EventRow → Bool)
      → Respects R (update_events (λ r. is_processing r.status && p r) requeued)
  pub on_requeued_one :
      (id : String)
      → Respects R (update_events (λ r. has_id id r && is_processing r.status) requeued)
  pub on_requeue_orphans : Respects R requeue_orphans
  pub on_unstart : (id : String) → Respects R (update_actions (running_of id) unstart)
  pub on_unstart_within : (p : EventRow → Bool) → Respects R (unstart_within p)
  pub on_with_vars :
      (id vars : String)
      → Respects R (update_events (λ r. has_id id r && is_processing r.status) (with_vars vars))
  pub on_drop_payload : (id : String) → Respects R (update_events (has_id id) drop_payload)
  pub on_judged :
      (id : String) (t : Tally) (now_ms : ℕ)
      → Respects R (update_events (has_id id) (judged (verdict t now_ms)))
  pub on_replayed :
      (id reason : String) (now_ms generation : ℕ)
      → Respects R (update_events (has_id id) (replayed reason now_ms generation))
  pub on_marked :
      (id : String) (status : EventStatus) (at_ms : ℕ)
      → is_terminal status ≡ true
      → Respects R (update_events (has_id id) (marked status at_ms))
  pub on_start_row : (id : String) (index now_ms : ℕ) → Respects R (start_row id index now_ms)
  pub on_completed :
      (id : String) (index now_ms : ℕ)
      → Respects R
          (update_actions (λ a. at_index id index a && is_running a.status) (completed now_ms))
  pub on_rescheduled :
      (id : String) (index next_ms : ℕ) (detail : String) (retry_after_ms : ℕ)
      → Respects R (
          update_actions
            (λ a. at_index id index a && is_running a.status)
            (rescheduled next_ms detail retry_after_ms))
  pub on_killed :
      (id : String) (index : ℕ) (detail : String) (now_ms : ℕ)
      → Respects R
          (update_actions (λ a. at_index id index a && is_running a.status) (killed detail now_ms))
  pub on_expired :
      (id : String) (index : ℕ) (detail : String) (now_ms : ℕ)
      → Respects R (
          update_actions (λ a. at_index id index a && is_startable a.status) (killed detail now_ms))
  pub on_revived :
      (id : String) (now_ms : ℕ)
      → Respects R (update_actions (λ a. of_event id a && is_dead a.status) (revived now_ms))
  pub on_toggle_nonce : Respects R toggle_nonce
  pub on_rewrite_row : (id raw updated : String) → Respects R (rewrite_row id raw updated)
  pub on_insert_heartbeat :
      (text : String → ℕ → String) (origin : String → String) (e : HeartbeatLog)
      → Respects R (insert_heartbeat text origin e)

-- The statements of PurgeOlderThan, which delete rows.
pub record Purges (R : Change) : Type 0 where
  pub on_delete_logs : (p : EventRow → Bool) → Respects R (delete_logs_within p)
  pub on_delete_actions : (p : EventRow → Bool) → Respects R (delete_actions_within p)
  pub on_delete_events : (p : EventRow → Bool) → Respects R (delete_events p)
  pub on_delete_guards : (t : ℕ) → Respects R (delete_guards_before t)
  pub on_delete_heartbeats : (t : ℕ) → Respects R (delete_heartbeats_before t)

-- SaveActionAttemptLog reads whether the event exists before it writes the log.
abbrev pub Audits : Change → Type 0
Audits R = (id : String) (e : Attempt) → Moves R (save_action_attempt_log id e)
