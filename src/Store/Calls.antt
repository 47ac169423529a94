-- ===== src/Store/Calls.antt =====
-- Histories of calls of the store. A call is any operation that can change the database, with its
-- arguments.
pub mod Steps
pub mod Parts
pub mod Walk
pub mod Kept
pub mod Calm
use general_webhook.Base.{ℕ, ℤ, String, Bool, Option, List, [], ◌∷◌, true, false, All}
use general_webhook.Store.Rows.{EventStatus, Db, is_terminal}
use general_webhook.Store.Tx.{World, Tx, ignoring}
use general_webhook.Store.Tx.Relation.{Change, Moves}
use general_webhook.Store.Accept.{NewEvent, save_pending_event_at}
use general_webhook.Store.Claim.{claim_pending, renew_lease}
use general_webhook.Store.Requeue.{requeue_expired_leases, requeue_all_processing, requeue_event}
use general_webhook.Store.Action.{
  prepare_event, start_action, complete_action, schedule_action_retry, dead_action, expire_action,
  refresh_event_status,
}
use general_webhook.Store.Replay.{
  replay_dead_event, update_event_status, clear_payload, purge_older_than,
}
use general_webhook.Store.Heartbeats.{HeartbeatLog, save_heartbeat_error}
use general_webhook.Store.Snapshots.{rewrite_action_snapshots}
use general_webhook.Store.Audit.{Attempt, save_action_attempt_log, ready_check}

pub data Call : Type 0 where
  saves : NewEvent → Option ℕ → Call
  claims : ℤ → ℕ → String → Call
  renews : String → ℤ → ℕ → String → Call
  requeues_expired : ℕ → Call
  requeues_all : Call
  requeues : String → Call
  prepares : String → String → ℕ → Bool → ℕ → Call
  starts completes expires : String → ℕ → ℕ → Call
  reschedules : String → ℕ → ℕ → String → ℕ → Call
  kills : String → ℕ → String → ℕ → Call
  refreshes : String → ℕ → Call
  replays : String → String → ℕ → Call
  marks : String → EventStatus → ℕ → Call
  clears : String → Call
  purges : ℕ → ℕ → Call
  audits : String → Attempt → Call
  probes : Call
  rewrites : (String → Option String) → (String → Bool) → ℕ → Call
  beats : (String → ℕ → String) → (String → String) → HeartbeatLog → Call

abbrev pub is_purge : Call → Bool
is_purge (purges cutoff now) = true
is_purge _ = false

-- The status that UpdateEventStatus is called with is terminal, as in the queue.
abbrev pub is_proper : Call → Bool
is_proper (marks id status now) = is_terminal status
is_proper _ = true

-- The call, whatever it answers.
unfoldable pub perform : Call → Tx Unit
perform (saves e expires_at_ms) = ignoring (save_pending_event_at e expires_at_ms)
perform (claims lease now owner) = ignoring (claim_pending lease now owner)
perform (renews id lease now owner) = ignoring (renew_lease id lease now owner)
perform (requeues_expired now) = ignoring (requeue_expired_leases now)
perform requeues_all = ignoring requeue_all_processing
perform (requeues id) = ignoring (requeue_event id)
perform (prepares id vars n clear now) = ignoring (prepare_event id vars n clear now)
perform (starts id index now) = ignoring (start_action id index now)
perform (completes id index now) = ignoring (complete_action id index now)
perform (expires id index now) = ignoring (expire_action id index now)
perform (reschedules id index next detail retry_after) =
    ignoring (schedule_action_retry id index next detail retry_after)
perform (kills id index detail now) = ignoring (dead_action id index detail now)
perform (refreshes id now) = ignoring (refresh_event_status id now)
perform (replays id reason now) = ignoring (replay_dead_event id reason now)
perform (marks id status now) = ignoring (update_event_status id status now)
perform (clears id) = ignoring (clear_payload id)
perform (purges cutoff now) = ignoring (purge_older_than cutoff now)
perform (audits id attempt) = ignoring (save_action_attempt_log id attempt)
perform probes = ignoring ready_check
perform (rewrites rewrite canceled fuel) = ignoring (rewrite_action_snapshots rewrite canceled fuel)
perform (beats text origin e) = ignoring (save_heartbeat_error text origin e)

unfoldable pub run_calls : List Call → World → World
run_calls [] w = w
run_calls (c ∷ cs) w = run_calls cs (perform c w).1

-- What holds of every call of a history holds of the history.
pub run_calls-rel :
    (R : Change) (cs : List Call)
    → All (λ c. Moves R (perform c)) cs
    → (w : World) → R.rel w.db (run_calls cs w).db
unfolding run_calls
run_calls-rel R [] steps w = R.stays w.db
run_calls-rel R (c ∷ cs) steps w =
    R.chain _ _ _ (steps.0.at w) (run_calls-rel R cs steps.1 (perform c w).1)
