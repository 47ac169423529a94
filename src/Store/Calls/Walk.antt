-- ===== src/Store/Calls/Walk.antt =====
-- The walk through the calls: a relation between databases that the statements of a call respect, the
-- call respects.
use general_webhook.Base.{ℕ, ◌+◌, String, Bool, true, ◌&&◌}
use general_webhook.Store.Rows.{
  EventRow, GuardRow, is_processing, is_running, is_startable, is_dead, has_id, of_event, at_index,
}
use general_webhook.Store.Tx.{update_events, update_actions}
use general_webhook.Store.Tx.Relation.{Change, Moves, Moves-ignoring, Moves-statement, moves_rules}
use general_webhook.Store.Accept.{new_row, insert_event, insert_guard, delete_expired_guard}
use general_webhook.Store.Claim.{
  unix_milli, lease_or_default, claimable, take_lease, with_lease, unstart, running_of, owned_by,
}
use general_webhook.Store.Requeue.{
  requeued, requeue_orphans, unstart_within, is_expired, requeue_expired_leases,
  requeue_all_processing,
}
use general_webhook.Store.Action.{
  Tally, with_vars, drop_payload, insert_action, start_row, completed, rescheduled, killed, verdict,
  judged, complete_action, schedule_action_retry, dead_action,
}
use general_webhook.Store.Replay.{
  revived, replayed, marked, purgeable, delete_logs_within, delete_actions_within, delete_events,
  delete_guards_before, delete_heartbeats_before,
}
use general_webhook.Store.Heartbeats.{insert_heartbeat, save_heartbeat_error}
use general_webhook.Store.Snapshots.{rewrite_row}
use general_webhook.Store.Audit.{save_action_attempt_log, toggle_nonce, ready_check}
use general_webhook.Store.Calls.{
  Call, saves, claims, renews, requeues_expired, requeues_all, requeues, prepares, starts,
  completes, expires, reschedules, kills, refreshes, replays, marks, clears, purges, audits, probes,
  rewrites, beats, perform,
}
use general_webhook.Store.Calls.Steps.{Respects, Steps, Purges, Audits}
use general_webhook.Store.Calls.Parts

-- The statements of a call, as the relation has to respect them.
abbrev pub Needs : Change → Call → Type 0
Needs R (saves e t) =
    Respects R (insert_event (new_row e))
    × ((g : GuardRow) → Respects R (insert_guard g))
    × Respects R (delete_expired_guard e.source e.body_sha256 e.at_ms)
Needs R (claims lease now owner) =
    ((id : String)
      → Respects R (
          update_events (λ r. has_id id r && claimable (unix_milli now) r)
            (take_lease (unix_milli (now + lease_or_default lease)) owner)))
    × ((id : String) → Respects R (update_actions (running_of id) unstart))
Needs R (renews id lease now owner) = Respects R (
    update_events (λ r. has_id id r && (is_processing r.status && owned_by owner r.lease_owner))
      (with_lease (unix_milli (now + lease_or_default lease))))
Needs R (requeues_expired now) =
    ((p : EventRow → Bool) → Respects R (unstart_within p))
    × Respects R
        (update_events (λ r. is_processing r.status && is_expired (unix_milli now) r) requeued)
Needs R requeues_all =
    ((p : EventRow → Bool) → Respects R (unstart_within p))
    × Respects R (update_events (λ r. is_processing r.status && true) requeued)
    × Respects R requeue_orphans
Needs R (requeues id) =
    Respects R (update_events (λ r. has_id id r && is_processing r.status) requeued)
    × Respects R (update_actions (running_of id) unstart)
Needs R (prepares id vars n clear now) =
    Respects R (update_events (λ r. has_id id r && is_processing r.status) (with_vars vars))
    × ((i : ℕ) → Respects R (insert_action id i (unix_milli now)))
    × Respects R (update_events (has_id id) drop_payload)
Needs R (starts id index now) = Respects R (start_row id index (unix_milli now))
Needs R (completes id index now) =
    Respects R (
      update_actions (λ a. at_index id index a && is_running a.status) (completed (unix_milli now)))
Needs R (expires id index now) = Respects R (
    update_actions (λ a. at_index id index a && is_startable a.status)
      (killed "maximum retry age exceeded" (unix_milli now)))
Needs R (reschedules id index next detail asked) = Respects R (
    update_actions (λ a. at_index id index a && is_running a.status)
      (rescheduled (unix_milli next) detail (unix_milli asked)))
Needs R (kills id index detail now) = Respects R (
    update_actions (λ a. at_index id index a && is_running a.status)
      (killed detail (unix_milli now)))
Needs R (refreshes id now) =
    (t : Tally) → Respects R (update_events (has_id id) (judged (verdict t (unix_milli now))))
Needs R (replays id reason now) =
    Respects R (update_actions (λ a. of_event id a && is_dead a.status) (revived (unix_milli now)))
    × ((n : ℕ) → Respects R (update_events (has_id id) (replayed reason (unix_milli now) n)))
Needs R (marks id status now) =
    Respects R (update_events (has_id id) (marked status (unix_milli now)))
Needs R (clears id) = Respects R (update_events (has_id id) drop_payload)
Needs R (purges cutoff now) =
    ((p : EventRow → Bool) → Respects R (delete_logs_within p))
    × Respects R (delete_actions_within (purgeable (unix_milli cutoff)))
    × Respects R (delete_events (purgeable (unix_milli cutoff)))
    × Respects R (delete_guards_before (unix_milli now))
    × ((t : ℕ) → Respects R (delete_heartbeats_before t))
Needs R (audits id e) = Moves R (save_action_attempt_log id e)
Needs R probes = Respects R toggle_nonce
Needs R (rewrites rewrite canceled fuel) =
    (id raw updated : String) → Respects R (rewrite_row id raw updated)
Needs R (beats text origin e) = Respects R (insert_heartbeat text origin e)

-- A call, whatever statement of it fails.
pub perform-Moves : {R : Change} (c : Call) → Needs R c → Moves R (perform c)
unfolding perform requeue_expired_leases requeue_all_processing complete_action
    schedule_action_retry dead_action ready_check save_heartbeat_error
perform-Moves (saves e t) h = Moves-ignoring _ (Parts.save_pending_event_at-Moves e t h.0 h.1 h.2)
perform-Moves (claims lease now owner) h =
    Moves-ignoring _ (Parts.claim_pending-Moves lease now owner h.0 h.1)
perform-Moves (renews id lease now owner) h =
    Moves-ignoring _ (Parts.renew_lease-Moves id lease now owner h)
perform-Moves (requeues_expired now) h = Moves-ignoring _ (Parts.requeue_processing-Moves _ h.0 h.1)
perform-Moves requeues_all h = Moves-ignoring _ (Parts.requeue_all-Moves _ h.0 h.1 h.2)
perform-Moves (requeues id) h = Moves-ignoring _ (Parts.requeue_event-Moves id h.0 h.1)
perform-Moves (prepares id vars n clear now) h =
    Moves-ignoring _ (Parts.prepare_event-Moves id vars n clear now h.0 h.1 h.2)
perform-Moves (starts id index now) h = Moves-ignoring _ (Parts.start_action-Moves id index now h)
perform-Moves (completes id index now) h = Moves-ignoring _ (Parts.updated-Moves id index _ h)
perform-Moves (expires id index now) h = Moves-ignoring _ (Parts.expire_action-Moves id index now h)
perform-Moves (reschedules id index next detail asked) h =
    Moves-ignoring _ (Parts.updated-Moves id index _ h)
perform-Moves (kills id index detail now) h = Moves-ignoring _ (Parts.updated-Moves id index _ h)
perform-Moves (refreshes id now) h = Moves-ignoring _ (Parts.refresh_event_status-Moves id now h)
perform-Moves (replays id reason now) h =
    Moves-ignoring _ (Parts.replay_dead_event-Moves id reason now h.0 h.1)
perform-Moves (marks id status now) h =
    Moves-ignoring _ (Parts.update_event_status-Moves id status now h)
perform-Moves (clears id) h = Moves-ignoring _ (Parts.clear_payload-Moves id h)
perform-Moves (purges cutoff now) h =
    Moves-ignoring _ (Parts.purge_older_than-Moves cutoff now h.0 h.1 h.2 h.3 h.4)
perform-Moves (audits id e) h = Moves-ignoring _ h
perform-Moves probes h = Moves-ignoring _ (search (moves_rules, h) depth 12)
perform-Moves (rewrites rewrite canceled fuel) h =
    Moves-ignoring _ (Parts.rewrite_action_snapshots-Moves rewrite canceled h fuel)
perform-Moves (beats text origin e) h = Moves-ignoring _ (Moves-statement _ h)

-- What is left to say of two calls: of the purge, which deletes rows, and of UpdateEventStatus, which
-- takes any status.
abbrev pub Extra : Change → Call → Type 0
Extra R (purges cutoff now) = Purges R
Extra R (marks id status now) =
    Respects R (update_events (has_id id) (marked status (unix_milli now)))
Extra R _ = Unit

module _ {R : Change} (s : Steps R) (audit : Audits R) where
  -- The statements of a call, if all the statements of the store are respected.
  needed : (c : Call) → Extra R c → Needs R c
  needed (saves e t) x = (s.on_insert_event e, s.on_insert_guard, s.on_delete_expired_guard _ _ _)
  needed (claims lease now owner) x = ((λ id. s.on_take_lease id _ _ _), s.on_unstart)
  needed (renews id lease now owner) x = s.on_with_lease id _ owner
  needed (requeues_expired now) x = (s.on_unstart_within, s.on_requeued _)
  needed requeues_all x = (s.on_unstart_within, s.on_requeued _, s.on_requeue_orphans)
  needed (requeues id) x = (s.on_requeued_one id, s.on_unstart id)
  needed (prepares id vars n clear now) x =
      (s.on_with_vars id vars, (λ i. s.on_insert_action id i _), s.on_drop_payload id)
  needed (starts id index now) x = s.on_start_row id index _
  needed (completes id index now) x = s.on_completed id index _
  needed (expires id index now) x = s.on_expired id index _ _
  needed (reschedules id index next detail asked) x = s.on_rescheduled id index _ _ _
  needed (kills id index detail now) x = s.on_killed id index _ _
  needed (refreshes id now) x = λ t. s.on_judged id t _
  needed (replays id reason now) x = (s.on_revived id _, (λ n. s.on_replayed id _ _ n))
  needed (marks id status now) x = x
  needed (clears id) x = s.on_drop_payload id
  needed (purges cutoff now) x = (
    x.on_delete_logs,
    x.on_delete_actions _,
    x.on_delete_events _,
    x.on_delete_guards _,
    x.on_delete_heartbeats,
  )
  needed (audits id e) x = audit id e
  needed probes x = s.on_toggle_nonce
  needed (rewrites rewrite canceled fuel) x = s.on_rewrite_row
  needed (beats text origin e) x = s.on_insert_heartbeat text origin e

  pub perform_any-Moves : (c : Call) → Extra R c → Moves R (perform c)
  perform_any-Moves c x = perform-Moves c (needed c x)
