-- ===== src/Store/Calls/Parts.antt =====
-- The operations of the store, each with the statements that it makes: a relation between databases
-- that those statements respect, the operation respects.
use general_webhook.Base.{
  ℕ, zero, suc, ◌+◌, ℤ, String, Bool, true, false, Option, none, some, List, [], ◌∷◌, ◌&&◌, str_eq,
}
use general_webhook.Store.Rows.{
  EventStatus, EventRow, ActionRow, GuardRow, is_processing, is_running, is_startable, is_dead,
  has_id, of_event, at_index,
}
use general_webhook.Store.Tx.{Tx, Result, ok, err, update_events, update_actions}
use general_webhook.Store.Tx.Relation.{
  Change, Moves, Moves-pure, Moves-if, Moves-option, Moves-bind, Moves-caught, Moves-statement,
  Moves-transact, Moves-require, moves_rules,
}
use general_webhook.Store.Accept.{
  NewEvent, new_row, insert_event, insert_guard, delete_expired_guard, reserve_body,
  save_pending_event_at,
}
use general_webhook.Store.Claim.{
  unix_milli, lease_or_default, claimable, take_lease, with_lease, unstart, running_of, owned_by,
  claim_pending, renew_lease,
}
use general_webhook.Store.Requeue.{
  requeued, requeue_orphans, unstart_within, recover, requeue_processing, requeue_event,
}
use general_webhook.Store.Action.{
  Tally, with_vars, drop_payload, insert_action, insert_actions, clear_if, prepare_event, verdict,
  judged, refresh_event_status, start_row, start_action, update_running_action, killed,
  expire_action,
}
use general_webhook.Store.Replay.{
  revived, replayed, marked, or_not_retryable, replay_dead_event, update_event_status,
  clear_payload, purgeable, delete_logs_within, delete_actions_within, delete_events,
  delete_guards_before, delete_heartbeats_before, purge_older_than,
}
use general_webhook.Store.Snapshots.{
  Progress, goes_on, fails_at, Rewritten, rewrite_row, rewrite_rows, rewrite_batches, after_update,
  after_rows, after_batch, rewrite_action_snapshots,
}
use general_webhook.Store.Calls.Steps.{Respects}

or_not_retryable-Moves : {R : Change} (o : Option EventRow) → Moves R (or_not_retryable o)
unfolding or_not_retryable
or_not_retryable-Moves none = search moves_rules
or_not_retryable-Moves (some r) = search moves_rules

module _ {R : Change} where
  reserve_body-Moves :
      (e : NewEvent) (t : Option ℕ)
      → ((g : GuardRow) → Respects R (insert_guard g))
      → Respects R (delete_expired_guard e.source e.body_sha256 e.at_ms)
      → Moves R (reserve_body e t)
  unfolding reserve_body
  reserve_body-Moves e none insert delete = search moves_rules
  reserve_body-Moves e (some t) insert delete = search (moves_rules, insert, delete) depth 12

  pub save_pending_event_at-Moves :
      (e : NewEvent) (t : Option ℕ)
      → Respects R (insert_event (new_row e))
      → ((g : GuardRow) → Respects R (insert_guard g))
      → Respects R (delete_expired_guard e.source e.body_sha256 e.at_ms)
      → Moves R (save_pending_event_at e t)
  unfolding save_pending_event_at
  save_pending_event_at-Moves e t event insert delete =
      Moves-transact _
        (Moves-bind _ _ (reserve_body-Moves e t insert delete) (λ _. search (moves_rules, event)))

  pub claim_pending-Moves :
      (lease : ℤ) (now : ℕ) (owner : String)
      → ((id : String)
          → Respects R (
              update_events
                (λ r. has_id id r && claimable (unix_milli now) r)
                (take_lease (unix_milli (now + lease_or_default lease)) owner)))
      → ((id : String) → Respects R (update_actions (running_of id) unstart))
      → Moves R (claim_pending lease now owner)
  unfolding claim_pending
  claim_pending-Moves lease now owner take back = search (moves_rules, take, back) depth 12

  pub renew_lease-Moves :
      (id : String) (lease : ℤ) (now : ℕ) (owner : String)
      → Respects R (
          update_events
            (λ r. has_id id r && (is_processing r.status && owned_by owner r.lease_owner))
            (with_lease (unix_milli (now + lease_or_default lease))))
      → Moves R (renew_lease id lease now owner)
  unfolding renew_lease
  renew_lease-Moves id lease now owner renew = search (moves_rules, renew) depth 12

  pub requeue_processing-Moves :
      (p : EventRow → Bool)
      → ((q : EventRow → Bool) → Respects R (unstart_within q))
      → Respects R (update_events (λ r. is_processing r.status && p r) requeued)
      → Moves R (requeue_processing false p)
  unfolding requeue_processing recover
  requeue_processing-Moves p back requeue = search (moves_rules, back, requeue) depth 12

  pub requeue_all-Moves :
      (p : EventRow → Bool)
      → ((q : EventRow → Bool) → Respects R (unstart_within q))
      → Respects R (update_events (λ r. is_processing r.status && p r) requeued)
      → Respects R requeue_orphans
      → Moves R (requeue_processing true p)
  unfolding requeue_processing recover
  requeue_all-Moves p back requeue orphans = search (moves_rules, back, requeue, orphans) depth 14

  pub requeue_event-Moves :
      (id : String)
      → Respects R (update_events (λ r. has_id id r && is_processing r.status) requeued)
      → Respects R (update_actions (running_of id) unstart)
      → Moves R (requeue_event id)
  unfolding requeue_event
  requeue_event-Moves id requeue back = search (moves_rules, requeue, back) depth 12

  insert_actions-Moves :
      (id : String) (left index now_ms : ℕ)
      → ((i : ℕ) → Respects R (insert_action id i now_ms))
      → Moves R (insert_actions id left index now_ms)
  unfolding insert_actions
  insert_actions-Moves id zero index now_ms insert = search moves_rules
  insert_actions-Moves id (suc left) index now_ms insert =
      Moves-bind _ _ (Moves-statement _ (insert index))
        (λ _. insert_actions-Moves id left _ now_ms insert)

  pub clear_if-Moves :
      (id : String) (b : Bool)
      → Respects R (update_events (has_id id) drop_payload)
      → Moves R (clear_if id b)
  unfolding clear_if
  clear_if-Moves id false drop = search moves_rules
  clear_if-Moves id true drop = search (moves_rules, drop)

  pub prepare_event-Moves :
      (id vars : String) (n : ℕ) (clear : Bool) (now : ℕ)
      → Respects R (update_events (λ r. has_id id r && is_processing r.status) (with_vars vars))
      → ((i : ℕ) → Respects R (insert_action id i (unix_milli now)))
      → Respects R (update_events (has_id id) drop_payload)
      → Moves R (prepare_event id vars n clear now)
  unfolding prepare_event
  prepare_event-Moves id vars n clear now fill insert drop = Moves-transact _ (
      Moves-bind _ _ (Moves-statement _ fill) (λ n'. Moves-bind _ _ (Moves-require _ _) (λ _.
        Moves-bind _ _ (insert_actions-Moves id n 0 (unix_milli now) insert)
          (λ _. clear_if-Moves id clear drop))))

  pub refresh_event_status-Moves :
      (id : String) (now : ℕ)
      → ((t : Tally) → Respects R (update_events (has_id id) (judged (verdict t (unix_milli now)))))
      → Moves R (refresh_event_status id now)
  unfolding refresh_event_status
  refresh_event_status-Moves id now judge = search (moves_rules, judge) depth 12

  pub replay_dead_event-Moves :
      (id reason : String) (now : ℕ)
      → Respects R
          (update_actions (λ a. of_event id a && is_dead a.status) (revived (unix_milli now)))
      → ((n : ℕ) → Respects R (update_events (has_id id) (replayed reason (unix_milli now) n)))
      → Moves R (replay_dead_event id reason now)
  unfolding replay_dead_event
  replay_dead_event-Moves id reason now revive replay =
      search (moves_rules, or_not_retryable-Moves, revive, replay) depth 14

  pub update_event_status-Moves :
      (id : String) (status : EventStatus) (now : ℕ)
      → Respects R (update_events (has_id id) (marked status (unix_milli now)))
      → Moves R (update_event_status id status now)
  unfolding update_event_status
  update_event_status-Moves id status now mark = search (moves_rules, mark) depth 12

  pub purge_older_than-Moves :
      (cutoff now : ℕ)
      → ((p : EventRow → Bool) → Respects R (delete_logs_within p))
      → Respects R (delete_actions_within (purgeable (unix_milli cutoff)))
      → Respects R (delete_events (purgeable (unix_milli cutoff)))
      → Respects R (delete_guards_before (unix_milli now))
      → ((t : ℕ) → Respects R (delete_heartbeats_before t))
      → Moves R (purge_older_than cutoff now)
  unfolding purge_older_than
  purge_older_than-Moves cutoff now logs actions events guards beats =
      search (moves_rules, logs, actions, events, guards, beats) depth 14

  pub start_action-Moves :
      (id : String) (index now : ℕ)
      → Respects R (start_row id index (unix_milli now))
      → Moves R (start_action id index now)
  unfolding start_action
  start_action-Moves id index now start = search (moves_rules, start) depth 12

  -- An update of the running action of an event.
  pub updated-Moves :
      (id : String) (index : ℕ) (f : ActionRow → ActionRow)
      → Respects R (update_actions (λ a. at_index id index a && is_running a.status) f)
      → Moves R (update_running_action id index f)
  unfolding update_running_action
  updated-Moves id index f update = search (moves_rules, update) depth 12

  pub expire_action-Moves :
      (id : String) (index now : ℕ)
      → Respects R (
          update_actions
            (λ a. at_index id index a && is_startable a.status)
            (killed "maximum retry age exceeded" (unix_milli now)))
      → Moves R (expire_action id index now)
  unfolding expire_action
  expire_action-Moves id index now expire = search (moves_rules, expire) depth 12

  pub clear_payload-Moves :
      (id : String)
      → Respects R (update_events (has_id id) drop_payload)
      → Moves R (clear_payload id)
  unfolding clear_payload
  clear_payload-Moves id drop = search (moves_rules, drop) depth 12

  module _ (rewrite : String → Option String) (canceled : String → Bool)
      (on_row : (id raw updated : String) → Respects R (rewrite_row id raw updated)) where
    after_update-Moves :
        (rest : ℕ → Tx Progress) (changed : ℕ) (r : Result ℕ)
        → ((n : ℕ) → Moves R (rest n))
        → Moves R (after_update rewrite canceled rest changed r)
    unfolding after_update
    after_update-Moves rest changed (ok n) h = h (changed + n)
    after_update-Moves rest changed (err e) h = search moves_rules

    pub rewrite_rows-Moves :
        (rows : List (String × String)) (changed : ℕ)
        → Moves R (rewrite_rows rewrite canceled rows changed)
    unfolding rewrite_rows
    rewrite_rows-Moves [] changed = search moves_rules
    rewrite_rows-Moves (row ∷ rows) changed =
        Moves-if (canceled row.0) _ _ (Moves-pure (fails_at changed)) (
          Moves-option (rewrite row.1) _ _ (Moves-pure (fails_at changed)) (λ updated.
            Moves-if (str_eq updated row.1) _ _ (rewrite_rows-Moves rows changed) (
              Moves-bind _ _ (Moves-caught _ (Moves-statement _ (on_row row.0 row.1 updated)))
                (λ r. after_update-Moves _ changed r (rewrite_rows-Moves rows)))))

    after_rows-Moves :
        (next : Option String → ℕ → Tx Rewritten) (last : String) (p : Progress)
        → ((o : Option String) (n : ℕ) → Moves R (next o n))
        → Moves R (after_rows rewrite canceled next last p)
    unfolding after_rows
    after_rows-Moves next last (goes_on n) h = h _ n
    after_rows-Moves next last (fails_at n) h = search moves_rules

    after_batch-Moves :
        (next : Option String → ℕ → Tx Rewritten) (changed : ℕ)
        (r : Result (List (String × String)))
        → ((o : Option String) (n : ℕ) → Moves R (next o n))
        → Moves R (after_batch rewrite canceled next changed r)
    unfolding after_batch
    after_batch-Moves next changed (err e) h = search moves_rules
    after_batch-Moves next changed (ok []) h = search moves_rules
    after_batch-Moves next changed (ok (row ∷ rows)) h =
        search (moves_rules, rewrite_rows-Moves, after_rows-Moves, h) depth 12

    rewrite_batches-Moves :
        (fuel : ℕ) (after : Option String) (changed : ℕ)
        → Moves R (rewrite_batches rewrite canceled fuel after changed)
    unfolding rewrite_batches
    rewrite_batches-Moves zero after changed = search moves_rules
    rewrite_batches-Moves (suc fuel) after changed =
        search (moves_rules, after_batch-Moves, rewrite_batches-Moves fuel) depth 12

    pub rewrite_action_snapshots-Moves :
        (fuel : ℕ) → Moves R (rewrite_action_snapshots rewrite canceled fuel)
    unfolding rewrite_action_snapshots
    rewrite_action_snapshots-Moves fuel = rewrite_batches-Moves fuel none 0
