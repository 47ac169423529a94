-- ===== src/Store/Requeue.antt =====
-- internal/store/store.go: RequeueExpiredLeases, RequeueAllProcessing, RequeueEvent.
use general_webhook.Base.{
  ℕ, ◌+◌, String, Bool, true, false, none, some, List, ◌&&◌, not, str_eq, ltb, ◌==◌, coalesce,
  exists,
}
use general_webhook.Store.Rows.{
  EventStatus, EventRow, ActionRow, Db, is_processing, is_waiting, is_pending, is_running, has_id,
}
use general_webhook.Store.Claim.{unix_milli, unstart, running_of}
use general_webhook.Store.Tx.{
  Tx, pure, statement, transact, require, not_requeueable, update_events, update_actions, ◌>>=◌,
  ◌>>◌,
}

-- SET status = 'pending', next_attempt_at_ms = received_at_ms, and no lease and no processing time.
unfoldable pub requeued : EventRow → EventRow
requeued r = record r {
  status = EventStatus.pending;
  next_attempt_at_ms = some r.received_at_ms;
  lease_until_ms = none;
  lease_owner = none;
  processed_at_ms = none;
}

-- status IN ('pending', 'retrying') AND EXISTS (a running action of the event)
unfoldable pub is_orphan : List ActionRow → EventRow → Bool
is_orphan actions r = is_waiting r.status && exists (running_of r.id) actions

-- The UPDATE of the orphaned events reads `event_actions` too.
unfoldable pub requeue_orphans : Db → ℕ × Db
unfolding update_events
requeue_orphans d = update_events (is_orphan d.actions) requeued d

-- status = 'running' AND event_id IN (SELECT id FROM events WHERE p)
unfoldable pub unstart_within : (EventRow → Bool) → Db → ℕ × Db
unfolding update_actions
unstart_within p d =
    update_actions
      (λ a. is_running a.status && exists (λ r. str_eq r.id a.event_id && p r) d.events) unstart d

unfoldable pub recover : Bool → Tx ℕ
recover false = pure 0
recover true = do
  orphans ← statement requeue_orphans
  statement (unstart_within (λ r. is_pending r.status))
  pure orphans

unfoldable pub requeue_processing : Bool → (EventRow → Bool) → Tx ℕ
requeue_processing recover_orphans condition = transact do
  orphans ← recover recover_orphans
  statement (unstart_within (λ r. is_processing r.status && condition r))
  n ← statement (update_events (λ r. is_processing r.status && condition r) requeued)
  pure (n + orphans)

-- COALESCE(lease_until_ms, 0) < ?
abbrev pub is_expired : ℕ → EventRow → Bool
is_expired now_ms r = ltb (coalesce r.lease_until_ms 0) now_ms

unfoldable pub requeue_expired_leases : ℕ → Tx ℕ
unfolding requeue_processing
requeue_expired_leases now = requeue_processing false (is_expired (unix_milli now))

unfoldable pub requeue_all_processing : Tx ℕ
unfolding requeue_processing
requeue_all_processing = requeue_processing true (λ r. true)

unfoldable pub requeue_event : String → Tx Unit
requeue_event id = transact do
  statement (update_actions (running_of id) unstart)
  n ← statement (update_events (λ r. has_id id r && is_processing r.status) requeued)
  require (not (n == 0)) not_requeueable
