-- ===== src/Store/Replay.antt =====
-- internal/store/store.go: ReplayDeadEvent, RetryFailedEvent, UpdateEventStatus, PurgeOlderThan,
-- ClearPayload.
use general_webhook.Base.{
  ℕ, ◌+◌, String, Bool, true, false, Option, none, some, List, [], ◌∷◌, ◌&&◌, ◌||◌, not, str_eq,
  ltb, ◌==◌, coalesce, exists, first_where, delete_where, count_where,
}
use general_webhook.Store.Rows.{
  EventStatus, ActionStatus, EventRow, ActionRow, Db, is_terminal, is_replayable, is_dead, has_id,
  of_event,
}
use general_webhook.Store.Claim.{unix_milli}
use general_webhook.Store.Action.{drop_payload}
use general_webhook.Store.Accept.{is_empty}
use general_webhook.Store.Tx.{
  Tx, pure, raise, statement, query, transact, require, event_not_retryable, replay_unavailable,
  not_found, update_events, update_actions, ◌>>=◌, ◌>>◌,
}

-- payload IS NOT NULL AND length(payload) > 0
abbrev pub has_payload : EventRow → Bool
has_payload r = elim r.payload [ none ↦ false | some b ↦ elim b [ [] ↦ false | x ∷ xs ↦ true ] ]

-- `row.Scan` with sql.ErrNoRows turned into ErrEventNotRetryable.
unfoldable pub or_not_retryable : Option EventRow → Tx EventRow
or_not_retryable none = raise event_not_retryable
or_not_retryable (some r) = pure r

unfoldable pub revived : ℕ → ActionRow → ActionRow
revived now_ms a = record a {
  status = ActionStatus.pending;
  attempt_count = 0;
  next_attempt_at_ms = some now_ms;
  last_error = none;
  retry_after_ms = none;
  completed_at_ms = none;
}

unfoldable pub replayed : String → ℕ → ℕ → EventRow → EventRow
replayed reason now_ms generation r = record r {
  status = EventStatus.pending;
  next_attempt_at_ms = some now_ms;
  processed_at_ms = none;
  lease_until_ms = none;
  lease_owner = none;
  replay_generation = generation;
  replayed_at_ms = some now_ms;
  replay_reason = some reason;
}

unfoldable pub replay_dead_event : String → String → ℕ → Tx ℕ
replay_dead_event id reason now = transact do
  found ← query (λ d. first_where (has_id id) d.events)
  r ← or_not_retryable found
  require (is_replayable r.status) event_not_retryable
  require (has_payload r || not (is_empty (coalesce r.vars_json ""))) replay_unavailable
  let generation = r.replay_generation + 1
  statement (update_actions (λ a. of_event id a && is_dead a.status) (revived (unix_milli now)))
  n ← statement (update_events (has_id id) (replayed reason (unix_milli now) generation))
  require (not (n == 0)) event_not_retryable
  pure generation

-- `now` is what time.Now returns.
unfoldable pub retry_failed_event : String → ℕ → Tx Unit
unfolding replay_dead_event
retry_failed_event id now = do replay_dead_event id "manual replay" now; pure tt

unfoldable pub marked : EventStatus → ℕ → EventRow → EventRow
marked status at_ms r = record r {
  status = status;
  processed_at_ms = some at_ms;
  next_attempt_at_ms = none;
  lease_until_ms = none;
  lease_owner = none;
}

unfoldable pub update_event_status : String → EventStatus → ℕ → Tx Unit
unfolding marked
update_event_status id status at = do
  n ← statement (update_events (has_id id) (marked status (unix_milli at)))
  require (not (n == 0)) not_found

unfoldable pub clear_payload : String → Tx Unit
clear_payload id = do statement (update_events (has_id id) drop_payload); pure tt

-- COALESCE(processed_at_ms, received_at_ms) < ? AND a terminal status
unfoldable pub purgeable : ℕ → EventRow → Bool
purgeable cutoff_ms r =
    ltb (coalesce r.processed_at_ms r.received_at_ms) cutoff_ms && is_terminal r.status

-- event_id IN (SELECT id FROM events WHERE p)
abbrev pub belongs_to : (EventRow → Bool) → List EventRow → String → Bool
belongs_to p events id = exists (λ r. str_eq r.id id && p r) events

unfoldable pub delete_logs_within : (EventRow → Bool) → Db → Unit {0} × Db
delete_logs_within p d =
    (tt, record d { logs = delete_where (λ l. belongs_to p d.events l.event_id) d.logs })

unfoldable pub delete_actions_within : (EventRow → Bool) → Db → Unit {0} × Db
delete_actions_within p d =
    (tt, record d { actions = delete_where (λ a. belongs_to p d.events a.event_id) d.actions })

unfoldable pub delete_events : (EventRow → Bool) → Db → ℕ × Db
delete_events p d = (count_where p d.events, record d { events = delete_where p d.events })

unfoldable pub delete_guards_before : ℕ → Db → Unit {0} × Db
delete_guards_before now_ms d =
    (tt, record d { guards = delete_where (λ g. ltb g.expires_at_ms now_ms) d.guards })

unfoldable pub delete_heartbeats_before : ℕ → Db → Unit {0} × Db
delete_heartbeats_before cutoff_ms d =
    (tt, record d { heartbeats = delete_where (λ h. ltb h.created_at_ms cutoff_ms) d.heartbeats })

-- `now` is what time.Now returns.
unfoldable pub purge_older_than : ℕ → ℕ → Tx ℕ
purge_older_than cutoff now = transact do
  let old = purgeable (unix_milli cutoff)
  statement (delete_logs_within old)
  statement (delete_actions_within old)
  n ← statement (delete_events old)
  statement (delete_guards_before (unix_milli now))
  statement (delete_heartbeats_before (unix_milli cutoff))
  pure n
