-- ===== src/Store/Stats.antt =====
-- internal/store/store.go: Stats. The two failure rates, which are quotients of the counts in
-- floating point, are left out.
use general_webhook.Base.{
  ℕ, ◌-◌, min, Bool, true, false, Option, none, some, List, [], ◌∷◌, ◌&&◌, not, leb, ltb,
  if◌then◌else◌, count_where,
}
use general_webhook.Store.Rows.{
  EventStatus, EventRow, LogRow, is_processing, is_pending, is_dead, is_retrying,
}
use general_webhook.Store.Claim.{unix_milli}
use general_webhook.Store.Tx.{Tx, pure, query, ◌>>=◌}

pub record QueueStats : Type 0 where
  pub pending : ℕ
  pub processing : ℕ
  pub retrying : ℕ
  pub dead : ℕ
  pub partial : ℕ
  pub error : ℕ
  pub done : ℕ
  pub skipped : ℕ
  pub actions_retrying : ℕ
  pub actions_dead : ℕ
  pub attempts_5m : ℕ
  pub failures_5m : ℕ
  pub attempts_1h : ℕ
  pub failures_1h : ℕ
  pub oldest_pending_age_ms : ℕ

-- One row of SELECT status, COUNT(*) … GROUP BY status.
unfoldable pub events_with : (EventStatus → Bool) → List EventRow → ℕ
events_with p events = count_where (λ r. p r.status) events

abbrev is_partial : EventStatus → Bool
is_partial EventStatus.partial = true
is_partial _ = false

abbrev is_error : EventStatus → Bool
is_error EventStatus.error = true
is_error _ = false

abbrev is_done_event : EventStatus → Bool
is_done_event EventStatus.done = true
is_done_event _ = false

abbrev is_skipped : EventStatus → Bool
is_skipped EventStatus.skipped = true
is_skipped _ = false

abbrev is_dead_event : EventStatus → Bool
is_dead_event EventStatus.dead = true
is_dead_event _ = false

abbrev is_retrying_event : EventStatus → Bool
is_retrying_event EventStatus.retrying = true
is_retrying_event _ = false

-- status IN ('pending', 'processing', 'retrying')
abbrev is_unfinished : EventStatus → Bool
is_unfinished EventStatus.pending = true
is_unfinished EventStatus.processing = true
is_unfinished EventStatus.retrying = true
is_unfinished _ = false

-- SELECT MIN(received_at_ms)
unfoldable pub oldest_received : List EventRow → Option ℕ
oldest_received [] = none
oldest_received (r ∷ events) =
    let rest = oldest_received events in
    if is_unfinished r.status
    then some (elim rest [ none ↦ r.received_at_ms | some t ↦ min r.received_at_ms t ])
    else rest

-- The logs from `since_ms` on, and those of them that failed.
unfoldable pub attempts_since : ℕ → List LogRow → ℕ
attempts_since since_ms logs = count_where (λ l. leb since_ms l.created_at_ms) logs

unfoldable pub failures_since : ℕ → List LogRow → ℕ
failures_since since_ms logs = count_where (λ l. leb since_ms l.created_at_ms && not l.success) logs

abbrev age_at : ℕ → Option ℕ → ℕ
age_at now_ms none = 0
age_at now_ms (some t) = if ltb t now_ms then now_ms - t else 0

-- The counts of the events in one query, of the actions, of the logs, and the oldest event.
unfoldable pub stats : ℕ → Tx QueueStats
unfolding events_with oldest_received attempts_since failures_since
stats now = do
  events ← query (λ d. d.events)
  actions ← query (λ d. d.actions)
  logs ← query (λ d. d.logs)
  oldest ← query (λ d. oldest_received d.events)
  let five_minutes_ago = unix_milli (now - 300_000_000_000)
  let one_hour_ago = unix_milli (now - 3_600_000_000_000)
  pure (record {
    pending = events_with is_pending events;
    processing = events_with is_processing events;
    retrying = events_with is_retrying_event events;
    dead = events_with is_dead_event events;
    partial = events_with is_partial events;
    error = events_with is_error events;
    done = events_with is_done_event events;
    skipped = events_with is_skipped events;
    actions_retrying = count_where (λ a. is_retrying a.status) actions;
    actions_dead = count_where (λ a. is_dead a.status) actions;
    attempts_5m = attempts_since five_minutes_ago logs;
    failures_5m = failures_since five_minutes_ago logs;
    attempts_1h = attempts_since one_hour_ago logs;
    failures_1h = failures_since one_hour_ago logs;
    oldest_pending_age_ms = age_at (unix_milli now) oldest;
  })
