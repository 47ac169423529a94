-- ===== src/Store/Action.antt =====
-- internal/store/store.go: PrepareEvent, ListActionStates, StartAction, CompleteAction,
-- ScheduleActionRetry, DeadAction, ExpireAction, RefreshEventStatus.
pub mod Aggregate
use general_webhook.Base.{
  ℕ, zero, suc, ◌+◌, ◌/◌, min, String, Bool, true, false, Option, none, some, List, [], ◌∷◌, ◌++◌,
  ◌&&◌, not, str_eq, leb, ltb, ◌==◌, if◌then◌else◌, coalesce, exists, count_where, first_where,
}
use general_webhook.Store.Rows.{
  EventStatus, ActionStatus, EventRow, ActionRow, Db, is_processing, is_running, is_startable,
  is_done, is_dead, is_retrying, is_pending_action, has_id, of_event, at_index,
}
use general_webhook.Store.Claim.{unix_milli}
use general_webhook.Store.Tx.{
  Tx, pure, raise, statement, query, transact, require, or_no_rows, not_processing, not_running,
  not_startable, no_action_state, not_found, update_events, update_actions, ◌>>=◌, ◌>>◌,
}

-- INSERT OR IGNORE INTO event_actions, against its primary key.
unfoldable pub insert_action : String → ℕ → ℕ → Db → Unit {0} × Db
insert_action id index now_ms d = (
  tt,
  if exists (at_index id index) d.actions then d else record d {
    actions =
        d.actions
        ++ record {
          event_id = id;
          action_index = index;
          status = ActionStatus.pending;
          attempt_count = 0;
          next_attempt_at_ms = some now_ms;
          last_error = none;
          retry_after_ms = none;
          completed_at_ms = none;
        }
          ∷ [];
  },
)

-- `for i := 0; i < actionCount; i++`: `left` rounds from `index` on.
unfoldable pub insert_actions : String → ℕ → ℕ → ℕ → Tx Unit
insert_actions id zero index now_ms = pure tt
insert_actions id (suc left) index now_ms = do
  statement (insert_action id index now_ms)
  insert_actions id left (index + 1) now_ms

unfoldable pub drop_payload : EventRow → EventRow
drop_payload r = record r { payload = none }

unfoldable pub clear_if : String → Bool → Tx Unit
clear_if id false = pure tt
clear_if id true = do statement (update_events (has_id id) drop_payload); pure tt

unfoldable pub with_vars : String → EventRow → EventRow
with_vars vars_json r = record r { vars_json = some vars_json }

unfoldable pub prepare_event : String → String → ℕ → Bool → ℕ → Tx Unit
prepare_event id vars_json action_count clear_payload now = transact do
  n ← statement (update_events (λ r. has_id id r && is_processing r.status) (with_vars vars_json))
  require (not (n == 0)) not_processing
  insert_actions id action_count 0 (unix_milli now)
  clear_if id clear_payload

-- A row of `ListActionStates`.
pub record ActionState : Type 0 where
  pub index : ℕ
  pub status : ActionStatus
  pub attempt_count : ℕ
  pub next_attempt_ms : ℕ
  pub last_error : String

abbrev pub scan_state : ActionRow → ActionState
scan_state a = record {
  index = a.action_index;
  status = a.status;
  attempt_count = a.attempt_count;
  next_attempt_ms = coalesce a.next_attempt_at_ms 0;
  last_error = coalesce a.last_error "";
}

-- ORDER BY action_index, by insertion.
insert_state : ActionState → List ActionState → List ActionState
insert_state s [] = s ∷ []
insert_state s (t ∷ ts) = if leb s.index t.index then s ∷ t ∷ ts else t ∷ insert_state s ts

unfoldable pub states_of : String → List ActionRow → List ActionState
unfolding insert_state
states_of id [] = []
states_of id (a ∷ rows) =
    let rest = states_of id rows in if of_event id a then insert_state (scan_state a) rest else rest

unfoldable pub list_action_states : String → Tx (List ActionState)
list_action_states id = query (λ d. states_of id d.actions)

-- The WHERE clause of StartAction.
unfoldable pub is_due : String → ℕ → ℕ → ActionRow → Bool
is_due id index now_ms a =
    at_index id index a && (is_startable a.status && leb (coalesce a.next_attempt_at_ms 0) now_ms)

unfoldable pub started : ActionRow → ActionRow
started a = record a {
  status = ActionStatus.running;
  attempt_count = a.attempt_count + 1;
  next_attempt_at_ms = none;
}

-- UPDATE … RETURNING attempt_count: the new count of the row that matched.
unfoldable pub start_row : String → ℕ → ℕ → Db → Option ℕ × Db
unfolding is_due started update_actions
start_row id index now_ms d = (
  elim (first_where (is_due id index now_ms) d.actions) [
    | none ↦ none
    | some a ↦ some (started a).attempt_count
  ],
  (update_actions (is_due id index now_ms) started d).1,
)

unfoldable pub start_action : String → ℕ → ℕ → Tx ℕ
unfolding start_row
start_action id index now = do
  attempt ← statement (start_row id index (unix_milli now))
  or_no_rows attempt

unfoldable pub update_running_action : String → ℕ → (ActionRow → ActionRow) → Tx Unit
update_running_action id index assignment = do
  n ← statement (update_actions (λ a. at_index id index a && is_running a.status) assignment)
  require (not (n == 0)) not_running

unfoldable pub completed : ℕ → ActionRow → ActionRow
completed now_ms a = record a {
  status = ActionStatus.done;
  next_attempt_at_ms = none;
  last_error = none;
  retry_after_ms = none;
  completed_at_ms = some now_ms;
}

unfoldable pub complete_action : String → ℕ → ℕ → Tx Unit
unfolding update_running_action completed
complete_action id index now = update_running_action id index (completed (unix_milli now))

unfoldable pub rescheduled : ℕ → String → ℕ → ActionRow → ActionRow
rescheduled next_ms detail retry_after_ms a = record a {
  status = ActionStatus.retrying;
  next_attempt_at_ms = some next_ms;
  last_error = some detail;
  retry_after_ms = some retry_after_ms;
  completed_at_ms = none;
}

unfoldable pub schedule_action_retry : String → ℕ → ℕ → String → ℕ → Tx Unit
unfolding update_running_action rescheduled
schedule_action_retry id index next detail retry_after =
    update_running_action id index (rescheduled (unix_milli next) detail (unix_milli retry_after))

unfoldable pub killed : String → ℕ → ActionRow → ActionRow
killed detail now_ms a = record a {
  status = ActionStatus.dead;
  next_attempt_at_ms = none;
  last_error = some detail;
  retry_after_ms = none;
  completed_at_ms = some now_ms;
}

unfoldable pub dead_action : String → ℕ → String → ℕ → Tx Unit
unfolding update_running_action killed
dead_action id index detail now = update_running_action id index (killed detail (unix_milli now))

unfoldable pub expire_action : String → ℕ → ℕ → Tx Unit
unfolding killed
expire_action id index now = do
  n ← statement (
      update_actions (λ a. at_index id index a && is_startable a.status)
        (killed "maximum retry age exceeded" (unix_milli now)))
  require (not (n == 0)) not_startable

-- The counts of the SELECT in RefreshEventStatus.
pub record Tally : Type 0 where
  pub total : ℕ
  pub done : ℕ
  pub dead : ℕ
  pub retrying : ℕ
  pub pending : ℕ
  pub running : ℕ
  pub next : Option ℕ

-- MIN over the values that are not NULL.
abbrev pub min_next : Option ℕ → Option ℕ → Option ℕ
min_next none b = b
min_next (some a) none = some a
min_next (some a) (some b) = some (min a b)

-- MIN(CASE WHEN status = 'retrying' THEN next_attempt_at_ms END)
unfoldable pub earliest_retry : String → List ActionRow → Option ℕ
earliest_retry id [] = none
earliest_retry id (a ∷ rows) =
    let rest = earliest_retry id rows in
    if of_event id a && is_retrying a.status then min_next a.next_attempt_at_ms rest else rest

unfoldable pub count_status : String → (ActionStatus → Bool) → List ActionRow → ℕ
count_status id p = count_where (λ a. of_event id a && p a.status)

unfoldable pub tally : String → List ActionRow → Tally
unfolding earliest_retry count_status
tally id rows = record {
  total = count_where (of_event id) rows;
  done = count_status id is_done rows;
  dead = count_status id is_dead rows;
  retrying = count_status id is_retrying rows;
  pending = count_status id is_pending_action rows;
  running = count_status id is_running rows;
  next = earliest_retry id rows;
}

-- The status that the event gets from the counts, with its processing time and its due time.
pub record Verdict : Type 0 where
  pub status : EventStatus
  pub processed : Option ℕ
  pub due : Option ℕ

unfoldable pub verdict : Tally → ℕ → Verdict
verdict t now_ms =
    if t.done == t.total
    then record { status = EventStatus.done; processed = some now_ms; due = none }
    else if ltb 0 t.dead && t.done + t.dead == t.total
    then record { status = EventStatus.dead; processed = some now_ms; due = none }
    else if ltb 0 t.retrying
    then record {
      status = EventStatus.retrying;
      processed = none;
      due = some (coalesce t.next now_ms);
    }
    else record { status = EventStatus.pending; processed = none; due = some now_ms }

unfoldable pub judged : Verdict → EventRow → EventRow
judged v r = record r {
  status = v.status;
  processed_at_ms = v.processed;
  next_attempt_at_ms = v.due;
  lease_until_ms = none;
  lease_owner = none;
}

unfoldable pub refresh_event_status : String → ℕ → Tx EventStatus
unfolding verdict tally judged
refresh_event_status id now = do
  t ← query (λ d. tally id d.actions)
  require (not (t.total == 0)) no_action_state
  let v = verdict t (unix_milli now)
  n ← statement (update_events (has_id id) (judged v))
  require (not (n == 0)) not_found
  pure v.status
