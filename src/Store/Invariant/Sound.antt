-- ===== src/Store/Invariant/Sound.antt =====
-- Every call keeps the columns of each row in step with its status.
use general_webhook.Base.{
  ℕ, String, Bool, true, List, [], ◌∷◌, All, ◌≡◌, ◌&&◌, arith, All-append, All-delete_where, exists,
  Bool-cases, inl, inr, and_left, and_right,
}
use general_webhook.Store.Rows.{
  EventStatus, EventRow, ActionRow, GuardRow, Db, empty_db, is_processing, is_terminal, has_id,
  at_index,
}
use general_webhook.Store.Tx.{update_events, update_actions}
use general_webhook.Store.Tx.Relation.{Moves, keeping, moves_rules}
use general_webhook.Store.Accept.{
  NewEvent, new_row, clashes, guards_body, insert_event, insert_guard, delete_expired_guard,
}
use general_webhook.Store.Claim.{claimable, take_lease, with_lease, unstart, running_of, owned_by}
use general_webhook.Store.Requeue.{requeued, requeue_orphans, unstart_within}
use general_webhook.Store.Action.{
  Tally, with_vars, drop_payload, insert_action, start_row, completed, rescheduled, killed, verdict,
  judged,
}
use general_webhook.Store.Replay.{
  revived, replayed, marked, delete_logs_within, delete_actions_within, delete_events,
  delete_guards_before, delete_heartbeats_before,
}
use general_webhook.Store.Audit.{Attempt, insert_log, save_action_attempt_log, toggle_nonce}
use general_webhook.Store.Heartbeats.{HeartbeatLog, insert_heartbeat}
use general_webhook.Store.Snapshots.{rewrite_row, with_json}
use general_webhook.Store.Calls.{Call, purges, marks, is_proper, perform, run_calls, run_calls-rel}
use general_webhook.Store.Calls.Steps.{Steps, Purges, Audits}
use general_webhook.Store.Calls.Walk.{Extra, perform_any-Moves}
use general_webhook.Store.Invariant.Rows.{
  EventOk, ActionOk, RowsOk, update_events-RowsOk, update_actions-RowsOk, empty-RowsOk,
  take_lease-EventOk, with_lease-EventOk, requeued-EventOk, with_vars-EventOk, drop_payload-EventOk,
  with_json-EventOk, judged-EventOk, replayed-EventOk, marked-EventOk, new_row-EventOk,
  unstart-ActionOk, started-ActionOk, completed-ActionOk, rescheduled-ActionOk, killed-ActionOk,
  revived-ActionOk,
}

-- A statement keeps the rows in order.
abbrev Fine : {A : Type 0} → (Db → A × Db) → Type 0
Fine f = (d : Db) → RowsOk d → RowsOk (f d).1

insert_event-Fine : (e : NewEvent) → Fine (insert_event (new_row e))
unfolding insert_event
insert_event-Fine e d h = elim (Bool-cases (exists (clashes (new_row e)) d.events)) [
  | inl c ↦ rw c h
  | inr c ↦ rw c (record {
    events = All-append EventOk d.events _ h.events (new_row-EventOk e, tt);
    actions = h.actions;
  })
]

insert_action-Fine : (id : String) (index now_ms : ℕ) → Fine (insert_action id index now_ms)
unfolding insert_action
insert_action-Fine id index now_ms d h = elim (Bool-cases (exists (at_index id index) d.actions)) [
  | inl c ↦ rw c h
  | inr c ↦ rw c (record {
    events = h.events;
    actions = All-append ActionOk d.actions _ h.actions (ground arith, tt);
  })
]

delete_expired_guard-Fine : (s b : String) (t : ℕ) → Fine (delete_expired_guard s b t)
unfolding delete_expired_guard
delete_expired_guard-Fine s b t d h = record { events = h.events; actions = h.actions }

insert_guard-Fine : (g : GuardRow) → Fine (insert_guard g)
unfolding insert_guard
insert_guard-Fine g d h = elim (Bool-cases (exists (guards_body g.source g.body_sha256) d.guards)) [
  | inl c ↦ rw c h
  | inr c ↦ rw c (record { events = h.events; actions = h.actions })
]

take_lease-Fine :
    (now_ms until_ms : ℕ) (id owner : String)
    → Fine (update_events (λ s. has_id id s && claimable now_ms s) (take_lease until_ms owner))
take_lease-Fine now_ms until_ms id owner =
    update_events-RowsOk _ _ (take_lease-EventOk now_ms until_ms id owner)

with_lease-Fine :
    (until_ms : ℕ) (id owner : String)
    → Fine (
        update_events
          (λ r. has_id id r && (is_processing r.status && owned_by owner r.lease_owner))
          (with_lease until_ms))
with_lease-Fine until_ms id owner = update_events-RowsOk _ _ (with_lease-EventOk until_ms id owner)

requeued-Fine : (p : EventRow → Bool) → Fine (update_events p requeued)
requeued-Fine p = update_events-RowsOk p _ (λ r _. requeued-EventOk r)

requeue_orphans-Fine : Fine requeue_orphans
unfolding requeue_orphans
requeue_orphans-Fine d = requeued-Fine _ d

with_vars-Fine : (p : EventRow → Bool) (vars : String) → Fine (update_events p (with_vars vars))
with_vars-Fine p vars = update_events-RowsOk p _ (λ r _. with_vars-EventOk vars r)

drop_payload-Fine : (p : EventRow → Bool) → Fine (update_events p drop_payload)
drop_payload-Fine p = update_events-RowsOk p _ (λ r _. drop_payload-EventOk r)

judged-Fine :
    (p : EventRow → Bool) (t : Tally) (now_ms : ℕ)
    → Fine (update_events p (judged (verdict t now_ms)))
judged-Fine p t now_ms = update_events-RowsOk p _ (λ r _. judged-EventOk t now_ms r)

replayed-Fine :
    (p : EventRow → Bool) (reason : String) (now_ms generation : ℕ)
    → Fine (update_events p (replayed reason now_ms generation))
replayed-Fine p reason now_ms generation =
    update_events-RowsOk p _ (λ r _. replayed-EventOk reason now_ms generation r)

marked-Fine :
    (p : EventRow → Bool) (status : EventStatus) (at_ms : ℕ)
    → is_terminal status ≡ true
    → Fine (update_events p (marked status at_ms))
marked-Fine p status at_ms t = update_events-RowsOk p _ (λ r _. marked-EventOk status at_ms r t)

unstart-Fine : (id : String) → Fine (update_actions (running_of id) unstart)
unstart-Fine id = update_actions-RowsOk _ _ (λ a p. unstart-ActionOk a (and_right _ _ p))

unstart_within-Fine : (p : EventRow → Bool) → Fine (unstart_within p)
unfolding unstart_within
unstart_within-Fine p d = update_actions-RowsOk _ _ (λ a e. unstart-ActionOk a (and_left _ _ e)) d

start_row-Fine : (id : String) (index now_ms : ℕ) → Fine (start_row id index now_ms)
unfolding start_row
start_row-Fine id index now_ms d =
    update_actions-RowsOk _ _
      (λ a e. started-ActionOk a (and_left _ _ (and_right (at_index id index a) _ e))) d

completed-Fine : (p : ActionRow → Bool) (now_ms : ℕ) → Fine (update_actions p (completed now_ms))
completed-Fine p now_ms = update_actions-RowsOk p _ (λ a _. completed-ActionOk now_ms a)

rescheduled-Fine :
    (p : ActionRow → Bool) (next_ms : ℕ) (detail : String) (retry_after_ms : ℕ)
    → Fine (update_actions p (rescheduled next_ms detail retry_after_ms))
rescheduled-Fine p next_ms detail retry_after_ms =
    update_actions-RowsOk p _ (λ a _. rescheduled-ActionOk next_ms retry_after_ms detail a)

killed-Fine :
    (p : ActionRow → Bool) (detail : String) (now_ms : ℕ)
    → Fine (update_actions p (killed detail now_ms))
killed-Fine p detail now_ms = update_actions-RowsOk p _ (λ a _. killed-ActionOk detail now_ms a)

revived-Fine : (p : ActionRow → Bool) (now_ms : ℕ) → Fine (update_actions p (revived now_ms))
revived-Fine p now_ms = update_actions-RowsOk p _ (λ a _. revived-ActionOk now_ms a)

delete_logs_within-Fine : (p : EventRow → Bool) → Fine (delete_logs_within p)
unfolding delete_logs_within
delete_logs_within-Fine p d h = record { events = h.events; actions = h.actions }

delete_actions_within-Fine : (p : EventRow → Bool) → Fine (delete_actions_within p)
unfolding delete_actions_within
delete_actions_within-Fine p d h = record {
  events = h.events;
  actions = All-delete_where ActionOk _ d.actions h.actions;
}

delete_events-Fine : (p : EventRow → Bool) → Fine (delete_events p)
unfolding delete_events
delete_events-Fine p d h = record {
  events = All-delete_where EventOk p d.events h.events;
  actions = h.actions;
}

delete_guards_before-Fine : (t : ℕ) → Fine (delete_guards_before t)
unfolding delete_guards_before
delete_guards_before-Fine t d h = record { events = h.events; actions = h.actions }

delete_heartbeats_before-Fine : (t : ℕ) → Fine (delete_heartbeats_before t)
unfolding delete_heartbeats_before
delete_heartbeats_before-Fine t d h = record { events = h.events; actions = h.actions }

insert_log-Fine : (id : String) (e : Attempt) → Fine (insert_log id e)
unfolding insert_log
insert_log-Fine id e d h = record { events = h.events; actions = h.actions }

toggle_nonce-Fine : Fine toggle_nonce
unfolding toggle_nonce
toggle_nonce-Fine d h = record { events = h.events; actions = h.actions }

rewrite_row-Fine : (id raw updated : String) → Fine (rewrite_row id raw updated)
unfolding rewrite_row
rewrite_row-Fine id raw updated d =
    update_events-RowsOk _ (with_json updated) (λ r _. with_json-EventOk updated r) d

insert_heartbeat-Fine :
    (text : String → ℕ → String) (origin : String → String) (e : HeartbeatLog)
    → Fine (insert_heartbeat text origin e)
unfolding insert_heartbeat
insert_heartbeat-Fine text origin e d h = record { events = h.events; actions = h.actions }

pub RowsOk-Steps : Steps (keeping RowsOk)
RowsOk-Steps = record {
  on_insert_event = insert_event-Fine;
  on_insert_guard = insert_guard-Fine;
  on_delete_expired_guard = delete_expired_guard-Fine;
  on_insert_action = insert_action-Fine;
  on_take_lease = λ id now_ms until_ms owner. take_lease-Fine now_ms until_ms id owner;
  on_with_lease = λ id until_ms owner. with_lease-Fine until_ms id owner;
  on_requeued = λ p. requeued-Fine _;
  on_requeued_one = λ id. requeued-Fine _;
  on_requeue_orphans = requeue_orphans-Fine;
  on_unstart = unstart-Fine;
  on_unstart_within = unstart_within-Fine;
  on_with_vars = λ id. with_vars-Fine _;
  on_drop_payload = λ id. drop_payload-Fine _;
  on_judged = λ id. judged-Fine _;
  on_replayed = λ id. replayed-Fine _;
  on_marked = λ id. marked-Fine _;
  on_start_row = start_row-Fine;
  on_completed = λ id index. completed-Fine _;
  on_rescheduled = λ id index. rescheduled-Fine _;
  on_killed = λ id index. killed-Fine _;
  on_expired = λ id index. killed-Fine _;
  on_revived = λ id. revived-Fine _;
  on_toggle_nonce = toggle_nonce-Fine;
  on_rewrite_row = rewrite_row-Fine;
  on_insert_heartbeat = insert_heartbeat-Fine;
}

RowsOk-Purges : Purges (keeping RowsOk)
RowsOk-Purges = record {
  on_delete_logs = delete_logs_within-Fine;
  on_delete_actions = delete_actions_within-Fine;
  on_delete_events = delete_events-Fine;
  on_delete_guards = delete_guards_before-Fine;
  on_delete_heartbeats = delete_heartbeats_before-Fine;
}

pub RowsOk-Audits : Audits (keeping RowsOk)
unfolding save_action_attempt_log
RowsOk-Audits id e = search (moves_rules, insert_log-Fine) depth 12

RowsOk-Extra : (c : Call) → is_proper c ≡ true → Extra (keeping RowsOk) c
RowsOk-Extra (purges cutoff now) h = RowsOk-Purges
RowsOk-Extra (marks id status now) h = marked-Fine _ status _ h
RowsOk-Extra _ h = tt

RowsOk-Moves :
    (cs : List Call)
    → All (λ c. is_proper c ≡ true) cs
    → All (λ c. Moves (keeping RowsOk) (perform c)) cs
RowsOk-Moves [] h = tt
RowsOk-Moves (c ∷ cs) h =
    (perform_any-Moves RowsOk-Steps RowsOk-Audits c (RowsOk-Extra c h.0), RowsOk-Moves cs h.1)

-- From the empty database every history of store calls, with any statements failing, in which
-- UpdateEventStatus is only called with a terminal status, leaves rows whose columns fit their status: an event holds a lease and an owner exactly while it is
-- processing, has a processing time exactly when its status is terminal, and then has no due time;
-- an action has a completion time exactly when it is done or dead, an error when it is dead or
-- retrying and none when it is done, a due time when it is retrying and none when it is running,
-- done or dead, and a running action has a positive attempt count.
pub run_calls-RowsOk :
    (cs : List Call) (faults : List Bool)
    → All (λ c. is_proper c ≡ true) cs
    → RowsOk (run_calls cs (record { db = empty_db; faults = faults })).db
run_calls-RowsOk cs faults proper =
    run_calls-rel (keeping RowsOk) cs (RowsOk-Moves cs proper) _ empty-RowsOk
