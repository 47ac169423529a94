-- ===== src/Store/Invariant/Rows.antt =====
-- The columns of each row fit its status.
use general_webhook.Base.{
  ℕ, ◌<◌, String, Bool, true, false, none, ◌≡◌, arith, All, All-update_where, is_some,
}
use general_webhook.Store.Rows.{
  EventStatus, ActionStatus, EventRow, ActionRow, Db, empty_db, is_processing, is_terminal,
  is_running, is_retrying, is_done, is_dead,
}
use general_webhook.Base.{◌&&◌}
use general_webhook.Store.Rows.{has_id, is_startable}
use general_webhook.Store.Accept.{NewEvent, new_row}
use general_webhook.Store.Claim.{take_lease, claimable, with_lease, owned_by, unstart}
use general_webhook.Store.Requeue.{requeued}
use general_webhook.Store.Action.{
  Tally, with_vars, drop_payload, verdict, judged, started, completed, rescheduled, killed,
}
use general_webhook.Store.Snapshots.{with_json}
use general_webhook.Store.Replay.{revived, replayed, marked}
use general_webhook.Store.Tx.{update_events, update_actions}

abbrev pub is_over : ActionStatus → Bool
is_over ActionStatus.done = true
is_over ActionStatus.dead = true
is_over _ = false

-- An event holds a lease exactly while it is processed, and has a processing time exactly when it is
-- over; then nothing is due.
pub record EventOk (r : EventRow) : Type 0 where
  pub leased : is_some r.lease_until_ms ≡ is_processing r.status
  pub owned : is_some r.lease_owner ≡ is_processing r.status
  pub stamped : is_some r.processed_at_ms ≡ is_terminal r.status
  pub over : is_terminal r.status ≡ true → r.next_attempt_at_ms ≡ none

-- An action has a completion time exactly when it is done or dead, an error when it is dead or
-- waits for a retry and none when it is done, a due time when it waits for a retry and none while
-- it runs or when it is over; a running one has been counted.
pub record ActionOk (a : ActionRow) : Type 0 where
  pub finished : is_some a.completed_at_ms ≡ is_over a.status
  pub failed : is_dead a.status ≡ true → is_some a.last_error ≡ true
  pub waited : is_retrying a.status ≡ true → is_some a.last_error ≡ true
  pub clean : is_done a.status ≡ true → a.last_error ≡ none
  pub due : is_retrying a.status ≡ true → is_some a.next_attempt_at_ms ≡ true
  pub idle : is_running a.status ≡ true → a.next_attempt_at_ms ≡ none
  pub settled : is_over a.status ≡ true → a.next_attempt_at_ms ≡ none
  pub counted : is_running a.status ≡ true → 0 < a.attempt_count

pub record RowsOk (d : Db) : Type 0 where
  pub events : All EventOk d.events
  pub actions : All ActionOk d.actions

pub update_events-RowsOk :
    (p : EventRow → Bool) (f : EventRow → EventRow)
    → ((r : EventRow) → p r ≡ true → EventOk r → EventOk (f r))
    → (d : Db) → RowsOk d
    → RowsOk (update_events p f d).1
unfolding update_events
update_events-RowsOk p f step d h = record {
  events = All-update_where EventOk p f step d.events h.events;
  actions = h.actions;
}

pub update_actions-RowsOk :
    (p : ActionRow → Bool) (f : ActionRow → ActionRow)
    → ((a : ActionRow) → p a ≡ true → ActionOk a → ActionOk (f a))
    → (d : Db) → RowsOk d
    → RowsOk (update_actions p f d).1
unfolding update_actions
update_actions-RowsOk p f step d h = record {
  events = h.events;
  actions = All-update_where ActionOk p f step d.actions h.actions;
}

pub empty-RowsOk : RowsOk empty_db
empty-RowsOk = record { events = tt; actions = tt }

-- One lemma for each assignment.
pub take_lease-EventOk :
    (now_ms until_ms : ℕ) (id owner : String) (r : EventRow)
    → (has_id id r && claimable now_ms r) ≡ true
    → EventOk r
    → EventOk (take_lease until_ms owner r)
unfolding take_lease claimable
take_lease-EventOk now_ms until_ms id owner r p h = ground arith

pub with_lease-EventOk :
    (until_ms : ℕ) (id owner : String) (r : EventRow)
    → (has_id id r && (is_processing r.status && owned_by owner r.lease_owner)) ≡ true
    → EventOk r
    → EventOk (with_lease until_ms r)
unfolding with_lease
with_lease-EventOk until_ms id owner r p h = ground arith

pub requeued-EventOk : (r : EventRow) → EventOk r → EventOk (requeued r)
unfolding requeued
requeued-EventOk r h = ground arith

pub with_vars-EventOk : (vars : String) (r : EventRow) → EventOk r → EventOk (with_vars vars r)
unfolding with_vars
with_vars-EventOk vars r h = record {
  leased = h.leased;
  owned = h.owned;
  stamped = h.stamped;
  over = h.over;
}

pub drop_payload-EventOk : (r : EventRow) → EventOk r → EventOk (drop_payload r)
unfolding drop_payload
drop_payload-EventOk r h = record {
  leased = h.leased;
  owned = h.owned;
  stamped = h.stamped;
  over = h.over;
}

pub with_json-EventOk : (json : String) (r : EventRow) → EventOk r → EventOk (with_json json r)
with_json-EventOk json r h = record {
  leased = h.leased;
  owned = h.owned;
  stamped = h.stamped;
  over = h.over;
}

pub judged-EventOk :
    (t : Tally) (now_ms : ℕ) (r : EventRow) → EventOk r → EventOk (judged (verdict t now_ms) r)
unfolding judged verdict
judged-EventOk t now_ms r h = ground arith

pub replayed-EventOk :
    (reason : String) (now_ms generation : ℕ) (r : EventRow)
    → EventOk r
    → EventOk (replayed reason now_ms generation r)
unfolding replayed
replayed-EventOk reason now_ms generation r h = ground arith

pub marked-EventOk :
    (status : EventStatus) (at_ms : ℕ) (r : EventRow)
    → is_terminal status ≡ true
    → EventOk r
    → EventOk (marked status at_ms r)
unfolding marked
marked-EventOk status at_ms r t h = ground arith

pub new_row-EventOk : (e : NewEvent) → EventOk (new_row e)
unfolding new_row
new_row-EventOk e = ground arith

pub unstart-ActionOk :
    (a : ActionRow) → is_running a.status ≡ true → ActionOk a → ActionOk (unstart a)
unfolding unstart
unstart-ActionOk a p h = ground arith

pub started-ActionOk :
    (a : ActionRow) → is_startable a.status ≡ true → ActionOk a → ActionOk (started a)
unfolding started
started-ActionOk a p h = ground arith

pub completed-ActionOk : (now_ms : ℕ) (a : ActionRow) → ActionOk a → ActionOk (completed now_ms a)
unfolding completed
completed-ActionOk now_ms a h = ground arith

pub rescheduled-ActionOk :
    (next_ms retry_after_ms : ℕ) (detail : String) (a : ActionRow)
    → ActionOk a
    → ActionOk (rescheduled next_ms detail retry_after_ms a)
unfolding rescheduled
rescheduled-ActionOk next_ms retry_after_ms detail a h = ground arith

pub killed-ActionOk :
    (detail : String) (now_ms : ℕ) (a : ActionRow) → ActionOk a → ActionOk (killed detail now_ms a)
unfolding killed
killed-ActionOk detail now_ms a h = ground arith

pub revived-ActionOk : (now_ms : ℕ) (a : ActionRow) → ActionOk a → ActionOk (revived now_ms a)
unfolding revived
revived-ActionOk now_ms a h = ground arith
