-- ===== src/Store/Calls/Calm.antt =====
-- No call of the queue makes a statement fail.
use general_webhook.Base.{ℕ, zero, suc, String, Bool, true, false}
use general_webhook.Store.Rows.{EventStatus}
use general_webhook.Store.Tx.Calm.{Calm, calm_rules}
use general_webhook.Store.Requeue.{requeue_event}
use general_webhook.Store.Action.{
  insert_actions, clear_if, prepare_event, list_action_states, start_action, complete_action,
  schedule_action_retry, dead_action, expire_action, refresh_event_status,
}
use general_webhook.Store.Replay.{update_event_status, clear_payload}
use general_webhook.Store.Audit.{Attempt, save_action_attempt_log, get_payload}

pub requeue_event-Calm : (id : String) → Calm (requeue_event id)
unfolding requeue_event
requeue_event-Calm id = search calm_rules depth 12

insert_actions-Calm : (id : String) (left index now : ℕ) → Calm (insert_actions id left index now)
unfolding insert_actions
insert_actions-Calm id zero index now = search calm_rules
insert_actions-Calm id (suc left) index now = search (calm_rules, insert_actions-Calm id left)

clear_if-Calm : (id : String) (b : Bool) → Calm (clear_if id b)
unfolding clear_if
clear_if-Calm id false = search calm_rules
clear_if-Calm id true = search calm_rules

pub prepare_event-Calm :
    (id vars : String) (n : ℕ) (clear : Bool) (now : ℕ) → Calm (prepare_event id vars n clear now)
unfolding prepare_event
prepare_event-Calm id vars n clear now =
    search (calm_rules, insert_actions-Calm, clear_if-Calm) depth 12

pub list_action_states-Calm : (id : String) → Calm (list_action_states id)
unfolding list_action_states
list_action_states-Calm id = search calm_rules

pub start_action-Calm : (id : String) (index now : ℕ) → Calm (start_action id index now)
unfolding start_action
start_action-Calm id index now = search calm_rules

pub complete_action-Calm : (id : String) (index now : ℕ) → Calm (complete_action id index now)
unfolding complete_action
complete_action-Calm id index now = search calm_rules

pub schedule_action_retry-Calm :
    (id : String) (index next : ℕ) (detail : String) (after : ℕ)
    → Calm (schedule_action_retry id index next detail after)
unfolding schedule_action_retry
schedule_action_retry-Calm id index next detail after = search calm_rules

pub dead_action-Calm :
    (id : String) (index : ℕ) (detail : String) (now : ℕ) → Calm (dead_action id index detail now)
unfolding dead_action
dead_action-Calm id index detail now = search calm_rules

pub expire_action-Calm : (id : String) (index now : ℕ) → Calm (expire_action id index now)
unfolding expire_action
expire_action-Calm id index now = search calm_rules

pub refresh_event_status-Calm : (id : String) (now : ℕ) → Calm (refresh_event_status id now)
unfolding refresh_event_status
refresh_event_status-Calm id now = search calm_rules depth 12

pub update_event_status-Calm :
    (id : String) (status : EventStatus) (now : ℕ) → Calm (update_event_status id status now)
unfolding update_event_status
update_event_status-Calm id status now = search calm_rules

pub clear_payload-Calm : (id : String) → Calm (clear_payload id)
unfolding clear_payload
clear_payload-Calm id = search calm_rules

pub get_payload-Calm : (id : String) → Calm (get_payload id)
unfolding get_payload
get_payload-Calm id = search calm_rules depth 12

pub save_action_attempt_log-Calm : (id : String) (e : Attempt) → Calm (save_action_attempt_log id e)
unfolding save_action_attempt_log
save_action_attempt_log-Calm id e = search calm_rules depth 12
