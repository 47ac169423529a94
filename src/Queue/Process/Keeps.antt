-- ===== src/Queue/Process/Keeps.antt =====
-- The database under `process`: what every statement of the store respects, a pass respects.
use general_webhook.Base.{
  ℕ, String, Bool, Option, none, some, List, [], ◌∷◌, ◌+◌, ◌&&◌, ◌||◌, leb, ltb,
}
use general_webhook.Config.{Vars, ActionConfig, Source}
use general_webhook.Handler.Errors.{ActionError}
use general_webhook.Store.Rows.{is_done, is_dead, is_startable, is_retrying}
use general_webhook.Store.Tx.{Tx, Result, ok, err, no_rows, ◌>>◌}
use general_webhook.Store.Tx.Relation.{
  Change, Moves, Moves-bind, Moves-caught, Moves-ignoring, Moves-if, Moves-option, Moves-pure,
  moves_rules,
}
use general_webhook.Store.Claim.{PendingEvent, unix_milli}
use general_webhook.Store.Action.{ActionState, list_action_states}
use general_webhook.Store.Calls.Steps.{Steps, Audits}
use general_webhook.Store.Calls.Kept.{
  prepare_event-Moves, start_action-Moves, complete_action-Moves, dead_action-Moves,
  schedule_action_retry-Moves, expire_action-Moves, refresh_event_status-Moves,
}
use general_webhook.Queue.Failure.{deadline, Decision, requeues, kills, retries}
use general_webhook.Queue.Vars.Keeps.{requeue-Moves, tried-Moves, execution_vars-Moves}
use general_webhook.Queue.Process.{
  Turn, Pass, Flow, goes_on, stops, log_action, step, give_up, settle_failure, settle_outcome,
  no_handler, after_start, try_state, try_action, go_on, run_actions, finish, process_prepared,
  process_vars, process,
}

module _ {R : Change} (s : Steps R) where
  step-Moves : (id : String) (m : Tx Unit) → Moves R m → Moves R (step id m)
  unfolding step
  step-Moves id m h = tried-Moves s id stops m _ h (λ _. search moves_rules)

  give_up-Moves : (id : String) → Moves R (give_up id)
  unfolding give_up
  give_up-Moves id = Moves-bind _ _ (requeue-Moves s id) (λ _. Moves-pure _)

  settle_failure-Moves :
      (ev : PendingEvent) (index now : ℕ) (d : Decision) → Moves R (settle_failure ev index now d)
  unfolding settle_failure
  settle_failure-Moves ev index now requeues = give_up-Moves ev.id
  settle_failure-Moves ev index now (kills detail) =
      step-Moves ev.id _ (dead_action-Moves s ev.id index detail now)
  settle_failure-Moves ev index now (retries next detail asked) =
      step-Moves ev.id _ (schedule_action_retry-Moves s ev.id index next detail asked)

  try_step-Moves : (id : String) (m n : Tx Unit) → Moves R m → Moves R n → Moves R (do m; step id n)
  try_step-Moves id m n hm hn = Moves-bind _ _ hm (λ _. step-Moves id n hn)

module _ {R : Change} (s : Steps R) (audit : Audits R) where
  log_action-Moves :
      (p : Pass) (ev : PendingEvent) (index : ℕ) (action target : String) (attempt : ℕ)
      (success : Bool) (detail : String) (duration now : ℕ)
      → Moves R (log_action p ev index action target attempt success detail duration now)
  unfolding log_action
  log_action-Moves p ev index action target attempt success detail duration now =
      Moves-ignoring _ (audit ev.id _)

  settle_outcome-Moves :
      (p : Pass) (ev : PendingEvent) (index : ℕ) (ac : ActionConfig) (attempt : ℕ) (t : Turn)
      (e : Option ActionError)
      → Moves R (settle_outcome p ev index ac attempt t e)
  unfolding settle_outcome
  settle_outcome-Moves p ev index ac attempt t none =
      try_step-Moves s ev.id _ _ (log_action-Moves p ev index _ _ _ _ _ _ _)
        (complete_action-Moves s ev.id index _)
  settle_outcome-Moves p ev index ac attempt t (some e) =
      Moves-bind _ _ (log_action-Moves p ev index _ _ _ _ _ _ _)
        (λ _. settle_failure-Moves s ev index _ _)

  no_handler-Moves :
      (p : Pass) (ev : PendingEvent) (index : ℕ) (ac : ActionConfig) (attempt : ℕ) (t : Turn)
      → Moves R (no_handler p ev index ac attempt t)
  unfolding no_handler
  no_handler-Moves p ev index ac attempt t =
      try_step-Moves s ev.id _ _ (log_action-Moves p ev index _ _ _ _ _ _ _)
        (dead_action-Moves s ev.id index _ _)

  after_start-Moves :
      (p : Pass) (ev : PendingEvent) (index : ℕ) (ac : ActionConfig) (t : Turn) (r : Result ℕ)
      → Moves R (after_start p ev index ac t r)
  unfolding after_start
  after_start-Moves p ev index ac t (ok attempt) =
      Moves-if _ _ _ (settle_outcome-Moves p ev index ac attempt t _)
        (no_handler-Moves p ev index ac attempt t)
  after_start-Moves p ev index ac t (err no_rows) = Moves-pure _
  after_start-Moves p ev index ac t (err e) = give_up-Moves s ev.id

  try_state-Moves :
      (p : Pass) (ev : PendingEvent) (index : ℕ) (ac : ActionConfig) (t : Turn) (a : ActionState)
      → Moves R (try_state p ev index ac t a)
  unfolding try_state
  try_state-Moves p ev index ac t a =
      Moves-if (is_done a.status || is_dead a.status) _ _ (Moves-pure goes_on) (
        Moves-if (is_startable a.status && leb (deadline p.queue ev) t.now) _ _
          (step-Moves s ev.id _ (expire_action-Moves s ev.id index t.now))
          (Moves-if (is_retrying a.status && ltb (unix_milli t.now) a.next_attempt_ms) _ _
            (Moves-pure goes_on)
            (Moves-bind _ _ (Moves-caught _ (start_action-Moves s ev.id index t.now))
              (λ r. after_start-Moves p ev index ac t r))))

  try_action-Moves :
      (p : Pass) (ev : PendingEvent) (index : ℕ) (ac : ActionConfig) (t : Turn)
      (a : Option ActionState)
      → Moves R (try_action p ev index ac t a)
  unfolding try_action
  try_action-Moves p ev index ac t a =
      Moves-if _ _ _ (give_up-Moves s ev.id)
        (Moves-option a _ _ (Moves-pure _) (λ b. try_state-Moves p ev index ac t b))

  go_on-Moves : (flow : Flow) (rest : Tx Flow) → Moves R rest → Moves R (go_on flow rest)
  unfolding go_on
  go_on-Moves goes_on rest h = h
  go_on-Moves stops rest h = Moves-pure _

  run_actions-Moves :
      (p : Pass) (ev : PendingEvent) (states : List ActionState) (index : ℕ)
      (actions : List ActionConfig)
      → Moves R (run_actions p ev states index actions)
  unfolding run_actions
  run_actions-Moves p ev states index [] = Moves-pure _
  run_actions-Moves p ev states index (ac ∷ actions) =
      Moves-bind _ _ (try_action-Moves p ev index ac _ _)
        (λ flow. go_on-Moves flow _ (run_actions-Moves p ev states (index + 1) actions))

  finish-Moves : (p : Pass) (ev : PendingEvent) (flow : Flow) → Moves R (finish p ev flow)
  unfolding finish
  finish-Moves p ev stops = Moves-pure _
  finish-Moves p ev goes_on =
      tried-Moves s ev.id tt _ _ (refresh_event_status-Moves s ev.id _) (λ _. Moves-pure _)

  list_action_states-Moves : (id : String) → Moves R (list_action_states id)
  unfolding list_action_states
  list_action_states-Moves id = search moves_rules

  process_prepared-Moves :
      (p : Pass) (ev : PendingEvent) (src : Source) → Moves R (process_prepared p ev src)
  unfolding process_prepared
  process_prepared-Moves p ev src =
      tried-Moves s ev.id tt _ _ (list_action_states-Moves ev.id)
        (λ states. Moves-bind _ _ (run_actions-Moves p ev states 0 src.actions) (finish-Moves p ev))

  process_vars-Moves :
      (p : Pass) (ev : PendingEvent) (src : Source) (vars : Option Vars)
      → Moves R (process_vars p ev src vars)
  unfolding process_vars
  process_vars-Moves p ev src none = Moves-pure _
  process_vars-Moves p ev src (some vars) =
      Moves-option (p.parts.write_vars vars) _ _ (requeue-Moves s ev.id) (λ json.
        tried-Moves s ev.id tt _ _ (prepare_event-Moves s ev.id json _ _ _)
          (λ _. process_prepared-Moves p ev src))

  -- A pass over the actions of an event respects what every statement of the store respects.
  pub process-Moves : (p : Pass) (ev : PendingEvent) (src : Source) → Moves R (process p ev src)
  unfolding process
  process-Moves p ev src =
      Moves-bind _ _ (execution_vars-Moves s p.parts p.config ev src p.vars_at)
        (process_vars-Moves p ev src)
