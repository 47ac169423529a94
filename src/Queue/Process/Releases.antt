-- ===== src/Queue/Process/Releases.antt =====
-- A pass ends, and leaves its event to be claimed again or finished.
use general_webhook.Base.{
  ℕ, ◌+◌, String, Bool, Option, none, some, List, [], ◌∷◌, ◌≡◌, sym, ap, subst, length,
}
use general_webhook.Config.{Vars, ActionConfig, Source}
use general_webhook.Handler.Errors.{ActionError}
use general_webhook.Store.Rows.{Db}
use general_webhook.Store.Tx.{World, Tx, Result, ok, err, no_rows, caught, ◌>>=◌}
use general_webhook.Store.Tx.Inversion.{calm}
use general_webhook.Store.Tx.Ends.{Ends, Ends-of_run}
use general_webhook.Store.Tx.Calm.{
  Calm, Reaches, Reaches-pure, Reaches-caught, Reaches-ignoring, Reaches-bind,
}
use general_webhook.Store.Calls.Calm.{
  prepare_event-Calm, list_action_states-Calm, start_action-Calm, complete_action-Calm,
  schedule_action_retry-Calm, dead_action-Calm, expire_action-Calm, refresh_event_status-Calm,
  save_action_attempt_log-Calm,
}
use general_webhook.Store.Released.{Released, refresh_event_status-Released}
use general_webhook.Store.Claim.{PendingEvent}
use general_webhook.Store.Action.{ActionState, prepare_event, refresh_event_status}
use general_webhook.Queue.Failure.{Decision, requeues, kills, retries}
use general_webhook.Queue.Vars.{requeue, or_requeue, drops_payload}
use general_webhook.Queue.Vars.Releases.{
  Anything, VarsReleased, requeue-Reaches, requeued_Reaches, caught-Reaches, if_Reaches,
  execution_vars-Reaches,
}
use general_webhook.Queue.Process.{
  Pass, Turn, Flow, goes_on, stops, log_action, step, give_up, settle_failure, settle_outcome,
  no_handler, after_start, try_state, try_action, state_at, go_on, run_actions, finish,
  process_prepared, process_vars, process,
}

-- A loop that stops has released the event.
abbrev StopsReleased : String → Flow → Db → Type 0
StopsReleased id goes_on d = Unit
StopsReleased id stops d = Released id d

step-Reaches :
    (id : String) (m : Tx Unit) (d : Db) → Calm m → Reaches (step id m) d (StopsReleased id)
unfolding step
step-Reaches id m d c =
    caught-Reaches id stops (StopsReleased id) (λ _ h. h) m _ d c
      (λ _ e _ _. Reaches-pure goes_on e _ tt)

give_up-Reaches : (id : String) (d : Db) → Reaches (give_up id) d (StopsReleased id)
unfolding give_up
give_up-Reaches id d = requeued_Reaches id stops (StopsReleased id) (λ _ h. h) d

module _ (p : Pass) (ev : PendingEvent) where
  abbrev Stops : Flow → Db → Type 0
  Stops = StopsReleased ev.id

  log_action-Reaches :
      (index : ℕ) (action target : String) (attempt : ℕ) (success : Bool) (detail : String)
      (duration now : ℕ) (d : Db)
      → Reaches (log_action p ev index action target attempt success detail duration now) d Anything
  unfolding log_action
  log_action-Reaches index action target attempt success detail duration now d =
      Reaches-ignoring _ d Anything (save_action_attempt_log-Calm _ _) tt

  settle_failure-Reaches :
      (index now : ℕ) (decision : Decision) (d : Db)
      → Reaches (settle_failure ev index now decision) d Stops
  unfolding settle_failure
  settle_failure-Reaches index now requeues d = give_up-Reaches ev.id d
  settle_failure-Reaches index now (kills detail) d =
      step-Reaches ev.id _ d (dead_action-Calm ev.id index detail now)
  settle_failure-Reaches index now (retries next detail asked) d =
      step-Reaches ev.id _ d (schedule_action_retry-Calm ev.id index next detail asked)

  settle_outcome-Reaches :
      (index : ℕ) (ac : ActionConfig) (attempt : ℕ) (t : Turn) (o : Option ActionError) (d : Db)
      → Reaches (settle_outcome p ev index ac attempt t o) d Stops
  unfolding settle_outcome
  settle_outcome-Reaches index ac attempt t none d =
      Reaches-bind _ _ d Anything Stops (log_action-Reaches _ _ _ _ _ _ _ _ d)
        (λ _ e _. step-Reaches ev.id _ e (complete_action-Calm ev.id index t.settled_at))
  settle_outcome-Reaches index ac attempt t (some x) d =
      Reaches-bind _ _ d Anything Stops (log_action-Reaches _ _ _ _ _ _ _ _ d)
        (λ _ e _. settle_failure-Reaches index t.settled_at _ e)

  no_handler-Reaches :
      (index : ℕ) (ac : ActionConfig) (attempt : ℕ) (t : Turn) (d : Db)
      → Reaches (no_handler p ev index ac attempt t) d Stops
  unfolding no_handler
  no_handler-Reaches index ac attempt t d =
      Reaches-bind _ _ d Anything Stops (log_action-Reaches _ _ _ _ _ _ _ _ d)
        (λ _ e _. step-Reaches ev.id _ e (dead_action-Calm ev.id index _ t.settled_at))

  after_start-Reaches :
      (index : ℕ) (ac : ActionConfig) (t : Turn) (r : Result ℕ) (d : Db)
      → Reaches (after_start p ev index ac t r) d Stops
  unfolding after_start
  after_start-Reaches index ac t (ok attempt) d =
      if_Reaches (p.has_handler ac.type) _ _ d Stops
        (settle_outcome-Reaches index ac attempt t t.outcome.error d)
        (no_handler-Reaches index ac attempt t d)
  after_start-Reaches index ac t (err no_rows) d = Reaches-pure goes_on d Stops tt
  after_start-Reaches index ac t (err _) d = give_up-Reaches ev.id d

  try_state-Reaches :
      (index : ℕ) (ac : ActionConfig) (t : Turn) (s : ActionState) (d : Db)
      → Reaches (try_state p ev index ac t s) d Stops
  unfolding try_state
  try_state-Reaches index ac t s d = if_Reaches _ _ _ d Stops (Reaches-pure goes_on d Stops tt) (
      if_Reaches _ _ _ d Stops (step-Reaches ev.id _ d (expire_action-Calm ev.id index t.now)) (
        if_Reaches _ _ _ d Stops (Reaches-pure goes_on d Stops tt) (
          Reaches-bind _ _ d Anything Stops
            (Reaches-caught _ d Anything (start_action-Calm ev.id index t.now) tt)
            (λ r e _. after_start-Reaches index ac t r e))))

  try_action-Reaches :
      (index : ℕ) (ac : ActionConfig) (t : Turn) (o : Option ActionState) (d : Db)
      → Reaches (try_action p ev index ac t o) d Stops
  unfolding try_action
  try_action-Reaches index ac t none d =
      if_Reaches t.canceled _ _ d Stops (give_up-Reaches ev.id d) (Reaches-pure goes_on d Stops tt)
  try_action-Reaches index ac t (some s) d =
      if_Reaches t.canceled _ _ d Stops (give_up-Reaches ev.id d) (try_state-Reaches index ac t s d)

  go_on-Reaches :
      (flow : Flow) (rest : Tx Flow) (d : Db)
      → Stops flow d
      → ((e : Db) → Reaches rest e Stops)
      → Reaches (go_on flow rest) d Stops
  unfolding go_on
  go_on-Reaches goes_on rest d h k = k d
  go_on-Reaches stops rest d h k = Reaches-pure stops d Stops h

  run_actions-Reaches :
      (states : List ActionState) (index : ℕ) (actions : List ActionConfig) (d : Db)
      → Reaches (run_actions p ev states index actions) d Stops
  unfolding run_actions
  run_actions-Reaches states index [] d = Reaches-pure goes_on d Stops tt
  run_actions-Reaches states index (ac ∷ actions) d =
      Reaches-bind _ _ d Stops Stops
        (try_action-Reaches index ac (p.turn index) (state_at states index) d)
        (λ flow e h. go_on-Reaches flow _ e h (run_actions-Reaches states (index + 1) actions))

  abbrev Free : Unit {0} → Db → Type 0
  Free _ d = Released ev.id d

  finish-Reaches : (flow : Flow) (d : Db) → Stops flow d → Reaches (finish p ev flow) d Free
  unfolding finish
  finish-Reaches stops d h = Reaches-pure tt d Free h
  finish-Reaches goes_on d h =
      let judge = refresh_event_status ev.id p.judged_at in
      caught-Reaches ev.id tt Free (λ _ r. r) judge _ d
        (refresh_event_status-Calm ev.id p.judged_at)
        (λ s e q at. Reaches-pure tt e Free (
          refresh_event_status-Released ev.id p.judged_at d e s
            (subst (λ (x : Db). Ends judge d s x) at (Ends-of_run judge (calm d) s q))))

  process_prepared-Reaches : (src : Source) (d : Db) → Reaches (process_prepared p ev src) d Free
  unfolding process_prepared
  process_prepared-Reaches src d =
      caught-Reaches ev.id tt Free (λ _ r. r) _ _ d (list_action_states-Calm ev.id)
        (λ states e _ _.
          Reaches-bind _ _ e Stops Free (run_actions-Reaches states 0 src.actions e)
            (λ flow f h. finish-Reaches flow f h))

  written-Reaches :
      (src : Source) (o : Option String) (d : Db)
      → Reaches
          (elim o as (λ _. Tx Unit) [
            | none ↦ requeue ev.id
            | some json ↦
                caught (
                  prepare_event ev.id json
                    (length src.actions)
                    (drops_payload p.config)
                    p.prepared_at)
                >>= or_requeue ev.id tt (λ _. process_prepared p ev src)
          ])
          d
          Free
  written-Reaches src none d = requeue-Reaches ev.id d
  written-Reaches src (some json) d =
      caught-Reaches ev.id tt Free (λ _ r. r) _ _ d
        (prepare_event-Calm ev.id json _ _ p.prepared_at)
        (λ _ e _ _. process_prepared-Reaches src e)

  process_vars-Reaches :
      (src : Source) (o : Option Vars) (d : Db)
      → VarsReleased ev.id o d
      → Reaches (process_vars p ev src o) d Free
  unfolding process_vars
  process_vars-Reaches src none d h = Reaches-pure tt d Free h
  process_vars-Reaches src (some vars) d h = written-Reaches src (p.parts.write_vars vars) d

  process-Reaches : (src : Source) (d : Db) → Reaches (process p ev src) d Free
  unfolding process
  process-Reaches src d =
      Reaches-bind _ _ d (VarsReleased ev.id) Free
        (execution_vars-Reaches p.parts p.config ev src p.vars_at d)
        (λ vars e h. process_vars-Reaches src vars e h)

  -- If no statement of the store fails, a pass ends without an error, whatever the handlers answer and
  -- whenever the context is canceled, and no event with its id is left in processing: it is finished,
  -- or waits to be claimed again.
  pub process-Released :
      (src : Source) (d : Db)
      → ((process p ev src (calm d)).0 ≡ ok tt) × Released ev.id (process p ev src (calm d)).1.db
  process-Released src d =
      let r = process-Reaches src d in
      (
        ap (λ (x : Result (Unit {0}) × World). x.0) r.runs,
        subst (Released ev.id) (sym (ap (λ (x : Result (Unit {0}) × World). x.1.db) r.runs))
            r.holds,
      )
