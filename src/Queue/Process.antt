-- ===== src/Queue/Process.antt =====
-- internal/queue/queue.go: process, with logAction and requeue, and drain with resolveSource. What
-- comes from outside, the clock and the handlers' answers among it, is the data of a `Pass`; the
-- calls that the lease heartbeat makes meanwhile are not part of a pass.
pub mod Keeps
pub mod Releases
use general_webhook.Base.{
  ℕ, zero, suc, ◌+◌, String, Bool, true, false, Option, none, some, List, [], ◌∷◌, ◌&&◌, ◌||◌,
  str_eq, leb, ltb, ◌==◌, if◌then◌else◌, length, pos, first_where,
}
use Prim.Native.String.{◌++◌}
use general_webhook.Config.{Vars, ActionConfig, Source, Config}
use general_webhook.Handler.Errors.{ActionError, Outcome}
use general_webhook.Store.Rows.{EventStatus, is_done, is_dead, is_startable, is_retrying}
use general_webhook.Store.Accept.{is_empty}
use general_webhook.Store.Tx.{Tx, Result, ok, err, no_rows, pure, ignoring, caught, ◌>>=◌, ◌>>◌}
use general_webhook.Store.Claim.{unix_milli, PendingEvent, claim_pending}
use general_webhook.Store.Requeue.{requeue_expired_leases}
use general_webhook.Store.Action.{
  ActionState, prepare_event, list_action_states, start_action, complete_action, dead_action,
  schedule_action_retry, expire_action, refresh_event_status,
}
use general_webhook.Store.Replay.{update_event_status}
use general_webhook.Store.Audit.{save_action_attempt_log}
use general_webhook.Queue.Settings.{Queue}
use general_webhook.Queue.Failure.{Decision, requeues, kills, retries, deadline, decide}
use general_webhook.Queue.Vars.{Parts, requeue, drops_payload, or_requeue, execution_vars}

-- What the handler of one action answers, whether the context is canceled before and after it, and
-- what the clock shows at each reading.
pub record Turn : Type 0 where
  pub canceled : Bool
  pub now : ℕ
  pub outcome : Outcome
  pub duration : ℕ
  pub logged_at : ℕ
  pub canceled_later : Bool
  pub retry_from : ℕ
  pub settled_at : ℕ

-- One call of `process`: `redact` is logger.RedactSensitive and `has_handler` the Registry.
pub record Pass : Type 0 where
  pub queue : Queue
  pub config : Option Config
  pub parts : Parts
  pub redact : String → String
  pub jitter : ℕ → ℕ
  pub has_handler : String → Bool
  pub turn : ℕ → Turn
  pub vars_at : ℕ
  pub prepared_at : ℕ
  pub judged_at : ℕ

-- The next action, or `return`.
pub data Flow : Type 0 where
  goes_on stops : Flow

unfoldable pub log_action :
    Pass → PendingEvent → ℕ → String → String → ℕ → Bool → String → ℕ → ℕ → Tx Unit
log_action p ev index action target attempt success detail duration now = ignoring (
    save_action_attempt_log ev.id (record {
      action_index = pos index;
      generation = ev.replay_generation;
      action = action;
      target = p.redact target;
      attempt = attempt;
      success = success;
      detail = p.redact detail;
      duration = duration;
      at = now;
    }))

-- A store call that must succeed for the loop to go on.
unfoldable pub step : String → Tx Unit → Tx Flow
step id m = do r ← caught m; or_requeue id stops (λ _. pure goes_on) r

unfoldable pub give_up : String → Tx Flow
give_up id = do requeue id; pure stops

unfoldable pub settle_failure : PendingEvent → ℕ → ℕ → Decision → Tx Flow
unfolding step give_up
settle_failure ev index now requeues = give_up ev.id
settle_failure ev index now (kills detail) = step ev.id (dead_action ev.id index detail now)
settle_failure ev index now (retries next detail asked) =
    step ev.id (schedule_action_retry ev.id index next detail asked)

-- The handler ran, and answered `t.outcome`.
unfoldable pub settle_outcome :
    Pass → PendingEvent → ℕ → ActionConfig → ℕ → Turn → Option ActionError → Tx Flow
unfolding step log_action settle_failure
settle_outcome p ev index ac attempt t none = do
  log_action p ev index ac.type t.outcome.target attempt true t.outcome.detail t.duration
      t.logged_at
  step ev.id (complete_action ev.id index t.settled_at)
settle_outcome p ev index ac attempt t (some e) = do
  log_action p ev index ac.type t.outcome.target attempt false e.message t.duration t.logged_at
  settle_failure ev index t.settled_at
      (decide p.queue ev p.jitter e t.canceled_later attempt (p.redact e.message) t.retry_from)

unfoldable pub no_handler : Pass → PendingEvent → ℕ → ActionConfig → ℕ → Turn → Tx Flow
unfolding step log_action
no_handler p ev index ac attempt t = do
  let detail = "no handler for action type " ++ ac.type
  log_action p ev index ac.type "" attempt false detail 0 t.logged_at
  step ev.id (dead_action ev.id index detail t.settled_at)

unfoldable pub after_start : Pass → PendingEvent → ℕ → ActionConfig → Turn → Result ℕ → Tx Flow
unfolding give_up no_handler settle_outcome
after_start p ev index ac t (ok attempt) =
    if p.has_handler ac.type
    then settle_outcome p ev index ac attempt t t.outcome.error
    else no_handler p ev index ac attempt t
after_start p ev index ac t (err no_rows) = pure goes_on
after_start p ev index ac t (err e) = give_up ev.id

-- An action that has a state.
unfoldable pub try_state : Pass → PendingEvent → ℕ → ActionConfig → Turn → ActionState → Tx Flow
unfolding after_start step
try_state p ev index ac t s =
    if is_done s.status || is_dead s.status
    then pure goes_on
    else if is_startable s.status && leb (deadline p.queue ev) t.now
    then step ev.id (expire_action ev.id index t.now)
    else if is_retrying s.status && ltb (unix_milli t.now) s.next_attempt_ms
    then pure goes_on
    else (do started ← caught (start_action ev.id index t.now); after_start p ev index ac t started)

-- stateByIndex[index]: of two states with one index the later one counts.
unfoldable pub state_at : List ActionState → ℕ → Option ActionState
state_at [] index = none
state_at (s ∷ states) index = elim (state_at states index) [
  | some t ↦ some t
  | none ↦ if s.index == index then some s else none
]

unfoldable pub try_action :
    Pass → PendingEvent → ℕ → ActionConfig → Turn → Option ActionState → Tx Flow
unfolding give_up try_state
try_action p ev index ac t state =
    if t.canceled
    then give_up ev.id
    else elim state [ none ↦ pure goes_on | some s ↦ try_state p ev index ac t s ]

unfoldable pub go_on : Flow → Tx Flow → Tx Flow
go_on goes_on rest = rest
go_on stops rest = pure stops

unfoldable pub run_actions :
    Pass → PendingEvent → List ActionState → ℕ → List ActionConfig → Tx Flow
unfolding try_action go_on
run_actions p ev states index [] = pure goes_on
run_actions p ev states index (ac ∷ actions) = do
  flow ← try_action p ev index ac (p.turn index) (state_at states index)
  go_on flow (run_actions p ev states (index + 1) actions)

unfoldable pub finish : Pass → PendingEvent → Flow → Tx Unit
finish p ev stops = pure tt
finish p ev goes_on = do
  r ← caught (refresh_event_status ev.id p.judged_at)
  or_requeue ev.id tt (λ _. pure tt) r

unfoldable pub process_prepared : Pass → PendingEvent → Source → Tx Unit
unfolding run_actions finish
process_prepared p ev src = do
  listed ← caught (list_action_states ev.id)
  or_requeue ev.id tt (λ states. run_actions p ev states 0 src.actions >>= finish p ev) listed

unfoldable pub process_vars : Pass → PendingEvent → Source → Option Vars → Tx Unit
unfolding process_prepared
process_vars p ev src none = pure tt
process_vars p ev src (some vars) = elim (p.parts.write_vars vars) [
  | none ↦ requeue ev.id
  | some json ↦ (do
    prepared ←
        caught
          (prepare_event ev.id json (length src.actions) (drops_payload p.config) p.prepared_at)
    or_requeue ev.id tt (λ _. process_prepared p ev src) prepared)
]

unfoldable pub process : Pass → PendingEvent → Source → Tx Unit
unfolding process_vars
process p ev src = do
  vars ← execution_vars p.parts p.config ev src p.vars_at
  process_vars p ev src vars
