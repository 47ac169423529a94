-- ===== src/Queue/Vars/Keeps.antt =====
-- The database under executionVars: what every statement of the store respects, it respects.
use general_webhook.Base.{ℕ, String, Option, none, some, List, [], ◌∷◌, refl}
use general_webhook.Config.{Source, Config, Vars}
use general_webhook.Store.Rows.{EventStatus}
use general_webhook.Store.Tx.{Tx, Result, ok, err, caught, ◌>>=◌}
use general_webhook.Store.Tx.Relation.{
  Change, Moves, Moves-bind, Moves-caught, Moves-ignoring, Moves-if, Moves-option, Moves-pure,
  moves_rules,
}
use general_webhook.Store.Claim.{PendingEvent}
use general_webhook.Store.Audit.{get_payload}
use general_webhook.Store.Replay.{update_event_status}
use general_webhook.Store.Calls.Steps.{Steps}
use general_webhook.Store.Calls.Kept.{
  requeue_event-Moves, update_event_status-Moves, clear_payload-Moves,
}
use general_webhook.Policy.{allow}
use general_webhook.Queue.Vars.{
  Parts, requeue, kill, or_requeue, skip, select, from_payload, fresh_vars, execution_vars,
}

module _ {R : Change} (s : Steps R) where
  pub requeue-Moves : (id : String) → Moves R (requeue id)
  unfolding requeue
  requeue-Moves id = Moves-ignoring _ (requeue_event-Moves s id)

  pub or_requeue-Moves :
      {A B : Type 0} (id : String) (stop : B) (rest : A → Tx B) (r : Result A)
      → ((a : A) → Moves R (rest a))
      → Moves R (or_requeue id stop rest r)
  unfolding or_requeue
  or_requeue-Moves id stop rest (ok a) h = h a
  or_requeue-Moves id stop rest (err e) h = search (moves_rules, requeue-Moves)

  -- A call of the store, and what follows its answer.
  pub tried-Moves :
      {A B : Type 0} (id : String) (stop : B) (m : Tx A) (rest : A → Tx B)
      → Moves R m
      → ((a : A) → Moves R (rest a))
      → Moves R (caught m >>= λ r. or_requeue id stop rest r)
  tried-Moves id stop m rest h k =
      Moves-bind _ _ (Moves-caught _ h) (λ r. or_requeue-Moves id stop rest r k)

  pub marked_dead-Moves :
      (id : String) (now : ℕ) → Moves R (update_event_status id EventStatus.dead now)
  marked_dead-Moves id now = update_event_status-Moves s id EventStatus.dead now refl

  marked_skipped-Moves :
      (id : String) (now : ℕ) → Moves R (update_event_status id EventStatus.skipped now)
  marked_skipped-Moves id now = update_event_status-Moves s id EventStatus.skipped now refl

  pub kill-Moves : (id : String) (now : ℕ) → Moves R (kill id now)
  unfolding kill
  kill-Moves id now = search (moves_rules, marked_dead-Moves) depth 12

  skip-Moves : (cfg : Option Config) (id : String) (now : ℕ) → Moves R (skip cfg id now)
  unfolding skip
  skip-Moves cfg id now =
      tried-Moves id none _ _ (marked_skipped-Moves id now)
        (λ _. search (moves_rules, clear_payload-Moves) depth 12)

  select-Moves :
      (parts : Parts) (cfg : Option Config) (src : Source) (id : String) (vars : Vars) (now : ℕ)
      → Moves R (select parts cfg src id vars now)
  unfolding select
  select-Moves parts cfg src id vars now =
      Moves-if (allow src vars).1 _ _
        (Moves-option (parts.matches src.rules vars) _ _ (kill-Moves id now)
          (λ matched. Moves-if matched _ _ (Moves-pure _) (skip-Moves cfg id now)))
        (skip-Moves cfg id now)

  from_payload-Moves :
      (parts : Parts) (cfg : Option Config) (ev : PendingEvent) (src : Source) (now : ℕ)
      (payload : Option (List ℕ))
      → Moves R (from_payload parts cfg ev src now payload)
  unfolding from_payload
  from_payload-Moves parts cfg ev src now none = kill-Moves ev.id now
  from_payload-Moves parts cfg ev src now (some []) = kill-Moves ev.id now
  from_payload-Moves parts cfg ev src now (some (b ∷ bytes)) =
      select-Moves parts cfg src ev.id _ now

  get_payload-Moves : (id : String) → Moves R (get_payload id)
  unfolding get_payload
  get_payload-Moves id = search moves_rules depth 12

  fresh_vars-Moves :
      (parts : Parts) (cfg : Option Config) (ev : PendingEvent) (src : Source) (now : ℕ)
      → Moves R (fresh_vars parts cfg ev src now)
  unfolding fresh_vars
  fresh_vars-Moves parts cfg ev src now =
      Moves-if _ _ _
        (tried-Moves ev.id none _ _ (get_payload-Moves ev.id)
          (λ p. from_payload-Moves parts cfg ev src now p.0))
        (from_payload-Moves parts cfg ev src now ev.payload)

  pub execution_vars-Moves :
      (parts : Parts) (cfg : Option Config) (ev : PendingEvent) (src : Source) (now : ℕ)
      → Moves R (execution_vars parts cfg ev src now)
  unfolding execution_vars
  execution_vars-Moves parts cfg ev src now =
      Moves-if _ _ _ (fresh_vars-Moves parts cfg ev src now) (
        Moves-option (parts.read_vars ev.vars_json) _ _ (kill-Moves ev.id now)
          (λ vars. Moves-pure _))
