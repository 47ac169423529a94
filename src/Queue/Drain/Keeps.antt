-- ===== src/Queue/Drain/Keeps.antt =====
-- The database under `drain`, whatever statements fail, handlers answer and clocks show.
use general_webhook.Base.{ℕ, pos, String, Option, none, some, List, [], ◌∷◌}
use general_webhook.Config.{Source}
use general_webhook.Store.Tx.{World, Tx, Result, ok, err}
use general_webhook.Store.Tx.Relation.{
  Change, Moves, Moves-bind, Moves-caught, Moves-if, Moves-option, Moves-pure, Moves-ignoring,
}
use general_webhook.Store.Claim.{PendingEvent}
use general_webhook.Store.Calls.Steps.{Steps, Audits}
use general_webhook.Store.Calls.Kept.{requeue_expired_leases-Moves, claim_pending-Moves}
use general_webhook.Store.Invariant.Rows.{RowsOk}
use general_webhook.Store.Invariant.Sound.{RowsOk-Steps, RowsOk-Audits}
use general_webhook.Store.Invariant.Keys.{KeysOk, KeysOk-Steps, KeysOk-Audits}
use general_webhook.Store.Invariant.Final.{Grows, growing-Steps, growing-Audits}
use general_webhook.Queue.Vars.Keeps.{marked_dead-Moves}
use general_webhook.Queue.Process.Keeps.{process-Moves}
use general_webhook.Queue.Drain.{
  Round, resolve_source, handle_event, after_claim, after_expiry, drain,
}

module _ {R : Change} (s : Steps R) (audit : Audits R)
    (parse_snapshot : String → Option Source) where
  handle_event-Moves :
      (round : Round) (ev : PendingEvent) → Moves R (handle_event parse_snapshot round ev)
  unfolding handle_event
  handle_event-Moves round ev =
      Moves-option (resolve_source parse_snapshot round.pass.config ev) _ _
        (Moves-ignoring _ (marked_dead-Moves s ev.id round.killed_at))
        (λ src. process-Moves s audit round.pass ev src)

  after_claim-Moves :
      (round : Round) (rest : Tx Unit) (r : Result (Option PendingEvent))
      → Moves R rest
      → Moves R (after_claim parse_snapshot round rest r)
  unfolding after_claim
  after_claim-Moves round rest (err e) h = Moves-pure _
  after_claim-Moves round rest (ok none) h = Moves-pure _
  after_claim-Moves round rest (ok (some ev)) h =
      Moves-bind _ _ (handle_event-Moves round ev) (λ _. h)

  after_expiry-Moves :
      (round : Round) (rest : Tx Unit) (r : Result ℕ)
      → Moves R rest
      → Moves R (after_expiry parse_snapshot round rest r)
  unfolding after_expiry
  after_expiry-Moves round rest (err e) h = Moves-pure _
  after_expiry-Moves round rest (ok n) h =
      Moves-bind _ _
        (Moves-caught _
          (claim_pending-Moves s (pos round.pass.queue.lease) round.now round.pass.queue.owner))
        (λ r. after_claim-Moves round rest r h)

  drain-Moves : (rounds : List Round) → Moves R (drain parse_snapshot rounds)
  unfolding drain
  drain-Moves [] = Moves-pure _
  drain-Moves (round ∷ rounds) = Moves-if round.stopped _ _ (Moves-pure _) (
      Moves-bind _ _ (Moves-caught _ (requeue_expired_leases-Moves s round.now))
        (λ r. after_expiry-Moves round _ r (drain-Moves rounds)))

-- A worker's loop, whatever snapshots parse, statements fail, handlers answer and clocks show, keeps
-- the fit of the columns to the status and the distinctness of the keys, and never removes, reorders or
-- re-addresses the row of an action or changes one that is done.
pub drain-keeps :
    (parse_snapshot : String → Option Source) (rounds : List Round) (w : World)
    → RowsOk w.db
    → KeysOk w.db
    → RowsOk (drain parse_snapshot rounds w).1.db
      × (KeysOk (drain parse_snapshot rounds w).1.db
          × Grows w.db.actions (drain parse_snapshot rounds w).1.db.actions)
drain-keeps parse_snapshot rounds w rows keys = (
  (drain-Moves RowsOk-Steps RowsOk-Audits parse_snapshot rounds).at w rows,
  (
    (drain-Moves KeysOk-Steps KeysOk-Audits parse_snapshot rounds).at w keys,
    (drain-Moves growing-Steps growing-Audits parse_snapshot rounds).at w,
  ),
)
