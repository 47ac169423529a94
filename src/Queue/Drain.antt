-- ===== src/Queue/Drain.antt =====
-- internal/queue/queue.go: drain and resolveSource.
-- config.ParseSourceSnapshot is a parameter, which answers nothing where it returns an error.
pub mod Keeps
use general_webhook.Base.{
  String, ℕ, ℤ, pos, Bool, Option, none, some, List, [], ◌∷◌, str_eq, if◌then◌else◌,
}
use general_webhook.Config.{Source, Config, source_by_name}
use general_webhook.Store.Rows.{EventStatus}
use general_webhook.Store.Accept.{is_empty}
use general_webhook.Store.Tx.{Tx, Result, ok, err, pure, ignoring, caught, ◌>>=◌, ◌>>◌}
use general_webhook.Store.Claim.{PendingEvent, claim_pending}
use general_webhook.Store.Requeue.{requeue_expired_leases}
use general_webhook.Store.Replay.{update_event_status}
use general_webhook.Queue.Settings.{Queue}
use general_webhook.Queue.Process.{Pass, process}

unfoldable pub resolve_source :
    (String → Option Source) → Option Config → PendingEvent → Option Source
unfolding source_by_name
resolve_source parse_snapshot cfg ev =
    if is_empty ev.actions_json
    then elim cfg [ none ↦ none | some c ↦ source_by_name c ev.source ]
    else elim (parse_snapshot ev.actions_json) [
      | none ↦ none
      | some src ↦ some (if is_empty src.name then record src { name = ev.source } else src)
    ]

-- One round of the loop: whether the context or the queue is stopped, and the clock.
pub record Round : Type 0 where
  pub stopped : Bool
  pub now : ℕ
  pub killed_at : ℕ
  pub pass : Pass

module _ (parse_snapshot : String → Option Source) where
  -- The event is processed, or dead if it has no source.
  unfoldable pub handle_event : Round → PendingEvent → Tx Unit
  handle_event round ev = elim (resolve_source parse_snapshot round.pass.config ev) [
    | none ↦ ignoring (update_event_status ev.id EventStatus.dead round.killed_at)
    | some src ↦ process round.pass ev src
  ]

  unfoldable pub after_claim : Round → Tx Unit → Result (Option PendingEvent) → Tx Unit
  unfolding handle_event
  after_claim round rest (err e) = pure tt
  after_claim round rest (ok none) = pure tt
  after_claim round rest (ok (some ev)) = do handle_event round ev; rest

  unfoldable pub after_expiry : Round → Tx Unit → Result ℕ → Tx Unit
  unfolding after_claim
  after_expiry round rest (err e) = pure tt
  after_expiry round rest (ok n) = do
    claimed ← caught (claim_pending (pos round.pass.queue.lease) round.now round.pass.queue.owner)
    after_claim round rest claimed

  -- The loop, for the rounds that are given; it ends earlier when there is nothing to claim.
  unfoldable pub drain : List Round → Tx Unit
  unfolding after_expiry
  drain [] = pure tt
  drain (round ∷ rounds) =
      let rest = drain rounds in
      if round.stopped
      then pure tt
      else (do expired ← caught (requeue_expired_leases round.now); after_expiry round rest expired)
