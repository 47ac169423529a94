-- ===== src/Store/Examples.antt =====
-- Runs of the store on a small database: two events of one source, claimed by two workers.
use general_webhook.Base.{
  ℕ, pos, true, false, none, some, List, [], ◌∷◌, ◌≡◌, ◌≢◌, refl, subst, ◌*◌, arith, All, exists,
  count_where, update_where, first_where, delete_where, Memᴰ,
}
use general_webhook.Store.Rows.{EventStatus, ActionStatus, ActionRow, Db, empty_db, of_event}
use general_webhook.Store.Tx.{
  transact, query, require, ignoring, optional, or_no_rows, statement, update_events,
  update_actions, ◌>>=◌, Error, err, duplicate_body,
}
use general_webhook.Store.Tx.Inversion.{calm}
use general_webhook.Store.Tx.Ends.{Ends, Ends-of_run}
use general_webhook.Store.Accept.{
  NewEvent, new_row, clashes, save_pending_event_at, reserve_body, insert_event, insert_guard,
  delete_expired_guard, save_pending_event_guarded,
}
use general_webhook.Store.Accept.Duplicates.{save_pending_event_guarded-twice}
use general_webhook.Store.Claim.{
  scan_pending, take_lease, earliest, claimable, lease_or_default, unstart, claim_pending,
  renew_lease, owned_by,
}
use general_webhook.Store.Claim.Exclusive.{claim_pending-exclusive}
use general_webhook.Store.Action.{
  refresh_event_status, prepare_event, insert_actions, insert_action, clear_if, start_action,
  start_row, complete_action, schedule_action_retry, tally, verdict, judged, with_vars,
}
use general_webhook.Store.Action.Aggregate.{refresh_event_status-aggregate, aggregate, Released}
use general_webhook.Store.Calls.{
  Call, saves, claims, renews, requeues_expired, purges, replays, prepares, starts, completes,
  reschedules, run_calls, perform,
}
use general_webhook.Store.Snapshots.{rewrite_action_snapshots}
use general_webhook.Store.Snapshots.Ends.{EndsAt, rewrite_action_snapshots-EndsAt}
use general_webhook.Store.Invariant.Rows.{RowsOk}
use general_webhook.Store.Invariant.Sound.{run_calls-RowsOk}
use general_webhook.Store.Invariant.Keys.{KeysOk, run_calls-KeysOk}
use general_webhook.Store.Invariant.Once.{start_action-once}
use general_webhook.Store.Requeue.{
  requeue_expired_leases, requeue_processing, recover, requeued, unstart_within,
}
use general_webhook.Store.Invariant.Final.{Grows, perform-Grows}

abbrev event_a : NewEvent
event_a = record {
  id = "a";
  source = "git";
  ip = "10.0.0.1";
  payload = 123 ∷ 125 ∷ [];
  at_ms = 1000;
  external_delivery_id = "d1";
  body_sha256 = "h1";
  config_hash = "";
  actions_json = "";
}

abbrev event_b : NewEvent
event_b = record event_a { id = "b"; at_ms = 2000; external_delivery_id = "d2" }

abbrev received : List Call
received = saves event_a none ∷ saves event_b none ∷ []

abbrev received_db : Db
received_db = record empty_db { events = new_row event_a ∷ new_row event_b ∷ [] }

abbrev second : ℕ
second = 1_000_000_000

abbrev claimed_db : Db
claimed_db = record received_db {
  events = take_lease 63_000 "w1" (new_row event_a) ∷ new_row event_b ∷ [];
}

received_run : (run_calls received (calm empty_db)).db ≡ received_db
unfolding run_calls perform save_pending_event_at reserve_body insert_event transact require ◌>>=◌
    ignoring exists clashes new_row
received_run = refl

received-KeysOk : KeysOk received_db
received-KeysOk = subst KeysOk received_run (run_calls-KeysOk received [])

first_claim :
    Ends
      (claim_pending (pos (60 * second)) (3 * second) "w1")
      received_db
      (some (scan_pending (new_row event_a)))
      claimed_db
unfolding claim_pending earliest claimable take_lease optional transact or_no_rows require ◌>>=◌
    statement scan_pending update_events update_actions lease_or_default unstart new_row count_where
    update_where
first_claim =
    Ends-of_run (claim_pending (pos (60 * second)) (3 * second) "w1") (calm received_db)
      (some (scan_pending (new_row event_a))) refl

-- Meanwhile expired leases are recovered, and the first worker renews its lease.
abbrev between : List Call
between = requeues_expired (3 * second) ∷ renews "a" (pos (60 * second)) (3 * second) "w1" ∷ []

second_claim :
    Ends
      (claim_pending (pos (60 * second)) (4 * second) "w2")
      (run_calls between (calm claimed_db)).db
      (some (scan_pending (new_row event_b)))
      (claim_pending
        (pos (60 * second))
        (4 * second)
        "w2"
        (calm (run_calls between (calm claimed_db)).db)).1.db
unfolding claim_pending earliest claimable take_lease optional transact or_no_rows require ◌>>=◌
    statement scan_pending update_events update_actions lease_or_default unstart new_row count_where
    update_where run_calls perform ignoring requeue_expired_leases requeue_processing recover
    requeued unstart_within renew_lease owned_by general_webhook.Store.Claim.with_lease
second_claim =
    Ends-of_run (claim_pending (pos (60 * second)) (4 * second) "w2")
      (calm (run_calls between (calm claimed_db)).db) (some (scan_pending (new_row event_b))) refl

claim_pending-exclusive_example :
    (scan_pending (new_row event_b)).id ≢ (scan_pending (new_row event_a)).id
unfolding lease_or_default
claim_pending-exclusive_example =
    claim_pending-exclusive (pos (60 * second)) (pos (60 * second)) (3 * second) (4 * second) "w1"
      "w2" received_db _ (scan_pending (new_row event_a)) (scan_pending (new_row event_b)) between
      (calm claimed_db) received-KeysOk (omega arith) first_claim
      (omega arith, ((λ _. omega arith), tt)) second_claim

abbrev guarded_db : Db
guarded_db = (save_pending_event_guarded event_a 100_000 (calm empty_db)).1.db

first_save : Ends (save_pending_event_guarded event_a 100_000) empty_db tt guarded_db
unfolding save_pending_event_guarded transact ◌>>=◌ reserve_body require insert_guard exists
    delete_expired_guard delete_where insert_event
first_save = Ends-of_run (save_pending_event_guarded event_a 100_000) (calm empty_db) tt refl

-- A purge, and a save of another body, before the guard expires.
abbrev meanwhile : List Call
meanwhile =
    purges (2 * second) (50 * second)
    ∷ saves (record event_b { body_sha256 = "h2" }) (some 300_000)
    ∷ []

abbrev meanwhile_db : Db
meanwhile_db = (run_calls meanwhile (calm guarded_db)).db

save_pending_event_guarded-twice_example :
    let answer = save_pending_event_guarded event_b 200_000 (calm meanwhile_db) in
    ((x : Error) × (answer.0 ≡ err x))
    × (answer.1.db ≡ meanwhile_db)
    × ((save_pending_event_guarded event_b 200_000 (calm meanwhile_db)).0 ≡ err duplicate_body)
save_pending_event_guarded-twice_example =
    save_pending_event_guarded-twice event_a event_b 100_000 200_000 empty_db meanwhile
      (calm guarded_db) (calm meanwhile_db) refl refl refl (omega arith)
      (omega arith, (omega arith, tt)) first_save refl

-- The event is claimed, its only action fails once, is retried and completes.
abbrev worked : List Call
worked =
    saves event_a none
    ∷ claims (pos (60 * second)) (3 * second) "w1"
    ∷ prepares "a" "{}" 1 false (3 * second)
    ∷ starts "a" 0 (3 * second)
    ∷ reschedules "a" 0 (5 * second) "timeout" 0
    ∷ starts "a" 0 (5 * second)
    ∷ completes "a" 0 (6 * second)
    ∷ []

abbrev worked_db : Db
worked_db = (run_calls worked (calm empty_db)).db

worked-Ends :
    Ends
      (refresh_event_status "a" (6 * second))
      worked_db
      EventStatus.done
      (refresh_event_status "a" (6 * second) (calm worked_db)).1.db
unfolding refresh_event_status run_calls perform save_pending_event_at transact ◌>>=◌ reserve_body
    require exists insert_event ignoring new_row clashes claim_pending earliest claimable take_lease
    optional or_no_rows statement scan_pending update_events update_actions lease_or_default unstart
    count_where update_where prepare_event insert_actions insert_action clear_if start_action
    start_row complete_action schedule_action_retry tally verdict judged first_where query with_vars
worked-Ends =
    Ends-of_run (refresh_event_status "a" (6 * second)) (calm worked_db) EventStatus.done refl

refresh_event_status-aggregate_example :
    (exists (of_event "a") worked_db.actions ≡ true)
    × (EventStatus.done ≡ aggregate "a" worked_db.actions)
    × All
        (Released "a" EventStatus.done)
        (refresh_event_status "a" (6 * second) (calm worked_db)).1.db.events
    × ((refresh_event_status "a" (6 * second) (calm worked_db)).1.db.actions ≡ worked_db.actions)
refresh_event_status-aggregate_example =
    refresh_event_status-aggregate "a" (6 * second) worked_db _ EventStatus.done worked-Ends

run_calls-RowsOk_example :
    RowsOk (run_calls worked (record { db = empty_db; faults = false ∷ true ∷ [] })).db
run_calls-RowsOk_example =
    run_calls-RowsOk worked (false ∷ true ∷ [])
      (refl, (refl, (refl, (refl, (refl, (refl, (refl, tt)))))))

perform-Grows_example :
    Grows worked_db.actions (perform (starts "a" 0 (9 * second)) (calm worked_db)).1.db.actions
perform-Grows_example = perform-Grows (starts "a" 0 (9 * second)) (calm worked_db) refl

-- An action that is done.
abbrev finished : ActionRow
finished = record {
  event_id = "a";
  action_index = 0;
  status = ActionStatus.done;
  attempt_count = 1;
  next_attempt_at_ms = none;
  last_error = none;
  retry_after_ms = none;
  completed_at_ms = some 6000;
}

abbrev finished_db : Db
finished_db = record empty_db { actions = finished ∷ [] }

abbrev disturbed : List Call
disturbed = replays "a" "again" (7 * second) ∷ prepares "a" "{}" 2 true (8 * second) ∷ []

start_action-once_example :
    ¬ Ends
      (start_action "a" 0 (9 * second))
      (run_calls disturbed (calm finished_db)).db
      2
      finished_db
start_action-once_example =
    start_action-once disturbed (calm finished_db) finished (9 * second) 2 finished_db
      (record { events = tt; actions = (tt, tt); guards = tt }) (Memᴰ.head refl) refl
      (refl, (refl, tt))

-- Two events with snapshots.
abbrev snapshots_db : Db
unfolding new_row
snapshots_db = record empty_db {
  events =
      new_row (record event_a { actions_json = "with a secret" })
      ∷ new_row (record event_b { actions_json = "clean" })
      ∷ [];
}

rewrite_action_snapshots-EndsAt_example :
    EndsAt (rewrite_action_snapshots (λ raw. some "clean") (λ id. false) 3 (calm snapshots_db))
unfolding snapshots_db
rewrite_action_snapshots-EndsAt_example =
    rewrite_action_snapshots-EndsAt (λ raw. some "clean") (λ id. false) 3 (calm snapshots_db)
      (omega arith)
