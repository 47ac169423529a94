-- ===== src/Store/Claim/Lasting.antt =====
-- A lease lasts: the event of a running lease stays in processing under it, whatever calls are made
-- that do not end its processing.
use general_webhook.Base.{
  ℕ, ◌+◌, ◌≤◌, String, Bool, true, false, List, [], ◌∷◌, ◌≡◌, ◌≢◌, sym, ◌∙◌, and_left, and_right,
  arith, exists, Bool-cases, inl, inr, ◌&&◌, All, All-append, All-update_where, All-delete_where,
  eq_iff, coalesce,
}
use general_webhook.Store.Rows.{EventRow, GuardRow, Db, is_processing, has_id}
use general_webhook.Store.Tx.{World, update_events, update_actions}
use general_webhook.Store.Tx.Relation.{Moves, keeping, moves_rules}
use general_webhook.Store.Accept.{
  NewEvent, new_row, clashes, insert_event, delete_expired_guard, insert_guard,
}
use general_webhook.Store.Claim.{
  unix_milli, lease_or_default, claimable, take_lease, with_lease, owned_by,
}
use general_webhook.Store.Requeue.{requeued, requeue_orphans, unstart_within, is_expired}
use general_webhook.Store.Action.{with_vars, drop_payload, insert_action, start_row, judged}
use general_webhook.Store.Replay.{
  replayed, marked, delete_logs_within, delete_actions_within, delete_events, delete_guards_before,
  delete_heartbeats_before,
}
use general_webhook.Store.Heartbeats.{insert_heartbeat}
use general_webhook.Store.Snapshots.{rewrite_row, with_json}
use general_webhook.Store.Audit.{Attempt, insert_log, save_action_attempt_log, toggle_nonce}
use general_webhook.Store.Calls.{
  Call, saves, claims, renews, requeues_expired, requeues_all, requeues, prepares, starts,
  completes, expires, reschedules, kills, refreshes, replays, marks, clears, purges, audits, probes,
  rewrites, beats, perform, run_calls, run_calls-rel,
}
use general_webhook.Store.Calls.Walk.{Needs, perform-Moves}

-- The row is in processing under a lease that runs until the time or longer.
abbrev pub Leased : ℕ → EventRow → Type 0
Leased until_ms r = (is_processing r.status ≡ true) × (until_ms ≤ coalesce r.lease_until_ms 0)

-- Every row with the id is.
abbrev pub Held : ℕ → String → EventRow → Type 0
Held until_ms id r = r.id ≡ id → Leased until_ms r

-- The call is one that leaves the lease of the event to run until the time: a claim or a recovery of
-- expired leases not after it, no shorter renewal, no save under the same id, and no call that ends
-- the processing of the event, as the requeue of all events at the start of the process does.
abbrev pub Spares : ℕ → String → Call → Type 0
Spares until_ms id (saves e t) = e.id ≢ id
Spares until_ms id (claims lease now owner) = unix_milli now ≤ until_ms
Spares until_ms id (renews other lease now owner) =
    other ≡ id → until_ms ≤ unix_milli (now + lease_or_default lease)
Spares until_ms id (requeues_expired now) = unix_milli now ≤ until_ms
Spares until_ms id requeues_all = ⊥
Spares until_ms id (requeues other) = other ≢ id
Spares until_ms id (refreshes other now) = other ≢ id
Spares until_ms id (replays other reason now) = other ≢ id
Spares until_ms id (marks other status now) = other ≢ id
Spares until_ms id _ = Unit

-- A row whose lease runs is not claimable.
pub running_not_due :
    (now_ms until_ms : ℕ) (r : EventRow)
    → now_ms ≤ until_ms
    → Leased until_ms r
    → claimable now_ms r ≡ false
unfolding claimable
running_not_due now_ms until_ms r h l = ground (arith, h, l)

module _ (until_ms : ℕ) (id : String) where
  abbrev pub AllHeld : Db → Type 0
  AllHeld d = All (Held until_ms id) d.events

  -- An update under which each row stays held.
  update_events-Held :
      (p : EventRow → Bool) (f : EventRow → EventRow)
      → ((r : EventRow) → p r ≡ true → Held until_ms id r → Held until_ms id (f r))
      → (d : Db) → AllHeld d
      → AllHeld (update_events p f d).1
  unfolding update_events
  update_events-Held p f step d h = All-update_where (Held until_ms id) p f step d.events h

  -- An update of another event.
  update_other-Held :
      (other : String) (p : EventRow → Bool) (f : EventRow → EventRow)
      → other ≢ id
      → ((r : EventRow) → p r ≡ true → (f r).id ≡ other)
      → (d : Db) → AllHeld d
      → AllHeld (update_events p f d).1
  update_other-Held other p f differs same =
      update_events-Held p f (λ r e h k. absurd (differs (sym (same r e) ∙ k)))

  insert_event-Held :
      (e : NewEvent) → e.id ≢ id → (d : Db) → AllHeld d → AllHeld (insert_event (new_row e) d).1
  unfolding insert_event new_row
  insert_event-Held e differs d h = elim (Bool-cases (exists (clashes (new_row e)) d.events)) [
    | inl c ↦ rw c h
    | inr c ↦ rw c (All-append (Held until_ms id) d.events _ h ((λ k. absurd (differs k)), tt))
  ]

  insert_guard-Held : (g : GuardRow) (d : Db) → AllHeld d → AllHeld (insert_guard g d).1
  unfolding insert_guard
  insert_guard-Held g d h = ground (arith, h)

  insert_action-Held :
      (other : String) (index now_ms : ℕ) (d : Db)
      → AllHeld d
      → AllHeld (insert_action other index now_ms d).1
  unfolding insert_action
  insert_action-Held other index now_ms d h = ground (arith, h)

  take_lease-Held :
      (other : String) (now_ms lease_ms : ℕ) (owner : String)
      → now_ms ≤ until_ms
      → (d : Db) → AllHeld d
      → AllHeld
          (update_events
            (λ r. has_id other r && claimable now_ms r)
            (take_lease lease_ms owner)
            d).1
  unfolding take_lease
  take_lease-Held other now_ms lease_ms owner early = update_events-Held _ _ (λ r e h k.
      let shut = running_not_due now_ms until_ms r early (h k) in
      absurd (cc (and_right (has_id other r) _ e, shut)))

  with_lease-Held :
      (other : String) (lease_ms : ℕ) (owner : String)
      → (other ≡ id → until_ms ≤ lease_ms)
      → (d : Db) → AllHeld d
      → AllHeld
          (update_events
            (λ r. has_id other r && (is_processing r.status && owned_by owner r.lease_owner))
            (with_lease lease_ms)
            d).1
  unfolding with_lease
  with_lease-Held other lease_ms owner longer =
      update_events-Held _ _
        (λ r e h k. ((h k).0, longer (sym ((eq_iff r.id other).0 (and_left _ _ e)) ∙ k)))

  requeued-Held :
      (now_ms : ℕ)
      → now_ms ≤ until_ms
      → (d : Db) → AllHeld d
      → AllHeld (update_events (λ r. is_processing r.status && is_expired now_ms r) requeued d).1
  unfolding requeued
  requeued-Held now_ms early =
      update_events-Held _ _ (λ r e h k. let l = h k in absurd (ground (arith, e, early, l)))

  insert_log-Held :
      (other : String) (e : Attempt) (d : Db) → AllHeld d → AllHeld (insert_log other e d).1
  unfolding insert_log
  insert_log-Held other e d h = h

  audit-Held :
      (other : String) (e : Attempt) → Moves (keeping AllHeld) (save_action_attempt_log other e)
  unfolding save_action_attempt_log
  audit-Held other e = search (moves_rules, insert_log-Held) depth 12

  -- The event that an update by its id changes.
  named : (other : String) (r : EventRow) → has_id other r ≡ true → r.id ≡ other
  named other r e = (eq_iff r.id other).0 e

  held_steps : (c : Call) → Spares until_ms id c → Needs (keeping AllHeld) c
  unfolding update_actions requeue_orphans unstart_within start_row toggle_nonce rewrite_row
      requeued with_vars drop_payload judged replayed marked insert_heartbeat delete_expired_guard
      delete_logs_within delete_actions_within delete_events delete_guards_before
      delete_heartbeats_before
  held_steps (saves e t) differs = (insert_event-Held e differs, insert_guard-Held, (λ d h. h))
  held_steps (claims lease now owner) early =
      ((λ other. take_lease-Held other _ _ owner early), (λ other d h. h))
  held_steps (renews other lease now owner) longer = with_lease-Held other _ owner longer
  held_steps (requeues_expired now) early = ((λ p d h. h), requeued-Held _ early)
  held_steps requeues_all never = absurd never
  held_steps (requeues other) differs =
      (update_other-Held other _ _ differs (λ r e. named other r (and_left _ _ e)), (λ d h. h))
  held_steps (prepares other vars n clear now) _ = (
    update_events-Held _ _ (λ r e h. h),
    (λ i. insert_action-Held other i _),
    update_events-Held _ _ (λ r e h. h),
  )
  held_steps (starts other index now) _ = λ d h. h
  held_steps (completes other index now) _ = λ d h. h
  held_steps (expires other index now) _ = λ d h. h
  held_steps (reschedules other index next detail asked) _ = λ d h. h
  held_steps (kills other index detail now) _ = λ d h. h
  held_steps (refreshes other now) differs =
      λ t. update_other-Held other _ _ differs (λ r e. named other r e)
  held_steps (replays other reason now) differs =
      ((λ d h. h), (λ n. update_other-Held other _ _ differs (λ r e. named other r e)))
  held_steps (marks other status now) differs =
      update_other-Held other _ _ differs (λ r e. named other r e)
  held_steps (clears other) _ = update_events-Held _ _ (λ r e h. h)
  held_steps (purges cutoff now) _ = (
    (λ p d h. h),
    (λ d h. h),
    (λ d h. All-delete_where (Held until_ms id) _ d.events h),
    (λ d h. h),
    (λ t d h. h),
  )
  held_steps (audits other e) _ = audit-Held other e
  held_steps probes _ = λ d h. h
  held_steps (rewrites rewrite canceled fuel) _ =
      λ other raw updated d. update_events-Held _ (with_json updated) (λ r e h. h) d
  held_steps (beats text origin e) _ = λ d h. h

  calls-Held :
      (cs : List Call)
      → All (Spares until_ms id) cs
      → All (λ c. Moves (keeping AllHeld) (perform c)) cs
  calls-Held [] h = tt
  calls-Held (c ∷ cs) h = (perform-Moves c (held_steps c h.0), calls-Held cs h.1)

  -- An event stays held through calls that leave its lease, whatever statements fail.
  pub run_calls-Held :
      (cs : List Call) (w : World)
      → All (Spares until_ms id) cs
      → AllHeld w.db
      → AllHeld (run_calls cs w).db
  run_calls-Held cs w left = run_calls-rel (keeping AllHeld) cs (calls-Held cs left) w
