-- ===== src/Store/Accept/Lasting.antt =====
-- A replay guard lasts until it expires, whatever calls are made before.
use general_webhook.Base.{
  ℕ, ◌<◌, ◌≤◌, String, Bool, true, false, List, [], ◌∷◌, ◌++◌, ◌≡◌, arith, exists, delete_where,
  Bool-cases, inl, inr, ◌&&◌, leb, All,
}
use general_webhook.Store.Rows.{GuardRow, Db}
use general_webhook.Store.Tx.{World, update_events, update_actions}
use general_webhook.Store.Tx.Relation.{Moves, keeping, moves_rules}
use general_webhook.Store.Accept.{
  NewEvent, new_row, guards_body, insert_event, delete_expired_guard, insert_guard,
}
use general_webhook.Store.Claim.{unix_milli}
use general_webhook.Store.Requeue.{requeue_orphans, unstart_within}
use general_webhook.Store.Action.{insert_action, start_row}
use general_webhook.Store.Replay.{
  delete_logs_within, delete_actions_within, delete_events, delete_guards_before,
  delete_heartbeats_before,
}
use general_webhook.Store.Heartbeats.{insert_heartbeat}
use general_webhook.Store.Snapshots.{rewrite_row}
use general_webhook.Store.Audit.{Attempt, insert_log, save_action_attempt_log, toggle_nonce}
use general_webhook.Store.Calls.{
  Call, saves, claims, renews, requeues_expired, requeues_all, requeues, prepares, starts,
  completes, expires, reschedules, kills, refreshes, replays, marks, clears, purges, audits, probes,
  rewrites, beats, perform, run_calls, run_calls-rel,
}
use general_webhook.Store.Calls.Walk.{Needs, perform-Moves}

-- The database holds a guard of the body that does not expire before `until_ms`.
abbrev pub holds_guard : String → String → ℕ → Db → Bool
holds_guard source hash until_ms d =
    exists (λ g. guards_body source hash g && leb until_ms g.expires_at_ms) d.guards

-- The call, if it is a save or a purge, is made before the time.
abbrev pub Before : ℕ → Call → Type 0
Before until_ms (saves e t) = e.at_ms < until_ms
Before until_ms (purges cutoff now) = unix_milli now ≤ until_ms
Before until_ms _ = Unit

module _ {A : Type 0} (q : A → Bool) where
  exists-append : (xs ys : List A) → exists q xs ≡ true → exists q (xs ++ ys) ≡ true
  unfolding exists
  exists-append [] ys h = absurd (cc h)
  exists-append (x ∷ xs) ys h = elim (Bool-cases (q x)) [
    | inl e ↦ ground (arith, e)
    | inr e ↦ ground (arith, e, h, exists-append xs ys)
  ]

  -- A deletion of other rows.
  exists-delete_other :
      (p : A → Bool)
      → ((x : A) → q x ≡ true → p x ≡ false)
      → (xs : List A) → exists q xs ≡ true
      → exists q (delete_where p xs) ≡ true
  unfolding exists delete_where
  exists-delete_other p other [] h = absurd (cc h)
  exists-delete_other p other (x ∷ xs) h = elim (Bool-cases (q x)) [
    | inl e ↦ rw (other x e) (ground (arith, e))
    | inr e ↦
        let ih = exists-delete_other p other xs (ground (arith, e, h)) in
        elim (Bool-cases (p x)) [ inl f ↦ rw f ih | inr f ↦ rw f (ground (arith, ih)) ]
  ]

module _ (source hash : String) (until_ms : ℕ) where
  abbrev Guarded : Db → Type 0
  Guarded d = holds_guard source hash until_ms d ≡ true

  insert_event-Guarded :
      (e : NewEvent) (d : Db) → Guarded d → Guarded (insert_event (new_row e) d).1
  unfolding insert_event
  insert_event-Guarded e d h = ground (arith, h)

  insert_guard-Guarded : (g : GuardRow) (d : Db) → Guarded d → Guarded (insert_guard g d).1
  unfolding insert_guard
  insert_guard-Guarded g d h =
      elim (Bool-cases (exists (guards_body g.source g.body_sha256) d.guards)) [
        | inl c ↦ rw c h
        | inr c ↦ rw c (exists-append _ d.guards _ h)
      ]

  delete_expired_guard-Guarded :
      (s b : String) (t : ℕ) (d : Db)
      → t < until_ms
      → Guarded d
      → Guarded (delete_expired_guard s b t d).1
  unfolding delete_expired_guard
  delete_expired_guard-Guarded s b t d early h =
      exists-delete_other _ _ (λ g e. ground (arith, e, early)) d.guards h

  delete_guards_before-Guarded :
      (t : ℕ) (d : Db) → t ≤ until_ms → Guarded d → Guarded (delete_guards_before t d).1
  unfolding delete_guards_before
  delete_guards_before-Guarded t d early h =
      exists-delete_other _ _ (λ g e. ground (arith, e, early)) d.guards h

  insert_action-Guarded :
      (id : String) (index now_ms : ℕ) (d : Db)
      → Guarded d
      → Guarded (insert_action id index now_ms d).1
  unfolding insert_action
  insert_action-Guarded id index now_ms d h = ground (arith, h)

  insert_log-Guarded :
      (id : String) (e : Attempt) (d : Db) → Guarded d → Guarded (insert_log id e d).1
  unfolding insert_log
  insert_log-Guarded id e d h = h

  audit-Guarded :
      (id : String) (e : Attempt) → Moves (keeping Guarded) (save_action_attempt_log id e)
  unfolding save_action_attempt_log
  audit-Guarded id e = search (moves_rules, insert_log-Guarded) depth 12

  guard_steps : (c : Call) → Before until_ms c → Needs (keeping Guarded) c
  unfolding update_events update_actions requeue_orphans unstart_within start_row toggle_nonce
      rewrite_row insert_heartbeat delete_logs_within delete_actions_within delete_events
      delete_heartbeats_before
  guard_steps (saves e t) early = (
    insert_event-Guarded e,
    insert_guard-Guarded,
    (λ d. delete_expired_guard-Guarded _ _ _ d early),
  )
  guard_steps (claims lease now owner) _ = ((λ id d h. h), (λ id d h. h))
  guard_steps (renews id lease now owner) _ = λ d h. h
  guard_steps (requeues_expired now) _ = ((λ p d h. h), (λ d h. h))
  guard_steps requeues_all _ = ((λ p d h. h), (λ d h. h), (λ d h. h))
  guard_steps (requeues id) _ = ((λ d h. h), (λ d h. h))
  guard_steps (prepares id vars n clear now) _ =
      ((λ d h. h), (λ i. insert_action-Guarded id i _), (λ d h. h))
  guard_steps (starts id index now) _ = λ d h. h
  guard_steps (completes id index now) _ = λ d h. h
  guard_steps (expires id index now) _ = λ d h. h
  guard_steps (reschedules id index next detail asked) _ = λ d h. h
  guard_steps (kills id index detail now) _ = λ d h. h
  guard_steps (refreshes id now) _ = λ t d h. h
  guard_steps (replays id reason now) _ = ((λ d h. h), (λ n d h. h))
  guard_steps (marks id status now) _ = λ d h. h
  guard_steps (clears id) _ = λ d h. h
  guard_steps (purges cutoff now) early = (
    (λ p d h. h),
    (λ d h. h),
    (λ d h. h),
    (λ d. delete_guards_before-Guarded _ d early),
    (λ t d h. h),
  )
  guard_steps (audits id e) _ = audit-Guarded id e
  guard_steps probes _ = λ d h. h
  guard_steps (rewrites rewrite canceled fuel) _ = λ id raw updated d h. h
  guard_steps (beats text origin e) _ = λ d h. h

  calls-Guarded :
      (cs : List Call)
      → All (Before until_ms) cs
      → All (λ c. Moves (keeping Guarded) (perform c)) cs
  calls-Guarded [] h = tt
  calls-Guarded (c ∷ cs) h = (perform-Moves c (guard_steps c h.0), calls-Guarded cs h.1)

  -- A guard is still there after any calls made before it expires, whatever statements fail.
  pub run_calls-Guarded :
      (cs : List Call) (w : World)
      → All (Before until_ms) cs
      → Guarded w.db
      → Guarded (run_calls cs w).db
  run_calls-Guarded cs w early = run_calls-rel (keeping Guarded) cs (calls-Guarded cs early) w
