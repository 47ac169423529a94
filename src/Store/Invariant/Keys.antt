-- ===== src/Store/Invariant/Keys.antt =====
-- The primary keys and the unique index on deliveries.
use general_webhook.Base.{
  ℕ, String, Bool, List, [], ◌∷◌, All, refl, exists, Bool-cases, inl, inr, Distinct, KeepsKey,
  Distinct-snoc, Distinct-delete_where, Distinct-update_where,
}
use general_webhook.Store.Rows.{EventRow, ActionRow, GuardRow, Db, empty_db, at_index}
use general_webhook.Store.Tx.{World, update_events, update_actions}
use general_webhook.Store.Tx.Relation.{Moves, keeping, moves_rules}
use general_webhook.Store.Accept.{
  NewEvent, new_row, clashes, guards_body, insert_event, insert_guard, delete_expired_guard,
}
use general_webhook.Store.Claim.{take_lease, with_lease, unstart}
use general_webhook.Store.Requeue.{requeued, requeue_orphans, unstart_within}
use general_webhook.Store.Action.{
  with_vars, drop_payload, insert_action, start_row, started, completed, rescheduled, killed,
  judged,
}
use general_webhook.Store.Replay.{
  revived, replayed, marked, delete_logs_within, delete_actions_within, delete_events,
  delete_guards_before, delete_heartbeats_before,
}
use general_webhook.Store.Audit.{Attempt, insert_log, save_action_attempt_log, toggle_nonce}
use general_webhook.Store.Heartbeats.{insert_heartbeat}
use general_webhook.Store.Snapshots.{rewrite_row}
use general_webhook.Store.Calls.{Call, purges, marks, perform, run_calls, run_calls-rel}
use general_webhook.Store.Calls.Steps.{Steps, Purges, Audits}
use general_webhook.Store.Calls.Walk.{Extra, perform_any-Moves}

-- The primary key of event_actions.
abbrev pub same_action : ActionRow → ActionRow → Bool
same_action new old = at_index new.event_id new.action_index old

-- The primary key of replay_guard.
abbrev pub same_guard : GuardRow → GuardRow → Bool
same_guard new old = guards_body new.source new.body_sha256 old

pub record KeysOk (d : Db) : Type 0 where
  pub events : Distinct clashes d.events
  pub actions : Distinct same_action d.actions
  pub guards : Distinct same_guard d.guards

abbrev Fine : {A : Type 0} → (Db → A × Db) → Type 0
Fine f = (d : Db) → KeysOk d → KeysOk (f d).1

update_events-Fine :
    (p : EventRow → Bool) (f : EventRow → EventRow)
    → KeepsKey clashes p f
    → Fine (update_events p f)
unfolding update_events
update_events-Fine p f keep d h = record {
  events = Distinct-update_where clashes p f keep d.events h.events;
  actions = h.actions;
  guards = h.guards;
}

update_actions-Fine :
    (p : ActionRow → Bool) (f : ActionRow → ActionRow)
    → KeepsKey same_action p f
    → Fine (update_actions p f)
unfolding update_actions
update_actions-Fine p f keep d h = record {
  events = h.events;
  actions = Distinct-update_where same_action p f keep d.actions h.actions;
  guards = h.guards;
}

insert_event-Fine : (e : NewEvent) → Fine (insert_event (new_row e))
unfolding insert_event
insert_event-Fine e d h = elim (Bool-cases (exists (clashes (new_row e)) d.events)) [
  | inl c ↦ rw c h
  | inr c ↦ rw c (record {
    events = Distinct-snoc clashes d.events (new_row e) c h.events;
    actions = h.actions;
    guards = h.guards;
  })
]

insert_action-Fine : (id : String) (index now_ms : ℕ) → Fine (insert_action id index now_ms)
unfolding insert_action
insert_action-Fine id index now_ms d h = elim (Bool-cases (exists (at_index id index) d.actions)) [
  | inl c ↦ rw c h
  | inr c ↦ rw c (record {
    events = h.events;
    actions = Distinct-snoc same_action d.actions _ c h.actions;
    guards = h.guards;
  })
]

insert_guard-Fine : (g : GuardRow) → Fine (insert_guard g)
unfolding insert_guard
insert_guard-Fine g d h = elim (Bool-cases (exists (guards_body g.source g.body_sha256) d.guards)) [
  | inl c ↦ rw c h
  | inr c ↦ rw c (record {
    events = h.events;
    actions = h.actions;
    guards = Distinct-snoc same_guard d.guards g c h.guards;
  })
]

pub KeysOk-Steps : Steps (keeping KeysOk)
unfolding clashes requeue_orphans unstart_within start_row take_lease with_lease requeued unstart
    with_vars drop_payload judged replayed marked started completed rescheduled killed revived
    delete_expired_guard toggle_nonce rewrite_row insert_heartbeat
KeysOk-Steps = record {
  on_insert_event = insert_event-Fine;
  on_insert_guard = insert_guard-Fine;
  on_delete_expired_guard = λ s b t d h. record {
    events = h.events;
    actions = h.actions;
    guards = Distinct-delete_where same_guard _ d.guards h.guards;
  };
  on_insert_action = insert_action-Fine;
  on_take_lease = λ id now_ms until_ms owner. update_events-Fine _ _ (λ x y. (refl, refl));
  on_with_lease = λ id until_ms owner. update_events-Fine _ _ (λ x y. (refl, refl));
  on_requeued = λ p. update_events-Fine _ _ (λ x y. (refl, refl));
  on_requeued_one = λ id. update_events-Fine _ _ (λ x y. (refl, refl));
  on_requeue_orphans = λ d. update_events-Fine _ _ (λ x y. (refl, refl)) d;
  on_unstart = λ id. update_actions-Fine _ _ (λ x y. (refl, refl));
  on_unstart_within = λ p d. update_actions-Fine _ _ (λ x y. (refl, refl)) d;
  on_with_vars = λ id vars. update_events-Fine _ _ (λ x y. (refl, refl));
  on_drop_payload = λ id. update_events-Fine _ _ (λ x y. (refl, refl));
  on_judged = λ id t now_ms. update_events-Fine _ _ (λ x y. (refl, refl));
  on_replayed = λ id reason now_ms generation. update_events-Fine _ _ (λ x y. (refl, refl));
  on_marked = λ id status at_ms t. update_events-Fine _ _ (λ x y. (refl, refl));
  on_start_row = λ id index now_ms d. update_actions-Fine _ _ (λ x y. (refl, refl)) d;
  on_completed = λ id index now_ms. update_actions-Fine _ _ (λ x y. (refl, refl));
  on_rescheduled = λ id index next_ms detail ms. update_actions-Fine _ _ (λ x y. (refl, refl));
  on_killed = λ id index detail now_ms. update_actions-Fine _ _ (λ x y. (refl, refl));
  on_expired = λ id index detail now_ms. update_actions-Fine _ _ (λ x y. (refl, refl));
  on_revived = λ id now_ms. update_actions-Fine _ _ (λ x y. (refl, refl));
  on_toggle_nonce = λ d h. record { events = h.events; actions = h.actions; guards = h.guards };
  on_rewrite_row = λ id raw updated d. update_events-Fine _ _ (λ x y. (refl, refl)) d;
  on_insert_heartbeat =
      λ text origin e d h. record { events = h.events; actions = h.actions; guards = h.guards };
}

KeysOk-Purges : Purges (keeping KeysOk)
unfolding delete_logs_within delete_actions_within delete_events delete_guards_before
    delete_heartbeats_before
KeysOk-Purges = record {
  on_delete_logs = λ p d h. record { events = h.events; actions = h.actions; guards = h.guards };
  on_delete_actions = λ p d h. record {
    events = h.events;
    actions = Distinct-delete_where same_action _ d.actions h.actions;
    guards = h.guards;
  };
  on_delete_events = λ p d h. record {
    events = Distinct-delete_where clashes p d.events h.events;
    actions = h.actions;
    guards = h.guards;
  };
  on_delete_guards = λ t d h. record {
    events = h.events;
    actions = h.actions;
    guards = Distinct-delete_where same_guard _ d.guards h.guards;
  };
  on_delete_heartbeats =
      λ t d h. record { events = h.events; actions = h.actions; guards = h.guards };
}

insert_log-Fine : (id : String) (e : Attempt) → Fine (insert_log id e)
unfolding insert_log
insert_log-Fine id e d h = record { events = h.events; actions = h.actions; guards = h.guards }

pub KeysOk-Audits : Audits (keeping KeysOk)
unfolding save_action_attempt_log
KeysOk-Audits id e = search (moves_rules, insert_log-Fine) depth 12

KeysOk-Extra : (c : Call) → Extra (keeping KeysOk) c
unfolding clashes marked
KeysOk-Extra (purges cutoff now) = KeysOk-Purges
KeysOk-Extra (marks id status now) = update_events-Fine _ _ (λ x y. (refl, refl))
KeysOk-Extra _ = tt

KeysOk-Moves : (cs : List Call) → All (λ c. Moves (keeping KeysOk) (perform c)) cs
KeysOk-Moves [] = tt
KeysOk-Moves (c ∷ cs) =
    (perform_any-Moves KeysOk-Steps KeysOk-Audits c (KeysOk-Extra c), KeysOk-Moves cs)

pub run_calls_keep-KeysOk : (cs : List Call) (w : World) → KeysOk w.db → KeysOk (run_calls cs w).db
run_calls_keep-KeysOk cs w = run_calls-rel (keeping KeysOk) cs (KeysOk-Moves cs) w

empty-KeysOk : KeysOk empty_db
empty-KeysOk = record { events = tt; actions = tt; guards = tt }

-- From the empty database every history of store calls, with any statements failing, leaves no two
-- events with one id, or with one source and one delivery id that is neither NULL nor empty, no two
-- action rows for one event and index, and no two replay guards for one source and body hash.
pub run_calls-KeysOk :
    (cs : List Call) (faults : List Bool)
    → KeysOk (run_calls cs (record { db = empty_db; faults = faults })).db
run_calls-KeysOk cs faults = run_calls_keep-KeysOk cs _ empty-KeysOk
