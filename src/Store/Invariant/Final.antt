-- ===== src/Store/Invariant/Final.antt =====
-- What a call may do to the rows of event_actions.
use general_webhook.Base.{
  ℕ, String, Bool, true, false, List, [], ◌∷◌, ◌++◌, ◌≡◌, refl, ◌∙◌, arith, exists, Bool-cases, inl,
  inr, update_where, and_left, and_right,
}
use general_webhook.Store.Rows.{
  ActionRow, GuardRow, Db, at_index, is_done, is_running, is_startable, is_dead,
}
use general_webhook.Store.Tx.{World, update_events, update_actions}
use general_webhook.Store.Tx.Relation.{Change, Moves, moves_rules}
use general_webhook.Store.Accept.{
  NewEvent, new_row, clashes, guards_body, insert_event, insert_guard, delete_expired_guard,
}
use general_webhook.Store.Claim.{unstart}
use general_webhook.Store.Requeue.{requeue_orphans, unstart_within}
use general_webhook.Store.Action.{
  insert_action, start_row, started, is_due, completed, rescheduled, killed,
}
use general_webhook.Store.Replay.{revived}
use general_webhook.Store.Audit.{Attempt, insert_log, save_action_attempt_log, toggle_nonce}
use general_webhook.Store.Heartbeats.{insert_heartbeat}
use general_webhook.Store.Snapshots.{rewrite_row}
use general_webhook.Store.Calls.{Call, purges, marks, is_purge, perform}
use general_webhook.Store.Calls.Steps.{Steps, Audits}
use general_webhook.Store.Calls.Walk.{Extra, perform_any-Moves}

-- The row goes on: the same action of the same event, and unchanged if it was done.
pub record Goes (a b : ActionRow) : Type 0 where
  pub same_event : b.event_id ≡ a.event_id
  pub same_index : b.action_index ≡ a.action_index
  pub final : is_done a.status ≡ true → b ≡ a

-- Every row goes on at its place, and new rows come after.
abbrev pub Grows : List ActionRow → List ActionRow → Type 0
Grows [] bs = Unit
Grows (a ∷ rows) [] = ⊥
Grows (a ∷ rows) (b ∷ bs) = Goes a b × Grows rows bs

Goes-refl : (a : ActionRow) → Goes a a
Goes-refl a = record { same_event = refl; same_index = refl; final = λ _. refl }

Goes-trans : (a b c : ActionRow) → Goes a b → Goes b c → Goes a c
Goes-trans a b c g h = record {
  same_event = h.same_event ∙ g.same_event;
  same_index = h.same_index ∙ g.same_index;
  final =
      λ e. let s : b ≡ a = g.final e in let k : is_done b.status ≡ true = rw s e in h.final k ∙ s;
}

pub Grows-refl : (rows : List ActionRow) → Grows rows rows
Grows-refl [] = tt
Grows-refl (a ∷ rows) = (Goes-refl a, Grows-refl rows)

pub Grows-trans : (xs ys zs : List ActionRow) → Grows xs ys → Grows ys zs → Grows xs zs
Grows-trans [] ys zs g h = tt
Grows-trans (x ∷ xs) [] zs g h = absurd g
Grows-trans (x ∷ xs) (y ∷ ys) [] g h = absurd h
Grows-trans (x ∷ xs) (y ∷ ys) (z ∷ zs) g h =
    (Goes-trans x y z g.0 h.0, Grows-trans xs ys zs g.1 h.1)

Grows-snoc : (rows : List ActionRow) (a : ActionRow) → Grows rows (rows ++ a ∷ [])
Grows-snoc [] a = tt
Grows-snoc (x ∷ rows) a = (Goes-refl x, Grows-snoc rows a)

Grows-update_where :
    (p : ActionRow → Bool) (f : ActionRow → ActionRow)
    → ((a : ActionRow) → p a ≡ true → Goes a (f a))
    → (rows : List ActionRow) → Grows rows (update_where p f rows)
unfolding update_where
Grows-update_where p f step [] = tt
Grows-update_where p f step (a ∷ rows) = elim (Bool-cases (p a)) [
  | inl e ↦ rw e (step a e, Grows-update_where p f step rows)
  | inr e ↦ rw e (Goes-refl a, Grows-update_where p f step rows)
]

abbrev pub growing : Change
growing = record {
  rel = λ a b. Grows a.actions b.actions;
  stays = λ d. Grows-refl d.actions;
  chain = λ a b c. Grows-trans a.actions b.actions c.actions;
}

abbrev Fine : {A : Type 0} → (Db → A × Db) → Type 0
Fine f = (d : Db) → Grows d.actions (f d).1.actions

update_actions-Fine :
    (p : ActionRow → Bool) (f : ActionRow → ActionRow)
    → ((a : ActionRow) → p a ≡ true → Goes a (f a))
    → Fine (update_actions p f)
unfolding update_actions
update_actions-Fine p f step d = Grows-update_where p f step d.actions

insert_event-Fine : (e : NewEvent) → Fine (insert_event (new_row e))
unfolding insert_event
insert_event-Fine e d = elim (Bool-cases (exists (clashes (new_row e)) d.events)) [
  | inl c ↦ rw c (Grows-refl d.actions)
  | inr c ↦ rw c (Grows-refl d.actions)
]

insert_guard-Fine : (g : GuardRow) → Fine (insert_guard g)
unfolding insert_guard
insert_guard-Fine g d = elim (Bool-cases (exists (guards_body g.source g.body_sha256) d.guards)) [
  | inl c ↦ rw c (Grows-refl d.actions)
  | inr c ↦ rw c (Grows-refl d.actions)
]

insert_action-Fine : (id : String) (index now_ms : ℕ) → Fine (insert_action id index now_ms)
unfolding insert_action
insert_action-Fine id index now_ms d = elim (Bool-cases (exists (at_index id index) d.actions)) [
  | inl c ↦ rw c (Grows-refl d.actions)
  | inr c ↦ rw c (Grows-snoc d.actions _)
]

-- An update whose rows are not done.
Goes-not_done :
    (a b : ActionRow)
    → b.event_id ≡ a.event_id
    → b.action_index ≡ a.action_index
    → is_done a.status ≡ false
    → Goes a b
Goes-not_done a b e i n = record { same_event = e; same_index = i; final = λ h. cc }

running_not_done : (a : ActionRow) → is_running a.status ≡ true → is_done a.status ≡ false
running_not_done a h = ground arith

startable_not_done : (a : ActionRow) → is_startable a.status ≡ true → is_done a.status ≡ false
startable_not_done a h = ground arith

dead_not_done : (a : ActionRow) → is_dead a.status ≡ true → is_done a.status ≡ false
dead_not_done a h = ground arith

pub growing-Steps : Steps growing
unfolding requeue_orphans unstart_within start_row is_due unstart started completed rescheduled
    killed revived delete_expired_guard toggle_nonce rewrite_row insert_heartbeat
growing-Steps = record {
  on_insert_event = insert_event-Fine;
  on_insert_guard = insert_guard-Fine;
  on_delete_expired_guard = λ s b t d. Grows-refl d.actions;
  on_insert_action = insert_action-Fine;
  on_take_lease = λ id now_ms until_ms owner d. Grows-refl d.actions;
  on_with_lease = λ id until_ms owner d. Grows-refl d.actions;
  on_requeued = λ p d. Grows-refl d.actions;
  on_requeued_one = λ id d. Grows-refl d.actions;
  on_requeue_orphans = λ d. Grows-refl d.actions;
  on_unstart = λ id.
      update_actions-Fine _ _
        (λ a e. Goes-not_done a _ refl refl (running_not_done a (and_right _ _ e)));
  on_unstart_within = λ p d.
      update_actions-Fine _ _
        (λ a e. Goes-not_done a _ refl refl (running_not_done a (and_left _ _ e))) d;
  on_with_vars = λ id vars d. Grows-refl d.actions;
  on_drop_payload = λ id d. Grows-refl d.actions;
  on_judged = λ id t now_ms d. Grows-refl d.actions;
  on_replayed = λ id reason now_ms generation d. Grows-refl d.actions;
  on_marked = λ id status at_ms t d. Grows-refl d.actions;
  on_start_row = λ id index now_ms d.
      update_actions-Fine _ _
        (λ a e.
          Goes-not_done a _ refl refl
            (startable_not_done a (and_left _ _ (and_right (at_index id index a) _ e))))
        d;
  on_completed = λ id index now_ms. update_actions-Fine _ _ (λ a e.
      Goes-not_done a _ refl refl (running_not_done a (and_right (at_index id index a) _ e)));
  on_rescheduled = λ id index next_ms detail ms. update_actions-Fine _ _ (λ a e.
      Goes-not_done a _ refl refl (running_not_done a (and_right (at_index id index a) _ e)));
  on_killed = λ id index detail now_ms. update_actions-Fine _ _ (λ a e.
      Goes-not_done a _ refl refl (running_not_done a (and_right (at_index id index a) _ e)));
  on_expired = λ id index detail now_ms. update_actions-Fine _ _ (λ a e.
      Goes-not_done a _ refl refl (startable_not_done a (and_right (at_index id index a) _ e)));
  on_revived = λ id now_ms.
      update_actions-Fine _ _
        (λ a e. Goes-not_done a _ refl refl (dead_not_done a (and_right _ _ e)));
  on_toggle_nonce = λ d. Grows-refl d.actions;
  on_rewrite_row = λ id raw updated d. Grows-refl d.actions;
  on_insert_heartbeat = λ text origin e d. Grows-refl d.actions;
}

insert_log-Fine : (id : String) (e : Attempt) → Fine (insert_log id e)
unfolding insert_log
insert_log-Fine id e d = Grows-refl d.actions

pub growing-Audits : Audits growing
unfolding save_action_attempt_log
growing-Audits id e = search (moves_rules, insert_log-Fine) depth 12

growing-Extra : (c : Call) → is_purge c ≡ false → Extra growing c
unfolding update_events
growing-Extra (purges cutoff now) h = absurd (cc h)
growing-Extra (marks id status now) h = λ d. Grows-refl d.actions
growing-Extra _ h = tt

pub perform-Moves : (c : Call) → is_purge c ≡ false → Moves growing (perform c)
perform-Moves c h = perform_any-Moves growing-Steps growing-Audits c (growing-Extra c h)

-- No call of the store but the purge, whatever statement of it fails, removes or reorders a row of
-- event_actions, changes its event or index, or changes anything in a row that is done: new rows come
-- at the end.
pub perform-Grows :
    (c : Call) (w : World) → is_purge c ≡ false → Grows w.db.actions (perform c w).1.db.actions
perform-Grows c w h = (perform-Moves c h).at w
