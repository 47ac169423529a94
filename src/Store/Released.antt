-- ===== src/Store/Released.antt =====
-- The calls that end the processing of an event.
use general_webhook.Base.{
  ℕ, String, Bool, true, false, not, ◌&&◌, List, [], ◌∷◌, ◌≡◌, refl, ◌∙◌, sym, subst, arith, inl,
  inr, Bool-cases, ◌==◌, exists, count_where, update_where,
}
use general_webhook.Store.Rows.{EventStatus, EventRow, Db, is_processing, has_id}
use general_webhook.Store.Tx.{
  World, Tx, Error, not_requeueable, err, statement, require, update_events, update_actions, ◌>>=◌,
  ◌>>◌,
}
use general_webhook.Store.Tx.Inversion.{calm}
use general_webhook.Store.Tx.Ends.{
  Ends, Ends-query_bind, Ends-require_bind, Ends-statement_bind, Ends-pure,
}
use general_webhook.Store.Tx.Calm.{Calm, calm_rules, transact_cases, require_world, require_err}
use general_webhook.Store.Claim.{unix_milli, running_of, unstart}
use general_webhook.Store.Requeue.{requeued, requeue_event}
use general_webhook.Store.Action.{
  drop_payload, Tally, Verdict, tally, verdict, judged, refresh_event_status,
}
use general_webhook.Store.Replay.{marked, update_event_status, clear_payload}

abbrev pub busy : String → EventRow → Bool
busy id r = has_id id r && is_processing r.status

-- No event with this id is being processed.
abbrev pub Released : String → Db → Type 0
Released id d = exists (busy id) d.events ≡ false

exists-count_where :
    {A : Type 0} (p : A → Bool) (xs : List A) → count_where p xs ≡ 0 → exists p xs ≡ false
unfolding exists count_where
exists-count_where p [] h = refl
exists-count_where p (x ∷ xs) h = ground (arith, exists-count_where p xs)

-- An update after which no row that it matched satisfies `q`, where no other row did.
exists-update_where :
    {A : Type 0} (p q : A → Bool) (f : A → A)
    → ((x : A) → p x ≡ true → q (f x) ≡ false)
    → ((x : A) → p x ≡ false → q x ≡ false)
    → (xs : List A) → exists q (update_where p f xs) ≡ false
unfolding exists update_where
exists-update_where p q f on off [] = refl
exists-update_where p q f on off (x ∷ xs) = elim (Bool-cases (p x)) [
  | inl e ↦ rw e (ground (arith, on x e, exists-update_where p q f on off xs))
  | inr e ↦ rw e (ground (arith, off x e, exists-update_where p q f on off xs))
]

marked-Released :
    (id : String) (status : EventStatus) (at : ℕ) (d : Db)
    → is_processing status ≡ false
    → Released id (update_events (has_id id) (marked status at) d).1
unfolding update_events marked
marked-Released id status at d h =
    exists-update_where (has_id id) (busy id) (marked status at) (λ r e. ground (arith, h))
      (λ r e. ground (arith, e)) d.events

pub update_event_status-Released :
    (id : String) (status : EventStatus) (now : ℕ) (d : Db)
    → is_processing status ≡ false
    → Released id (update_event_status id status now (calm d)).1.db
unfolding update_event_status ◌>>=◌
update_event_status-Released id status now d h =
    subst (λ (w : World). Released id w.db) (sym (require_world _ _ _))
      (marked-Released id status (unix_milli now) d h)

requeued-Released : (id : String) (d : Db) → Released id (update_events (busy id) requeued d).1
unfolding update_events requeued
requeued-Released id d =
    exists-update_where (busy id) (busy id) requeued (λ r e. ground arith) (λ r e. e) d.events

abbrev requeue_body : String → Tx Unit
requeue_body id = do
  statement (update_actions (running_of id) unstart)
  n ← statement (update_events (busy id) requeued)
  require (not (n == 0)) not_requeueable

requeue_body-Calm : (id : String) → Calm (requeue_body id)
requeue_body-Calm id = search calm_rules depth 12

requeue_body-err :
    (id : String) (d : Db) (x : Error) → (requeue_body id (calm d)).0 ≡ err x → Released id d
unfolding ◌>>=◌ update_actions update_events
requeue_body-err id d x h =
    let none_busy = require_err _ _ x _ h in
    exists-count_where (busy id) d.events (ground (arith, none_busy))

requeue_body-ok : (id : String) (d : Db) → Released id (requeue_body id (calm d)).1.db
unfolding ◌>>=◌ update_actions
requeue_body-ok id d =
    subst (λ (w : World). Released id w.db) (sym (require_world _ _ _))
      (requeued-Released id (update_actions (running_of id) unstart d).1)

-- A requeue releases the event, or there was nothing to release.
pub requeue_event-Released : (id : String) (d : Db) → Released id (requeue_event id (calm d)).1.db
unfolding requeue_event
requeue_event-Released id d =
    transact_cases (Released id) (requeue_body id) d (requeue_body-Calm id) (requeue_body-err id d)
      (λ _ _. requeue_body-ok id d)

verdict-status : (t : Tally) (now : ℕ) → is_processing (verdict t now).status ≡ false
unfolding verdict
verdict-status t now = ground arith

judged-Released :
    (id : String) (v : Verdict) (d : Db)
    → is_processing v.status ≡ false
    → Released id (update_events (has_id id) (judged v) d).1
unfolding update_events judged
judged-Released id v d h =
    exists-update_where (has_id id) (busy id) (judged v) (λ r e. ground (arith, h))
      (λ r e. ground (arith, e)) d.events

pub refresh_event_status-Released :
    (id : String) (now : ℕ) (d e : Db) (s : EventStatus)
    → Ends (refresh_event_status id now) d s e
    → Released id e
unfolding refresh_event_status
refresh_event_status-Released id now d e s h =
    let counted = Ends-query_bind _ _ d s e h in
    let some_action = Ends-require_bind _ _ _ d s e counted in
    let v = verdict (tally id d.actions) (unix_milli now) in
    let written = Ends-statement_bind _ _ d s e some_action.1 in
    let found = Ends-require_bind _ _ _ _ s e written in
    let last = Ends-pure _ s _ e found.1 in
    subst (Released id) (sym last.1)
      (judged-Released id v d (verdict-status (tally id d.actions) (unix_milli now)))

exists-update_same :
    {A : Type 0} (p q : A → Bool) (f : A → A)
    → ((x : A) → q (f x) ≡ q x)
    → (xs : List A) → exists q (update_where p f xs) ≡ exists q xs
unfolding exists update_where
exists-update_same p q f same [] = refl
exists-update_same p q f same (x ∷ xs) = elim (Bool-cases (p x)) [
  | inl e ↦ rw (e, same x, exists-update_same p q f same xs) refl
  | inr e ↦ rw (e, exists-update_same p q f same xs) refl
]

pub clear_payload-Released :
    (id other : String) (d : Db) → Released id d → Released id (clear_payload other (calm d)).1.db
unfolding clear_payload ◌>>=◌ update_events drop_payload
clear_payload-Released id other d h =
    exists-update_same (has_id other) (busy id) drop_payload (λ r. refl) d.events ∙ h
