-- ===== src/Queue/Vars/Releases.antt =====
-- Where no variables are found for an event, it is released.
use general_webhook.Base.{
  ℕ, String, Bool, true, false, Option, none, some, List, [], ◌∷◌, ◌≡◌, refl, sym, ◌∙◌, subst,
  if◌then◌else◌,
}
use general_webhook.Config.{Vars, Source, Config}
use general_webhook.Policy.{redact}
use general_webhook.Store.Rows.{EventStatus, Db}
use general_webhook.Store.Accept.{is_empty}
use general_webhook.Store.Tx.{Tx, Result, ok, err, pure, ignoring, caught, ◌>>=◌, ◌>>◌}
use general_webhook.Store.Replay.{clear_payload}
use general_webhook.Store.Tx.Inversion.{calm}
use general_webhook.Store.Tx.Calm.{
  Calm, Reaches, Reaches-pure, Reaches-caught, Reaches-ignoring, Reaches-bind,
}
use general_webhook.Store.Calls.Calm.{
  requeue_event-Calm, update_event_status-Calm, clear_payload-Calm, get_payload-Calm,
}
use general_webhook.Store.Released.{
  Released, requeue_event-Released, update_event_status-Released, clear_payload-Released,
}
use general_webhook.Store.Claim.{PendingEvent}
use general_webhook.Queue.Vars.{
  Parts, requeue, or_requeue, kill, skip, select, from_payload, fresh_vars, execution_vars,
  drops_payload, is_blank,
}

abbrev pub Anything : {A : Type 0} → A → Db → Type 0
Anything a d = Unit

-- Without variables the event is released.
abbrev pub VarsReleased : String → Option Vars → Db → Type 0
VarsReleased id none d = Released id d
VarsReleased id (some vars) d = Unit

pub requeue-Reaches : (id : String) (d : Db) → Reaches (requeue id) d (λ _ e. Released id e)
unfolding requeue
requeue-Reaches id d = Reaches-ignoring _ d _ (requeue_event-Calm id) (requeue_event-Released id d)

module _ {B : Type 0} (id : String) (stop : B) (Q : B → Db → Type 0)
    (released : (e : Db) → Released id e → Q stop e) where
  pub requeued_Reaches : (d : Db) → Reaches (requeue id >> pure stop) d Q
  requeued_Reaches d =
      Reaches-bind _ _ d _ Q (requeue-Reaches id d) (λ _ e h. Reaches-pure stop e Q (released e h))

module _ {A B : Type 0} (id : String) (stop : B) (Q : B → Db → Type 0)
    (released : (e : Db) → Released id e → Q stop e) where
  pub or_requeue-Reaches :
      (rest : A → Tx B) (r : Result A) (d : Db)
      → ((a : A) → r ≡ ok a → Reaches (rest a) d Q)
      → Reaches (or_requeue id stop rest r) d Q
  unfolding or_requeue
  or_requeue-Reaches rest (ok a) d h = h a refl
  or_requeue-Reaches rest (err e) d h = requeued_Reaches id stop Q released d

  -- A call whose error leads to a requeue.
  pub caught-Reaches :
      (m : Tx A) (rest : A → Tx B) (d : Db)
      → Calm m
      → ((a : A) (e : Db) → (m (calm d)).0 ≡ ok a → (m (calm d)).1.db ≡ e → Reaches (rest a) e Q)
      → Reaches (caught m >>= or_requeue id stop rest) d Q
  caught-Reaches m rest d c h =
      Reaches-bind _ _ d (λ r e. (r ≡ (m (calm d)).0) × ((m (calm d)).1.db ≡ e)) Q
        (Reaches-caught m d _ c (refl, refl))
        (λ r e p. or_requeue-Reaches rest r e (λ a q. h a e (sym p.0 ∙ q) p.1))

pub if_Reaches :
    {A : Type 0} (b : Bool) (m n : Tx A) (d : Db) (Q : A → Db → Type 0)
    → Reaches m d Q
    → Reaches n d Q
    → Reaches (if b then m else n) d Q
if_Reaches true m n d Q h k = h
if_Reaches false m n d Q h k = k

module _ (parts : Parts) (cfg : Option Config) (id : String) where
  kill-Reaches : (now : ℕ) (d : Db) → Reaches (kill id now) d (VarsReleased id)
  unfolding kill
  kill-Reaches now d =
      Reaches-bind _ _ d (λ _ e. Released id e) (VarsReleased id)
        (Reaches-ignoring _ d _ (update_event_status-Calm id EventStatus.dead now)
          (update_event_status-Released id EventStatus.dead now d refl))
        (λ _ e h. Reaches-pure none e _ h)

  dropped-Reaches :
      (b : Bool) (d : Db)
      → Released id d
      → Reaches (if b then ignoring (clear_payload id) else pure tt) d (λ _ e. Released id e)
  dropped-Reaches b d h =
      if_Reaches b _ _ d _
        (Reaches-ignoring _ d _ (clear_payload-Calm id) (clear_payload-Released id id d h))
        (Reaches-pure tt d _ h)

  skip-Reaches : (now : ℕ) (d : Db) → Reaches (skip cfg id now) d (VarsReleased id)
  unfolding skip
  skip-Reaches now d =
      caught-Reaches id none (VarsReleased id) (λ _ h. h) _ _ d
        (update_event_status-Calm id EventStatus.skipped now)
        (λ _ e _ at.
          Reaches-bind _ _ e (λ _ f. Released id f) (VarsReleased id)
            (dropped-Reaches (drops_payload cfg) e (
              subst (Released id) at
                (update_event_status-Released id EventStatus.skipped now d refl)))
            (λ _ f h. Reaches-pure none f _ h))

  chosen-Reaches :
      (src : Source) (vars : Vars) (now : ℕ) (o : Option Bool) (d : Db)
      → Reaches
          (elim o as (λ _. Tx (Option Vars)) [
            | none ↦ kill id now
            | some matched ↦
                if matched then pure (some (redact parts.replace src vars)) else skip cfg id now
          ])
          d
          (VarsReleased id)
  chosen-Reaches src vars now none d = kill-Reaches now d
  chosen-Reaches src vars now (some matched) d =
      if_Reaches matched _ _ d _ (Reaches-pure (some (redact parts.replace src vars)) d _ tt)
        (skip-Reaches now d)

  select-Reaches :
      (src : Source) (vars : Vars) (now : ℕ) (d : Db)
      → Reaches (select parts cfg src id vars now) d (VarsReleased id)
  unfolding select
  select-Reaches src vars now d =
      if_Reaches _ _ _ d _ (chosen-Reaches src vars now _ d) (skip-Reaches now d)

module _ (parts : Parts) (cfg : Option Config) (ev : PendingEvent) (src : Source) (now : ℕ) where
  from_payload-Reaches :
      (o : Option (List ℕ)) (d : Db)
      → Reaches (from_payload parts cfg ev src now o) d (VarsReleased ev.id)
  unfolding from_payload
  from_payload-Reaches none d = kill-Reaches parts cfg ev.id now d
  from_payload-Reaches (some []) d = kill-Reaches parts cfg ev.id now d
  from_payload-Reaches (some (b ∷ bytes)) d = select-Reaches parts cfg ev.id src _ now d

  fresh_vars-Reaches : (d : Db) → Reaches (fresh_vars parts cfg ev src now) d (VarsReleased ev.id)
  unfolding fresh_vars
  fresh_vars-Reaches d =
      if_Reaches (is_blank ev.payload) _ _ d _
        (caught-Reaches ev.id none (VarsReleased ev.id) (λ _ h. h) _ _ d (get_payload-Calm ev.id)
          (λ p e _ _. from_payload-Reaches p.0 e))
        (from_payload-Reaches ev.payload d)

  read-Reaches :
      (o : Option Vars) (d : Db)
      → Reaches
          (elim o as (λ _. Tx (Option Vars)) [
            | none ↦ kill ev.id now
            | some vars ↦ pure (some vars)
          ])
          d
          (VarsReleased ev.id)
  read-Reaches none d = kill-Reaches parts cfg ev.id now d
  read-Reaches (some vars) d = Reaches-pure (some vars) d _ tt

  pub execution_vars-Reaches :
      (d : Db) → Reaches (execution_vars parts cfg ev src now) d (VarsReleased ev.id)
  unfolding execution_vars
  execution_vars-Reaches d =
      if_Reaches (is_empty ev.vars_json) _ _ d _ (fresh_vars-Reaches d)
        (read-Reaches (parts.read_vars ev.vars_json) d)
