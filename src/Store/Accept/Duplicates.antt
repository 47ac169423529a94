-- ===== src/Store/Accept/Duplicates.antt =====
-- The replay guard and the unique index on deliveries.
use general_webhook.Base.{
  ℕ, ◌<◌, All, String, Bool, true, false, List, [], ◌∷◌, ◌++◌, ◌≡◌, sym, ◌∙◌, ap, subst, arith,
  exists, delete_where, Bool-cases, inl, inr, ◌&&◌, eq_refl, leb,
}
use general_webhook.Store.Rows.{EventRow, GuardRow, Db}
use general_webhook.Store.Tx.{
  World, Error, err, duplicate_body, duplicate_event, transact, require, ◌>>=◌,
}
use general_webhook.Store.Tx.Ends.{
  Ends, Ends-bind, Ends-statement_bind, Ends-require, Ends-transact, fails_of_not-Ends,
}
use general_webhook.Store.Tx.Inversion.{calm, transact_err}
use general_webhook.Store.Calls.{Call, run_calls}
use general_webhook.Store.Accept.Lasting.{holds_guard, Before, run_calls-Guarded}
use general_webhook.Store.Accept.{
  NewEvent, new_row, is_empty, guards_body, insert_event, delete_expired_guard, insert_guard,
  reserve_body, save_pending_event_guarded,
}

exists-snoc :
    {A : Type 0} (p : A → Bool) (xs : List A) (y : A) → p y ≡ true → exists p (xs ++ y ∷ []) ≡ true
unfolding exists
exists-snoc p [] y h = ground arith
exists-snoc p (x ∷ xs) y h = ground (arith, exists-snoc p xs y)

-- A guard that has not expired survives the deletion of the expired ones, and blocks the insertion.
exists-delete_where :
    (source hash : String) (until_ms at_ms : ℕ) (gs : List GuardRow)
    → at_ms < until_ms
    → exists (λ g. guards_body source hash g && leb until_ms g.expires_at_ms) gs ≡ true
    → exists
        (guards_body source hash)
        (delete_where (λ g. guards_body source hash g && leb g.expires_at_ms at_ms) gs)
      ≡ true
unfolding exists delete_where
exists-delete_where source hash until_ms at_ms [] h e = cc
exists-delete_where source hash until_ms at_ms (g ∷ gs) h e =
    elim (Bool-cases (guards_body source hash g)) [
      | inl b ↦ ground (arith, b, exists-delete_where source hash until_ms at_ms gs h)
      | inr b ↦ ground (arith, b, exists-delete_where source hash until_ms at_ms gs h)
    ]

holds_after_insert :
    (g : GuardRow) (d : Db)
    → (insert_guard g d).0 ≡ true
    → holds_guard g.source g.body_sha256 g.expires_at_ms (insert_guard g d).1 ≡ true
unfolding insert_guard
holds_after_insert g d h =
    elim (Bool-cases (exists (guards_body g.source g.body_sha256) d.guards)) [
      | inl c ↦ absurd (cc (rw c at h))
      | inr c ↦
          rw c (exists-snoc _ d.guards g (ground (arith, eq_refl g.source, eq_refl g.body_sha256)))
    ]

insert_event-guards : (r : EventRow) (d : Db) → (insert_event r d).1.guards ≡ d.guards
unfolding insert_event
insert_event-guards r d = ground arith

abbrev key_of : NewEvent → ℕ → GuardRow
key_of e expires_at_ms = record {
  source = e.source;
  body_sha256 = e.body_sha256;
  expires_at_ms = expires_at_ms;
}

abbrev swept : NewEvent → Db → Db
swept e d = (delete_expired_guard e.source e.body_sha256 e.at_ms d).1

-- The steps of a guarded save that has a hash.
module _ (e : NewEvent) (expires_at_ms : ℕ) (d d' : Db)
    (hash : is_empty e.body_sha256 ≡ false) where
  guarded_steps :
      Ends (save_pending_event_guarded e expires_at_ms) d tt d'
      → ((insert_guard (key_of e expires_at_ms) (swept e d)).0 ≡ true)
        × (d'.guards ≡ (insert_guard (key_of e expires_at_ms) (swept e d)).1.guards)
  unfolding save_pending_event_guarded reserve_body
  guarded_steps h =
      let (_, c, r, s) = Ends-bind _ _ d tt d' (Ends-transact _ d tt d' h) in
      let f =
        Ends-require _ duplicate_body _ _ c
          (Ends-statement_bind _ _ _ _ c (Ends-statement_bind _ _ d _ c (rw hash at r))) in
      let g = Ends-require _ duplicate_event _ tt d' (Ends-statement_bind _ _ c tt d' s) in
      (
        f.0,
        ap (λ (x : Db). x.guards) g.1
            ∙ insert_event-guards (new_row e) c
            ∙ ap (λ (x : Db). x.guards) f.1,
      )

  -- A guarded save that is accepted leaves a guard until its expiry.
  accepted_holds_guard :
      Ends (save_pending_event_guarded e expires_at_ms) d tt d'
      → holds_guard e.source e.body_sha256 expires_at_ms d' ≡ true
  accepted_holds_guard h =
      let s = guarded_steps h in
      subst
        (λ gs.
          exists (λ g. guards_body e.source e.body_sha256 g && leb expires_at_ms g.expires_at_ms) gs
          ≡ true)
        (sym s.1) (holds_after_insert (key_of e expires_at_ms) (swept e d) s.0)

-- A guard that has not expired blocks the insertion of another.
blocked_insert :
    (e : NewEvent) (until_ms expires_at_ms : ℕ) (d : Db)
    → e.at_ms < until_ms
    → holds_guard e.source e.body_sha256 until_ms d ≡ true
    → (insert_guard (key_of e expires_at_ms) (swept e d)).0 ≡ false
unfolding insert_guard delete_expired_guard
blocked_insert e until_ms expires_at_ms d h g =
    rw (exists-delete_where e.source e.body_sha256 until_ms e.at_ms d.guards h g)

module _ (e : NewEvent) (until_ms expires_at_ms : ℕ) (d : Db)
    (hash : is_empty e.body_sha256 ≡ false) (early : e.at_ms < until_ms)
    (held : holds_guard e.source e.body_sha256 until_ms d ≡ true) where
  blocked_never-Ends :
      (a : Unit {0}) (d' : Db) → Ends (save_pending_event_guarded e expires_at_ms) d a d' → ⊥
  blocked_never-Ends a d' h = cc (
    (guarded_steps e expires_at_ms d d' hash h).0,
    blocked_insert e until_ms expires_at_ms d early held,
  )

  blocked_calm : (save_pending_event_guarded e expires_at_ms (calm d)).0 ≡ err duplicate_body
  unfolding save_pending_event_guarded reserve_body transact require ◌>>=◌
  blocked_calm = rw hash (rw (blocked_insert e until_ms expires_at_ms d early held, require))

-- A body is accepted once until its guard expires: after a guarded save of an event whose hash is
-- not empty has succeeded, and after whatever calls of the store, with any statements failing, whose
-- saves and purges are made before the expiry, a guarded save with the same source and hash at a time
-- before the expiry fails, whatever statements of it fail or none, and leaves the database as it was;
-- if no statement fails, its error is ErrDuplicateBody.
pub save_pending_event_guarded-twice :
    (e f : NewEvent) (expires_at_ms expires_at_ms' : ℕ) (d : Db) (cs : List Call) (v w : World)
    → is_empty e.body_sha256 ≡ false
    → f.source ≡ e.source
    → f.body_sha256 ≡ e.body_sha256
    → f.at_ms < expires_at_ms
    → All (Before expires_at_ms) cs
    → Ends (save_pending_event_guarded e expires_at_ms) d tt v.db
    → w.db ≡ (run_calls cs v).db
    → let answer = save_pending_event_guarded f expires_at_ms' w in
      ((x : Error) × (answer.0 ≡ err x))
      × (answer.1.db ≡ w.db)
      × ((save_pending_event_guarded f expires_at_ms' (calm w.db)).0 ≡ err duplicate_body)
unfolding save_pending_event_guarded
save_pending_event_guarded-twice e f exp exp' d cs v w hash same_source same_hash early before first
      at =
    let hash' : is_empty f.body_sha256 ≡ false = rw same_hash hash in
    let held = accepted_holds_guard e exp d v.db hash first in
    let lasting = run_calls-Guarded e.source e.body_sha256 exp cs v before held in
    let held_w : holds_guard f.source f.body_sha256 exp w.db ≡ true =
      rw (at, same_source, same_hash) lasting in
    let failed =
      fails_of_not-Ends (save_pending_event_guarded f exp') w
        (blocked_never-Ends f exp exp' w.db hash' early held_w) in
    (failed, transact_err _ w failed.0 failed.1, blocked_calm f exp exp' w.db hash' early held_w)
