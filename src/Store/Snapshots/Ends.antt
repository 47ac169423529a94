-- ===== src/Store/Snapshots/Ends.antt =====
-- The loop of RewriteActionSnapshots ends: each batch moves the cursor past a row.
use general_webhook.Base.{
  ℕ, zero, suc, ◌+◌, ◌<◌, ◌≤◌, String, Bool, true, false, Option, none, some, List, [], ◌∷◌, length,
  ◌≡◌, refl, ◌∙◌, arith, ◌⊎◌, inl, inr, Bool-cases, str_eq,
}
use general_webhook.Store.Rows.{EventRow, Db}
use general_webhook.Store.Tx.{
  World, Tx, Result, ok, err, driver, proceed, fails, pure, statement, query, caught, update_events,
  ◌>>=◌,
}
use general_webhook.Store.Tx.Relation.{Change}
use general_webhook.Store.Snapshots.{
  is_beyond, snapshot_batch, rewrite_row, with_json, Progress, goes_on, fails_at, Rewritten,
  finished, failed, out_of_fuel, after_update, rewrite_rows, last_id, after_rows, after_batch,
  rewrite_batches, rewrite_action_snapshots,
}
use general_webhook.Store.Tx.Total.{
  Total, Total-pure, Total-caught, Total-if, Total-option, Total-bind,
}
use general_webhook.Store.Calls.Parts.{rewrite_rows-Moves}
use general_webhook.Store.Snapshots.Batch.{
  remaining, batch_less, count_where-update, count_where-length,
}

-- A rewrite changes no id.
abbrev same_ids : Change
same_ids = record {
  rel = λ a b. (c : Option String) → remaining c b ≡ remaining c a;
  stays = λ d c. refl;
  chain = λ a b c f g x. g x ∙ f x;
}

beyond_same :
    (c : Option String) (json : String) (r : EventRow)
    → is_beyond c (with_json json r) ≡ is_beyond c r
beyond_same none json r = refl
beyond_same (some a) json r = refl

on_rewrite_row :
    (id raw updated : String) (d : Db) → same_ids.rel d (rewrite_row id raw updated d).1
unfolding rewrite_row update_events
on_rewrite_row id raw updated d c =
    count_where-update _ (is_beyond c) (with_json updated) d.events (beyond_same c updated)

-- A loop that has come to its end.
abbrev pub ended : Rewritten → Bool
ended (finished changed) = true
ended (failed changed) = true
ended out_of_fuel = false

abbrev pub EndsAt : Result Rewritten × World → Type 0
EndsAt run = (out : Rewritten) × (run.0 ≡ ok out) × (ended out ≡ true)

module _ (rewrite : String → Option String) (canceled : String → Bool) where
  after_update-Total :
      (rest : ℕ → Tx Progress) (changed : ℕ) (r : Result ℕ)
      → ((n : ℕ) → Total (rest n))
      → Total (after_update rewrite canceled rest changed r)
  unfolding after_update
  after_update-Total rest changed (ok n) h = h (changed + n)
  after_update-Total rest changed (err e) h = Total-pure (fails_at changed)

  -- A batch raises no error: it says how it ends.
  rewrite_rows-Total :
      (rows : List (String × String)) (changed : ℕ)
      → Total (rewrite_rows rewrite canceled rows changed)
  unfolding rewrite_rows
  rewrite_rows-Total [] changed = Total-pure (goes_on changed)
  rewrite_rows-Total (row ∷ rows) changed =
      Total-if (canceled row.0) _ _ (Total-pure (fails_at changed)) (
        Total-option (rewrite row.1) _ _ (Total-pure (fails_at changed)) (λ updated.
          Total-if (str_eq updated row.1) _ _ (rewrite_rows-Total rows changed) (
            Total-bind _ _ (Total-caught _)
              (λ r. after_update-Total _ changed r (rewrite_rows-Total rows)))))

  module _ (next : Option String → ℕ → Tx Rewritten) (n : ℕ)
      (enough : (after : Option String) (changed : ℕ) (w : World)
        → remaining after w.db < n
        → EndsAt (next after changed w)) where
    after_rows-EndsAt :
        (last : String) (p : Progress) (w : World)
        → remaining (some last) w.db < n
        → EndsAt (after_rows rewrite canceled next last p w)
    unfolding after_rows pure
    after_rows-EndsAt last (goes_on changed) w h = enough (some last) changed w h
    after_rows-EndsAt last (fails_at changed) w h = (failed changed, refl, refl)

    rows_EndsAt :
        (last : String) (r : Result Progress) (p : Progress) (u : World)
        → r ≡ ok p
        → remaining (some last) u.db < n
        → EndsAt (proceed (r, u) (after_rows rewrite canceled next last))
    rows_EndsAt last (ok q) p u e h = after_rows-EndsAt last q u h
    rows_EndsAt last (err x) p u e h = absurd (cc e)

    after_batch-EndsAt :
        (after : Option String) (changed : ℕ) (r : Result (List (String × String))) (w : World)
        → (r ≡ ok (snapshot_batch after w.db)) ⊎ (r ≡ err driver)
        → remaining after w.db ≤ n
        → EndsAt (after_batch rewrite canceled next changed r w)
    unfolding after_batch pure ◌>>=◌
    after_batch-EndsAt after changed (err e) w h k = (failed changed, refl, refl)
    after_batch-EndsAt after changed (ok []) w h k = (finished changed, refl, refl)
    after_batch-EndsAt after changed (ok (row ∷ rows)) w (inr h) k = absurd (cc h)
    after_batch-EndsAt after changed (ok (row ∷ rows)) w (inl h) k =
        let run = rewrite_rows rewrite canceled (row ∷ rows) changed w in
        let (p, e) = (rewrite_rows-Total (row ∷ rows) changed).at w in
        let same =
          (rewrite_rows-Moves {R = same_ids} rewrite canceled on_rewrite_row (row ∷ rows)
              changed).at
            w (some (last_id row rows)) in
        let batch : snapshot_batch after w.db ≡ row ∷ rows = cc h in
        let less = batch_less after w.db row rows batch in
        rows_EndsAt (last_id row rows) run.0 p run.1 e (rw same (omega (arith, less, k)))

  queried :
      (f : Db → List (String × String)) (w : World)
      → (((query f w).0 ≡ ok (f w.db)) ⊎ ((query f w).0 ≡ err driver)) × ((query f w).1.db ≡ w.db)
  unfolding query statement
  queried f w = elim (Bool-cases (fails w.faults)) [
    | inl e ↦ rw e (inr refl, refl)
    | inr e ↦ rw e (inl refl, refl)
  ]

  -- The loop ends, with the number of rows changed, if there is a unit of fuel for each row beyond the
  -- cursor and one more, whatever statements fail.
  pub rewrite_batches-EndsAt :
      (fuel : ℕ) (after : Option String) (changed : ℕ) (w : World)
      → remaining after w.db < fuel
      → EndsAt (rewrite_batches rewrite canceled fuel after changed w)
  unfolding rewrite_batches caught ◌>>=◌
  rewrite_batches-EndsAt zero after changed w h = absurd (omega (arith, h))
  rewrite_batches-EndsAt (suc fuel) after changed w h =
      let read = query (snapshot_batch after) w in
      let q = queried (snapshot_batch after) w in
      after_batch-EndsAt (rewrite_batches rewrite canceled fuel) fuel (rewrite_batches-EndsAt fuel)
        after changed read.0 read.1 (rw q.1 q.0) (rw q.1 (omega (arith, h)))

  -- RewriteActionSnapshots ends, with the number of rows changed and perhaps an error, if there is one
  -- batch more than events, whatever statements fail, whenever the context is canceled and whatever
  -- the callback does to a snapshot.
  pub rewrite_action_snapshots-EndsAt :
      (fuel : ℕ) (w : World)
      → length w.db.events < fuel
      → EndsAt (rewrite_action_snapshots rewrite canceled fuel w)
  unfolding rewrite_action_snapshots
  rewrite_action_snapshots-EndsAt fuel w h =
      rewrite_batches-EndsAt fuel none 0 w
        (omega (arith, h, count_where-length (is_beyond none) w.db.events))
