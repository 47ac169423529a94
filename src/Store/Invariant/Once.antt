-- ===== src/Store/Invariant/Once.antt =====
-- An action that is done is never started again.
use general_webhook.Base.{
  ℕ, String, true, false, none, List, [], ◌∷◌, ◌≡◌, refl, sym, ◌∙◌, arith, Bool-cases, inl, inr,
  All, All-of_Memᴰ, Memᴰ, Distinct-unique, first_where, subst, eq_iff,
}
use general_webhook.Store.Rows.{ActionRow, Db, at_index, is_done}
use general_webhook.Store.Tx.{World}
use general_webhook.Store.Tx.Relation.{Moves}
use general_webhook.Store.Tx.Ends.{Ends, Ends-statement_bind, Ends-or_no_rows}
use general_webhook.Store.Claim.{unix_milli}
use general_webhook.Store.Action.{is_due, start_row, start_action}
use general_webhook.Store.Calls.{Call, is_purge, perform, run_calls, run_calls-rel}
use general_webhook.Store.Invariant.Keys.{KeysOk, same_action, run_calls_keep-KeysOk}
use general_webhook.Store.Invariant.Final.{Grows, growing, perform-Moves}

-- If every row of the action is done, none is due.
none_due :
    (id : String) (index now_ms : ℕ) (rows : List ActionRow)
    → All (λ b. at_index id index b ≡ true → is_done b.status ≡ true) rows
    → first_where (is_due id index now_ms) rows ≡ none
unfolding first_where is_due
none_due id index now_ms [] h = refl
none_due id index now_ms (b ∷ rows) h = elim (Bool-cases (at_index id index b)) [
  | inl e ↦ ground (arith, e, h.0 e, none_due id index now_ms rows h.1)
  | inr e ↦ ground (arith, e, none_due id index now_ms rows h.1)
]

at_index_sym :
    (a b : ActionRow)
    → at_index a.event_id a.action_index b ≡ true
    → at_index b.event_id b.action_index a ≡ true
at_index_sym a b h = ground (arith, h, eq_iff b.event_id a.event_id, eq_iff a.event_id b.event_id)

done_never-Ends :
    (d e : Db) (a : ActionRow) (now attempt : ℕ)
    → KeysOk d
    → Memᴰ a d.actions
    → is_done a.status ≡ true
    → ¬ Ends (start_action a.event_id a.action_index now) d attempt e
unfolding start_action start_row
done_never-Ends d e a now attempt keys m done h =
    let found = Ends-or_no_rows _ _ attempt e (Ends-statement_bind _ _ d attempt e h) in
    let all_done =
      All-of_Memᴰ (λ b. at_index a.event_id a.action_index b ≡ true → is_done b.status ≡ true)
        d.actions
        (λ b n same.
          let one : a ≡ b =
            Distinct-unique same_action d.actions a b keys.actions m n same
              (at_index_sym a b same) in
          subst (λ (c : ActionRow). is_done c.status ≡ true) one done) in
    let none_left = none_due a.event_id a.action_index (unix_milli now) d.actions all_done in
    cc (rw (none_left, start_row) at found)

-- A row that is done is still there in rows that have grown.
Grows-Memᴰ :
    (xs ys : List ActionRow) (a : ActionRow)
    → Grows xs ys
    → is_done a.status ≡ true
    → Memᴰ a xs
    → Memᴰ a ys
Grows-Memᴰ [] ys a g done m = elim m [ ]
Grows-Memᴰ (x ∷ xs) [] a g done m = absurd g
Grows-Memᴰ (x ∷ xs) (y ∷ ys) a g done (Memᴰ.head e) =
    Memᴰ.head (e ∙ sym (g.0.final (rw (sym e) done)))
Grows-Memᴰ (x ∷ xs) (y ∷ ys) a g done (Memᴰ.tail m) = Memᴰ.tail (Grows-Memᴰ xs ys a g.1 done m)

calls-Moves :
    (cs : List Call) → All (λ c. is_purge c ≡ false) cs → All (λ c. Moves growing (perform c)) cs
calls-Moves [] h = tt
calls-Moves (c ∷ cs) h = (perform-Moves c h.0, calls-Moves cs h.1)

-- After an action is done, StartAction returns no attempt of it, at whatever time, after whatever calls
-- of the store but the purge, with any statements failing, if the keys of the tables were distinct.
pub start_action-once :
    (cs : List Call) (w : World) (a : ActionRow) (now attempt : ℕ) (e : Db)
    → KeysOk w.db
    → Memᴰ a w.db.actions
    → is_done a.status ≡ true
    → All (λ c. is_purge c ≡ false) cs
    → ¬ Ends (start_action a.event_id a.action_index now) (run_calls cs w).db attempt e
start_action-once cs w a now attempt e keys m done kept =
    let grown = run_calls-rel growing cs (calls-Moves cs kept) w in
    done_never-Ends (run_calls cs w).db e a now attempt (run_calls_keep-KeysOk cs w keys)
      (Grows-Memᴰ w.db.actions _ a grown done m) done
