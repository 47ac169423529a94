-- ===== src/Store/Action/Aggregate.antt =====
-- The status that RefreshEventStatus gives an event, read off its actions without counting.
use general_webhook.Base.{
  ℕ, ◌+◌, String, Bool, true, none, List, [], ◌∷◌, ◌≡◌, refl, sym, ◌∙◌, ap, subst, arith, exists,
  count_where, update_where, All, Bool-cases, inl, inr, ◌&&◌, ◌||◌, not, eq_iff, ltb, if◌then◌else◌,
}
use general_webhook.Store.Rows.{
  EventStatus, ActionStatus, EventRow, ActionRow, Db, is_done, is_dead, is_retrying, of_event,
  has_id,
}
use general_webhook.Store.Tx.{no_action_state, not_found, update_events}
use general_webhook.Store.Tx.Ends.{
  Ends, Ends-pure, Ends-query_bind, Ends-require_bind, Ends-statement_bind,
}
use general_webhook.Store.Claim.{unix_milli}
use general_webhook.Store.Action.{tally, Verdict, verdict, judged, refresh_event_status}

-- The event has an action whose status passes the test.
abbrev pub has_action : String → (ActionStatus → Bool) → List ActionRow → Bool
has_action id p rows = exists (λ a. of_event id a && p a.status) rows

abbrev pub is_open : ActionStatus → Bool
is_open s = not (is_done s || is_dead s)

-- Done if all actions are done; else dead if all are done or dead; else retrying if one waits for a
-- retry; else pending.
unfoldable pub aggregate : String → List ActionRow → EventStatus
aggregate id rows =
    if not (has_action id (λ s. not (is_done s)) rows)
    then EventStatus.done
    else if not (has_action id is_open rows)
    then EventStatus.dead
    else if has_action id is_retrying rows
    then EventStatus.retrying
    else EventStatus.pending

exists-count :
    (p : ActionRow → Bool) (rows : List ActionRow) → exists p rows ≡ ltb 0 (count_where p rows)
unfolding exists count_where
exists-count p [] = refl
exists-count p (a ∷ rows) = ground (arith, exists-count p rows)

count_not_done :
    (id : String) (rows : List ActionRow)
    → count_where (of_event id) rows
      ≡ count_where (λ a. of_event id a && is_done a.status) rows
        + count_where (λ a. of_event id a && not (is_done a.status)) rows
unfolding count_where
count_not_done id [] = refl
count_not_done id (a ∷ rows) = ground (arith, count_not_done id rows)

count_open :
    (id : String) (rows : List ActionRow)
    → count_where (λ a. of_event id a && not (is_done a.status)) rows
      ≡ count_where (λ a. of_event id a && is_dead a.status) rows
        + count_where (λ a. of_event id a && is_open a.status) rows
unfolding count_where
count_open id [] = refl
count_open id (a ∷ rows) = ground (arith, count_open id rows)

-- The counts of the code give the status of the description.
verdict-aggregate :
    (id : String) (rows : List ActionRow) (now_ms : ℕ)
    → (verdict (tally id rows) now_ms).status ≡ aggregate id rows
unfolding verdict tally aggregate
verdict-aggregate id rows now_ms = ground (
  arith,
  count_not_done id rows,
  count_open id rows,
  exists-count (λ a. of_event id a && not (is_done a.status)) rows,
  exists-count (λ a. of_event id a && is_open a.status) rows,
  exists-count (λ a. of_event id a && is_retrying a.status) rows,
)

-- Every row with the id has the status, and no lease.
abbrev pub Released : String → EventStatus → EventRow → Type 0
Released id s r = r.id ≡ id → (r.status ≡ s) × (r.lease_until_ms ≡ none) × (r.lease_owner ≡ none)

Released-judged :
    (id : String) (v : Verdict) (rows : List EventRow)
    → All (Released id v.status) (update_where (has_id id) (judged v) rows)
unfolding update_where judged
Released-judged id v [] = tt
Released-judged id v (r ∷ rows) = elim (Bool-cases (has_id id r)) [
  | inl e ↦ rw e ((λ _. (refl, refl, refl)), Released-judged id v rows)
  | inr e ↦
      rw e ((λ k. absurd (ground (arith, e, (eq_iff r.id id).1 k))), Released-judged id v rows)
]

-- When RefreshEventStatus returns a status, with some statements failing or none, the event has an
-- action; the status is done if all its actions are done, else dead if all are done or dead, else
-- retrying if one is retrying, else pending; every event row with the id then has that status and
-- no lease and no owner; and the actions are unchanged.
pub refresh_event_status-aggregate :
    (id : String) (now : ℕ) (d d' : Db) (s : EventStatus)
    → Ends (refresh_event_status id now) d s d'
    → (exists (of_event id) d.actions ≡ true)
      × (s ≡ aggregate id d.actions)
      × All (Released id s) d'.events
      × (d'.actions ≡ d.actions)
unfolding refresh_event_status update_events
refresh_event_status-aggregate id now d d' s h =
    let g = Ends-require_bind _ no_action_state _ d s d' (Ends-query_bind _ _ d s d' h) in
    let k = Ends-require_bind _ not_found _ _ s d' (Ends-statement_bind _ _ d s d' g.1) in
    let e = Ends-pure _ s _ d' k.1 in
    let v = verdict (tally id d.actions) (unix_milli now) in
    (
      exists-count (of_event id) d.actions ∙ ground (arith, g.0),
      e.0 ∙ verdict-aggregate id d.actions (unix_milli now),
      subst (λ (x : Db). All (Released id s) x.events) (sym e.1)
          (subst (λ t. All (Released id t) (update_where (has_id id) (judged v) d.events)) (sym e.0)
            (Released-judged id v d.events)),
      ap (λ (x : Db). x.actions) e.1,
    )
