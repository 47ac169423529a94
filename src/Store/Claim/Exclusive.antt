-- ===== src/Store/Claim/Exclusive.antt =====
-- While a lease runs, no other claim returns the event.
use general_webhook.Base.{
  ℕ, ℤ, ◌+◌, ◌≤◌, String, true, some, List, [], ◌∷◌, ◌≡◌, ◌≢◌, refl, sym, ◌∙◌, ap, subst, arith,
  All, All-Memᴰ, All-of_Memᴰ, Memᴰ, Distinct-unique, update_where, Bool-cases, inl, inr, ◌&&◌,
  eq_iff,
}
use general_webhook.Store.Rows.{EventRow, Db, has_id}
use general_webhook.Store.Tx.{World, update_events, update_actions}
use general_webhook.Store.Tx.Ends.{Ends}
use general_webhook.Store.Accept.{clashes}
use general_webhook.Store.Invariant.Keys.{KeysOk}
use general_webhook.Store.Calls.{Call, run_calls}
use general_webhook.Store.Claim.Lasting.{Held, Spares, AllHeld, running_not_due, run_calls-Held}
use general_webhook.Store.Claim.{
  claimable, take_lease, PendingEvent, scan_pending, unix_milli, lease_or_default, claim_pending,
}
use general_webhook.Store.Claim.Earliest.{earliest-Least, earliest-Memᴰ, claim_pending-Claims}

clashes_of_id : (r s : EventRow) → s.id ≡ r.id → clashes r s ≡ true
unfolding clashes
clashes_of_id r s e = ground (arith, (eq_iff s.id r.id).1 e)

-- If every row with the id is claimed, every row with the id holds the lease.
claimed-Held :
    (id : String) (now_ms until_ms : ℕ) (owner : String) (rows : List EventRow)
    → All (λ s. s.id ≡ id → claimable now_ms s ≡ true) rows
    → All
        (Held until_ms id)
        (update_where (λ s. has_id id s && claimable now_ms s) (take_lease until_ms owner) rows)
unfolding update_where take_lease
claimed-Held id now_ms until_ms owner [] free = tt
claimed-Held id now_ms until_ms owner (s ∷ rows) free =
    elim (Bool-cases (has_id id s && claimable now_ms s)) [
      | inl e ↦ rw e ((λ _. (refl, omega arith)), claimed-Held id now_ms until_ms owner rows free.1)
      | inr e ↦ rw e (
        (λ k. absurd (ground (arith, e, k, free.0 k, (eq_iff s.id id).1 k))),
        claimed-Held id now_ms until_ms owner rows free.1,
      )
    ]

-- With unique keys, every row with the id of a claimable row is that row.
same_id_claimable :
    (d : Db) (now_ms : ℕ) (r : EventRow)
    → KeysOk d
    → Memᴰ r d.events
    → claimable now_ms r ≡ true
    → All (λ s. s.id ≡ r.id → claimable now_ms s ≡ true) d.events
same_id_claimable d now_ms r keys m c = All-of_Memᴰ _ d.events λ s n e.
    let same : r ≡ s =
      Distinct-unique clashes d.events r s keys.events m n (clashes_of_id r s e)
        (clashes_of_id s r (sym e)) in
    subst (λ (t : EventRow). claimable now_ms t ≡ true) same c

-- After a claim has returned an event, in a database with unique keys and with some statements
-- failing or none, no claim of any worker returns the same event at a time not after the end of the
-- lease, whatever calls were made in between, with any statements failing, that leave the lease:
-- claims, and recoveries of expired leases, not after its end, renewals that do not shorten it, saves
-- of events with other ids, and all other calls but those that end the processing of the event.
pub claim_pending-exclusive :
    (lease lease' : ℤ) (now later : ℕ) (owner owner' : String) (d after' : Db)
    (ev ev' : PendingEvent) (cs : List Call) (w : World)
    → KeysOk d
    → unix_milli later ≤ unix_milli (now + lease_or_default lease)
    → Ends (claim_pending lease now owner) d (some ev) w.db
    → All (Spares (unix_milli (now + lease_or_default lease)) ev.id) cs
    → Ends (claim_pending lease' later owner') (run_calls cs w).db (some ev') after'
    → ev'.id ≢ ev.id
unfolding scan_pending update_events update_actions
claim_pending-exclusive lease lease' now later owner owner' d after' ev ev' cs w keys h first left
      second same =
    let c = claim_pending-Claims lease now owner d ev w.db first in
    let c' = claim_pending-Claims lease' later owner' (run_calls cs w).db ev' after' second in
    let held = (earliest-Least _ d.events c.row c.chosen).0 in
    let until_ms = unix_milli (now + lease_or_default lease) in
    let taken = claimed-Held c.row.id (unix_milli now) until_ms owner d.events (
      same_id_claimable d (unix_milli now) c.row keys (earliest-Memᴰ _ d.events c.row c.chosen)
        held) in
    let one : c.row.id ≡ ev.id = sym (ap (λ (x : PendingEvent). x.id) c.returned) in
    let taken_w : AllHeld until_ms ev.id w.db =
      subst (λ x. AllHeld until_ms x w.db) one
        (subst (λ (x : Db). AllHeld until_ms c.row.id x) (sym c.left) taken) in
    let kept = run_calls-Held until_ms ev.id cs w left taken_w in
    let leased =
      All-Memᴰ _ (run_calls cs w).db.events c'.row kept
        (earliest-Memᴰ _ (run_calls cs w).db.events c'.row c'.chosen)
        (ap (λ (x : PendingEvent). x.id) (sym c'.returned) ∙ same) in
    cc (
      running_not_due (unix_milli later) until_ms c'.row h leased,
      (earliest-Least _ (run_calls cs w).db.events c'.row c'.chosen).0,
    )
