-- ===== src/Store/Claim/Earliest.antt =====
-- The row that a claim takes, and what a claim that succeeds has done.
use general_webhook.Base.{
  ℕ, ℤ, ◌+◌, ◌≤◌, String, Bool, true, Option, none, some, List, [], ◌∷◌, ◌≡◌, refl, subst, arith,
  All, All-map, Bool-cases, Option-cases, inl, inr, ◌&&◌, leb, leb→le, Memᴰ,
}
use mathlib.Core.Option.{some-injective}
use general_webhook.Store.Rows.{EventRow, Db, has_id}
use general_webhook.Store.Tx.{update_events, update_actions}
use general_webhook.Store.Tx.Ends.{
  Ends, Ends-pure, Ends-statement_bind, Ends-query_bind, Ends-or_no_rows_bind, Ends-require_bind,
  Ends-transact, Ends-optional,
}
use general_webhook.Store.Claim.{
  claimable, due_ms, sooner, earliest, PendingEvent, scan_pending, take_lease, unstart, running_of,
  unix_milli, lease_or_default, claim_pending,
}

abbrev Least : (EventRow → Bool) → EventRow → List EventRow → Type 0
Least p r rows = All (λ s. p s ≡ true → due_ms r ≤ due_ms s) rows

Least-lower :
    (p : EventRow → Bool) (r s : EventRow) (rows : List EventRow)
    → due_ms r ≤ due_ms s
    → Least p s rows
    → Least p r rows
Least-lower p r s rows h =
    All-map _ _ (λ t k e. let k' : due_ms s ≤ due_ms t = k e in omega arith) rows

Least-none :
    (p : EventRow → Bool) (r : EventRow) (rows : List EventRow)
    → earliest p rows ≡ none
    → Least p r rows
unfolding earliest
Least-none p r [] h = tt
Least-none p r (s ∷ rows) h = elim (Bool-cases (p s)) [
  | inl e ↦ absurd (cc (rw e at h))
  | inr e ↦ ((λ k. absurd (cc)), Least-none p r rows (rw e at h))
]

Least-self :
    (p : EventRow → Bool) (s : EventRow) (rows : List EventRow)
    → Least p s rows
    → Least p s (s ∷ rows)
Least-self p s rows h = ((λ k. omega arith), h)

-- The row passes and is the least of the rows.
abbrev IsChoice : (EventRow → Bool) → List EventRow → EventRow → Type 0
IsChoice p rows r = (p r ≡ true) × Least p r rows

-- The choice between a row that passes and the choice of the rest.
IsChoice-sooner :
    (p : EventRow → Bool) (s t : EventRow) (rows : List EventRow)
    → p s ≡ true
    → IsChoice p rows t
    → IsChoice p (s ∷ rows) (sooner s (some t))
IsChoice-sooner p s t rows ps h = elim (Bool-cases (leb (due_ms s) (due_ms t))) [
  | inl e ↦
      let q : s ≡ sooner s (some t) = rw e in
      subst (IsChoice p (s ∷ rows)) q
        (ps, Least-self p s rows (Least-lower p s t rows (leb→le _ _ e) h.1))
  | inr e ↦
      let q : t ≡ sooner s (some t) = rw e in
      subst (IsChoice p (s ∷ rows)) q (h.0, ((λ k. ground (arith, e)), h.1))
]

module _ (p : EventRow → Bool) (s : EventRow) (rows : List EventRow) (ps : p s ≡ true) where
  IsChoice-first :
      (rest : Option EventRow) (r : EventRow)
      → earliest p rows ≡ rest
      → ((t : EventRow) → earliest p rows ≡ some t → IsChoice p rows t)
      → sooner s rest ≡ r
      → IsChoice p (s ∷ rows) r
  IsChoice-first none r k ih g =
      subst (IsChoice p (s ∷ rows)) g (ps, Least-self p s rows (Least-none p s rows k))
  IsChoice-first (some t) r k ih g =
      subst (IsChoice p (s ∷ rows)) g (IsChoice-sooner p s t rows ps (ih t k))

-- The row passes the test, and no other row that does is due before it.
pub earliest-Least :
    (p : EventRow → Bool) (rows : List EventRow) (r : EventRow)
    → earliest p rows ≡ some r
    → (p r ≡ true) × Least p r rows
unfolding earliest
earliest-Least p [] r h = absurd (cc)
earliest-Least p (s ∷ rows) r h = elim (Bool-cases (p s)) [
  | inl e ↦
      IsChoice-first p s rows e (earliest p rows) r refl (earliest-Least p rows)
        (some-injective _ _ (rw e at h))
  | inr e ↦ let ih = earliest-Least p rows r (rw e at h) in (ih.0, ((λ k. absurd (cc)), ih.1))
]

pub earliest-Memᴰ :
    (p : EventRow → Bool) (rows : List EventRow) (r : EventRow)
    → earliest p rows ≡ some r
    → Memᴰ r rows
unfolding earliest
earliest-Memᴰ p [] r h = absurd (cc)
earliest-Memᴰ p (s ∷ rows) r h = elim (Bool-cases (p s)) [
  | inl e ↦ elim (Option-cases (earliest p rows)) [
    | inl k ↦ Memᴰ.head (ground (arith, h, e, k))
    | inr (t, k) ↦ elim (Bool-cases (leb (due_ms s) (due_ms t))) [
      | inl f ↦ Memᴰ.head (ground (arith, h, e, k, f))
      | inr f ↦ Memᴰ.tail (earliest-Memᴰ p rows r (ground (arith, h, e, k, f)))
    ]
  ]
  | inr e ↦ Memᴰ.tail (earliest-Memᴰ p rows r (rw e at h))
]

-- What a claim that returns an event has done.
pub record Claims (lease : ℤ) (now : ℕ) (owner : String) (d : Db) (ev : PendingEvent) (after : Db)
    : Type 0 where
  pub row : EventRow
  pub chosen : earliest (claimable (unix_milli now)) d.events ≡ some row
  pub returned : ev ≡ scan_pending row
  pub left :
      after
      ≡ (update_actions
          (running_of row.id)
          unstart
          (update_events
            (λ s. has_id row.id s && claimable (unix_milli now) s)
            (take_lease (unix_milli (now + lease_or_default lease)) owner)
            d).1).1

pub claim_pending-Claims :
    (lease : ℤ) (now : ℕ) (owner : String) (d : Db) (ev : PendingEvent) (after : Db)
    → Ends (claim_pending lease now owner) d (some ev) after
    → Claims lease now owner d ev after
unfolding claim_pending
claim_pending-Claims lease now owner d ev after h =
    let q =
      Ends-query_bind _ _ d ev after (Ends-transact _ d ev after (Ends-optional _ d ev after h)) in
    let (row, found, r) = Ends-or_no_rows_bind _ _ d ev after q in
    let g = Ends-require_bind _ _ _ _ ev after (Ends-statement_bind _ _ d ev after r) in
    let e = Ends-pure _ ev _ after (Ends-statement_bind _ _ _ ev after g.1) in
    record { row = row; chosen = found; returned = e.0; left = e.1 }
