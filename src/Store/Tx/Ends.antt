-- ===== src/Store/Tx/Ends.antt =====
-- The successful runs of an action, from a database to a database: one rule takes the first step off.
use general_webhook.Base.{Bool, true, Option, some, ◌≡◌, refl, sym, ap, ◌∙◌, subst, ◌⊎◌, inl, inr}
use general_webhook.Store.Rows.{Db}
use general_webhook.Store.Tx.{
  World, Tx, Result, Error, ok, err, pure, statement, query, transact, optional, require,
  or_no_rows, ◌>>=◌,
}
use general_webhook.Store.Tx.Inversion.{
  Leaves, Leaves-pure, Leaves-statement, Leaves-query, Leaves-or_no_rows, Leaves-require,
  Leaves-bind, Leaves-transact, Leaves-optional,
}

-- With some statements failing or none, the action returns `a` and takes `d` to `e`.
pub record Ends {A : Type 0} (m : Tx A) (d : Db) (a : A) (e : Db) : Type 0 where
  pub start : World
  pub finish : World
  pub from : start.db ≡ d
  pub to : finish.db ≡ e
  pub leaves : Leaves m start a finish

module _ {A : Type 0} where
  pub Ends-of_run : (m : Tx A) (w : World) (a : A) → (m w).0 ≡ ok a → Ends m w.db a (m w).1.db
  Ends-of_run m w a h = record {
    start = w;
    finish = (m w).1;
    from = refl;
    to = refl;
    leaves = record { runs = λ i. (h i, (m w).1) };
  }

  pub Ends-pure : (a b : A) (d e : Db) → Ends (pure a) d b e → (b ≡ a) × (e ≡ d)
  Ends-pure a b d e h =
      let l = Leaves-pure a b h.start h.finish h.leaves in
      (l.0, sym h.to ∙ ap (λ (w : World). w.db) l.1 ∙ h.from)

  pub Ends-statement :
      (f : Db → A × Db) (d : Db) (a : A) (e : Db)
      → Ends (statement f) d a e
      → (a ≡ (f d).0) × (e ≡ (f d).1)
  Ends-statement f d a e h =
      let l = Leaves-statement f h.start a h.finish h.leaves in
      (l.0 ∙ ap (λ x. (f x).0) h.from, sym h.to ∙ l.1 ∙ ap (λ x. (f x).1) h.from)

  pub Ends-transact : (m : Tx A) (d : Db) (a : A) (e : Db) → Ends (transact m) d a e → Ends m d a e
  Ends-transact m d a e h =
      let c = Leaves-transact m h.start a h.finish h.leaves in
      record { start = _; finish = c.ended; from = h.from; to = sym c.kept ∙ h.to; leaves = c.body }

  pub Ends-or_no_rows :
      (o : Option A) (d : Db) (a : A) (e : Db) → Ends (or_no_rows o) d a e → o ≡ some a
  Ends-or_no_rows o d a e h = (Leaves-or_no_rows o h.start a h.finish h.leaves).0

  pub Ends-optional :
      (m : Tx A) (d : Db) (a : A) (e : Db) → Ends (optional m) d (some a) e → Ends m d a e
  Ends-optional m d a e h = record {
    start = h.start;
    finish = h.finish;
    from = h.from;
    to = h.to;
    leaves = Leaves-optional m h.start a h.finish h.leaves;
  }

module _ {A B : Type 0} where
  pub Ends-statement_bind :
      (f : Db → A × Db) (k : A → Tx B) (d : Db) (b : B) (e : Db)
      → Ends (statement f >>= k) d b e
      → Ends (k (f d).0) (f d).1 b e
  Ends-statement_bind f k d b e h =
      let t = Leaves-bind (statement f) k h.start b h.finish h.leaves in
      let l = Leaves-statement f h.start t.value t.between t.before in
      record {
        start = t.between;
        finish = h.finish;
        from = l.1 ∙ ap (λ x. (f x).1) h.from;
        to = h.to;
        leaves =
            subst (λ a. Leaves (k a) t.between b h.finish) (l.0 ∙ ap (λ x. (f x).0) h.from) t.after;
      }

  pub Ends-query_bind :
      (f : Db → A) (k : A → Tx B) (d : Db) (b : B) (e : Db)
      → Ends (query f >>= k) d b e
      → Ends (k (f d)) d b e
  Ends-query_bind f k d b e h =
      let t = Leaves-bind (query f) k h.start b h.finish h.leaves in
      let l = Leaves-query f h.start t.value t.between t.before in
      record {
        start = t.between;
        finish = h.finish;
        from = l.1 ∙ h.from;
        to = h.to;
        leaves = subst (λ a. Leaves (k a) t.between b h.finish) (l.0 ∙ ap f h.from) t.after;
      }

  pub Ends-or_no_rows_bind :
      (o : Option A) (k : A → Tx B) (d : Db) (b : B) (e : Db)
      → Ends (or_no_rows o >>= k) d b e
      → (a : A) × (o ≡ some a) × Ends (k a) d b e
  Ends-or_no_rows_bind o k d b e h =
      let t = Leaves-bind (or_no_rows o) k h.start b h.finish h.leaves in
      let l = Leaves-or_no_rows o h.start t.value t.between t.before in
      (
        t.value,
        l.0,
        record {
          start = t.between;
          finish = h.finish;
          from = ap (λ (w : World). w.db) l.1 ∙ h.from;
          to = h.to;
          leaves = t.after;
        },
      )

module _ {B : Type 0} where
  pub Ends-require_bind :
      (c : Bool) (x : Error) (k : Unit {0} → Tx B) (d : Db) (b : B) (e : Db)
      → Ends (require c x >>= k) d b e
      → (c ≡ true) × Ends (k tt) d b e
  Ends-require_bind c x k d b e h =
      let t = Leaves-bind (require c x) k h.start b h.finish h.leaves in
      let l = Leaves-require c x h.start t.value t.between t.before in
      (
        l.0,
        record {
          start = t.between;
          finish = h.finish;
          from = ap (λ (w : World). w.db) l.1 ∙ h.from;
          to = h.to;
          leaves = t.after;
        },
      )

pub Ends-require :
    (c : Bool) (x : Error) (d : Db) (a : Unit {0}) (e : Db)
    → Ends (require c x) d a e
    → (c ≡ true) × (e ≡ d)
Ends-require c x d a e h =
    let l = Leaves-require c x h.start a h.finish h.leaves in
    (l.0, sym h.to ∙ ap (λ (w : World). w.db) l.1 ∙ h.from)

module _ {A B : Type 0} where
  -- Both parts of a step that ends.
  pub Ends-bind :
      (m : Tx A) (k : A → Tx B) (d : Db) (b : B) (e : Db)
      → Ends (m >>= k) d b e
      → (a : A) × (c : Db) × Ends m d a c × Ends (k a) c b e
  Ends-bind m k d b e h =
      let t = Leaves-bind m k h.start b h.finish h.leaves in
      (
        t.value,
        t.between.db,
        record { start = h.start; finish = t.between; from = h.from; to = refl; leaves = t.before },
        record { start = t.between; finish = h.finish; from = refl; to = h.to; leaves = t.after },
      )

-- A result is a success or an error.
pub Result-cases :
    {A : Type 0} (r : Result A) → ((a : A) × (r ≡ ok a)) ⊎ ((x : Error) × (r ≡ err x))
Result-cases (ok a) = inl (a, refl)
Result-cases (err x) = inr (x, refl)

-- An action that cannot end fails.
pub fails_of_not-Ends :
    {A : Type 0} (m : Tx A) (w : World)
    → ((a : A) (e : Db) → Ends m w.db a e → ⊥)
    → (x : Error) × ((m w).0 ≡ err x)
fails_of_not-Ends m w h = elim (Result-cases (m w).0) [
  | inl (a, e) ↦ absurd (h a (m w).1.db (Ends-of_run m w a e))
  | inr f ↦ f
]
