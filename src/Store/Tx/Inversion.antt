-- ===== src/Store/Tx/Inversion.antt =====
-- What a step has done when it succeeds, and when a transaction fails.
use general_webhook.Base.{
  Bool, true, false, [], Option, none, some, ◌≡◌, refl, arith, Bool-cases, inl, inr,
}
use general_webhook.Store.Rows.{Db}
use general_webhook.Store.Tx.{
  World, Tx, Result, Error, ok, err, no_rows, fails, later, pure, statement, query, settle,
  transact, absent, optional, require, or_no_rows, proceed, ◌>>=◌,
}

-- No statement fails from here on.
abbrev pub calm : Db → World
calm d = record { db = d; faults = [] }

-- The action succeeds with the result `a` and leaves the database `d`.
pub record Leaves {A : Type 0} (m : Tx A) (w : World) (a : A) (v : World) : Type 0 where
  pub runs : m w ≡ (ok a, v)

module _ {A : Type 0} where
  pub Leaves-pure : (a b : A) (w v : World) → Leaves (pure a) w b v → (b ≡ a) × (v ≡ w)
  unfolding pure
  Leaves-pure a b w v h = (cc (h.runs), cc (h.runs))

  pub Leaves-statement :
      (f : Db → A × Db) (w : World) (a : A) (v : World)
      → Leaves (statement f) w a v
      → (a ≡ (f w.db).0) × (v.db ≡ (f w.db).1)
  unfolding statement
  Leaves-statement f w a v h = elim (Bool-cases (fails w.faults)) [
    | inl e ↦ absurd (ground (arith, h.runs))
    | inr e ↦ (ground (arith, h.runs), ground (arith, h.runs))
  ]

  pub Leaves-query :
      (f : Db → A) (w : World) (a : A) (v : World)
      → Leaves (query f) w a v
      → (a ≡ f w.db) × (v.db ≡ w.db)
  unfolding query
  Leaves-query f w a v h = Leaves-statement _ w a v h

  pub Leaves-or_no_rows :
      (o : Option A) (w : World) (a : A) (v : World)
      → Leaves (or_no_rows o) w a v
      → (o ≡ some a) × (v ≡ w)
  unfolding or_no_rows
  Leaves-or_no_rows none w a v h = absurd (cc (h.runs))
  Leaves-or_no_rows (some b) w a v h = (cc (h.runs), cc (h.runs))

pub Leaves-require :
    (b : Bool) (e : Error) (w : World) (a : Unit {0}) (v : World)
    → Leaves (require b e) w a v
    → (b ≡ true) × (v ≡ w)
unfolding require
Leaves-require true e w a v h = (refl, cc (h.runs))
Leaves-require false e w a v h = absurd (cc (h.runs))

module _ {A B : Type 0} where
  -- The parts of a step that succeeds.
  pub record Binds (m : Tx A) (f : A → Tx B) (w : World) (b : B) (v : World) : Type 0 where
    pub value : A
    pub between : World
    pub before : Leaves m w value between
    pub after : Leaves (f value) between b v

  Binds-proceed :
      (m : Tx A) (f : A → Tx B) (w : World) (b : B) (v : World) (r : Result A) (u : World)
      → m w ≡ (r, u)
      → proceed (r, u) f ≡ (ok b, v)
      → Binds m f w b v
  Binds-proceed m f w b v (ok a) u e h = record {
    value = a;
    between = u;
    before = record { runs = e };
    after = record { runs = h };
  }
  Binds-proceed m f w b v (err x) u e h = absurd (cc h)

  pub Leaves-bind :
      (m : Tx A) (f : A → Tx B) (w : World) (b : B) (v : World)
      → Leaves (m >>= f) w b v
      → Binds m f w b v
  unfolding ◌>>=◌
  Leaves-bind m f w b v h = Binds-proceed m f w b v (m w).0 (m w).1 refl h.runs

module _ {A : Type 0} where
  -- A transaction that succeeds has committed what its body left.
  pub record Commits (m : Tx A) (w : World) (a : A) (v : World) : Type 0 where
    pub ended : World
    pub body : Leaves m (record w { faults = later w.faults }) a ended
    pub kept : v.db ≡ ended.db

  Commits-settle :
      (m : Tx A) (w : World) (a : A) (v : World) (r : Result A) (u : World)
      → m (record w { faults = later w.faults }) ≡ (r, u)
      → settle w.db (r, u) ≡ (ok a, v)
      → Commits m w a v
  unfolding settle
  Commits-settle m w a v (ok b) u e h = elim (Bool-cases (fails u.faults)) [
    | inl f ↦ absurd (ground (arith, h, f))
    | inr f ↦ record {
      ended = u;
      body = record { runs = ground (arith, h, e, f) };
      kept = ground (arith, h, f);
    }
  ]
  Commits-settle m w a v (err x) u e h = absurd (cc h)

  pub Leaves-transact :
      (m : Tx A) (w : World) (a : A) (v : World) → Leaves (transact m) w a v → Commits m w a v
  unfolding transact
  Leaves-transact m w a v h = elim (Bool-cases (fails w.faults)) [
    | inl f ↦ absurd (cc (rw f at h.runs))
    | inr f ↦
        let started : World = record w { faults = later w.faults } in
        Commits-settle m w a v (m started).0 (m started).1 refl (rw f at h.runs)
  ]

  settle_err :
      (old : Db) (r : Result A) (u : World) (e : Error)
      → (settle old (r, u)).0 ≡ err e
      → (settle old (r, u)).1.db ≡ old
  unfolding settle
  settle_err old (ok a) u e h = ground arith
  settle_err old (err x) u e h = refl

  -- A transaction that fails, in its body or at its commit, has changed nothing.
  pub transact_err :
      (m : Tx A) (w : World) (e : Error) → (transact m w).0 ≡ err e → (transact m w).1.db ≡ w.db
  unfolding transact
  transact_err m w e h = elim (Bool-cases (fails w.faults)) [
    | inl f ↦ rw f
    | inr f ↦
        let started : World = record w { faults = later w.faults } in
        rw f (settle_err w.db (m started).0 (m started).1 e (rw f at h))
  ]

  Leaves-absent :
      (m : Tx A) (w : World) (a : A) (v : World) (r : Result A) (u : World)
      → m w ≡ (r, u)
      → absent (r, u) ≡ (ok (some a), v)
      → Leaves m w a v
  unfolding absent
  Leaves-absent m w a v (ok b) u e h = record { runs = ground (arith, e, h) }
  Leaves-absent m w a v (err no_rows) u e h = absurd (cc h)
  Leaves-absent m w a v (err _) u e h = absurd (cc h)

  pub Leaves-optional :
      (m : Tx A) (w : World) (a : A) (v : World) → Leaves (optional m) w (some a) v → Leaves m w a v
  unfolding optional
  Leaves-optional m w a v h = Leaves-absent m w a v (m w).0 (m w).1 refl h.runs
