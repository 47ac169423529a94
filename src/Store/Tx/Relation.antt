-- ===== src/Store/Tx/Relation.antt =====
-- What an action of the store does to the database, as a relation between the database before and
-- after, with one rule for each way to build an action.
use general_webhook.Base.{
  Bool, true, false, Option, none, some, ◌≡◌, refl, if◌then◌else◌, Bool-cases, inl, inr,
}
use general_webhook.Store.Rows.{Db}
use general_webhook.Store.Tx.{
  World, Tx, Result, Error, ok, err, no_rows, fails, later, pure, raise, statement, query, settle,
  transact, absent, optional, dropped, ignoring, caught, require, or_no_rows, proceed, ◌>>=◌,
}

-- A reflexive and transitive relation between databases.
pub record Change : Type 1 where
  pub rel : Db → Db → Type 0
  pub stays : (d : Db) → rel d d
  pub chain : (a b c : Db) → rel a b → rel b c → rel a c

-- The invariant `P`, as the relation "if it held before, it holds after".
abbrev pub keeping : (Db → Type 0) → Change
keeping P = record { rel = λ a b. P a → P b; stays = λ d h. h; chain = λ a b c f g h. g (f h) }

-- Whatever statement fails, the action relates the database before it to the one after.
pub record Moves {A : Type 0} (R : Change) (m : Tx A) : Type 0 where
  pub at : (w : World) → R.rel w.db (m w).1.db

Moves-settle :
    {A : Type 0} (R : Change) (old : Db) (r : Result A) (w : World)
    → R.rel old w.db
    → R.rel old (settle old (r, w)).1.db
unfolding settle
Moves-settle R old (ok a) w h = elim (Bool-cases (fails w.faults)) [
  | inl e ↦ rw e (R.stays old)
  | inr e ↦ rw e h
]
Moves-settle R old (err e) w h = R.stays old

world-absent : {A : Type 0} (r : Result A) (w : World) → (absent (r, w)).1 ≡ w
unfolding absent
world-absent (ok a) w = refl
world-absent (err no_rows) w = refl
world-absent (err _) w = refl

module _ {A : Type 0} {R : Change} where
  pub Moves-pure : (a : A) → Moves R (pure a)
  unfolding pure
  Moves-pure a = record { at = λ w. R.stays w.db }

  pub Moves-raise : (e : Error) → Moves R (raise {A = A} e)
  unfolding raise
  Moves-raise e = record { at = λ w. R.stays w.db }

  pub Moves-statement : (f : Db → A × Db) → ((d : Db) → R.rel d (f d).1) → Moves R (statement f)
  unfolding statement
  Moves-statement f h = record {
    at = λ w. elim (Bool-cases (fails w.faults)) [
      | inl e ↦ rw e (R.stays w.db)
      | inr e ↦ rw e (h w.db)
    ];
  }

  pub Moves-query : (f : Db → A) → Moves R (query f)
  unfolding query
  Moves-query f = Moves-statement _ (λ d. R.stays d)

  pub Moves-if : (b : Bool) (m n : Tx A) → Moves R m → Moves R n → Moves R (if b then m else n)
  Moves-if true m n hm hn = hm
  Moves-if false m n hm hn = hn

  pub Moves-transact : (m : Tx A) → Moves R m → Moves R (transact m)
  unfolding transact
  Moves-transact m h = record {
    at = λ w. elim (Bool-cases (fails w.faults)) [
      | inl e ↦ rw e (R.stays w.db)
      | inr e ↦ rw e (
          let w' = record w { faults = later w.faults } in
          Moves-settle R w.db (m w').0 (m w').1 (h.at w'))
    ];
  }

  pub Moves-optional : (m : Tx A) → Moves R m → Moves R (optional m)
  unfolding optional
  Moves-optional m h = record { at = λ w. rw (world-absent (m w).0 (m w).1) (h.at w) }

  pub Moves-ignoring : (m : Tx A) → Moves R m → Moves R (ignoring m)
  unfolding ignoring dropped
  Moves-ignoring m h = record { at = λ w. h.at w }

  pub Moves-caught : (m : Tx A) → Moves R m → Moves R (caught m)
  unfolding caught
  Moves-caught m h = record { at = λ w. h.at w }

module _ {A B : Type 0} {R : Change} where
  Moves-proceed :
      (d : Db) (r : Result A) (w : World) (f : A → Tx B)
      → R.rel d w.db
      → ((a : A) → Moves R (f a))
      → R.rel d (proceed (r, w) f).1.db
  Moves-proceed d (ok a) w f h hf = R.chain _ _ _ h ((hf a).at w)
  Moves-proceed d (err e) w f h hf = h

  pub Moves-bind :
      (m : Tx A) (f : A → Tx B) → Moves R m → ((a : A) → Moves R (f a)) → Moves R (m >>= f)
  unfolding ◌>>=◌
  Moves-bind m f hm hf = record { at = λ w. Moves-proceed w.db (m w).0 (m w).1 f (hm.at w) hf }

  pub Moves-option :
      (o : Option A) (m : Tx B) (f : A → Tx B)
      → Moves R m
      → ((a : A) → Moves R (f a))
      → Moves R (elim o [ none ↦ m | some a ↦ f a ])
  Moves-option none m f hm hf = hm
  Moves-option (some a) m f hm hf = hf a

pub Moves-require : {R : Change} (b : Bool) (e : Error) → Moves R (require b e)
unfolding require
Moves-require true e = Moves-pure tt
Moves-require false e = Moves-raise e

pub Moves-or_no_rows : {A : Type 0} {R : Change} (o : Option A) → Moves R (or_no_rows o)
unfolding or_no_rows
Moves-or_no_rows none = Moves-raise no_rows
Moves-or_no_rows (some a) = Moves-pure a

pub ruleset moves_rules = (
  Moves-pure, Moves-raise, Moves-query, Moves-statement, Moves-if, Moves-transact, Moves-optional,
  Moves-ignoring, Moves-caught, Moves-bind, Moves-require, Moves-option, Moves-or_no_rows,
)
