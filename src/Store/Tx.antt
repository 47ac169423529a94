-- ===== src/Store/Tx.antt =====
-- Statements and transactions of database/sql, as the store uses them. SQLite is not modelled: any
-- statement, BEGIN or COMMIT may fail with a driver error, as the list `faults` decides in turn, and
-- a statement that fails has changed nothing. A transaction that returns an error, or fails to
-- commit, is rolled back.
pub mod Relation
pub mod Inversion
pub mod Ends
pub mod Calm
pub mod Total
use general_webhook.Base.{ℕ, Bool, true, false, List, [], ◌∷◌, Option, none, some, if◌then◌else◌}
use general_webhook.Store.Rows.{Db, EventRow, ActionRow}
use general_webhook.Base.{count_where, update_where}

-- The errors of the store: the driver's, sql.ErrNoRows, the package's, and one for each message.
pub data Error : Type 0 where
  driver no_rows : Error
  duplicate_event duplicate_body replay_unavailable event_not_retryable : Error
  not_requeueable not_processing not_running not_startable no_action_state not_found : Error

pub data Result (A : Type 0) : Type 0 where
  ok : A → Result A
  err : Error → Result A

-- The database, and which of the coming statements fail; past its end none does.
pub record World : Type 0 where
  pub db : Db
  pub faults : List Bool

abbrev pub fails : List Bool → Bool
fails [] = false
fails (b ∷ bs) = b

abbrev pub later : List Bool → List Bool
later [] = []
later (b ∷ bs) = bs

abbrev pub Tx : Type 0 → Type 0
Tx A = World → Result A × World

module _ {A : Type 0} where
  unfoldable pub pure : A → Tx A
  pure a w = (ok a, w)

  unfoldable pub raise : Error → Tx A
  raise e w = (err e, w)

  -- One statement: its result and the database after it.
  unfoldable pub statement : (Db → A × Db) → Tx A
  statement f w =
      if fails w.faults
      then (err driver, record w { faults = later w.faults })
      else (ok (f w.db).0, record { db = (f w.db).1; faults = later w.faults })

  -- A statement that only reads.
  unfoldable pub query : (Db → A) → Tx A
  unfolding statement
  query f = statement (λ d. (f d, d))

  -- COMMIT, or ROLLBACK to the database at BEGIN.
  settle : Db → Result A × World → Result A × World
  settle old (ok a, w) =
      if fails w.faults
      then (err driver, record { db = old; faults = later w.faults })
      else (ok a, record w { faults = later w.faults })
  settle old (err e, w) = (err e, record w { db = old })

  unfoldable pub transact : Tx A → Tx A
  unfolding settle
  transact body w =
      if fails w.faults
      then (err driver, record w { faults = later w.faults })
      else settle w.db (body (record w { faults = later w.faults }))

  -- `if err == sql.ErrNoRows { return nil, nil }`.
  absent : Result A × World → Result (Option A) × World
  absent (ok a, w) = (ok (some a), w)
  absent (err no_rows, w) = (ok none, w)
  absent (err e, w) = (err e, w)

  unfoldable pub optional : Tx A → Tx (Option A)
  unfolding absent
  optional m w = absent (m w)

  -- `_ = f()`: the error is dropped.
  dropped : Result A × World → Result Unit × World
  dropped (_, w) = (ok tt, w)

  unfoldable pub ignoring : Tx A → Tx Unit
  unfolding dropped
  ignoring m w = dropped (m w)

  -- `a, err := f()`, for the caller to look at.
  unfoldable pub caught : Tx A → Tx (Result A)
  caught m w = (ok (m w).0, (m w).1)

module _ {A B : Type 0} where
  abbrev pub proceed : Result A × World → (A → Tx B) → Result B × World
  proceed (ok a, w) f = f a w
  proceed (err e, w) f = (err e, w)

  infixl 5 ◌>>=◌ ◌>>◌
  unfoldable pub ◌>>=◌ : Tx A → (A → Tx B) → Tx B
  unfolding pure raise statement query
  ◌>>=◌ m f w = proceed (m w) f

  abbrev pub ◌>>◌ : Tx A → Tx B → Tx B
  m >> n = m >>= λ _. n

-- `Scan` of an empty result is sql.ErrNoRows.
unfoldable pub or_no_rows : {A : Type 0} → Option A → Tx A
unfolding pure raise
or_no_rows none = raise no_rows
or_no_rows (some a) = pure a

-- A step that fails the transaction if its answer is not wanted.
unfoldable pub require : Bool → Error → Tx Unit
unfolding pure raise
require true e = pure tt
require false e = raise e

-- UPDATE events SET f WHERE p, with RowsAffected.
unfoldable pub update_events : (EventRow → Bool) → (EventRow → EventRow) → Db → ℕ × Db
update_events p f d = (count_where p d.events, record d { events = update_where p f d.events })

-- UPDATE event_actions SET f WHERE p, with RowsAffected.
unfoldable pub update_actions : (ActionRow → Bool) → (ActionRow → ActionRow) → Db → ℕ × Db
update_actions p f d = (count_where p d.actions, record d { actions = update_where p f d.actions })
