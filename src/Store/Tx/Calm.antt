-- ===== src/Store/Tx/Calm.antt =====
-- Runs in which no statement fails: they stay so, and what they then leave.
use general_webhook.Base.{Bool, true, false, [], Option, none, some, ◌≡◌, refl, sym, subst}
use general_webhook.Store.Rows.{Db}
use general_webhook.Store.Tx.{
  World, Tx, Result, Error, ok, err, no_rows, pure, raise, statement, query, settle, transact,
  absent, optional, dropped, ignoring, caught, require, or_no_rows, proceed, ◌>>=◌,
}
use general_webhook.Store.Tx.Inversion.{calm}

-- From a database on which no statement fails, the run comes to one.
pub record Calm {A : Type 0} (m : Tx A) : Type 0 where
  pub at : (d : Db) → (m (calm d)).1.faults ≡ []

calm_world : (w : World) → w.faults ≡ [] → calm w.db ≡ w
calm_world w h = λ i. record { db = w.db; faults = sym h i }

settle-Calm :
    {A : Type 0} (old : Db) (r : Result A) (w : World)
    → w.faults ≡ []
    → (settle old (r, w)).1.faults ≡ []
unfolding settle
settle-Calm old (ok a) w h = rw h refl
settle-Calm old (err e) w h = h

absent-Calm :
    {A : Type 0} (r : Result A) (w : World) → w.faults ≡ [] → (absent (r, w)).1.faults ≡ []
unfolding absent
absent-Calm (ok a) w h = h
absent-Calm (err no_rows) w h = h
absent-Calm (err _) w h = h

module _ {A : Type 0} where
  pub Calm-pure : (a : A) → Calm (pure a)
  unfolding pure
  Calm-pure a = record { at = λ d. refl }

  pub Calm-statement : (f : Db → A × Db) → Calm (statement f)
  unfolding statement
  Calm-statement f = record { at = λ d. refl }

  pub Calm-query : (f : Db → A) → Calm (query f)
  unfolding query
  Calm-query f = record { at = λ d. refl }

  pub Calm-transact : (m : Tx A) → Calm m → Calm (transact m)
  unfolding transact
  Calm-transact m h = record { at = λ d. settle-Calm d _ _ (h.at d) }

  pub Calm-optional : (m : Tx A) → Calm m → Calm (optional m)
  unfolding optional
  Calm-optional m h = record { at = λ d. absent-Calm _ _ (h.at d) }

  pub Calm-or_no_rows : (o : Option A) → Calm (or_no_rows o)
  unfolding or_no_rows raise
  Calm-or_no_rows none = record { at = λ d. refl }
  Calm-or_no_rows (some a) = record { at = λ d. refl }

pub Calm-require : (b : Bool) (e : Error) → Calm (require b e)
unfolding require raise
Calm-require true e = record { at = λ d. refl }
Calm-require false e = record { at = λ d. refl }

module _ {A B : Type 0} where
  proceed-Calm :
      (r : Result A) (w : World) (f : A → Tx B)
      → w.faults ≡ []
      → ((a : A) → Calm (f a))
      → (proceed (r, w) f).1.faults ≡ []
  proceed-Calm (ok a) w f h k =
      subst (λ (v : World). (f a v).1.faults ≡ []) (calm_world w h) ((k a).at w.db)
  proceed-Calm (err e) w f h k = h

  pub Calm-bind : (m : Tx A) (f : A → Tx B) → Calm m → ((a : A) → Calm (f a)) → Calm (m >>= f)
  unfolding ◌>>=◌
  Calm-bind m f h k = record { at = λ d. proceed-Calm (m (calm d)).0 (m (calm d)).1 f (h.at d) k }

-- A transaction on which no statement fails leaves the database of its body, or the one before it if
-- its body fails.
settle_cases :
    {A : Type 0} (P : Db → Type 0) (d : Db) (r : Result A) (w : World)
    → w.faults ≡ []
    → ((x : Error) → r ≡ err x → P d)
    → ((a : A) → r ≡ ok a → P w.db)
    → P (settle d (r, w)).1.db
unfolding settle
settle_cases P d (ok a) w h failed ended = rw h (ended a refl)
settle_cases P d (err x) w h failed ended = failed x refl

pub transact_cases :
    {A : Type 0} (P : Db → Type 0) (m : Tx A) (d : Db)
    → Calm m
    → ((x : Error) → (m (calm d)).0 ≡ err x → P d)
    → ((a : A) → (m (calm d)).0 ≡ ok a → P (m (calm d)).1.db)
    → P (transact m (calm d)).1.db
unfolding transact
transact_cases P m d h = settle_cases P d (m (calm d)).0 (m (calm d)).1 (h.at d)

pub require_world : (b : Bool) (e : Error) (w : World) → (require b e w).1 ≡ w
unfolding require raise
require_world true e w = refl
require_world false e w = refl

pub require_err : (b : Bool) (e x : Error) (w : World) → (require b e w).0 ≡ err x → b ≡ false
unfolding require
require_err true e x w h = absurd (cc h)
require_err false e x w h = refl

pub ruleset calm_rules = (
  Calm-pure, Calm-statement, Calm-query, Calm-transact, Calm-optional, Calm-or_no_rows,
  Calm-require, Calm-bind,
)

-- From the database `d`, the run does not fail, and its result and database satisfy `Q`.
pub record Reaches {A : Type 0} (m : Tx A) (d : Db) (Q : A → Db → Type 0) : Type 0 where
  pub value : A
  pub end : Db
  pub runs : m (calm d) ≡ (ok value, calm end)
  pub holds : Q value end

module _ {A : Type 0} where
  pub Reaches-pure : (a : A) (d : Db) (Q : A → Db → Type 0) → Q a d → Reaches (pure a) d Q
  unfolding pure
  Reaches-pure a d Q h = record { value = a; end = d; runs = refl; holds = h }

  -- A call whose error is looked at: it either succeeds or fails, and statements still succeed.
  pub Reaches-caught :
      (m : Tx A) (d : Db) (Q : Result A → Db → Type 0)
      → Calm m
      → Q (m (calm d)).0 (m (calm d)).1.db
      → Reaches (caught m) d Q
  unfolding caught
  Reaches-caught m d Q h q = record {
    value = (m (calm d)).0;
    end = (m (calm d)).1.db;
    runs = λ i. (ok (m (calm d)).0, sym (calm_world (m (calm d)).1 (h.at d)) i);
    holds = q;
  }

  pub Reaches-ignoring :
      (m : Tx A) (d : Db) (Q : Unit {0} → Db → Type 0)
      → Calm m
      → Q tt (m (calm d)).1.db
      → Reaches (ignoring m) d Q
  unfolding ignoring dropped
  Reaches-ignoring m d Q h q = record {
    value = tt;
    end = (m (calm d)).1.db;
    runs = λ i. (ok tt, sym (calm_world (m (calm d)).1 (h.at d)) i);
    holds = q;
  }

module _ {A B : Type 0} where
  -- A step, and the rest from wherever it comes to.
  pub Reaches-bind :
      (m : Tx A) (k : A → Tx B) (d : Db) (P : A → Db → Type 0) (Q : B → Db → Type 0)
      → Reaches m d P
      → ((a : A) (e : Db) → P a e → Reaches (k a) e Q)
      → Reaches (m >>= k) d Q
  unfolding ◌>>=◌
  Reaches-bind m k d P Q h rest =
      let r = rest h.value h.end h.holds in
      record { value = r.value; end = r.end; runs = rw h.runs r.runs; holds = r.holds }
