-- ===== src/Store/Tx/Total.antt =====
-- Actions that raise no error.
use general_webhook.Base.{Bool, true, false, Option, none, some, ◌≡◌, refl, if◌then◌else◌}
use general_webhook.Store.Tx.{World, Tx, Result, ok, err, pure, caught, proceed, ◌>>=◌}

-- The action raises no error.
pub record Total {A : Type 0} (m : Tx A) : Type 0 where
  pub at : (w : World) → (a : A) × ((m w).0 ≡ ok a)

module _ {A : Type 0} where
  pub Total-pure : (a : A) → Total (pure a)
  unfolding pure
  Total-pure a = record { at = λ w. (a, refl) }

  pub Total-caught : (m : Tx A) → Total (caught m)
  unfolding caught
  Total-caught m = record { at = λ w. ((m w).0, refl) }

  pub Total-if : (b : Bool) (m n : Tx A) → Total m → Total n → Total (if b then m else n)
  Total-if true m n h k = h
  Total-if false m n h k = k

module _ {A B : Type 0} where
  pub Total-option :
      (o : Option A) (m : Tx B) (f : A → Tx B)
      → Total m
      → ((a : A) → Total (f a))
      → Total (elim o [ none ↦ m | some a ↦ f a ])
  Total-option none m f h k = h
  Total-option (some a) m f h k = k a

  proceed_ok :
      (r : Result A) (u : World) (a : A) (k : A → Tx B)
      → r ≡ ok a
      → ((x : A) → Total (k x))
      → (b : B) × ((proceed (r, u) k).0 ≡ ok b)
  proceed_ok (ok x) u a k e h = (h x).at u
  proceed_ok (err x) u a k e h = absurd (cc e)

  pub Total-bind : (m : Tx A) (k : A → Tx B) → Total m → ((a : A) → Total (k a)) → Total (m >>= k)
  unfolding ◌>>=◌
  Total-bind m k h f = record { at = λ w. proceed_ok (m w).0 (m w).1 (h.at w).0 k (h.at w).1 f }
