-- ===== src/Store/Snapshots/Order.antt =====
-- The order of texts by their bytes, as SQLite compares the ids.
use Prim.Native.Nat.{Ordering, compare as compare_ℕ}
use Prim.Native.Char.{code}
use Prim.Native.String.{String, [] as no_text, ◌∷◌ as char_then, compare, then}
use Prim.Native.String.compare
use text.Mathlib.Text.{is_lt}
use text.Mathlib.TextPositions.{compare_refl}
use general_webhook.Base.{ℕ, true, false, ◌≡◌, refl, sym, ap, ◌∙◌, arith, ◌⊎◌, inl, inr}

then_lt :
    (o r : Ordering)
    → is_lt (then o r) ≡ true
    → (o ≡ Ordering.lt) ⊎ ((o ≡ Ordering.eq) × (is_lt r ≡ true))
then_lt Ordering.lt r h = inl refl
then_lt Ordering.eq r h = inr (refl, h)
then_lt Ordering.gt r h = absurd (cc h)

lt-trans_then :
    (x y z : ℕ) (p q r : Ordering)
    → is_lt (then (compare_ℕ x y) p) ≡ true
    → is_lt (then (compare_ℕ y z) q) ≡ true
    → (is_lt p ≡ true → is_lt q ≡ true → is_lt r ≡ true)
    → is_lt (then (compare_ℕ x z) r) ≡ true
lt-trans_then x y z p q r h k rest = ground arith

pub lt_irrefl : (s : String) → is_lt (compare s s) ≡ false
lt_irrefl s = ap is_lt (compare_refl s)

pub lt_trans :
    (s t u : String)
    → is_lt (compare s t) ≡ true
    → is_lt (compare t u) ≡ true
    → is_lt (compare s u) ≡ true
lt_trans no_text no_text u h k = k
lt_trans no_text (char_then d t) no_text h k = absurd (cc (k, compare.cons-nil d t))
lt_trans no_text (char_then d t) (char_then e u) h k = ap is_lt (compare.nil-cons e u)
lt_trans (char_then c s) no_text u h k = absurd (cc (h, compare.cons-nil c s))
lt_trans (char_then c s) (char_then d t) no_text h k = absurd (cc (k, compare.cons-nil d t))
lt_trans (char_then c s) (char_then d t) (char_then e u) h k =
    ap is_lt (compare.cons-cons c e s u)
    ∙ lt-trans_then (code c) (code d) (code e) (compare s t) (compare t u) (compare s u)
        (sym (ap is_lt (compare.cons-cons c d s t)) ∙ h)
        (sym (ap is_lt (compare.cons-cons d e t u)) ∙ k) (lt_trans s t u)
