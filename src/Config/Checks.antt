-- ===== src/Config/Checks.antt =====
-- Chains of checks, of which the first that fails is the answer, and tests of signed integers.
use general_webhook.Base.{
  ℕ, ◌≤◌, ℤ, pos, negsuc, Bool, true, false, Option, none, some, List, [], ◌∷◌, ◌≡◌, refl, arith,
  ltb, ◌||◌, All,
}

-- `if b { return e }`
abbrev pub refuse : {E : Type 0} → Bool → E → Option E
refuse true e = some e
refuse false e = none

-- `if err := a; err != nil { return err }` and then the next.
unfoldable pub first_of : {E : Type 0} → List (Option E) → Option E
first_of [] = none
first_of (none ∷ checks) = first_of checks
first_of (some e ∷ checks) = some e

-- An error of a part, as an error of the whole.
abbrev pub wrapped : {D E : Type 0} → (D → E) → Option D → Option E
wrapped f none = none
wrapped f (some e) = some (f e)

module _ {E : Type 0} where
  pub refuse-none : (b : Bool) (e : E) → refuse b e ≡ none → b ≡ false
  refuse-none true e h = absurd (cc h)
  refuse-none false e h = refl

  -- A chain without an answer has passed every check.
  pub first_of-none :
      (checks : List (Option E)) → first_of checks ≡ none → All (λ c. c ≡ none) checks
  unfolding first_of
  first_of-none [] h = tt
  first_of-none (none ∷ checks) h = (refl, first_of-none checks h)
  first_of-none (some e ∷ checks) h = absurd (cc h)

pub wrapped-none : {D E : Type 0} (f : D → E) (o : Option D) → wrapped f o ≡ none → o ≡ none
wrapped-none f none h = refl
wrapped-none f (some e) h = absurd (cc h)

-- v < n
abbrev pub below : ℕ → ℤ → Bool
below n (pos v) = ltb v n
below n (negsuc v) = true

-- v > n
abbrev pub above : ℕ → ℤ → Bool
above n (pos v) = ltb n v
above n (negsuc v) = false

-- v is a number from `low` to `high`.
pub record Between (low high : ℕ) (v : ℤ) : Type 0 where
  pub value : ℕ
  pub is_value : v ≡ pos value
  pub at_least : low ≤ value
  pub at_most : value ≤ high

-- `if v < low || v > high { return e }`, passed.
pub Between-of_checks :
    (low high : ℕ) (v : ℤ) → below low v ≡ false → above high v ≡ false → Between low high v
Between-of_checks low high (pos v) h k = record {
  value = v;
  is_value = refl;
  at_least = ground (arith, h);
  at_most = ground (arith, k);
}
Between-of_checks low high (negsuc v) h k = absurd (cc h)

pub Between-of_refuse :
    {E : Type 0} (low high : ℕ) (v : ℤ) (e : E)
    → refuse (below low v || above high v) e ≡ none
    → Between low high v
Between-of_refuse low high v e h =
    let b = refuse-none _ _ h in
    Between-of_checks low high v (ground (arith, b)) (ground (arith, b))
