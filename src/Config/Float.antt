-- ===== src/Config/Float.antt =====
-- The float64 of the rate limits: a number that is not finite, or an exact binary fraction.
use general_webhook.Base.{ℕ, ◌*◌, ◌^◌, Bool, true, false, ltb, ◌==◌}

-- `finite negative n s` is n / 2 ^ s, negated if `negative`.
pub data Float64 : Type 0 where
  nan : Float64
  infinite : (negative : Bool) → Float64
  finite : (negative : Bool) → (n s : ℕ) → Float64

-- f == 0
abbrev pub is_zero : Float64 → Bool
is_zero nan = false
is_zero (infinite _) = false
is_zero (finite _ n _) = n == 0

-- math.IsNaN(f) || math.IsInf(f, 0)
abbrev pub is_special : Float64 → Bool
is_special nan = true
is_special (infinite _) = true
is_special (finite _ _ _) = false

-- f < n / 2 ^ s, for a finite f
abbrev pub is_under : ℕ → ℕ → Float64 → Bool
is_under n s nan = false
is_under n s (infinite negative) = negative
is_under n s (finite true m t) = true
is_under n s (finite false m t) = ltb (m * 2 ^ s) (n * 2 ^ t)

-- f > n, for a finite f
abbrev pub is_over : ℕ → Float64 → Bool
is_over n nan = false
is_over n (infinite true) = false
is_over n (infinite false) = true
is_over n (finite true m t) = false
is_over n (finite false m t) = ltb (n * 2 ^ t) m

-- The whole number n.
abbrev pub whole : ℕ → Float64
whole n = finite false n 0

-- 0.5
abbrev pub half : Float64
half = finite false 1 1
