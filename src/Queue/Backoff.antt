-- ===== src/Queue/Backoff.antt =====
-- internal/queue/queue.go: retryDelay. The jitter is a parameter: any function of the cap, which is called
-- `limit` here.
use native.Mathlib.Nat.{pow-suc}
use general_webhook.Base.{
  ℕ, zero, suc, ◌-◌, ◌*◌, ◌/◌, ◌^◌, ◌≤◌, ◌<◌, min, ◌≡◌, refl, arith, ltb, if◌then◌else◌, Bool-cases,
  inl, inr, leb, leb→le,
}

-- `for i := 1; i < attempt && cap < q.maxRetryDelay; i++`, with `left` rounds to go. The source multiplies in
-- int64. The product is computed only for a cap of at most `max_delay / 2`.
unfoldable pub doublings : ℕ → ℕ → ℕ → ℕ
doublings max_delay zero limit = limit
doublings max_delay (suc left) limit =
    let doubled = doublings max_delay left (limit * 2) in
    if ltb limit max_delay then if ltb (max_delay / 2) limit then max_delay else doubled else limit

unfoldable pub retry_cap : ℕ → ℕ → ℕ → ℕ
retry_cap base max_delay attempt =
    let limit = doublings max_delay (attempt - 1) base in
    if ltb max_delay limit then max_delay else limit

unfoldable pub retry_delay : (ℕ → ℕ) → ℕ → ℕ → ℕ → ℕ
retry_delay jitter base max_delay attempt = jitter (retry_cap base max_delay attempt)

scaled_twice : (limit left : ℕ) → limit * 2 ^ suc left ≡ limit * 2 * 2 ^ left
scaled_twice limit left = grind (arith, pow-suc 2 left)

scaled-ge : (max_delay left limit : ℕ) → max_delay ≤ limit → max_delay ≤ limit * 2 ^ left
scaled-ge max_delay zero limit h = omega arith
scaled-ge max_delay (suc left) limit h =
    let more = scaled-ge max_delay left (limit * 2) (omega arith) in
    omega (arith, pow-suc 2 left, scaled_twice limit left)

doublings-min :
    (max_delay left limit : ℕ)
    → limit ≤ max_delay
    → doublings max_delay left limit ≡ min (limit * 2 ^ left) max_delay
unfolding doublings
doublings-min max_delay zero limit h = omega arith
doublings-min max_delay (suc left) limit h =
    let scaled = scaled_twice limit left in
    let full = scaled-ge max_delay (suc left) limit in
    let over = scaled-ge max_delay left (limit * 2) in
    elim (Bool-cases (ltb limit max_delay)) [
      | inl p ↦ grind (arith, doublings-min max_delay left (limit * 2))
      | inr p ↦ grind arith
    ]

saturated : (max_delay left limit : ℕ) → max_delay < limit → doublings max_delay left limit ≡ limit
unfolding doublings
saturated max_delay zero limit h = refl
saturated max_delay (suc left) limit h = ground arith

-- The cap of the delay before a retry doubles with every attempt after the first, from the base
-- up to the largest delay, where it stays.
pub retry_cap-min :
    (base max_delay attempt : ℕ)
    → retry_cap base max_delay attempt ≡ min (base * 2 ^ (attempt - 1)) max_delay
unfolding retry_cap
retry_cap-min base max_delay attempt = elim (Bool-cases (leb base max_delay)) [
  | inl h ↦ grind (arith, doublings-min max_delay (attempt - 1) base (leb→le base max_delay h))
  | inr h ↦
      grind (arith, saturated max_delay (attempt - 1) base, scaled-ge max_delay (attempt - 1) base)
]
