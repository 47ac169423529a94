-- ===== src/Server/Limiter.antt =====
-- internal/server/protect.go: rateLimiter. The mutex makes `allow` one step. The tokens are floating
-- point, whose arithmetic is the functions of `Arithmetic`; times are in nanoseconds, and the order
-- of the entries of the map, over which evictOne runs, is the order of a list.
pub mod Bounded
use general_webhook.Base.{
  ℕ, ◌+◌, ◌-◌, ℤ, pos, negsuc, String, Bool, true, false, not, Option, none, some, List, [], ◌∷◌,
  ◌++◌, ltb, leb, ◌==◌, str_eq, if◌then◌else◌, length, delete_where, update_where, first_where,
}

-- `refilled tokens elapsed refill capacity` is the smaller of the capacity and the tokens with those
-- that have come in, `elapsed` in nanoseconds.
pub record Arithmetic (F : Type 0) : Type 0 where
  pub of_int : ℕ → F
  pub sixtieth : F → F
  pub is_positive : F → Bool
  pub minus_one : F → F
  pub below_one : F → Bool
  pub refilled : F → ℕ → F → F → F

pub record Bucket (F : Type 0) : Type 0 where
  pub key : String
  pub tokens : F
  pub last : ℕ

pub record RateLimiter (F : Type 0) : Type 0 where
  pub capacity : F
  pub refill : F
  pub buckets : List (Bucket F)
  pub max_keys : ℕ

-- `if capacity <= 0 { capacity = 30 }`
abbrev capacity_or : ℤ → ℕ
capacity_or (pos n) = if n == 0 then 30 else n
capacity_or (negsuc n) = 30

abbrev pub bucket_idle_ttl : ℕ
bucket_idle_ttl = 1_800_000_000_000

module _ {F : Type 0} where
  unfoldable pub new_rate_limiter : Arithmetic F → ℤ → F → RateLimiter F
  new_rate_limiter num capacity refill =
      let full = num.of_int (capacity_or capacity) in
      record {
        capacity = full;
        refill = if num.is_positive refill then refill else num.sixtieth full;
        buckets = [];
        max_keys = 4096;
      }

  unfoldable pub purge : ℕ → List (Bucket F) → List (Bucket F)
  purge now = delete_where (λ b. ltb (b.last + bucket_idle_ttl) now)

  -- The first of the buckets used longest ago, `b` being the best so far.
  unfoldable pub oldest_from : Bucket F → List (Bucket F) → Bucket F
  oldest_from b [] = b
  oldest_from b (c ∷ bs) = oldest_from (if ltb c.last b.last then c else b) bs

  unfoldable pub evict_one : List (Bucket F) → List (Bucket F)
  unfolding oldest_from
  evict_one [] = []
  evict_one (b ∷ bs) =
      let oldest = oldest_from b bs in
      if str_eq oldest.key "" then b ∷ bs else delete_where (λ c. str_eq c.key oldest.key) (b ∷ bs)

  abbrev pub has_key : String → Bucket F → Bool
  has_key key b = str_eq b.key key

  -- The bucket of a request at `now`, before a token is taken.
  unfoldable pub topped_up : Arithmetic F → RateLimiter F → ℕ → Bucket F → Bucket F
  topped_up num r now b =
      if ltb b.last now
      then record b {
        tokens = num.refilled b.tokens (now - b.last) r.refill r.capacity;
        last = now;
      }
      else b

  unfoldable pub take_token : Arithmetic F → Bucket F → Bool × Bucket F
  take_token num b =
      if num.below_one b.tokens
      then (false, b)
      else (true, record b { tokens = num.minus_one b.tokens })

  unfoldable pub with_room : RateLimiter F → List (Bucket F) → List (Bucket F)
  unfolding evict_one
  with_room r buckets = if leb r.max_keys (length buckets) then evict_one buckets else buckets

  unfoldable pub allow : Arithmetic F → String → ℕ → RateLimiter F → Bool × RateLimiter F
  unfolding purge with_room topped_up take_token
  allow num key now r =
      let kept = purge now r.buckets in
      elim (first_where (has_key key) kept) [
        | none ↦
            let fresh : Bucket F = record {
              key = key;
              tokens = num.minus_one r.capacity;
              last = now;
            } in
            (true, record r { buckets = with_room r kept ++ fresh ∷ [] })
        | some b ↦
            let taken = take_token num (topped_up num r now b) in
            (taken.0, record r { buckets = update_where (has_key key) (λ _. taken.1) kept })
      ]

  unfoldable pub len_buckets : RateLimiter F → ℕ
  len_buckets r = length r.buckets
