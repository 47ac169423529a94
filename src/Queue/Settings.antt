-- ===== src/Queue/Settings.antt =====
-- internal/queue/queue.go: New, computeLease and actionTimeout. Durations are in nanoseconds.
use general_webhook.Base.{
  ℕ, ◌+◌, ◌≤◌, ℤ, pos, negsuc, String, Option, none, some, List, [], ◌∷◌, arith, str_eq, ltb, ◌==◌,
  if◌then◌else◌, All,
}
use general_webhook.Config.{ActionConfig, Source, QueueConfig, Config}

abbrev pub second : ℕ
second = 1_000_000_000

abbrev pub default_http_action_timeout : ℕ
default_http_action_timeout = 15_000_000_000

abbrev pub default_exec_timeout : ℕ
default_exec_timeout = 60_000_000_000

abbrev pub lease_safety_margin : ℕ
lease_safety_margin = 120_000_000_000

abbrev pub five_minutes : ℕ
five_minutes = 300_000_000_000

abbrev pub fifteen_minutes : ℕ
fifteen_minutes = 900_000_000_000

abbrev pub one_day : ℕ
one_day = 86_400_000_000_000

-- `if v <= 0 { v = d }`
abbrev pub positive_or : ℕ → ℤ → ℕ
positive_or d (pos n) = if n == 0 then d else n
positive_or d (negsuc n) = d

-- `if v < low { v = d }`, for a `low` that is not negative.
abbrev pub at_least_or : ℕ → ℕ → ℤ → ℕ
at_least_or low d (pos n) = if ltb n low then d else n
at_least_or low d (negsuc n) = d

-- `if v < 0 { v = 0 }`
abbrev pub not_negative : ℤ → ℕ
not_negative (pos n) = n
not_negative (negsuc n) = 0

unfoldable pub action_timeout : ActionConfig → ℕ
action_timeout ac =
    if str_eq ac.type "exec"
    then positive_or default_exec_timeout ac.timeout
    else default_http_action_timeout

-- The time of one pass over the actions.
unfoldable pub pass_time : List ActionConfig → ℕ
pass_time [] = 0
pass_time (ac ∷ acs) = action_timeout ac + pass_time acs

unfoldable pub longest_pass : ℕ → List Source → ℕ
longest_pass longest [] = longest
longest_pass longest (src ∷ sources) =
    longest_pass (if ltb longest (pass_time src.actions) then pass_time src.actions else longest)
      sources

abbrev pub sources_of : Option Config → List Source
sources_of none = []
sources_of (some c) = c.sources

-- The attempts argument of the source is not used.
unfoldable pub compute_lease : Option Config → ℕ
compute_lease cfg =
    let lease = longest_pass default_http_action_timeout (sources_of cfg) + lease_safety_margin in
    if ltb lease five_minutes then five_minutes else lease

-- The settings of a Queue; the channel, the wait group and the counters are not part of it.
pub record Queue : Type 0 where
  pub buffer : ℕ
  pub workers : ℕ
  pub max_retries : ℕ
  pub retry_base : ℕ
  pub max_retry_delay : ℕ
  pub max_retry_age : ℕ
  pub lease : ℕ
  pub owner : String

unfoldable pub new_queue : QueueConfig → Option Config → String → Queue
new_queue cfg sources owner =
    let retry_base = positive_or second cfg.retry_base in
    record {
      buffer = positive_or 1 cfg.buffer;
      workers = positive_or 1 cfg.workers;
      max_retries = not_negative cfg.max_retries;
      retry_base = retry_base;
      max_retry_delay = at_least_or retry_base fifteen_minutes cfg.max_retry_delay;
      max_retry_age = at_least_or retry_base one_day cfg.max_retry_age;
      lease = compute_lease sources;
      owner = if str_eq owner "" then "local" else owner;
    }

longest_pass-ge : (longest : ℕ) (sources : List Source) → longest ≤ longest_pass longest sources
unfolding longest_pass
longest_pass-ge longest [] = omega arith
longest_pass-ge longest (src ∷ sources) = ground (
  arith,
  longest_pass-ge (if ltb longest (pass_time src.actions) then pass_time src.actions else longest)
      sources,
)

longest_pass-covers :
    (longest : ℕ) (sources : List Source)
    → All (λ src. pass_time src.actions ≤ longest_pass longest sources) sources
unfolding longest_pass
longest_pass-covers longest [] = tt
longest_pass-covers longest (src ∷ sources) =
    let longer = if ltb longest (pass_time src.actions) then pass_time src.actions else longest in
    (ground (arith, longest_pass-ge longer sources), longest_pass-covers longer sources)

All-mono :
    (n m : ℕ) (sources : List Source)
    → n + lease_safety_margin ≤ m
    → All (λ src. pass_time src.actions ≤ n) sources
    → All (λ src. pass_time src.actions + lease_safety_margin ≤ m) sources
All-mono n m [] h a = tt
All-mono n m (src ∷ sources) h a = (omega arith, All-mono n m sources h a.1)

-- A lease is at least five minutes, and covers one pass over the actions of every configured
-- source, each action at its timeout, with two minutes to spare.
pub compute_lease-covers :
    (cfg : Option Config)
    → (five_minutes ≤ compute_lease cfg)
      × All
          (λ src. pass_time src.actions + lease_safety_margin ≤ compute_lease cfg)
          (sources_of cfg)
unfolding compute_lease
compute_lease-covers cfg = (
  ground arith,
  All-mono (longest_pass default_http_action_timeout (sources_of cfg)) _ (sources_of cfg)
      (ground arith) (longest_pass-covers default_http_action_timeout (sources_of cfg)),
)
