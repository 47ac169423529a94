-- ===== src/Config/Valid.antt =====
-- What a loaded configuration promises: the bounds that the rest of the program relies on.
pub mod Sources
pub mod Heartbeat
use Prim.Native.String.{len}
use general_webhook.Base.{
  ℕ, ◌≤◌, ◌-◌, String, Bool, true, false, ◌||◌, Option, none, some, List, [], ◌∷◌, ◌≡◌, refl, sym,
  subst, ◌⊎◌, inl, inr, arith, ltb, str_eq, length, Bool-cases, All, Distinct, pos_part,
}
use general_webhook.Config.{
  QueueConfig, ServerConfig, AdminConfig, RateLimitConfig, RateLimitsConfig, Source, Config,
}
use general_webhook.Config.Library.{Library}
use general_webhook.Config.Checks.{
  Between, Between-of_refuse, refuse, refuse-none, first_of, first_of-none, wrapped-none, below,
  above,
}
use general_webhook.Config.Float.{is_special, is_under, is_over}
use general_webhook.Config.Valid.Heartbeat.{HeartbeatValid, validate_heartbeat-Valid}
use general_webhook.Config.Validate.{
  ConfigError, check_config, check_queue, check_limits, check_admin, check_rate, check_rates,
  check_proxies, validated,
}
use general_webhook.Config.Valid.Sources.{SourceValid, check_sources-Valid, same_name}
use general_webhook.Config.Load.{Loaded, loaded, load, finish_load, expanded, decoded, checked}
use general_webhook.Config.Defaults.{apply_defaults}

pub record QueueValid (c : QueueConfig) : Type 0 where
  pub workers : Between 1 64 c.workers
  pub buffer : Between 1 10_000 c.buffer
  pub max_retries : Between 0 20 c.max_retries
  pub retry_base : Between 100_000_000 3_600_000_000_000 c.retry_base
  pub max_retry_delay : Between (pos_part c.retry_base) 604_800_000_000_000 c.max_retry_delay
  pub max_retry_age : Between (pos_part c.retry_base) 2_592_000_000_000_000 c.max_retry_age

pub record LimitsValid (c : ServerConfig) : Type 0 where
  pub max_in_flight : Between 1 256 c.max_in_flight
  pub max_in_flight_bytes : Between 1_048_576 268_435_456 c.max_in_flight_bytes

pub record RateValid (c : RateLimitConfig) : Type 0 where
  pub burst : Between 1 100_000 c.burst
  pub is_number : is_special c.per_second ≡ false
  pub at_least : is_under 5_764_607_523_034_235 59 c.per_second ≡ false
  pub at_most : is_over 100_000 c.per_second ≡ false

pub record RatesValid (c : RateLimitsConfig) : Type 0 where
  pub pre_auth_per_ip : RateValid c.pre_auth_per_ip
  pub global : RateValid c.global
  pub source_per_ip : RateValid c.source_per_ip
  pub admin_per_ip : RateValid c.admin_per_ip

-- An admin token is left out or not short.
abbrev pub TokenValid : AdminConfig → Type 0
TokenValid c = (str_eq c.token "" ≡ true) ⊎ (16 ≤ len c.token)

pub record ConfigValid (lib : Library) (c : Config) : Type 0 where
  pub queue : QueueValid c.queue
  pub rates : RatesValid c.server.rate_limit
  pub limits : LimitsValid c.server
  pub proxies :
      All (λ cidr. (lib.is_cidr cidr ≡ true) ⊎ (lib.is_ip cidr ≡ true)) c.server.trusted_proxies
  pub token : TokenValid c.admin
  pub header : str_eq (lib.trim_space c.admin.header) "" ≡ false
  pub heartbeat : HeartbeatValid lib c.heartbeat
  pub sources : All (SourceValid lib) c.sources
  pub names : Distinct same_name c.sources

check_queue-Valid : (c : QueueConfig) → check_queue c ≡ none → QueueValid c
unfolding check_queue
check_queue-Valid c h =
    let passed = first_of-none _ h in
    let workers = passed.0 in
    let buffer = passed.1.0 in
    let retries = passed.1.1.0 in
    let base = passed.1.1.1.0 in
    let delay = passed.1.1.1.1.0 in
    let age = passed.1.1.1.1.1.0 in
    record {
      workers = Between-of_refuse _ _ _ _ workers;
      buffer = Between-of_refuse _ _ _ _ buffer;
      max_retries = Between-of_refuse _ _ _ _ retries;
      retry_base = Between-of_refuse _ _ _ _ base;
      max_retry_delay = Between-of_refuse _ _ _ _ delay;
      max_retry_age = Between-of_refuse _ _ _ _ age;
    }

check_rate-Valid : (name : String) (c : RateLimitConfig) → check_rate name c ≡ none → RateValid c
unfolding check_rate
check_rate-Valid name c h =
    let passed = first_of-none _ h in
    let burst = passed.0 in
    let rate = refuse-none _ _ passed.1.0 in
    record {
      burst = Between-of_refuse _ _ _ _ burst;
      is_number = ground (arith, rate);
      at_least = ground (arith, rate);
      at_most = ground (arith, rate);
    }

check_rates-Valid : (c : RateLimitsConfig) → check_rates c ≡ none → RatesValid c
unfolding check_rates
check_rates-Valid c h =
    let passed = first_of-none _ h in
    let pre_auth = passed.0 in
    let all = passed.1.0 in
    let source = passed.1.1.0 in
    let admin = passed.1.1.1.0 in
    record {
      pre_auth_per_ip = check_rate-Valid _ c.pre_auth_per_ip pre_auth;
      global = check_rate-Valid _ c.global all;
      source_per_ip = check_rate-Valid _ c.source_per_ip source;
      admin_per_ip = check_rate-Valid _ c.admin_per_ip admin;
    }

module _ (lib : Library) where
  check_limits-Valid : (c : ServerConfig) → check_limits lib c ≡ none → LimitsValid c
  unfolding check_limits
  check_limits-Valid c h =
      let passed = first_of-none _ h in
      let conns = passed.0 in
      let bytes = passed.1.0 in
      record {
        max_in_flight = Between-of_refuse _ _ _ _ conns;
        max_in_flight_bytes = Between-of_refuse _ _ _ _ bytes;
      }

  check_proxies-Valid :
      (cidrs : List String)
      → check_proxies lib cidrs ≡ none
      → All (λ cidr. (lib.is_cidr cidr ≡ true) ⊎ (lib.is_ip cidr ≡ true)) cidrs
  unfolding check_proxies
  check_proxies-Valid [] h = tt
  check_proxies-Valid (cidr ∷ cidrs) h =
      let passed = first_of-none _ h in
      let known = refuse-none _ _ passed.0 in
      let rest = passed.1.0 in
      (
        elim (Bool-cases (lib.is_cidr cidr)) [
          | inl e ↦ inl e
          | inr e ↦ inr (ground (arith, e, known))
        ],
        check_proxies-Valid cidrs rest,
      )

  check_admin-header :
      (c : AdminConfig) → check_admin lib c ≡ none → str_eq (lib.trim_space c.header) "" ≡ false
  unfolding check_admin
  check_admin-header c h = let passed = first_of-none _ h in refuse-none _ _ passed.1.0

  check_admin-Valid : (c : AdminConfig) → check_admin lib c ≡ none → TokenValid c
  unfolding check_admin
  check_admin-Valid c h =
      let passed = first_of-none _ h in
      let short = passed.0 in
      elim (Bool-cases (str_eq c.token "")) [
        | inl e ↦ inl e
        | inr e ↦ inr (ground (arith, e, refuse-none _ _ short))
      ]

  check_config-Valid : (c : Config) → check_config lib c ≡ none → ConfigValid lib (validated c)
  unfolding check_config validated
  check_config-Valid c h =
      let passed = first_of-none _ h in
      let rates = passed.0 in
      let admin = passed.1.0 in
      let proxies = passed.1.1.0 in
      let limits = passed.1.1.1.0 in
      let queue = passed.1.1.1.1.0 in
      let heartbeat = passed.1.1.1.1.1.0 in
      let sources = passed.1.1.1.1.1.1.0 in
      let s = check_sources-Valid lib [] c.sources sources in
      record {
        queue = check_queue-Valid c.queue queue;
        rates = check_rates-Valid c.server.rate_limit rates;
        proxies = check_proxies-Valid c.server.trusted_proxies proxies;
        header = check_admin-header c.admin admin;
        limits = check_limits-Valid c.server limits;
        token = check_admin-Valid c.admin admin;
        heartbeat = validate_heartbeat-Valid lib c.heartbeat (wrapped-none _ _ heartbeat);
        sources = s.0;
        names = s.1;
      }

  checked_loaded :
      (c d : Config) (o : Option ConfigError)
      → checked lib c o ≡ loaded d
      → (o ≡ none) × (validated c ≡ d)
  checked_loaded c d none h = (refl, ground (arith, h))
  checked_loaded c d (some e) h = absurd (cc h)

  finish_load-Valid : (c d : Config) → finish_load lib c ≡ loaded d → ConfigValid lib d
  unfolding finish_load
  finish_load-Valid c d h =
      let e = checked_loaded _ d _ h in subst (ConfigValid lib) e.1 (check_config-Valid _ e.0)

  decoded-Valid : (o : Option Config) (d : Config) → decoded lib o ≡ loaded d → ConfigValid lib d
  decoded-Valid none d h = absurd (cc h)
  decoded-Valid (some c) d h = finish_load-Valid c d h

  -- Whatever the file, the decoder and the environment, a configuration that is loaded is valid: its
  -- queue, limits, rates and heartbeat are within the bounds that `validate` names; its proxies are
  -- addresses or networks, its admin header is named and its admin token not short; the heartbeat
  -- targets have distinct names and URLs that are allowed; and the sources have distinct valid names,
  -- secrets that are not short, rules, redactions and policies that are complete, and at least one
  -- action, each of which can run and refers only to secrets that are set.
  pub load-Valid :
      (raw : Option (List ℕ)) (decode : List ℕ → Config → Option Config) (d : Config)
      → load lib raw decode ≡ loaded d
      → ConfigValid lib d
  unfolding load
  load-Valid none decode d h = absurd (cc h)
  load-Valid (some raw) decode d h = decoded-Valid _ d h
