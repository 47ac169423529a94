-- ===== src/Config/Defaults/Filled.antt =====
-- What applyDefaults makes of each setting: one that is set stays, and one that is not gets its default.
use general_webhook.Base.{ℕ, ◌<◌, ℤ, pos, negsuc, String, true, false, ◌≡◌, ◌≢◌, ◌⊎◌, str_eq}
use general_webhook.Config.Float.{finite, is_zero}
use general_webhook.Config.Library.{Library}
use general_webhook.Config.{RateLimitConfig, Config}

-- A number that is positive stays, and any other becomes the default.
abbrev pub NumberFilled : ℕ → ℤ → ℤ → Type 0
NumberFilled d v w =
    ((n : ℕ) × (v ≡ pos n) × (0 < n) × (w ≡ v))
    ⊎ (((v ≡ pos 0) ⊎ ((n : ℕ) × (v ≡ negsuc n))) × (w ≡ pos d))

-- A text that is not empty stays, and the empty one becomes the default.
abbrev pub TextFilled : String → String → String → Type 0
TextFilled d v w = ((str_eq v "" ≡ false) × (w ≡ v)) ⊎ ((v ≡ "") × (w ≡ d))

-- A burst and a rate that are not 0 stay; the default of the rate is m / 2 ^ t.
abbrev pub RateFilled : (burst m t : ℕ) → RateLimitConfig → RateLimitConfig → Type 0
RateFilled burst m t c e =
    (((c.burst ≡ pos 0) × (e.burst ≡ pos burst)) ⊎ ((c.burst ≢ pos 0) × (e.burst ≡ c.burst)))
    × (((is_zero c.per_second ≡ true) × (e.per_second ≡ finite false m t))
        ⊎ ((is_zero c.per_second ≡ false) × (e.per_second ≡ c.per_second)))

-- What becomes of the settings of a configuration.
pub record Filled (c e : Config) : Type 0 where
  pub addr : TextFilled ":8080" c.server.addr e.server.addr
  pub in_flight : NumberFilled 16 c.server.max_in_flight e.server.max_in_flight
  pub in_flight_bytes :
      NumberFilled 33_554_432 c.server.max_in_flight_bytes e.server.max_in_flight_bytes
  pub proxies : e.server.trusted_proxies ≡ c.server.trusted_proxies
  pub pre_auth :
      RateFilled 120 20 0 c.server.rate_limit.pre_auth_per_ip e.server.rate_limit.pre_auth_per_ip
  pub global : RateFilled 120 2 0 c.server.rate_limit.global e.server.rate_limit.global
  pub source_ip :
      RateFilled 30 1 1 c.server.rate_limit.source_per_ip e.server.rate_limit.source_per_ip
  pub admin_ip : RateFilled 60 1 0 c.server.rate_limit.admin_per_ip e.server.rate_limit.admin_per_ip
  pub header : TextFilled "Authorization" c.admin.header e.admin.header
  pub token : e.admin.token ≡ c.admin.token
  pub level : TextFilled "info" c.log.level e.log.level
  pub path : TextFilled "data/webhook.db" c.store.path e.store.path
  pub retention : NumberFilled 2_592_000_000_000_000 c.store.retention e.store.retention
  pub workers : NumberFilled 4 c.queue.workers e.queue.workers
  pub buffer : NumberFilled 256 c.queue.buffer e.queue.buffer
  pub max_retries : e.queue.max_retries ≡ c.queue.max_retries
  pub retry_base : NumberFilled 1_000_000_000 c.queue.retry_base e.queue.retry_base
  pub max_retry_delay : NumberFilled 900_000_000_000 c.queue.max_retry_delay e.queue.max_retry_delay
  pub max_retry_age : NumberFilled 86_400_000_000_000 c.queue.max_retry_age e.queue.max_retry_age
  pub interval : NumberFilled 60_000_000_000 c.heartbeat.interval e.heartbeat.interval
  pub timeout : NumberFilled 10_000_000_000 c.heartbeat.timeout e.heartbeat.timeout
  pub host : TextFilled "general-webhook" c.heartbeat.host e.heartbeat.host
  pub sources : e.sources ≡ c.sources
