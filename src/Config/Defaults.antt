-- ===== src/Config/Defaults.antt =====
-- internal/config: WithDefaults of ratelimit.go and applyDefaults of config.go.
pub mod Filled
use general_webhook.Base.{
  zero, suc, ℕ, ℤ, pos, negsuc, String, Bool, false, Option, none, some, str_eq, if◌then◌else◌, map,
}
use general_webhook.Config.Float.{Float64, is_zero, whole, half}
use general_webhook.Config.Library.{Library}
use general_webhook.Config.{
  StoreConfig, QueueConfig, RateLimitConfig, RateLimitsConfig, ServerConfig, HeartbeatTarget,
  HeartbeatConfig, Config,
}

-- `if v <= 0 { v = d }`
abbrev pub positive_or : ℕ → ℤ → ℤ
positive_or d (pos zero) = pos d
positive_or d (pos (suc n)) = pos (suc n)
positive_or d (negsuc n) = pos d

-- `if v == 0 { v = d }`
abbrev pub nonzero_or : ℕ → ℤ → ℤ
nonzero_or d (pos zero) = pos d
nonzero_or d (pos (suc n)) = pos (suc n)
nonzero_or d (negsuc n) = negsuc n

-- `if v == "" { v = d }`
abbrev pub nonempty_or : String → String → String
nonempty_or d v = if str_eq v "" then d else v

abbrev pub rate_or : ℕ → Float64 → RateLimitConfig → RateLimitConfig
rate_or burst per_second c = record {
  burst = nonzero_or burst c.burst;
  per_second = if is_zero c.per_second then per_second else c.per_second;
}

unfoldable pub with_defaults : RateLimitsConfig → RateLimitsConfig
with_defaults c = record {
  pre_auth_per_ip = rate_or 120 (whole 20) c.pre_auth_per_ip;
  global = rate_or 120 (whole 2) c.global;
  source_per_ip = rate_or 30 half c.source_per_ip;
  admin_per_ip = rate_or 60 (whole 1) c.admin_per_ip;
}

abbrev filled_server : ServerConfig → ServerConfig
filled_server c = record {
  addr = nonempty_or ":8080" c.addr;
  trusted_proxies = c.trusted_proxies;
  max_in_flight = positive_or 16 c.max_in_flight;
  max_in_flight_bytes = positive_or 33_554_432 c.max_in_flight_bytes;
  rate_limit = with_defaults c.rate_limit;
}

-- A nil pointer becomes one to false.
abbrev retained : Option Bool → Option Bool
retained none = some false
retained (some b) = some b

abbrev filled_store : StoreConfig → StoreConfig
filled_store c = record {
  path = nonempty_or "data/webhook.db" c.path;
  retention = positive_or 2_592_000_000_000_000 c.retention;
  retain_payload = retained c.retain_payload;
}

abbrev filled_queue : QueueConfig → QueueConfig
filled_queue c = record {
  workers = positive_or 4 c.workers;
  buffer = positive_or 256 c.buffer;
  max_retries = c.max_retries;
  retry_base = positive_or 1_000_000_000 c.retry_base;
  max_retry_delay = positive_or 900_000_000_000 c.max_retry_delay;
  max_retry_age = positive_or 86_400_000_000_000 c.max_retry_age;
}

abbrev filled_target : Library → HeartbeatTarget → HeartbeatTarget
filled_target lib t = record t {
  mode = if str_eq (lib.trim_space t.mode) "" then "kuma" else t.mode;
}

abbrev filled_heartbeat : Library → HeartbeatConfig → HeartbeatConfig
filled_heartbeat lib c = record {
  interval = positive_or 60_000_000_000 c.interval;
  timeout = positive_or 10_000_000_000 c.timeout;
  host = nonempty_or "general-webhook" c.host;
  targets = map (filled_target lib) c.targets;
}

unfoldable pub apply_defaults : Library → Config → Config
unfolding with_defaults
apply_defaults lib c = record {
  server = filled_server c.server;
  admin = record c.admin { header = nonempty_or "Authorization" c.admin.header };
  log = record { level = nonempty_or "info" c.log.level };
  store = filled_store c.store;
  queue = filled_queue c.queue;
  heartbeat = filled_heartbeat lib c.heartbeat;
  sources = c.sources;
}
