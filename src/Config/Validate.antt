-- ===== src/Config/Validate.antt =====
-- internal/config: RateLimitsConfig.validate and Config.validate.
use Prim.Native.String.{len}
use general_webhook.Base.{
  String, Bool, not, ◌&&◌, ◌||◌, Option, none, List, [], ◌∷◌, ltb, str_eq, exists, map, pos_part,
}
use general_webhook.Config.{
  Source, QueueConfig, RateLimitConfig, RateLimitsConfig, ServerConfig, AdminConfig, Config,
}
use general_webhook.Config.Float.{is_special, is_under, is_over}
use general_webhook.Config.Library.{Library}
use general_webhook.Config.Checks.{refuse, first_of, wrapped, below, above}
use general_webhook.Config.Heartbeat.{HeartbeatError, valid_source_name, validate_heartbeat}
use general_webhook.Config.Sources.{SourceError, check_source, filled_source}

pub data ConfigError : Type 0 where
  bad_burst bad_rate : String → ConfigError
  short_token no_admin_header : ConfigError
  bad_proxy : String → ConfigError
  bad_max_in_flight bad_max_in_flight_bytes : ConfigError
  bad_workers bad_buffer bad_max_retries bad_retry_base bad_retry_delay bad_retry_age : ConfigError
  in_heartbeat : HeartbeatError → ConfigError
  no_name : ConfigError
  bad_name duplicate_name : String → ConfigError
  in_source : String → SourceError → ConfigError

abbrev is_empty : String → Bool
is_empty s = str_eq s ""

-- A rate is compared with the double 0.01, which is 5764607523034235 / 2 ^ 59.
unfoldable pub check_rate : String → RateLimitConfig → Option ConfigError
check_rate name c = first_of (
    refuse (below 1 c.burst || above 100_000 c.burst) (bad_burst name)
    ∷ refuse
        (is_special c.per_second
          || is_under 5_764_607_523_034_235 59 c.per_second
          || is_over 100_000 c.per_second)
        (bad_rate name)
    ∷ [])

unfoldable pub check_rates : RateLimitsConfig → Option ConfigError
unfolding check_rate
check_rates c = first_of (
    check_rate "pre_auth_per_ip" c.pre_auth_per_ip
    ∷ check_rate "global" c.global
    ∷ check_rate "source_per_ip" c.source_per_ip
    ∷ check_rate "admin_per_ip" c.admin_per_ip
    ∷ [])

unfoldable pub check_queue : QueueConfig → Option ConfigError
check_queue c = first_of (
    refuse (below 1 c.workers || above 64 c.workers) bad_workers
    ∷ refuse (below 1 c.buffer || above 10_000 c.buffer) bad_buffer
    ∷ refuse (below 0 c.max_retries || above 20 c.max_retries) bad_max_retries
    ∷ refuse (below 100_000_000 c.retry_base || above 3_600_000_000_000 c.retry_base) bad_retry_base
    ∷ refuse
        (below (pos_part c.retry_base) c.max_retry_delay
          || above 604_800_000_000_000 c.max_retry_delay)
        bad_retry_delay
    ∷ refuse
        (below (pos_part c.retry_base) c.max_retry_age
          || above 2_592_000_000_000_000 c.max_retry_age)
        bad_retry_age
    ∷ [])

module _ (lib : Library) where
  unfoldable pub check_admin : AdminConfig → Option ConfigError
  check_admin c = first_of (
      refuse (not (is_empty c.token) && ltb (len c.token) 16) short_token
      ∷ refuse (is_empty (lib.trim_space c.header)) no_admin_header
      ∷ [])

  unfoldable pub check_proxies : List String → Option ConfigError
  check_proxies [] = none
  check_proxies (cidr ∷ cidrs) = first_of (
      refuse (not (lib.is_cidr cidr) && not (lib.is_ip cidr)) (bad_proxy cidr)
      ∷ check_proxies cidrs
      ∷ [])

  unfoldable pub check_limits : ServerConfig → Option ConfigError
  check_limits c = first_of (
      refuse (below 1 c.max_in_flight || above 256 c.max_in_flight) bad_max_in_flight
      ∷ refuse (below 1_048_576 c.max_in_flight_bytes || above 268_435_456 c.max_in_flight_bytes)
          bad_max_in_flight_bytes
      ∷ [])

  -- The sources after those named in `seen`.
  unfoldable pub check_sources : List String → List Source → Option ConfigError
  unfolding check_source valid_source_name
  check_sources seen [] = none
  check_sources seen (s ∷ sources) = first_of (
      refuse (is_empty s.name) no_name
      ∷ refuse (not (valid_source_name s.name)) (bad_name s.name)
      ∷ refuse (exists (λ name. str_eq name s.name) seen) (duplicate_name s.name)
      ∷ wrapped (in_source s.name) (check_source lib s)
      ∷ check_sources (s.name ∷ seen) sources
      ∷ [])

  -- The error of `validate`.
  unfoldable pub check_config : Config → Option ConfigError
  unfolding check_rates check_admin check_proxies check_limits check_queue check_sources
  check_config c = first_of (
      check_rates c.server.rate_limit
      ∷ check_admin c.admin
      ∷ check_proxies c.server.trusted_proxies
      ∷ check_limits c.server
      ∷ check_queue c.queue
      ∷ wrapped in_heartbeat (validate_heartbeat lib c.heartbeat)
      ∷ check_sources [] c.sources
      ∷ [])

-- What `validate` leaves of the configuration: the policies are filled in through their pointers.
unfoldable pub validated : Config → Config
unfolding filled_source
validated c = record c { sources = map filled_source c.sources }
