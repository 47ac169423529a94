-- ===== src/Config.antt =====
-- internal/config: the configuration as it is loaded, its defaults, its validation and the snapshot of
-- a source. Durations are in nanoseconds; a map is a list of its entries.
pub mod Float
pub mod Library
pub mod Defaults
pub mod Checks
pub mod Heartbeat
pub mod Sources
pub mod Validate
pub mod Load
pub mod Valid
pub mod Snapshot
mod Examples
use general_webhook.Config.Float.{Float64}
use general_webhook.Base.{
  ℤ, String, Bool, Option, List, [], ◌∷◌, str_eq, if◌then◌else◌, first_where,
}

-- An action, with the fields of both types.
pub record ActionConfig : Type 0 where
  pub type : String
  pub url : String
  pub method : String
  pub headers : List (String × String)
  pub body : String
  pub url_allowlist : List String
  pub allow_private : Bool
  pub command : String
  pub args : List String
  pub timeout : ℤ

pub record Rule : Type 0 where
  pub var : String
  pub regex : String

pub record LogPolicyConfig : Type 0 where
  pub mode : String
  pub field : String
  pub services : List String
  pub on_reject : String

pub record AuthConfig : Type 0 where
  pub type : String
  pub header : String
  pub secret : String
  pub signed_headers : List String

-- An event source; `redaction` holds the patterns, compiled at load.
pub record Source : Type 0 where
  pub name : String
  pub auth : AuthConfig
  pub extract : List (String × String)
  pub rules : List Rule
  pub actions : List ActionConfig
  pub log_policy : Option LogPolicyConfig
  pub redaction : Option (List String)

pub record QueueConfig : Type 0 where
  pub workers : ℤ
  pub buffer : ℤ
  pub max_retries : ℤ
  pub retry_base : ℤ
  pub max_retry_delay : ℤ
  pub max_retry_age : ℤ

-- `retain_payload` is a pointer: `none` is nil.
pub record StoreConfig : Type 0 where
  pub path : String
  pub retention : ℤ
  pub retain_payload : Option Bool

pub record LogConfig : Type 0 where
  pub level : String

pub record RateLimitConfig : Type 0 where
  pub burst : ℤ
  pub per_second : Float64

pub record RateLimitsConfig : Type 0 where
  pub pre_auth_per_ip : RateLimitConfig
  pub global : RateLimitConfig
  pub source_per_ip : RateLimitConfig
  pub admin_per_ip : RateLimitConfig

pub record ServerConfig : Type 0 where
  pub addr : String
  pub trusted_proxies : List String
  pub max_in_flight : ℤ
  pub max_in_flight_bytes : ℤ
  pub rate_limit : RateLimitsConfig

pub record AdminConfig : Type 0 where
  pub header : String
  pub token : String

pub record HeartbeatTarget : Type 0 where
  pub name : String
  pub url : String
  pub token : String
  pub mode : String
  pub allow_http : Bool

pub record HeartbeatConfig : Type 0 where
  pub interval : ℤ
  pub timeout : ℤ
  pub host : String
  pub targets : List HeartbeatTarget

pub record Config : Type 0 where
  pub server : ServerConfig
  pub admin : AdminConfig
  pub log : LogConfig
  pub store : StoreConfig
  pub queue : QueueConfig
  pub heartbeat : HeartbeatConfig
  pub sources : List Source

-- The variables of an event, a map in which the first entry of a key counts.
abbrev pub Vars : Type 0
Vars = List (String × String)

-- vars[key], which is "" without an entry.
unfoldable pub var_of : Vars → String → String
var_of [] key = ""
var_of (entry ∷ vars) key =
    let rest = var_of vars key in if str_eq entry.0 key then entry.1 else rest

unfoldable pub source_by_name : Config → String → Option Source
source_by_name c name = first_where (λ src. str_eq src.name name) c.sources
