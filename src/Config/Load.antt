-- ===== src/Config/Load.antt =====
-- internal/config/config.go: Load and expandConfigEnv.
use general_webhook.Base.{
  ℕ, pos, String, Bool, true, false, Option, none, some, List, [], map, str_eq, if◌then◌else◌,
  delete_where,
}
use general_webhook.Config.{Source, HeartbeatTarget, RateLimitConfig, Config}
use general_webhook.Config.Float.{whole}
use general_webhook.Config.Library.{Library}
use general_webhook.Config.Defaults.{apply_defaults}
use general_webhook.Config.Validate.{ConfigError, check_config, validated}

-- How a load ends.
pub data Loaded : Type 0 where
  unreadable unparsable : Loaded
  invalid : ConfigError → Loaded
  loaded : Config → Loaded

abbrev no_rate : RateLimitConfig
no_rate = record { burst = pos 0; per_second = whole 0 }

-- The zero value, but for max_retries, which the decoder may leave alone.
abbrev pub seed : Config
seed = record {
  server = record {
    addr = "";
    trusted_proxies = [];
    max_in_flight = pos 0;
    max_in_flight_bytes = pos 0;
    rate_limit = record {
      pre_auth_per_ip = no_rate;
      global = no_rate;
      source_per_ip = no_rate;
      admin_per_ip = no_rate;
    };
  };
  admin = record { header = ""; token = "" };
  log = record { level = "" };
  store = record { path = ""; retention = pos 0; retain_payload = none };
  queue = record {
    workers = pos 0;
    buffer = pos 0;
    max_retries = pos 2;
    retry_base = pos 0;
    max_retry_delay = pos 0;
    max_retry_age = pos 0;
  };
  heartbeat = record { interval = pos 0; timeout = pos 0; host = ""; targets = [] };
  sources = [];
}

module _ (lib : Library) where
  abbrev value_or : Bool → String → Option String → String
  value_or require_set m (some v) = v
  value_or true m none = ""
  value_or false m none = m

  unfoldable pub expand_config_env : Bool → String → String
  expand_config_env require_set = lib.replace_env (λ m first second.
      value_or require_set m (lib.lookup_env (if str_eq first "" then second else first)))

  unfoldable pub expanded_source : Source → Source
  unfolding expand_config_env
  expanded_source s = record s {
    auth = record s.auth { secret = expand_config_env true s.auth.secret };
  }

  unfoldable pub expanded_target : HeartbeatTarget → HeartbeatTarget
  unfolding expand_config_env
  expanded_target t = record t {
    url = expand_config_env true t.url;
    token = expand_config_env true t.token;
  }

  -- The environment filled in, and the targets without a URL dropped.
  unfoldable pub expanded : Config → Config
  unfolding expanded_source expanded_target expand_config_env
  expanded c = record c {
    admin = record c.admin { token = expand_config_env true c.admin.token };
    heartbeat = record c.heartbeat {
      host = expand_config_env true c.heartbeat.host;
      targets =
          delete_where (λ t. str_eq (lib.trim_space t.url) "")
            (map expanded_target c.heartbeat.targets);
    };
    sources = map expanded_source c.sources;
  }

  abbrev pub checked : Config → Option ConfigError → Loaded
  checked c none = loaded (validated c)
  checked c (some e) = invalid e

  unfoldable pub finish_load : Config → Loaded
  unfolding expanded
  finish_load c =
      let filled = apply_defaults lib (expanded c) in checked filled (check_config lib filled)

  abbrev pub decoded : Option Config → Loaded
  decoded none = unparsable
  decoded (some c) = finish_load c

  -- `raw` is the file, and `decode` the decoder of YAML, which writes into a value that is there.
  unfoldable pub load : Option (List ℕ) → (List ℕ → Config → Option Config) → Loaded
  unfolding finish_load
  load none decode = unreadable
  load (some raw) decode = decoded (decode raw seed)
