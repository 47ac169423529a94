-- ===== src/Config/Examples.antt =====
-- A configuration that loads.
use general_webhook.Base.{
  ℕ, pos, String, true, false, Option, none, some, List, [], ◌∷◌, ◌≡◌, refl, str_eq,
}
use general_webhook.Config.{ActionConfig, LogPolicyConfig, Source, Config}
use general_webhook.Config.Library.{Library}
use general_webhook.Config.Defaults.{apply_defaults}
use general_webhook.Config.Defaults.Filled.{Filled}
use general_webhook.Config.Load.{seed, load, loaded}
use general_webhook.Config.Valid.{ConfigValid, load-Valid}
use general_webhook.Config.Snapshot.{
  Json, snapshot_of, no_auth, snapshot_source, parse_source_snapshot,
}
use general_webhook.Queue.Settings.{new_queue}
use general_webhook.Queue.Loaded.{Configured, load-Configured}
use general_webhook.Config.Snapshot.RoundTrip.{parse_source_snapshot-snapshot_source}

-- Nothing to trim, no environment.
abbrev plain : Library
plain = record {
  trim_space = λ s. s;
  to_lower = λ s. s;
  to_upper = λ s. s;
  is_cidr = λ _. true;
  is_ip = λ _. true;
  compiles = λ _. true;
  parse_url = λ _. none;
  secret_refs = λ _. [];
  lookup_env = λ _. none;
  replace_env = λ _ s. s;
}

abbrev build : ActionConfig
build = record {
  type = "exec";
  url = "";
  method = "";
  headers = [];
  body = "";
  url_allowlist = [];
  allow_private = false;
  command = "make";
  args = [];
  timeout = pos 60_000_000_000;
}

abbrev git : Source
git = record {
  name = "git";
  auth = record {
    type = "hmac";
    header = "";
    secret = "0123456789abcdef";
    signed_headers = "timestamp" ∷ "delivery_id" ∷ "body" ∷ [];
  };
  extract = [];
  rules = [];
  actions = build ∷ [];
  log_policy = some (record {
    mode = "allowlist";
    field = "service";
    services = "api" ∷ [];
    on_reject = "drop_and_count";
  });
  redaction = none;
}

abbrev pub file : Config
file = record seed { sources = git ∷ [] }

abbrev pub loaded_file : Config
unfolding apply_defaults
loaded_file = apply_defaults plain file

loads : load plain (some []) (λ _ _. some file) ≡ loaded loaded_file
unfolding load general_webhook.Config.Validate.check_config general_webhook.Config.Checks.first_of
    apply_defaults general_webhook.Config.Heartbeat.validate_heartbeat
    general_webhook.Base.delete_where general_webhook.Base.exists
    general_webhook.Config.Validate.validated loaded_file
loads = refl

load-Valid_example : ConfigValid plain loaded_file
load-Valid_example = load-Valid plain (some []) (λ _ _. some file) loaded_file loads

abbrev fixed : Json
fixed = record {
  marshal = λ _. some "git";
  unmarshal = λ _. some (snapshot_of git);
  marshal_plans = λ _. none;
  sha256_hex = λ s. s;
}

parse_source_snapshot-snapshot_source_example :
    parse_source_snapshot fixed plain "git" ≡ some (record git { auth = no_auth })
unfolding snapshot_source loaded_file
parse_source_snapshot-snapshot_source_example =
    parse_source_snapshot-snapshot_source fixed plain git "git"
      (load-Valid plain (some []) (λ _ _. some file) loaded_file loads).sources.0 refl refl
      (λ _. refl)

load-Configured_example :
    Configured loaded_file.queue (new_queue loaded_file.queue (some loaded_file) "w1")
load-Configured_example = load-Configured plain (some []) (λ _ _. some file) loaded_file "w1" loads
