-- ===== src/Heartbeat/Examples.antt =====
-- A monitor of one target whose push succeeds, and targets with secrets in their URLs.
use general_webhook.Base.{
  ℕ, pos, ◌≤◌, ◌≡◌, refl, String, none, some, true, false, List, [], ◌∷◌, inr,
}
use general_webhook.Config.{HeartbeatTarget, HeartbeatConfig}
use general_webhook.Config.Library.{Url}
use general_webhook.Heartbeat.{pass, fail, Input, log_saved, new_monitor, run}
use general_webhook.Heartbeat.Metrics.{Sound, run-Kept}
use general_webhook.Heartbeat.Target.{
  Library, TransportError, not_answered, target_endpoint, log_entry,
}
use general_webhook.Heartbeat.Target.Origin.{Endpoint, log_entry-blind, target_endpoint-Endpoint}

abbrev target_with : String → HeartbeatTarget
target_with url = record {
  name = "kuma";
  url = url;
  token = url;
  mode = "json";
  allow_http = false;
}

abbrev monitored : HeartbeatConfig
monitored = record {
  interval = pos 60_000_000_000;
  timeout = pos 10_000_000_000;
  host = "relay";
  targets = target_with "https://kuma.example/a" ∷ [];
}

abbrev answered : Input
answered = record {
  sample = record {
    has_store = true;
    write_ok = true;
    stats_ok = true;
    is_expired = false;
    is_ready = true;
  };
  now = 5_000_000_000;
  answer = some (record { status_code = 200; is_read = true; body_ok = true; is_accepted = true });
  duration_ms = 12;
  is_canceled = false;
  log_end = log_saved;
}

abbrev one_push : List (ℕ × Input)
one_push = (0, answered) ∷ (0, answered) ∷ (0, answered) ∷ (0, answered) ∷ []

one_push-reported : (run one_push (new_monitor monitored)).last_success ≡ 5
unfolding run new_monitor
one_push-reported = refl

run-Kept_example :
    Sound (run one_push (new_monitor monitored))
    × ((run one_push (new_monitor monitored)).last_success
        ≤ (run one_push (run one_push (new_monitor monitored))).last_success)
run-Kept_example = run-Kept monitored one_push one_push

abbrev kuma_at : String → Url
kuma_at path = record {
  scheme = "https";
  host = "kuma.example";
  hostname = "kuma.example";
  port = "";
  opaque = "";
  fragment = "";
  raw_query = "";
  escaped_path = path;
  has_user = false;
}

abbrev lib : Library ℕ
lib = record {
  parse_url = λ raw. some (kuma_at raw);
  to_lower = λ s. s;
  parse_query = λ _. none;
  set = λ q _ _. q;
  encode = λ _. "";
  trim_right = λ s _. s;
  path_unescape = λ s. some s;
  to_text = λ u. u.escaped_path;
}

abbrev refused_with : String → TransportError
refused_with text = record {
  text = text;
  is_deadline = false;
  is_canceled = false;
  is_timeout = false;
  is_dns = false;
  is_tls = false;
  is_refused = true;
}

log_entry-blind_example :
    log_entry lib (target_with "/a") fail (not_answered (refused_with "Post /a: refused")) 0 10 5
    ≡ log_entry lib (target_with "/b") fail (not_answered (refused_with "Post /b: refused")) 0 10 5
log_entry-blind_example =
    log_entry-blind lib (target_with "/a") (target_with "/b") (kuma_at "/a") (kuma_at "/b") fail
      (not_answered (refused_with "Post /a: refused"))
      (not_answered (refused_with "Post /b: refused")) 0 10 5 refl refl refl refl
      (record { scheme = refl; host = refl; hostname = refl; opaque = refl }) refl

answers_endpoint : target_endpoint lib (target_with "/a") pass ≡ inr "/a"
unfolding target_endpoint
answers_endpoint = refl

target_endpoint-Endpoint_example : Endpoint lib (target_with "/a") "/a"
target_endpoint-Endpoint_example =
    target_endpoint-Endpoint lib (target_with "/a") pass "/a" answers_endpoint
