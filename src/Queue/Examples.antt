-- ===== src/Queue/Examples.antt =====
-- Runs of the queue's functions on small inputs.
use general_webhook.Base.{
  ℕ, ◌*◌, ◌+◌, ◌^◌, ◌-◌, ◌≤◌, ◌<◌, ◌⊎◌, min, pos, String, true, false, Option, none, some, List, [],
  ◌∷◌, ◌≡◌, refl, arith, All,
}
use general_webhook.Store.Released.{Released}
use general_webhook.Queue.Process.Releases.{process-Released}
use general_webhook.Config.Load.{seed}
use general_webhook.Config.{ActionConfig, Source, Config}
use general_webhook.Handler.Errors.{ActionError, is_non_retryable, retry_after}
use general_webhook.Store.Rows.{Db, empty_db}
use general_webhook.Store.Tx.Inversion.{calm}
use general_webhook.Store.Claim.{PendingEvent}
use general_webhook.Store.Calls.{Call, saves, run_calls}
use general_webhook.Store.Invariant.Rows.{RowsOk}
use general_webhook.Store.Invariant.Sound.{run_calls-RowsOk}
use general_webhook.Store.Invariant.Keys.{KeysOk, run_calls-KeysOk}
use general_webhook.Store.Invariant.Final.{Grows}
use general_webhook.Queue.Settings.{
  Queue, second, five_minutes, lease_safety_margin, pass_time, sources_of, compute_lease,
  compute_lease-covers,
}
use general_webhook.Queue.Backoff.{retry_cap, retry_delay, doublings, retry_cap-min}
use general_webhook.Queue.Failure.{deadline, decide, retries, decide-retries}
use general_webhook.Queue.Lifecycle.{
  Life, Step, wakes, starts, stops, selects, hinted, ended, stop, wake, ready, run_steps,
  stop-final,
}
use general_webhook.Queue.Vars.{Parts}
use general_webhook.Queue.Process.{Turn, process}
use general_webhook.Store.Tx.{ok}
use general_webhook.Queue.Drain.{Round, drain}
use general_webhook.Queue.Drain.Keeps.{drain-keeps}

abbrev notify : ActionConfig
notify = record {
  type = "http";
  url = "https://example.org/hook";
  method = "POST";
  headers = [];
  body = "{}";
  url_allowlist = [];
  allow_private = false;
  command = "";
  args = [];
  timeout = pos 0;
}

abbrev rebuild : ActionConfig
rebuild = record notify { type = "exec"; command = "make"; timeout = pos (400 * second) }

abbrev git : Source
git = record {
  name = "git";
  auth = record { type = "none"; header = ""; secret = ""; signed_headers = [] };
  extract = [];
  rules = [];
  actions = notify ∷ rebuild ∷ [];
  log_policy = none;
  redaction = none;
}

abbrev setup : Config
setup = record seed {
  store = record seed.store { retain_payload = some false };
  sources = git ∷ [];
}

abbrev settings : Queue
settings = record {
  buffer = 8;
  workers = 1;
  max_retries = 5;
  retry_base = second;
  max_retry_delay = 60 * second;
  max_retry_age = 3600 * second;
  lease = 300 * second;
  owner = "w1";
}

compute_lease-covers_example :
    (five_minutes ≤ compute_lease (some setup))
    × All
        (λ src. pass_time src.actions + lease_safety_margin ≤ compute_lease (some setup))
        (sources_of (some setup))
compute_lease-covers_example = compute_lease-covers (some setup)

retry_cap-min_example : retry_cap second (60 * second) 4 ≡ min (second * 2 ^ (4 - 1)) (60 * second)
retry_cap-min_example = retry_cap-min second (60 * second) 4

abbrev event : PendingEvent
event = record {
  id = "a";
  source = "git";
  remote_ip = "10.0.0.1";
  payload = some (123 ∷ 125 ∷ []);
  vars_json = "";
  external_delivery_id = "d1";
  received_at_ms = 1000;
  retry_started_at_ms = 1000;
  config_hash = "";
  actions_json = "";
  replay_generation = 0;
}

abbrev busy : ActionError
busy = record {
  http = some (record { status = 503; body = ""; retry_after = 0 });
  marked = false;
  canceled = false;
  message = "http status 503: ";
}

abbrev unasked : ℕ
unasked = 0

abbrev no_jitter : ℕ → ℕ
no_jitter limit = limit

busy_retries :
    decide settings event no_jitter busy false 3 "http status 503: " (10 * second)
    ≡ retries (14 * second) "http status 503: " unasked
unfolding decide is_non_retryable retry_after retry_delay retry_cap doublings
busy_retries = refl

decide-retries_example :
    (is_non_retryable busy ≡ false)
    × ((3 ≤ settings.max_retries)
        × ((14 * second < deadline settings event)
            × (((0 < unasked) × (14 * second ≡ 10 * second + unasked))
                ⊎ ((unasked ≡ 0)
                    × (14 * second
                        ≤ 10 * second
                          + min (settings.retry_base * 2 ^ (3 - 1)) settings.max_retry_delay)))))
decide-retries_example =
    decide-retries settings event no_jitter busy false 3 "http status 503: " (10 * second)
      (14 * second) "http status 503: " unasked (λ limit. omega arith) busy_retries

abbrev parts : Parts
parts = record {
  read_vars = λ json. none;
  write_vars = λ vars. some "{}";
  extract = λ payload fields. ("ref", "main") ∷ [];
  matches = λ rules vars. some true;
  replace = λ re value. value;
}

abbrev turn_at : ℕ → Turn
turn_at index = record {
  canceled = false;
  now = (4 + index) * second;
  outcome = record { target = "t"; detail = "200"; error = none };
  duration = 5;
  logged_at = (4 + index) * second;
  canceled_later = false;
  retry_from = (4 + index) * second;
  settled_at = (4 + index) * second;
}

abbrev round : Round
round = record {
  stopped = false;
  now = 3 * second;
  killed_at = 3 * second;
  pass = record {
    queue = settings;
    config = some setup;
    parts = parts;
    redact = λ text. text;
    jitter = no_jitter;
    has_handler = λ kind. true;
    turn = turn_at;
    vars_at = 3 * second;
    prepared_at = 3 * second;
    judged_at = 9 * second;
  };
}

abbrev snapshots : String → Option Source
snapshots json = none

abbrev received : List Call
received =
    saves
      (record {
        id = "a";
        source = "git";
        ip = "10.0.0.1";
        payload = 123 ∷ 125 ∷ [];
        at_ms = 1000;
        external_delivery_id = "d1";
        body_sha256 = "h1";
        config_hash = "";
        actions_json = "";
      })
      none
    ∷ []

abbrev waiting_db : Db
waiting_db = (run_calls received (calm empty_db)).db

drain-keeps_example :
    RowsOk (drain snapshots (round ∷ round ∷ []) (calm waiting_db)).1.db
    × (KeysOk (drain snapshots (round ∷ round ∷ []) (calm waiting_db)).1.db
        × Grows waiting_db.actions
            (drain snapshots (round ∷ round ∷ []) (calm waiting_db)).1.db.actions)
drain-keeps_example =
    drain-keeps snapshots (round ∷ round ∷ []) (calm waiting_db)
      (run_calls-RowsOk received [] (refl, tt)) (run_calls-KeysOk received [])

abbrev idle : Life
idle = record { buffer = 2; workers = 3; hints = 0; stopped = false; live_workers = 0 }

abbrev busy_day : List Step
busy_day =
    starts ∷ wakes ∷ wakes ∷ wakes ∷ selects hinted ∷ stops ∷ wakes ∷ selects ended ∷ starts ∷ []

stop-final_example :
    (wake (run_steps busy_day (stop idle)) ≡ (false, run_steps busy_day (stop idle)))
    × (ready (run_steps busy_day (stop idle)) ≡ false)
stop-final_example = stop-final idle busy_day

process-Released_example :
    ((process round.pass event git (calm waiting_db)).0 ≡ ok tt)
    × Released event.id (process round.pass event git (calm waiting_db)).1.db
process-Released_example = process-Released round.pass event git waiting_db
