-- ===== src/Server/Examples.antt =====
-- Runs of the budget, the limiter and the handlers.
use general_webhook.Base.{
  ℕ, ◌+◌, ◌-◌, ◌*◌, ◌/◌, pos, String, true, false, some, none, List, [], ◌∷◌, ◌≡◌, refl, ◌⊎◌, inl,
  inr, arith, ltb, str_eq, if◌then◌else◌,
}
use general_webhook.Config.{Source}
use general_webhook.Config.Load.{seed}
use general_webhook.Config.Snapshot.{Json}
use general_webhook.Store.Rows.{empty_db}
use general_webhook.Store.Calls.{Call, claims, purges, run_calls}
use general_webhook.Server.ClientIp.{Network}
use general_webhook.Server.Limiter.{Arithmetic, RateLimiter, new_rate_limiter}
use general_webhook.Server.Limiter.Bounded.{Bounded, run_requests, new_rate_limiter-Bounded}
use general_webhook.Server.Headers.{Library, Request}
use general_webhook.Server.Handler.{State, Refusal}
use general_webhook.Server.Handler.Rules.{Same}
use general_webhook.Server.Webhook.{Setup, webhook}
use general_webhook.Server.Webhook.Outcome.{Outcome, Refused, webhook-Outcome, webhook-Balanced}
use general_webhook.Server.Webhook.Accepted.{Admitted, webhook-Admitted}
use general_webhook.Server.Webhook.Replayed.{webhook-once}
use general_webhook.Server.Admin.{Texts, shown_token, admin_route, queue_stats_handler}
use general_webhook.Server.Admin.Guarded.{admin_route-guarded}
use general_webhook.Server.Budget.{
  Budget, new_budget, acquire, release, acquires, releases, run_steps, Within, new_budget-Within,
  release-acquire,
}

new_budget-Within_example : Within (new_budget (pos 2) (pos 100)) (
    run_steps
      (acquires (pos 60) ∷ acquires (pos 60) ∷ releases (pos 60) ∷ [])
      (new_budget (pos 2) (pos 100)))
new_budget-Within_example =
    new_budget-Within (pos 2) (pos 100)
      (acquires (pos 60) ∷ acquires (pos 60) ∷ releases (pos 60) ∷ [])

abbrev half_used : Budget
half_used = record { max_conns = 2; max_bytes = 100; conns = 1; bytes = 60 }

grants : acquire (pos 60) (new_budget (pos 2) (pos 100)) ≡ (true, half_used)
unfolding acquire new_budget
grants = refl

release-acquire_example : release (pos 60) half_used ≡ new_budget (pos 2) (pos 100)
release-acquire_example = release-acquire (pos 60) (new_budget (pos 2) (pos 100)) half_used grants

abbrev count : Arithmetic ℕ
count = record {
  of_int = λ n. n;
  sixtieth = λ n. n / 60;
  is_positive = λ n. ltb 0 n;
  minus_one = λ n. n - 1;
  below_one = λ n. ltb n 1;
  refilled = λ tokens elapsed refill capacity.
      let full = tokens + elapsed * refill / 1_000_000_000 in
      if ltb capacity full then capacity else full;
}

new_rate_limiter-Bounded_example :
    Bounded 4096
      (run_requests count (("a", 1) ∷ ("b", 2) ∷ ("a", 3) ∷ []) (new_rate_limiter count (pos 2) 1))
new_rate_limiter-Bounded_example =
    new_rate_limiter-Bounded count (pos 2) 1 (("a", 1) ∷ ("b", 2) ∷ ("a", 3) ∷ [])
      (refl, (refl, (refl, tt)))

abbrev lib : Library
lib = record {
  auth = record {
    trim_space = λ s. s;
    to_lower = λ s. s;
    trim_prefix = λ _ s. s;
    sign = λ secret payload. "signed";
  };
  before_semicolon = λ s. s;
  has_suffix = λ _ _. false;
  parse_int = λ _. some (pos 1000);
  text_of = λ _. "{}";
  valid_json = λ _. true;
  sha256_hex = λ _. "44136fa3";
}

abbrev json : Json
json = record {
  marshal = λ _. some "plan";
  unmarshal = λ _. none;
  marshal_plans = λ _. none;
  sha256_hex = λ s. s;
}

abbrev net : Network ℕ
net = record {
  host_of = λ s. some s;
  parse_ip = λ _. none;
  trusted = λ _. false;
  split_commas = λ s. s ∷ [];
  trim_space = λ s. s;
}

abbrev git : Source
git = record {
  name = "git";
  auth = record { type = "hmac"; header = ""; secret = "0123456789abcdef"; signed_headers = [] };
  extract = [];
  rules = [];
  actions = [];
  log_policy = none;
  redaction = none;
}

abbrev setup : Setup ℕ ℕ
setup = record {
  config = record seed { sources = git ∷ [] };
  lib = lib;
  json = json;
  network = net;
  num = count;
}

abbrev github : String → String
github name =
    if str_eq name "Content-Type"
    then "application/json"
    else if str_eq name "X-Hub-Signature-256"
    then "signed"
    else if str_eq name "X-Delivery-Id"
    then "d1"
    else if str_eq name "X-Webhook-Timestamp"
    then "1000"
    else ""

abbrev push : Request
push = record {
  source = "git";
  headers = github;
  remote_addr = "10.0.0.1";
  content_length = pos 2;
  body = some (123 ∷ 125 ∷ []);
  now = 1_000_000_000_000;
  new_id = some "e1";
}

abbrev open_limiter : RateLimiter ℕ
open_limiter = record { capacity = 10; refill = 1; buckets = []; max_keys = 4096 }

abbrev idle : State ℕ
idle = record {
  limiter = open_limiter;
  global = open_limiter;
  pre_auth = open_limiter;
  ops = open_limiter;
  budget = record { max_conns = 2; max_bytes = 100; conns = 0; bytes = 0 };
  stopping = false;
  rejected = record { pre_auth_ip = 0; authenticated_global = 0; source_ip = 0; admin_ip = 0 };
  world = record { db = empty_db; faults = [] };
  life = record { buffer = 8; workers = 1; hints = 0; stopped = false; live_workers = 1 };
}

webhook-Outcome_example : Outcome setup push idle (webhook setup push idle)
webhook-Outcome_example = webhook-Outcome setup push idle

webhook-Balanced_example : (webhook setup push idle).1.budget ≡ idle.budget
webhook-Balanced_example = webhook-Balanced setup push idle

accepts : (webhook setup push idle).0 ≡ inr "e1"
unfolding webhook general_webhook.Server.Handler.◌>>=◌ general_webhook.Config.source_by_name
    general_webhook.Base.first_where general_webhook.Server.Handler.limited
    general_webhook.Server.Limiter.allow general_webhook.Base.delete_where
    general_webhook.Server.Handler.budgeted acquire general_webhook.Server.Headers.reserved
    general_webhook.Auth.verify general_webhook.Store.Tx.transact general_webhook.Auth.build_payload
    general_webhook.Auth.delivery_id general_webhook.Auth.join_lines
    general_webhook.Auth.signed_part general_webhook.Auth.signed_parts
    general_webhook.Auth.verify_hmac general_webhook.Auth.verify_token
    general_webhook.Server.Headers.valid_delivery_id
    general_webhook.Server.Headers.valid_replay_headers
    general_webhook.Config.Snapshot.snapshot_source general_webhook.Server.Handler.stored
    general_webhook.Store.Accept.save_pending_event_guarded general_webhook.Store.Tx.◌>>=◌
    general_webhook.Store.Accept.reserve_body general_webhook.Store.Tx.require
    general_webhook.Store.Accept.insert_guard general_webhook.Base.exists
    general_webhook.Store.Accept.delete_expired_guard general_webhook.Store.Accept.insert_event
    general_webhook.Server.Handler.wake_queue
accepts = refl

webhook-Admitted_example : Admitted setup push idle (webhook setup push idle).1
webhook-Admitted_example = webhook-Admitted setup push idle "e1" accepts

-- The same body again, a minute later.
abbrev again : Request
again = record push { now = 1_060_000_000_000; new_id = some "e2" }

-- Between the two a worker claims the event, and old rows are purged.
abbrev between : List Call
between =
    claims (pos 60_000_000_000) 1_001_000_000_000 "w1"
    ∷ purges 500_000_000_000 1_002_000_000_000
    ∷ []

abbrev later_state : State ℕ
unfolding webhook
later_state = record (webhook setup push idle).1 {
  world = run_calls between (webhook setup push idle).1.world;
}

webhook-once_example : Refused setup again later_state (webhook setup again later_state)
unfolding general_webhook.Config.source_by_name general_webhook.Base.first_where webhook later_state
webhook-once_example =
    webhook-once setup push again idle later_state between "e1" git accepts refl refl refl refl
      (omega arith) (λ _. refl) (tt, (omega arith, tt)) refl

abbrev texts : Texts
texts = record {
  fields = λ s. s ∷ [];
  equal_fold = str_eq;
  read_reason = λ _. none;
  redact = λ s. s;
  atoi = λ _. none;
}

-- A server with an admin token, and a request that shows it.
abbrev guarded_setup : Setup ℕ ℕ
guarded_setup = record setup {
  config = record setup.config {
    admin = record { header = "X-Admin-Token"; token = "0123456789abcdef" };
  };
}

abbrev asks : Request
asks = record push { headers = λ _. "0123456789abcdef" }

admin_route-guarded_example :
    ((str_eq guarded_setup.config.admin.token "" ≡ false)
      × (shown_token guarded_setup texts asks ≡ guarded_setup.config.admin.token))
    ⊎ (Same idle
          (admin_route guarded_setup texts (queue_stats_handler guarded_setup texts) asks idle).1
        × ((x : Refusal) × ((admin_route guarded_setup texts
                (queue_stats_handler guarded_setup texts)
                asks
                idle).0
              ≡ inl x)))
admin_route-guarded_example =
    admin_route-guarded guarded_setup texts (queue_stats_handler guarded_setup texts) asks idle
