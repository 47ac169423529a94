-- ===== src/Server/Admin.antt =====
-- internal/server: New, ready, requireAdmin, getEvent, retryEvent, queueStats, readReplayReason,
-- heartbeatLogs and prometheusQuote. An answer is what is written as JSON, before it is a text.
pub mod Guarded
use Prim.Native.Char.{Char, code}
use Prim.Native.String.{[] as no_text, ◌∷◌ as char_then, ◌++◌ as ◌then◌, len}
use general_webhook.Base.{
  ℕ, ◌≤◌, ℤ, pos, negsuc, String, Bool, true, false, not, ◌&&◌, ◌||◌, Option, none, some, List, [],
  ◌∷◌, ltb, leb, ◌==◌, str_eq, if◌then◌else◌, length, take,
}
use general_webhook.Config.{Config, RateLimitConfig, RateLimitsConfig}
use general_webhook.Config.Float.{Float64}
use general_webhook.Config.Defaults.{with_defaults}
use general_webhook.Store.Rows.{LogRow, HeartbeatRow}
use general_webhook.Store.Tx.{World, Tx, Error, Result, ok, err, replay_unavailable}
use general_webhook.Store.Action.{ActionState, list_action_states}
use general_webhook.Store.Audit.{EventMeta, get_event, list_action_logs, ready_check}
use general_webhook.Store.Stats.{QueueStats, stats}
use general_webhook.Store.Replay.{replay_dead_event}
use general_webhook.Store.Heartbeats.{list_heartbeat_errors}
use general_webhook.Queue.Lifecycle.{Life, ready}
use general_webhook.Server.Budget.{Budget, new_budget}
use general_webhook.Server.Limiter.{Arithmetic, RateLimiter, new_rate_limiter}
use general_webhook.Server.Headers.{Request}
use general_webhook.Server.Handler.{
  Handler, State, Rejected, answer, refuse, demand, found, stored, wake_queue, limited, admin_ip,
  ◌>>=◌, ◌>>◌,
}
use general_webhook.Server.Webhook.{Setup, ip_of}

-- `fields` is strings.Fields, `equal_fold` strings.EqualFold, and `read_reason` the field "reason" of
-- json.Unmarshal, which answers nothing where that fails; `redact` is logger.RedactSensitive and
-- `atoi` strconv.Atoi.
pub record Texts : Type 0 where
  pub fields : String → List String
  pub equal_fold : String → String → Bool
  pub read_reason : List ℕ → Option String
  pub redact : String → String
  pub atoi : String → Option ℤ

abbrev none_rejected : Rejected
none_rejected = record { pre_auth_ip = 0; authenticated_global = 0; source_ip = 0; admin_ip = 0 }

abbrev positive_or : ℕ → ℤ → ℤ
positive_or d (pos n) = if n == 0 then pos d else pos n
positive_or d (negsuc n) = pos d

-- New, for a configuration that is not nil; the store and the queue are given.
unfoldable pub new_server :
    {F : Type 0} → Arithmetic F → (Float64 → F) → Config → World → Life → State F
unfolding new_rate_limiter new_budget with_defaults
new_server num of_float cfg world life =
    let rates = with_defaults cfg.server.rate_limit in
    let limiter_of : RateLimitConfig → RateLimiter _ =
      λ c. new_rate_limiter num c.burst (of_float c.per_second) in
    record {
      limiter = limiter_of rates.source_per_ip;
      global = limiter_of rates.global;
      pre_auth = limiter_of rates.pre_auth_per_ip;
      ops = limiter_of rates.admin_per_ip;
      budget =
          new_budget (positive_or 16 cfg.server.max_in_flight)
            (positive_or 33_554_432 cfg.server.max_in_flight_bytes);
      stopping = false;
      rejected = none_rejected;
      world = world;
      life = life;
    }

module _ {F : Type 0} where
  unfoldable pub set_stopping : State F → State F
  set_stopping s = record s { stopping = true }

  unfoldable pub stored_or : {A : Type 0} → ℕ → String → Result A → Handler F A
  stored_or code text (ok a) = answer a
  stored_or code text (err e) = refuse code text

  unfoldable pub ready_handler : Handler F String
  unfolding stored_or
  ready_handler s =
      if s.stopping
      then refuse 503 "stopping" s
      else if not (ready s.life)
      then refuse 503 "workers not ready" s
      else (do result ← stored ready_check; stored_or 503 "store not ready" result; answer "ok") s

-- n is 1..100.
abbrev in_range : ℤ → Bool
in_range (pos n) = not (ltb n 1 || ltb 100 n)
in_range (negsuc n) = false

-- The bearer token of a header value, or nothing.
abbrev bearer : Texts → List String → String
bearer texts [] = ""
bearer texts (a ∷ []) = ""
bearer texts (a ∷ b ∷ []) = if texts.equal_fold a "Bearer" then b else ""
bearer texts (a ∷ b ∷ c ∷ parts) = ""

abbrev is_zero : ℤ → Bool
is_zero (pos n) = n == 0
is_zero (negsuc n) = false

-- What getEvent writes.
pub record EventView : Type 0 where
  pub event : EventMeta
  pub actions : List ActionState
  pub action_logs : List LogRow

-- What retryEvent writes.
pub record Retried : Type 0 where
  pub event_id : String
  pub generation : ℕ

module _ {F Ip : Type 0} (setup : Setup F Ip) (texts : Texts) where
  -- The token that a request shows.
  unfoldable pub shown_token : Request → String
  shown_token r =
      let header = setup.config.admin.header in
      let got = setup.lib.auth.trim_space (r.headers header) in
      if texts.equal_fold header "Authorization" then bearer texts (texts.fields got) else got

  unfoldable pub require_admin : {A : Type 0} → (Request → Handler F A) → Request → Handler F A
  unfolding shown_token
  require_admin next r = do
    limited setup.num admin_ip (ip_of setup r) r.now
    demand (str_eq (shown_token r) setup.config.admin.token) 401 "unauthorized"
    next r

  -- A route of the administrator. Without an admin token it is not there, and the mux answers 404.
  unfoldable pub admin_route : {A : Type 0} → (Request → Handler F A) → Request → Handler F A
  unfolding require_admin
  admin_route next r =
      if str_eq setup.config.admin.token ""
      then refuse 404 "404 page not found"
      else require_admin next r

  unfoldable pub get_event_handler : String → Request → Handler F EventView
  unfolding stored_or
  get_event_handler id r = do
    read ← stored (get_event id)
    maybe ← stored_or 500 "store error" read
    ev ← found maybe 404 "not found"
    read_logs ← stored (list_action_logs id (pos 20))
    logs ← stored_or 500 "store error" read_logs
    read_states ← stored (list_action_states id)
    states ← stored_or 500 "store error" read_states
    answer (record { event = ev; actions = states; action_logs = logs })

  -- `none` is an error. A body that is cut at 1025 bytes is longer than 1024.
  unfoldable pub read_replay_reason : Request → Option String
  read_replay_reason r = if is_zero r.content_length then some "manual replay" else elim r.body [
    | none ↦ none
    | some all ↦
        if ltb 1024 (length (take 1025 all))
        then none
        else if str_eq (setup.lib.auth.trim_space (setup.lib.text_of all)) ""
        then some "manual replay"
        else elim (texts.read_reason all) [
          | none ↦ none
          | some raw ↦
              let reason = setup.lib.auth.trim_space raw in
              let given = if str_eq reason "" then "manual replay" else reason in
              if ltb 256 (len given) then none else some given
        ]
  ]

  abbrev replay_refusal : Result ℕ → Handler F ℕ
  replay_refusal (ok generation) = answer generation
  replay_refusal (err replay_unavailable) = refuse 409 "event replay input unavailable"
  replay_refusal (err _) = refuse 409 "event not retryable"

  unfoldable pub retry_event_handler : String → Request → Handler F Retried
  unfolding read_replay_reason
  retry_event_handler id r = do
    reason ← found (read_replay_reason r) 400 "invalid replay request"
    result ← stored (replay_dead_event id (texts.redact reason) r.now)
    generation ← replay_refusal result
    wake_queue
    answer (record { event_id = id; generation = generation })

  unfoldable pub queue_stats_handler : Request → Handler F QueueStats
  unfolding stored_or
  queue_stats_handler r = do read ← stored (stats r.now); stored_or 500 "store error" read

  -- The number of entries asked for, of the query parameter "limit".
  unfoldable pub heartbeat_logs_limit : String → Option ℤ
  heartbeat_logs_limit raw =
      if str_eq raw ""
      then some (pos 20)
      else elim (texts.atoi raw) [ none ↦ none | some n ↦ if in_range n then some n else none ]

  unfoldable pub heartbeat_logs_handler : String → Handler F (List HeartbeatRow)
  unfolding stored_or heartbeat_logs_limit
  heartbeat_logs_handler raw = do
    limit ← found (heartbeat_logs_limit raw) 400 "limit must be 1..100"
    read ← stored (list_heartbeat_errors limit)
    stored_or 503 "store error" read

-- One character of a quoted label; a control character becomes U+FFFD.
unfoldable pub quoted_char : Char → String
quoted_char c =
    if code c == 92
    then "\\\\"
    else if code c == 34
    then "\\\""
    else if code c == 10
    then "\\n"
    else if ltb (code c) 32 || code c == 127
    then "�"
    else char_then c no_text

unfoldable pub quoted_text : String → String
unfolding quoted_char
quoted_text no_text = ""
quoted_text (char_then c s) = let rest = quoted_text s in quoted_char c then rest

unfoldable pub prometheus_quote : String → String
unfolding quoted_text
prometheus_quote value = "\"" then (quoted_text value then "\"")
