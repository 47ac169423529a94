-- ===== src/Heartbeat.antt =====
-- internal/heartbeat/heartbeat.go: New, sample, deliver and the answer of a target. Each target has its own
-- worker, and the workers share the time of the last success. A worker moves from one access to the
-- shared memory to the next, so that the workers interleave as they may: a phase says where `deliver`
-- stands.
pub mod Metrics
pub mod Target
mod Examples
use general_webhook.Base.{
  ℕ, zero, suc, ◌+◌, ◌/◌, ℤ, pos, negsuc, String, Bool, true, false, not, ◌&&◌, ◌||◌, Option, none,
  some, List, [], ◌∷◌, ltb, leb, ◌==◌, str_eq, if◌then◌else◌, map,
}
use general_webhook.Config.{HeartbeatTarget, HeartbeatConfig}

pub data Status : Type 0 where
  pass fail : Status

-- `last_health` is `none` where it is "". Times are in seconds, 0 for never.
pub record TargetMetrics : Type 0 where
  pub name : String
  pub mode : String
  pub attempts : ℕ
  pub failures : ℕ
  pub log_failures : ℕ
  pub last_attempt : ℕ
  pub last_success : ℕ
  pub last_failure : ℕ
  pub last_duration_ms : ℕ
  pub last_http_status : ℕ
  pub last_health : Option Status

-- Where `deliver` of a target stands: before it, in pushTarget, before the load of lastSuccess, before
-- the CompareAndSwap from the loaded value, and in the writing of the log.
pub data Phase : Type 0 where
  idle sending logging : Phase
  raising : ℕ → Phase
  swapping : ℕ → ℕ → Phase

pub record Worker : Type 0 where
  pub phase : Phase
  pub metrics : TargetMetrics

pub record Monitor : Type 0 where
  pub cfg : HeartbeatConfig
  pub workers : List Worker
  pub last_success : ℕ

-- `if v <= 0 { v = d }`
abbrev positive_or : ℕ → ℤ → ℤ
positive_or d (pos n) = if n == 0 then pos d else pos n
positive_or d (negsuc n) = pos d

abbrev with_mode : HeartbeatTarget → HeartbeatTarget
with_mode t = record t { mode = if str_eq t.mode "" then "kuma" else t.mode }

abbrev idle_worker : HeartbeatTarget → Worker
idle_worker t = record {
  phase = idle;
  metrics = record {
    name = t.name;
    mode = t.mode;
    attempts = 0;
    failures = 0;
    log_failures = 0;
    last_attempt = 0;
    last_success = 0;
    last_failure = 0;
    last_duration_ms = 0;
    last_http_status = 0;
    last_health = none;
  };
}

-- The workers of the targets, with their metrics.
unfoldable pub idle_workers : List HeartbeatTarget → List Worker
idle_workers [] = []
idle_workers (t ∷ targets) = idle_worker (with_mode t) ∷ idle_workers targets

unfoldable pub new_monitor : HeartbeatConfig → Monitor
unfolding idle_workers
new_monitor cfg = record {
  cfg = record cfg {
    interval = positive_or 60_000_000_000 cfg.interval;
    timeout = positive_or 10_000_000_000 cfg.timeout;
    targets = map with_mode cfg.targets;
  };
  workers = idle_workers cfg.targets;
  last_success = 0;
}

-- What the sample of a round finds: the errors of ReadyCheck and Stats, the deadline, and ready.
pub record Sample : Type 0 where
  pub has_store : Bool
  pub write_ok : Bool
  pub stats_ok : Bool
  pub is_expired : Bool
  pub is_ready : Bool

unfoldable pub sampled : Sample → Status
sampled s =
    if s.has_store && (s.write_ok && s.stats_ok && not s.is_expired && s.is_ready)
    then pass
    else fail

-- The answer of a target as pushTarget judges it: `body_ok` is that the body was read within its limit
-- and decoded, and `is_accepted` the field `ok` of its result.
pub record Answer : Type 0 where
  pub status_code : ℕ
  pub is_read : Bool
  pub body_ok : Bool
  pub is_accepted : Bool

-- Whether pushTarget returns without an error; `none` is a request that was not answered.
unfoldable pub accepted : String → Option Answer → Bool
accepted mode none = false
accepted mode (some a) =
    if ltb a.status_code 200 || leb 300 a.status_code
    then false
    else if str_eq mode "kuma" || str_eq mode ""
    then a.is_read && a.body_ok && a.is_accepted
    else a.is_read

-- The status code that pushTarget returns.
abbrev pub http_status_of : Option Answer → ℕ
http_status_of none = 0
http_status_of (some a) = a.status_code

pub data LogEnd : Type 0 where
  log_canceled log_saved log_failed : LogEnd

-- What a worker meets in a move: the sample, the clock in nanoseconds, the answer, the duration of the
-- push, whether the context of the monitor has ended, and how the writing of the log ends.
pub record Input : Type 0 where
  pub sample : Sample
  pub now : ℕ
  pub answer : Option Answer
  pub duration_ms : ℕ
  pub is_canceled : Bool
  pub log_end : LogEnd

-- time.Time.Unix, of a time that is not before 1970.
abbrev pub unix : ℕ → ℕ
unix t = t / 1_000_000_000

unfoldable pub attempted : Status → ℕ → TargetMetrics → TargetMetrics
attempted health now m = record m {
  attempts = m.attempts + 1;
  last_attempt = unix now;
  last_health = some health;
}

unfoldable pub pushed : Input → TargetMetrics → TargetMetrics
pushed i m = record m {
  last_duration_ms = i.duration_ms;
  last_http_status = http_status_of i.answer;
  last_success = unix i.now;
}

unfoldable pub push_failed : Input → TargetMetrics → TargetMetrics
push_failed i m = record m {
  last_duration_ms = i.duration_ms;
  last_http_status = http_status_of i.answer;
  failures = if i.is_canceled then m.failures else m.failures + 1;
  last_failure = if i.is_canceled then m.last_failure else unix i.now;
}

unfoldable pub log_missed : TargetMetrics → TargetMetrics
log_missed m = record m { log_failures = m.log_failures + 1 }

-- A log that is not written is counted, unless the monitor stops before the writing.
unfoldable pub after_log : LogEnd → TargetMetrics → TargetMetrics
unfolding log_missed
after_log log_canceled m = m
after_log log_saved m = m
after_log log_failed m = log_missed m

abbrev pub worker : Phase → TargetMetrics → Worker
worker phase metrics = record { phase = phase; metrics = metrics }

-- A move of a worker in its phase, with the shared time of the last success.
unfoldable pub turn : Phase → Input → TargetMetrics → ℕ → Worker × ℕ
unfolding sampled accepted attempted pushed push_failed after_log
turn idle i m last =
    if i.is_canceled
    then (worker idle m, last)
    else (worker sending (attempted (sampled i.sample) i.now m), last)
turn sending i m last =
    if accepted m.mode i.answer
    then (worker (raising (unix i.now)) (pushed i m), last)
    else (worker (if i.is_canceled then idle else logging) (push_failed i m), last)
turn (raising at) i m last =
    if ltb last at then (worker (swapping at last) m, last) else (worker idle m, last)
turn (swapping at previous) i m last =
    if last == previous then (worker idle m, at) else (worker (raising at) m, last)
turn logging i m last = (worker idle (after_log i.log_end m), last)

-- The worker of a target moves; a number that no target has moves none.
unfoldable pub turn_at : ℕ → Input → List Worker → ℕ → List Worker × ℕ
unfolding turn
turn_at n i [] last = ([], last)
turn_at zero i (w ∷ ws) last = let moved = turn w.phase i w.metrics last in (moved.0 ∷ ws, moved.1)
turn_at (suc n) i (w ∷ ws) last = let moved = turn_at n i ws last in (w ∷ moved.0, moved.1)

unfoldable pub run : List (ℕ × Input) → Monitor → Monitor
unfolding turn_at
run [] m = m
run (move ∷ moves) m =
    let moved = turn_at move.0 move.1 m.workers m.last_success in
    run moves (record m { workers = moved.0; last_success = moved.1 })
