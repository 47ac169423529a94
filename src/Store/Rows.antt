-- ===== src/Store/Rows.antt =====
-- internal/store/store.go: the tables of `migrate`, one record for a row, and the values of their
-- columns. The DATETIME columns are written beside their `_ms` twins and read only by the backfill
-- of `migrate`; they are left out.
use general_webhook.Base.{
  ℕ, ℤ, String, Bool, true, false, Option, none, List, [], ◌&&◌, str_eq, ◌==◌,
}

-- The values of `events.status`.
pub data EventStatus : Type 0 where
  pending processing retrying done dead skipped partial error received rejected : EventStatus

-- The values of `event_actions.status`.
pub data ActionStatus : Type 0 where
  pending running retrying done dead : ActionStatus

-- A row of `events`.
pub record EventRow : Type 0 where
  pub id : String
  pub source : String
  pub remote_ip : String
  pub payload : Option (List ℕ)
  pub status : EventStatus
  pub received_at_ms : ℕ
  pub processed_at_ms : Option ℕ
  pub external_delivery_id : Option String
  pub body_sha256 : Option String
  pub lease_until_ms : Option ℕ
  pub lease_owner : Option String
  pub config_hash : Option String
  pub actions_json : Option String
  pub vars_json : Option String
  pub next_attempt_at_ms : Option ℕ
  pub replay_generation : ℕ
  pub replayed_at_ms : Option ℕ
  pub replay_reason : Option String

-- A row of `event_actions`.
pub record ActionRow : Type 0 where
  pub event_id : String
  pub action_index : ℕ
  pub status : ActionStatus
  pub attempt_count : ℕ
  pub next_attempt_at_ms : Option ℕ
  pub last_error : Option String
  pub retry_after_ms : Option ℕ
  pub completed_at_ms : Option ℕ

-- A row of `action_logs`; the index is -1 for a log outside the queue.
pub record LogRow : Type 0 where
  pub id : ℕ
  pub event_id : String
  pub action : String
  pub action_index : ℤ
  pub replay_generation : ℕ
  pub target : String
  pub attempt : ℕ
  pub success : Bool
  pub detail : String
  pub duration_ms : ℕ
  pub created_at_ms : ℕ

-- A row of `replay_guard`.
pub record GuardRow : Type 0 where
  pub source : String
  pub body_sha256 : String
  pub expires_at_ms : ℕ

-- A row of `heartbeat_logs`.
pub record HeartbeatRow : Type 0 where
  pub id : ℕ
  pub target : String
  pub origin : String
  pub mode : String
  pub health : String
  pub error : String
  pub http_status : ℕ
  pub duration_ms : ℕ
  pub created_at_ms : ℕ

-- The database; `next_log_id` and `next_heartbeat_id` are the AUTOINCREMENT counters, and
-- `ready_nonce` is the only row of `_ready_check`.
pub record Db : Type 0 where
  pub events : List EventRow
  pub actions : List ActionRow
  pub logs : List LogRow
  pub guards : List GuardRow
  pub heartbeats : List HeartbeatRow
  pub next_log_id : ℕ
  pub next_heartbeat_id : ℕ
  pub ready_nonce : Option ℕ

abbrev pub empty_db : Db
empty_db = record {
  events = [];
  actions = [];
  logs = [];
  guards = [];
  heartbeats = [];
  next_log_id = 1;
  next_heartbeat_id = 1;
  ready_nonce = none;
}

abbrev pub is_processing : EventStatus → Bool
is_processing EventStatus.processing = true
is_processing _ = false

-- status IN ('done','dead','skipped','partial','error')
abbrev pub is_terminal : EventStatus → Bool
is_terminal EventStatus.done = true
is_terminal EventStatus.dead = true
is_terminal EventStatus.skipped = true
is_terminal EventStatus.partial = true
is_terminal EventStatus.error = true
is_terminal _ = false

-- status IN ('dead','partial','error')
abbrev pub is_replayable : EventStatus → Bool
is_replayable EventStatus.dead = true
is_replayable EventStatus.partial = true
is_replayable EventStatus.error = true
is_replayable _ = false

-- status IN ('pending', 'retrying')
abbrev pub is_waiting : EventStatus → Bool
is_waiting EventStatus.pending = true
is_waiting EventStatus.retrying = true
is_waiting _ = false

abbrev pub is_pending : EventStatus → Bool
is_pending EventStatus.pending = true
is_pending _ = false

abbrev pub is_running : ActionStatus → Bool
is_running ActionStatus.running = true
is_running _ = false

-- status IN ('pending', 'retrying')
abbrev pub is_startable : ActionStatus → Bool
is_startable ActionStatus.pending = true
is_startable ActionStatus.retrying = true
is_startable _ = false

abbrev pub is_done : ActionStatus → Bool
is_done ActionStatus.done = true
is_done _ = false

abbrev pub is_dead : ActionStatus → Bool
is_dead ActionStatus.dead = true
is_dead _ = false

abbrev pub is_retrying : ActionStatus → Bool
is_retrying ActionStatus.retrying = true
is_retrying _ = false

abbrev pub is_pending_action : ActionStatus → Bool
is_pending_action ActionStatus.pending = true
is_pending_action _ = false

-- WHERE id = ?
abbrev pub has_id : String → EventRow → Bool
has_id id r = str_eq r.id id

-- WHERE event_id = ?
abbrev pub of_event : String → ActionRow → Bool
of_event id r = str_eq r.event_id id

-- WHERE event_id = ? AND action_index = ?
abbrev pub at_index : String → ℕ → ActionRow → Bool
at_index id index r = str_eq r.event_id id && r.action_index == index
