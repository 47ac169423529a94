-- ===== src/Store/Heartbeats.antt =====
-- internal/store/heartbeat_logs.go: SaveHeartbeatError and ListHeartbeatErrors. The filters of the
-- texts, heartbeatAuditText and heartbeatAuditOrigin, are parameters; the deadline of the writing
-- connection is one of the ways in which the statement fails.
use general_webhook.Base.{
  ℕ, suc, min, ℤ, pos, negsuc, String, Bool, List, [], ◌∷◌, ◌++◌, ◌&&◌, ◌||◌, leb, ltb, ◌==◌,
  if◌then◌else◌, take,
}
use general_webhook.Store.Rows.{HeartbeatRow, Db}
use general_webhook.Store.Claim.{unix_milli}
use general_webhook.Store.Tx.{Tx, statement, query}

-- The entry of the caller; `created_at` is the clock where its time is zero.
pub record HeartbeatLog : Type 0 where
  pub target : String
  pub origin : String
  pub mode : String
  pub health : String
  pub error : String
  pub http_status : ℤ
  pub duration_ms : ℤ
  pub created_at : ℕ

-- `if v < 100 || v > 599 { v = 0 }`
abbrev pub http_status_or_zero : ℤ → ℕ
http_status_or_zero (pos n) = if ltb n 100 || ltb 599 n then 0 else n
http_status_or_zero (negsuc n) = 0

-- `if v < 0 { v = 0 }`
abbrev pub duration_or_zero : ℤ → ℕ
duration_or_zero (pos n) = n
duration_or_zero (negsuc n) = 0

module _ (audit_text : String → ℕ → String) (audit_origin : String → String) where
  unfoldable pub heartbeat_row : HeartbeatLog → ℕ → HeartbeatRow
  heartbeat_row entry id = record {
    id = id;
    target = audit_text entry.target 128;
    origin = audit_origin entry.origin;
    mode = audit_text entry.mode 32;
    health = audit_text entry.health 32;
    error = audit_text entry.error 2048;
    http_status = http_status_or_zero entry.http_status;
    duration_ms = duration_or_zero entry.duration_ms;
    created_at_ms = unix_milli entry.created_at;
  }

  unfoldable pub insert_heartbeat : HeartbeatLog → Db → Unit {0} × Db
  unfolding heartbeat_row
  insert_heartbeat entry d = (
    tt,
    record d {
      heartbeats = d.heartbeats ++ heartbeat_row entry d.next_heartbeat_id ∷ [];
      next_heartbeat_id = suc d.next_heartbeat_id;
    },
  )

  unfoldable pub save_heartbeat_error : HeartbeatLog → Tx Unit
  unfolding insert_heartbeat
  save_heartbeat_error entry = statement (insert_heartbeat entry)

-- ORDER BY created_at_ms DESC, id DESC
abbrev pub is_newer : HeartbeatRow → HeartbeatRow → Bool
is_newer a b =
    ltb b.created_at_ms a.created_at_ms || (a.created_at_ms == b.created_at_ms && leb b.id a.id)

unfoldable pub insert_newest : HeartbeatRow → List HeartbeatRow → List HeartbeatRow
insert_newest a [] = a ∷ []
insert_newest a (b ∷ rows) =
    let rest = insert_newest a rows in if is_newer a b then a ∷ b ∷ rows else b ∷ rest

unfoldable pub newest_first : List HeartbeatRow → List HeartbeatRow
unfolding insert_newest
newest_first [] = []
newest_first (a ∷ rows) = insert_newest a (newest_first rows)

-- `if limit <= 0 { limit = 50 }`, and at most 100
unfoldable pub heartbeat_limit : ℤ → ℕ
heartbeat_limit (pos n) = min (if n == 0 then 50 else n) 100
heartbeat_limit (negsuc n) = 50

unfoldable pub list_heartbeat_errors : ℤ → Tx (List HeartbeatRow)
unfolding newest_first heartbeat_limit
list_heartbeat_errors limit = query (λ d. take (heartbeat_limit limit) (newest_first d.heartbeats))
