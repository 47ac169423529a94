-- ===== src/Store/Audit.antt =====
-- internal/store/store.go: SaveActionLog, SaveActionAttemptLog, GetPayload, GetEvent, HasEvent,
-- ListActionLogs and ReadyCheck.
use general_webhook.Base.{
  ℕ, suc, ◌-◌, ℤ, pos, negsuc, minus_one, String, Bool, Option, none, some, List, [], ◌∷◌, ◌++◌,
  str_eq, ◌==◌, if◌then◌else◌, coalesce, exists, first_where, take,
}
use general_webhook.Store.Rows.{EventStatus, EventRow, LogRow, Db, has_id}
use general_webhook.Store.Claim.{unix_milli}
use general_webhook.Store.Tx.{
  Tx, pure, statement, query, transact, require, optional, or_no_rows, not_found, ◌>>=◌, ◌>>◌,
}

-- The arguments of SaveActionAttemptLog after the event.
pub record Attempt : Type 0 where
  pub action_index : ℤ
  pub generation : ℕ
  pub action : String
  pub target : String
  pub attempt : ℕ
  pub success : Bool
  pub detail : String
  pub duration : ℕ
  pub at : ℕ

unfoldable pub insert_log : String → Attempt → Db → Unit {0} × Db
insert_log id e d = (
  tt,
  record d {
    logs =
        d.logs
        ++ record {
          id = d.next_log_id;
          event_id = id;
          action = e.action;
          action_index = e.action_index;
          replay_generation = e.generation;
          target = e.target;
          attempt = e.attempt;
          success = e.success;
          detail = e.detail;
          duration_ms = unix_milli e.duration;
          created_at_ms = unix_milli e.at;
        }
          ∷ [];
    next_log_id = suc d.next_log_id;
  },
)

unfoldable pub save_action_attempt_log : String → Attempt → Tx Unit
save_action_attempt_log id e = do
  known ← query (λ d. exists (has_id id) d.events)
  require known not_found
  statement (insert_log id e)

unfoldable pub save_action_log : String → String → String → ℕ → Bool → String → ℕ → ℕ → Tx Unit
unfolding save_action_attempt_log
save_action_log id action target attempt success detail duration at =
    save_action_attempt_log id (record {
      action_index = minus_one;
      generation = 0;
      action = action;
      target = target;
      attempt = attempt;
      success = success;
      detail = detail;
      duration = duration;
      at = at;
    })

unfoldable pub get_payload : String → Tx (Option (List ℕ) × String)
get_payload id = do
  found ← query (λ d. first_where (has_id id) d.events)
  r ← or_no_rows found
  pure (r.payload, r.source)

unfoldable pub has_event : String → Tx Bool
has_event id = query (λ d. exists (has_id id) d.events)

pub record EventMeta : Type 0 where
  pub id : String
  pub source : String
  pub remote_ip : String
  pub status : EventStatus
  pub received_at_ms : ℕ
  pub processed_at_ms : Option ℕ
  pub external_delivery_id : String
  pub config_hash : String
  pub replay_generation : ℕ
  pub replay_reason : String

unfoldable pub scan_meta : EventRow → EventMeta
scan_meta r = record {
  id = r.id;
  source = r.source;
  remote_ip = r.remote_ip;
  status = r.status;
  received_at_ms = r.received_at_ms;
  processed_at_ms = r.processed_at_ms;
  external_delivery_id = coalesce r.external_delivery_id "";
  config_hash = coalesce r.config_hash "";
  replay_generation = r.replay_generation;
  replay_reason = coalesce r.replay_reason "";
}

unfoldable pub find_meta : String → Tx EventMeta
unfolding scan_meta
find_meta id = do
  found ← query (λ d. first_where (has_id id) d.events)
  r ← or_no_rows found
  pure (scan_meta r)

unfoldable pub get_event : String → Tx (Option EventMeta)
unfolding find_meta
get_event id = optional (find_meta id)

-- WHERE event_id = ? ORDER BY id DESC: the ids grow along the table, so later rows come first.
unfoldable pub newest_logs : String → List LogRow → List LogRow → List LogRow
newest_logs id found [] = found
newest_logs id found (l ∷ ls) =
    newest_logs id (if str_eq l.event_id id then l ∷ found else found) ls

-- `if limit <= 0 { limit = 20 }`
unfoldable pub log_limit : ℤ → ℕ
log_limit (pos n) = if n == 0 then 20 else n
log_limit (negsuc n) = 20

unfoldable pub list_action_logs : String → ℤ → Tx (List LogRow)
unfolding newest_logs log_limit
list_action_logs id limit = query (λ d. take (log_limit limit) (newest_logs id [] d.logs))

-- The write probe: INSERT INTO _ready_check … ON CONFLICT(id) DO UPDATE SET nonce = 1 - nonce.
unfoldable pub toggle_nonce : Db → Unit {0} × Db
toggle_nonce d =
    (tt, record d { ready_nonce = some (elim d.ready_nonce [ none ↦ 1 | some n ↦ 1 - n ]) })

unfoldable pub ready_check : Tx Unit
unfolding toggle_nonce
ready_check = transact (statement toggle_nonce)
