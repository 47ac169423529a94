-- ===== src/Store/Accept.antt =====
-- internal/store/store.go: SavePendingEvent, SavePendingEventGuarded, SaveEvent, HasRecentBodyHash.
pub mod Duplicates
pub mod Lasting
use general_webhook.Base.{
  ℕ, String, Bool, true, false, Option, none, some, List, [], ◌∷◌, ◌++◌, ◌&&◌, ◌||◌, not, str_eq,
  leb, if◌then◌else◌, exists, delete_where,
}
use general_webhook.Store.Rows.{EventStatus, EventRow, GuardRow, Db}
use general_webhook.Store.Tx.{
  Tx, pure, raise, statement, query, transact, require, duplicate_body, duplicate_event, ◌>>=◌,
  ◌>>◌,
}

-- The arguments of `savePendingEvent`, the times in milliseconds.
pub record NewEvent : Type 0 where
  pub id : String
  pub source : String
  pub ip : String
  pub payload : List ℕ
  pub at_ms : ℕ
  pub external_delivery_id : String
  pub body_sha256 : String
  pub config_hash : String
  pub actions_json : String

abbrev pub is_empty : String → Bool
is_empty s = str_eq s ""

unfoldable pub nullable : String → Option String
nullable v = if is_empty v then none else some v

-- The row of the INSERT INTO events.
unfoldable pub new_row : NewEvent → EventRow
unfolding nullable
new_row e = record {
  id = e.id;
  source = e.source;
  remote_ip = e.ip;
  payload = some e.payload;
  status = EventStatus.pending;
  received_at_ms = e.at_ms;
  processed_at_ms = none;
  external_delivery_id = nullable e.external_delivery_id;
  body_sha256 = nullable e.body_sha256;
  lease_until_ms = none;
  lease_owner = none;
  config_hash = nullable e.config_hash;
  actions_json = nullable e.actions_json;
  vars_json = none;
  next_attempt_at_ms = some e.at_ms;
  replay_generation = 0;
  replayed_at_ms = none;
  replay_reason = none;
}

-- The unique index idx_events_delivery: the same source, and the same delivery id, which is neither
-- NULL nor empty.
unfoldable pub same_delivery : Option String → Option String → Bool
same_delivery none d = false
same_delivery (some a) none = false
same_delivery (some a) (some b) = not (is_empty a) && str_eq a b

-- A conflict with the primary key of `events` or with idx_events_delivery.
unfoldable pub clashes : EventRow → EventRow → Bool
unfolding same_delivery
clashes new old =
    str_eq old.id new.id
    || (str_eq old.source new.source
        && same_delivery old.external_delivery_id new.external_delivery_id)

-- INSERT OR IGNORE INTO events, with whether the row went in.
unfoldable pub insert_event : EventRow → Db → Bool × Db
insert_event row d =
    if exists (clashes row) d.events
    then (false, d)
    else (true, record d { events = d.events ++ row ∷ [] })

abbrev pub guards_body : String → String → GuardRow → Bool
guards_body source hash g = str_eq g.source source && str_eq g.body_sha256 hash

-- DELETE FROM replay_guard WHERE source = ? AND body_sha256 = ? AND expires_at_ms <= ?
unfoldable pub delete_expired_guard : String → String → ℕ → Db → Unit {0} × Db
delete_expired_guard source hash at_ms d = (
  tt,
  record d {
    guards = delete_where (λ g. guards_body source hash g && leb g.expires_at_ms at_ms) d.guards;
  },
)

-- INSERT OR IGNORE INTO replay_guard, with whether the row went in.
unfoldable pub insert_guard : GuardRow → Db → Bool × Db
insert_guard new d =
    if exists (guards_body new.source new.body_sha256) d.guards
    then (false, d)
    else (true, record d { guards = d.guards ++ new ∷ [] })

-- The body replay key, reserved where the guard is asked for and there is a hash.
unfoldable pub reserve_body : NewEvent → Option ℕ → Tx Unit
reserve_body e none = pure tt
reserve_body e (some expires_at_ms) = if is_empty e.body_sha256 then pure tt else do
  statement (delete_expired_guard e.source e.body_sha256 e.at_ms)
  fresh ← statement (
      insert_guard
        (record { source = e.source; body_sha256 = e.body_sha256; expires_at_ms = expires_at_ms }))
  require fresh duplicate_body

-- `none` is the zero time, with which no guard is reserved.
unfoldable pub save_pending_event_at : NewEvent → Option ℕ → Tx Unit
save_pending_event_at e replay_expires_at_ms = transact do
  reserve_body e replay_expires_at_ms
  inserted ← statement (insert_event (new_row e))
  require inserted duplicate_event

unfoldable pub save_pending_event : NewEvent → Tx Unit
unfolding save_pending_event_at
save_pending_event e = save_pending_event_at e none

unfoldable pub save_pending_event_guarded : NewEvent → ℕ → Tx Unit
unfolding save_pending_event_at
save_pending_event_guarded e expires_at_ms = save_pending_event_at e (some expires_at_ms)

unfoldable pub save_event : String → String → String → List ℕ → ℕ → Tx Unit
unfolding save_pending_event
save_event id source ip payload at_ms = save_pending_event (record {
  id = id;
  source = source;
  ip = ip;
  payload = payload;
  at_ms = at_ms;
  external_delivery_id = "";
  body_sha256 = "";
  config_hash = "";
  actions_json = "";
})

unfoldable pub has_hash : String → Option String → Bool
has_hash hash none = false
has_hash hash (some h) = str_eq h hash

unfoldable pub has_recent_body_hash : String → String → ℕ → Tx Bool
unfolding has_hash
has_recent_body_hash source body_sha256 since_ms =
    if is_empty body_sha256
    then pure false
    else query (λ d.
      exists
        (λ r.
          str_eq r.source source
          && (has_hash body_sha256 r.body_sha256 && leb since_ms r.received_at_ms))
        d.events)
