-- ===== src/Store/Claim.antt =====
-- internal/store/store.go: ClaimPending and RenewLease. Times and leases are in nanoseconds, as
-- `time.Time` and `time.Duration` have them, and the columns in milliseconds.
pub mod Earliest
pub mod Exclusive
pub mod Lasting
use general_webhook.Base.{
  ℕ, ◌+◌, ◌-◌, ◌/◌, ℤ, pos, negsuc, String, Bool, true, false, Option, none, some, List, [], ◌∷◌,
  ◌&&◌, ◌||◌, not, str_eq, leb, ltb, ◌==◌, if◌then◌else◌, coalesce,
}
use general_webhook.Store.Rows.{
  EventStatus, ActionStatus, EventRow, ActionRow, Db, is_processing, is_running, has_id, of_event,
}
use general_webhook.Store.Accept.{is_empty}
use general_webhook.Store.Tx.{
  Tx, pure, or_no_rows, statement, query, transact, optional, require, no_rows, not_processing,
  update_events, update_actions, ◌>>=◌, ◌>>◌,
}

-- time.Time.UnixMilli, of a time that is not before 1970.
abbrev pub unix_milli : ℕ → ℕ
unix_milli t = t / 1_000_000

-- 2 * time.Minute
abbrev pub two_minutes : ℕ
two_minutes = 120_000_000_000

-- `if lease <= 0 { lease = 2 * time.Minute }`
unfoldable pub lease_or_default : ℤ → ℕ
lease_or_default (pos n) = if n == 0 then two_minutes else n
lease_or_default (negsuc n) = two_minutes

-- The WHERE clause of the claim, at the time `now_ms`.
unfoldable pub claimable : ℕ → EventRow → Bool
claimable now_ms r = elim r.status [
  | EventStatus.pending ↦ true
  | EventStatus.retrying ↦ leb (coalesce r.next_attempt_at_ms 0) now_ms
  | EventStatus.processing ↦ ltb (coalesce r.lease_until_ms 0) now_ms
  | _ ↦ false
]

-- COALESCE(next_attempt_at_ms, received_at_ms)
abbrev pub due_ms : EventRow → ℕ
due_ms r = coalesce r.next_attempt_at_ms r.received_at_ms

abbrev sooner : EventRow → Option EventRow → EventRow
sooner r none = r
sooner r (some s) = if leb (due_ms r) (due_ms s) then r else s

-- WHERE p ORDER BY due ASC LIMIT 1. SQL leaves the choice among equals open; here it is the first.
unfoldable pub earliest : (EventRow → Bool) → List EventRow → Option EventRow
earliest p [] = none
earliest p (r ∷ rs) = let rest = earliest p rs in if p r then some (sooner r rest) else rest

-- What the claim returns of the row, the times in milliseconds.
pub record PendingEvent : Type 0 where
  pub id : String
  pub source : String
  pub remote_ip : String
  pub payload : Option (List ℕ)
  pub vars_json : String
  pub external_delivery_id : String
  pub received_at_ms : ℕ
  pub retry_started_at_ms : ℕ
  pub config_hash : String
  pub actions_json : String
  pub replay_generation : ℕ

unfoldable pub scan_pending : EventRow → PendingEvent
scan_pending r = record {
  id = r.id;
  source = r.source;
  remote_ip = r.remote_ip;
  payload = r.payload;
  vars_json = coalesce r.vars_json "";
  external_delivery_id = coalesce r.external_delivery_id "";
  received_at_ms = r.received_at_ms;
  retry_started_at_ms = coalesce r.replayed_at_ms r.received_at_ms;
  config_hash = coalesce r.config_hash "";
  actions_json = coalesce r.actions_json "";
  replay_generation = r.replay_generation;
}

unfoldable pub take_lease : ℕ → String → EventRow → EventRow
take_lease until_ms owner r = record r {
  status = EventStatus.processing;
  lease_until_ms = some until_ms;
  lease_owner = some owner;
}

-- CASE WHEN attempt_count > 0 THEN attempt_count - 1 ELSE 0 END, and back to 'pending'.
unfoldable pub unstart : ActionRow → ActionRow
unstart a = record a {
  status = ActionStatus.pending;
  next_attempt_at_ms = none;
  attempt_count = if ltb 0 a.attempt_count then a.attempt_count - 1 else 0;
}

abbrev pub running_of : String → ActionRow → Bool
running_of id a = of_event id a && is_running a.status

unfoldable pub claim_row : ℤ → ℕ → String → Tx PendingEvent
claim_row lease now owner = do
  let now_ms = unix_milli now
  found ← query (λ d. earliest (claimable now_ms) d.events)
  r ← or_no_rows found
  n ← statement (
      update_events (λ s. has_id r.id s && claimable now_ms s)
        (take_lease (unix_milli (now + lease_or_default lease)) owner))
  require (not (n == 0)) no_rows
  statement (update_actions (running_of r.id) unstart)
  pure (scan_pending r)

-- `none` is `return nil, nil`: nothing to claim, and the transaction is rolled back.
unfoldable pub claim_pending : ℤ → ℕ → String → Tx (Option PendingEvent)
unfolding claim_row
claim_pending lease now owner = optional (transact (claim_row lease now owner))

-- lease_owner = ? OR lease_owner IS NULL OR lease_owner = ''
unfoldable pub owned_by : String → Option String → Bool
owned_by owner none = true
owned_by owner (some o) = str_eq o owner || is_empty o

unfoldable pub with_lease : ℕ → EventRow → EventRow
with_lease until_ms r = record r { lease_until_ms = some until_ms }

unfoldable pub renew_lease : String → ℤ → ℕ → String → Tx Unit
unfolding owned_by
renew_lease id lease now owner = do
  let until_ms = unix_milli (now + lease_or_default lease)
  n ← statement (
      update_events (λ r. has_id id r && (is_processing r.status && owned_by owner r.lease_owner))
        (with_lease until_ms))
  require (not (n == 0)) not_processing
