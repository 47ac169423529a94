-- ===== src/Queue/Vars.antt =====
-- internal/queue/queue.go: executionVars. The JSON of the variables, internal/parser and internal/router are
-- parameters: the functions of `Parts`. The counter of dropped events is not
-- part of the state.
pub mod Keeps
pub mod Releases
use general_webhook.Base.{
  ℕ, String, Bool, true, false, Option, none, some, List, [], ◌∷◌, not, str_eq, if◌then◌else◌,
}
use general_webhook.Config.{Rule, Source, Config, Vars}
use general_webhook.Policy.{allow, redact}
use general_webhook.Store.Rows.{EventStatus}
use general_webhook.Store.Accept.{is_empty}
use general_webhook.Store.Tx.{Tx, Result, ok, err, pure, ignoring, caught, ◌>>=◌, ◌>>◌}
use general_webhook.Store.Claim.{PendingEvent}
use general_webhook.Store.Requeue.{requeue_event}
use general_webhook.Store.Replay.{update_event_status, clear_payload}
use general_webhook.Store.Audit.{get_payload}

-- `read_vars` answers nothing where json.Unmarshal fails or leaves nil, `write_vars` where
-- json.Marshal fails, and `matches` where router.Match does; `replace` is the ReplaceAllString of a
-- compiled redaction pattern.
pub record Parts : Type 0 where
  pub read_vars : String → Option Vars
  pub write_vars : Vars → Option String
  pub extract : List ℕ → List (String × String) → Vars
  pub matches : List Rule → Vars → Option Bool
  pub replace : String → String → String

-- q.requeue: the error is logged and dropped.
unfoldable pub requeue : String → Tx Unit
requeue id = ignoring (requeue_event id)

-- q.cfg != nil && q.cfg.Store.RetainPayload != nil && !*q.cfg.Store.RetainPayload
abbrev pub drops_payload : Option Config → Bool
drops_payload cfg = elim cfg [
  | none ↦ false
  | some c ↦ elim c.store.retain_payload [ none ↦ false | some b ↦ not b ]
]

-- The event is not processed any further, dead as it is.
unfoldable pub kill : String → ℕ → Tx (Option Vars)
kill id now = do ignoring (update_event_status id EventStatus.dead now); pure none

-- What follows an error is a requeue; what follows success is `rest`.
unfoldable pub or_requeue : {A B : Type 0} → String → B → (A → Tx B) → Result A → Tx B
or_requeue id stop rest (ok a) = rest a
or_requeue id stop rest (err e) = do requeue id; pure stop

unfoldable pub skip : Option Config → String → ℕ → Tx (Option Vars)
skip cfg id now = do
  marked ← caught (update_event_status id EventStatus.skipped now)
  or_requeue id none
      (λ _. do if drops_payload cfg then ignoring (clear_payload id) else pure tt; pure none) marked

unfoldable pub select : Parts → Option Config → Source → String → Vars → ℕ → Tx (Option Vars)
unfolding kill skip
select parts cfg src id vars now =
    if (allow src vars).1
    then elim (parts.matches src.rules vars) [
      | none ↦ kill id now
      | some matched ↦
          if matched then pure (some (redact parts.replace src vars)) else skip cfg id now
    ]
    else skip cfg id now

abbrev pub is_blank : Option (List ℕ) → Bool
is_blank none = true
is_blank (some []) = true
is_blank (some (b ∷ bytes)) = false

unfoldable pub from_payload :
    Parts → Option Config → PendingEvent → Source → ℕ → Option (List ℕ) → Tx (Option Vars)
unfolding kill
from_payload parts cfg ev src now none = kill ev.id now
from_payload parts cfg ev src now (some []) = kill ev.id now
from_payload parts cfg ev src now (some (b ∷ bytes)) =
    select parts cfg src ev.id
      (("delivery_id", ev.external_delivery_id)
        ∷ ("event_id", ev.id)
        ∷ parts.extract (b ∷ bytes) src.extract)
      now

-- The payload is loaded again where the claim brought none.
unfoldable pub fresh_vars : Parts → Option Config → PendingEvent → Source → ℕ → Tx (Option Vars)
unfolding from_payload
fresh_vars parts cfg ev src now =
    if is_blank ev.payload
    then (do
      loaded ← caught (get_payload ev.id)
      or_requeue ev.id none (λ p. from_payload parts cfg ev src now p.0) loaded)
    else from_payload parts cfg ev src now ev.payload

-- `now` is the clock where the status is written. No result is `return nil, false`.
unfoldable pub execution_vars : Parts → Option Config → PendingEvent → Source → ℕ → Tx (Option Vars)
unfolding kill fresh_vars
execution_vars parts cfg ev src now =
    if is_empty ev.vars_json
    then fresh_vars parts cfg ev src now
    else elim (parts.read_vars ev.vars_json) [
      | none ↦ kill ev.id now
      | some vars ↦ pure (some vars)
    ]
