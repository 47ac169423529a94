-- ===== src/Server/Webhook.antt =====
-- internal/server/server.go: the handler `webhook`, in the order of its calls. The limiters and the
-- budget lock on their own, so that the handler is not one step of the server: what is proved of it
-- holds of a request that is handled alone.
pub mod Outcome
pub mod Accepted
pub mod Replayed
use Prim.Native.String.{◌++◌ as ◌then◌}
use general_webhook.Base.{
  ℕ, ◌+◌, ℤ, pos, String, Bool, true, false, not, ◌&&◌, ◌||◌, Option, none, some, List, str_eq, ltb,
  if◌then◌else◌, length, take, suc,
}
use general_webhook.Config.{Source, Config, source_by_name}
use general_webhook.Config.Snapshot.{Json, snapshot_source, config_hash}
use general_webhook.Auth.{AuthError, verify}
use general_webhook.Store.Tx.{Tx, Error, Result, ok, err, duplicate_body, duplicate_event}
use general_webhook.Store.Claim.{unix_milli}
use general_webhook.Store.Accept.{NewEvent, save_pending_event, save_pending_event_guarded}
use general_webhook.Server.ClientIp.{Network, client_ip}
use general_webhook.Server.Limiter.{Arithmetic}
use general_webhook.Server.Headers.{
  Library, Request, max_body_bytes, replay_skew, replay_ttl, valid_delivery_id,
  is_json_content_type, timestamp_of, delivery_of, valid_replay_headers, reserved, too_long,
}
use general_webhook.Server.Handler.{
  Handler, answer, refuse, demand, found, stored, wake_queue, budgeted, limited, Layer, pre_auth_ip,
  authenticated_global, source_ip, ◌>>=◌, ◌>>◌,
}

-- The packages of the server, with what the handlers are configured with.
pub record Setup (F Ip : Type 0) : Type 0 where
  pub config : Config
  pub lib : Library
  pub json : Json
  pub network : Network Ip
  pub num : Arithmetic F

-- err == nil
abbrev pub passes : Option AuthError → Bool
passes none = true
passes (some _) = false

-- The answer to the error of a save.
abbrev pub saved : {F : Type 0} → Result Unit → Handler F Unit
saved (ok a) = answer tt
saved (err duplicate_body) = refuse 409 "duplicate body"
saved (err duplicate_event) = refuse 409 "duplicate delivery"
saved (err _) = refuse 500 "save event"

module _ {F Ip : Type 0} (setup : Setup F Ip) where
  abbrev pub is_hmac : Source → Bool
  is_hmac src = str_eq src.auth.type "hmac"

  abbrev pub ip_of : Request → String
  ip_of r =
      client_ip setup.network r.remote_addr (r.headers "X-Forwarded-For") (r.headers "X-Real-IP")

  -- io.ReadAll(io.LimitReader(r.Body, maxBodyBytes+1)), and the test of its length.
  unfoldable pub read_body : Request → Handler F (List ℕ)
  read_body r = do
    all ← found r.body 400 "read body"
    let body = take (suc max_body_bytes) all
    demand (not (ltb max_body_bytes (length body))) 413 "request body too large"
    answer body

  abbrev pub authentic : Source → Request → List ℕ → Bool
  authentic src r body = passes (verify setup.lib.auth r.headers src.auth (setup.lib.text_of body))

  -- The delivery id and the timestamp, for the replay of a request.
  unfoldable pub check_replay : Source → Request → Handler F Unit
  check_replay src r = do
    let id = delivery_of setup.lib r
    let stamp = timestamp_of setup.lib r
    demand (str_eq id "" || valid_delivery_id id) 400 "invalid delivery id"
    demand (not (is_hmac src && (str_eq id "" || str_eq stamp ""))) 401
        "missing delivery id or timestamp"
    demand (str_eq stamp "" || valid_replay_headers setup.lib r r.now replay_skew) 401
        "replay rejected"

  abbrev pub event_of : Source → Request → String → List ℕ → String → NewEvent
  event_of src r id body actions_json = record {
    id = id;
    source = r.source;
    ip = ip_of r;
    payload = body;
    at_ms = unix_milli r.now;
    external_delivery_id = delivery_of setup.lib r;
    body_sha256 = setup.lib.sha256_hex body;
    config_hash = config_hash setup.json (some setup.config);
    actions_json = actions_json;
  }

  -- The event of an hmac source is saved under a replay guard.
  abbrev pub save_of : Source → Request → NewEvent → Tx Unit
  save_of src r ev =
      if is_hmac src
      then save_pending_event_guarded ev (unix_milli (r.now + replay_ttl))
      else save_pending_event ev

  unfoldable pub save_event : Source → Request → NewEvent → Handler F Unit
  save_event src r ev = do result ← stored (save_of src r ev); saved result

  -- What is done before the event is saved; the event.
  unfoldable pub admit : Source → Request → Handler F NewEvent
  unfolding read_body check_replay
  admit src r = do
    body ← read_body r
    id ← found r.new_id 500 "internal error"
    demand (authentic src r body) 401 "unauthorized"
    limited setup.num source_ip (r.source then ("|" then ip_of r)) r.now
    limited setup.num authenticated_global "global" r.now
    demand (setup.lib.valid_json body) 400 "invalid json"
    check_replay src r
    actions_json ← found (snapshot_source setup.json (some src)) 500 "save event"
    answer (event_of src r id body actions_json)

  -- From the reading of the body on; the id of the event.
  unfoldable pub accept : Source → Request → Handler F String
  unfolding admit save_event
  accept src r = do ev ← admit src r; save_event src r ev; wake_queue; answer ev.id

  -- The whole handler: the id of the accepted event, or a refusal.
  unfoldable pub webhook : Request → Handler F String
  unfolding accept is_json_content_type
  webhook r = do
    src ← found (source_by_name setup.config r.source) 404 "unknown source"
    demand (is_json_content_type setup.lib (r.headers "Content-Type")) 415 "unsupported media type"
    limited setup.num pre_auth_ip (ip_of r) r.now
    demand (not (too_long r.content_length)) 413 "request body too large"
    budgeted (reserved r) (accept src r)
