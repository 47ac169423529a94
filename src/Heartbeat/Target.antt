-- ===== src/Heartbeat/Target.antt =====
-- internal/heartbeat/heartbeat.go: targetEndpoint, auditURLTarget, and the entry that deliver logs.
pub mod Origin
use Prim.Native.String.{◌++◌ as ◌then◌}
use general_webhook.Base.{
  ℕ, pos, String, Bool, true, false, not, ◌&&◌, ◌||◌, Option, none, some, ◌⊎◌, inl, inr, str_eq,
  if◌then◌else◌,
}
use general_webhook.Config.{HeartbeatTarget}
use general_webhook.Config.Library.{Url}
use general_webhook.Store.Heartbeats.{HeartbeatLog}
use general_webhook.Heartbeat.{Status, pass, fail}

-- The packages net/url and strings. `to_text` is Url.String, and `Query` is url.Values.
pub record Library (Query : Type 0) : Type 0 where
  pub parse_url : String → Option Url
  pub to_lower : String → String
  pub parse_query : String → Option Query
  pub set : Query → String → String → Query
  pub encode : Query → String
  pub trim_right : String → String → String
  pub path_unescape : String → Option String
  pub to_text : Url → String

pub data EndpointError : Type 0 where
  invalid_target bad_scheme bad_query bad_path bad_mode : EndpointError

abbrev pub is_empty : String → Bool
is_empty s = str_eq s ""

-- The constants of Status.
abbrev pub status_text : Status → String
status_text pass = "pass"
status_text fail = "fail"

-- An error of the transport: its text, and what errors.Is and errors.As say of it. `is_tls` is that
-- it is one of the four errors of crypto/tls and crypto/x509.
pub record TransportError : Type 0 where
  pub text : String
  pub is_deadline : Bool
  pub is_canceled : Bool
  pub is_timeout : Bool
  pub is_dns : Bool
  pub is_tls : Bool
  pub is_refused : Bool

unfoldable pub safe_error_class : TransportError → String
safe_error_class e =
    if e.is_deadline
    then "timeout"
    else if e.is_canceled
    then "canceled"
    else if e.is_timeout
    then "timeout"
    else if e.is_dns
    then "DNS lookup failed"
    else if e.is_tls
    then "TLS verification failed"
    else if e.is_refused
    then "connection refused"
    else "operation failed"

-- The errors of pushTarget.
pub data PushError : Type 0 where
  bad_endpoint : EndpointError → PushError
  bad_payload bad_request : PushError
  not_answered not_read : TransportError → PushError
  bad_status : String → PushError
  too_large not_decoded rejected : PushError

abbrev endpoint_message : EndpointError → String
endpoint_message invalid_target = "invalid heartbeat target URL"
endpoint_message bad_scheme = "invalid heartbeat target URL scheme"
endpoint_message bad_query = "invalid heartbeat target query"
endpoint_message bad_path = "invalid heartbeat target path"
endpoint_message bad_mode = "invalid heartbeat target mode"

-- What Error returns of them; `bad_status` has the status code in decimal.
unfoldable pub push_message : PushError → String
unfolding safe_error_class
push_message (bad_endpoint e) = endpoint_message e
push_message bad_payload = "invalid heartbeat payload"
push_message bad_request = "invalid heartbeat request"
push_message (not_answered e) = safe_error_class e
push_message (not_read e) = safe_error_class e
push_message (bad_status code) = "unexpected HTTP status " then code
push_message too_large = "Kuma response exceeds size limit"
push_message not_decoded = "invalid Kuma response"
push_message rejected = "Kuma rejected heartbeat"

module _ {Query : Type 0} (lib : Library Query) where
  abbrev with_status : Status → Query → Query
  with_status pass query = lib.set (lib.set query "status" "up") "msg" "OK"
  with_status fail query = lib.set (lib.set query "status" "down") "msg" "not ready"

  unfoldable pub kuma_url : Url → Status → Option Query → EndpointError ⊎ Url
  kuma_url u status none = inl bad_query
  kuma_url u status (some query) =
      inr (record u { raw_query = lib.encode (with_status status query) })

  -- A path that decodes is what EscapedPath then returns.
  unfoldable pub failed_url : Url → String → Option String → EndpointError ⊎ Url
  failed_url u path none = inl bad_path
  failed_url u path (some decoded) = inr (record u { escaped_path = path })

  unfoldable pub healthchecks_url : Url → Status → EndpointError ⊎ Url
  unfolding failed_url
  healthchecks_url u pass = inr u
  healthchecks_url u fail =
      let path = lib.trim_right u.escaped_path "/" then "/fail" in
      failed_url u path (lib.path_unescape path)

  -- The switch on the mode, of a URL whose scheme is in lower case.
  unfoldable pub endpoint_url : String → Status → Url → EndpointError ⊎ Url
  unfolding kuma_url healthchecks_url
  endpoint_url mode status u =
      if is_empty mode || str_eq mode "kuma"
      then kuma_url u status (lib.parse_query u.raw_query)
      else if str_eq mode "push" || str_eq mode "healthchecks"
      then healthchecks_url u status
      else if str_eq mode "json"
      then inr u
      else inl bad_mode

  abbrev pub lowered : Url → Url
  lowered u = record u { scheme = lib.to_lower u.scheme }

  abbrev pub is_web : String → Bool
  is_web scheme = str_eq scheme "https" || str_eq scheme "http"

  unfoldable pub checked_url : String → Status → Option Url → EndpointError ⊎ Url
  unfolding endpoint_url
  checked_url mode status none = inl invalid_target
  checked_url mode status (some u) =
      if is_empty u.hostname || u.has_user || not (is_empty u.fragment) || not (is_empty u.opaque)
      then inl invalid_target
      else if not (is_web (lib.to_lower u.scheme))
      then inl bad_scheme
      else endpoint_url mode status (lowered u)

  abbrev pub text_of : EndpointError ⊎ Url → EndpointError ⊎ String
  text_of (inl e) = inl e
  text_of (inr u) = inr (lib.to_text u)

  unfoldable pub target_endpoint : HeartbeatTarget → Status → EndpointError ⊎ String
  unfolding checked_url
  target_endpoint t status = text_of (checked_url t.mode status (lib.parse_url t.url))

  unfoldable pub origin_of : Option Url → String
  origin_of none = "invalid-url"
  origin_of (some u) =
      if is_empty u.hostname || not (is_empty u.opaque)
      then "invalid-url"
      else if not (is_web (lib.to_lower u.scheme))
      then "invalid-url"
      else lib.to_lower u.scheme then "://" then u.host

  unfoldable pub audit_url_target : String → String
  unfolding origin_of
  audit_url_target raw = origin_of (lib.parse_url raw)

  -- The entry of a failed push.
  unfoldable pub log_entry :
      HeartbeatTarget
      → Status
      → PushError
      → (http_status duration_ms completed_at : ℕ) → HeartbeatLog
  unfolding audit_url_target push_message
  log_entry t status e http_status duration_ms completed_at = record {
    target = t.name;
    origin = audit_url_target t.url;
    mode = t.mode;
    health = status_text status;
    error = push_message e;
    http_status = pos http_status;
    duration_ms = pos duration_ms;
    created_at = completed_at;
  }
