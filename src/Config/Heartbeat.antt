-- ===== src/Config/Heartbeat.antt =====
-- internal/config/config.go: validSourceName and validateHeartbeat.
use Prim.Native.Char.{Char, code}
use Prim.Native.String.{[] as no_text, ◌∷◌ as char_then, len}
use general_webhook.Base.{
  ℕ, String, Bool, true, false, not, ◌&&◌, ◌||◌, Option, none, some, List, [], ◌∷◌, ◌==◌, ltb, leb,
  str_eq, if◌then◌else◌, exists, length, suc, pos_part,
}
use general_webhook.Config.{HeartbeatTarget, HeartbeatConfig}
use general_webhook.Config.Library.{Url, Library}
use general_webhook.Config.Checks.{refuse, first_of, below, above}

-- Every character of the text passes the test.
unfoldable pub every_char : (Char → Bool) → String → Bool
every_char p no_text = true
every_char p (char_then c s) = let rest = every_char p s in p c && rest

abbrev from_to : ℕ → ℕ → ℕ → Bool
from_to low high n = leb low n && leb n high

-- [a-zA-Z0-9_-]
abbrev pub is_name_char : Char → Bool
is_name_char c =
    from_to 97 122 (code c)
    || from_to 65 90 (code c)
    || from_to 48 57 (code c)
    || code c == 95
    || code c == 45

unfoldable pub valid_source_name : String → Bool
unfolding every_char
valid_source_name name =
    if len name == 0 || ltb 64 (len name) then false else every_char is_name_char name

abbrev pub is_control : Char → Bool
is_control c = ltb (code c) 32 || code c == 127

pub data HeartbeatError : Type 0 where
  bad_interval bad_timeout timeout_over_interval bad_host control_in_host too_many_targets :
      HeartbeatError
  no_target_name bad_target_name : ℕ → HeartbeatError
  duplicate_target_name : String → HeartbeatError
  invalid_url bad_url_shape not_https has_userinfo unknown_mode : ℕ → HeartbeatError

module _ (lib : Library) where
  abbrev pub scheme_allowed : HeartbeatTarget → Url → Bool
  scheme_allowed t u =
      str_eq (lib.to_lower u.scheme) "https"
      || (str_eq (lib.to_lower u.scheme) "http" && t.allow_http)

  abbrev pub known_mode : String → Bool
  known_mode mode =
      str_eq mode "kuma" || str_eq mode "healthchecks" || str_eq mode "push" || str_eq mode "json"

  abbrev pub is_empty : String → Bool
  is_empty s = str_eq s ""

  unfoldable pub check_url : ℕ → HeartbeatTarget → Option Url → Option HeartbeatError
  check_url i t none = some (invalid_url i)
  check_url i t (some u) = first_of (
      refuse (is_empty u.scheme || is_empty u.host) (invalid_url i)
      ∷ refuse (ltb 4096 (len t.url) || not (is_empty u.fragment) || not (is_empty u.opaque))
          (bad_url_shape i)
      ∷ refuse (not (scheme_allowed t u)) (not_https i)
      ∷ refuse u.has_user (has_userinfo i)
      ∷ refuse (not (known_mode t.mode)) (unknown_mode i)
      ∷ [])

  unfoldable pub check_target : ℕ → List String → HeartbeatTarget → Option HeartbeatError
  unfolding check_url valid_source_name
  check_target i seen t = first_of (
      refuse (is_empty t.name) (no_target_name i)
      ∷ refuse (not (valid_source_name t.name)) (bad_target_name i)
      ∷ refuse (exists (λ name. str_eq name t.name) seen) (duplicate_target_name t.name)
      ∷ check_url i t (lib.parse_url t.url)
      ∷ [])

  -- The targets from the i-th on, after those named in `seen`.
  unfoldable pub check_targets : ℕ → List String → List HeartbeatTarget → Option HeartbeatError
  unfolding check_target
  check_targets i seen [] = none
  check_targets i seen (t ∷ ts) =
      first_of (check_target i seen t ∷ check_targets (suc i) (t.name ∷ seen) ts ∷ [])

  unfoldable pub validate_heartbeat : HeartbeatConfig → Option HeartbeatError
  unfolding check_targets every_char
  validate_heartbeat hb = first_of (
      refuse (below 10_000_000_000 hb.interval || above 3_600_000_000_000 hb.interval) bad_interval
      ∷ refuse (below 1_000_000_000 hb.timeout || above 30_000_000_000 hb.timeout) bad_timeout
      ∷ refuse (above (pos_part hb.interval) hb.timeout) timeout_over_interval
      ∷ refuse (is_empty (lib.trim_space hb.host) || ltb 128 (len hb.host)) bad_host
      ∷ refuse (not (every_char (λ c. not (is_control c)) hb.host)) control_in_host
      ∷ refuse (ltb 16 (length hb.targets)) too_many_targets
      ∷ check_targets 0 [] hb.targets
      ∷ [])
