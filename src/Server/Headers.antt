-- ===== src/Server/Headers.antt =====
-- internal/server/server.go: what the webhook handler reads of a request, and its tests on the headers.
use Prim.Native.String.{len}
use Prim.Native.Char.{Char, code}
use general_webhook.Base.{
  ℕ, ◌+◌, ◌*◌, ℤ, pos, negsuc, String, Bool, false, not, ◌&&◌, ◌||◌, Option, none, some, List, ltb,
  ◌==◌, str_eq, if◌then◌else◌, suc,
}
use general_webhook.Config.Heartbeat.{every_char, is_name_char}
use general_webhook.Auth.{delivery_id}

-- The packages that the handlers call. `before_semicolon v` is strings.Split(v, ";")[0], `parse_int` is
-- strconv.ParseInt of base 10, `text_of` makes a text of bytes, and `trusted` to `split_commas` are as
-- in Network.
pub record Library : Type 0 where
  pub auth : general_webhook.Auth.Library
  pub before_semicolon : String → String
  pub has_suffix : String → String → Bool
  pub parse_int : String → Option ℤ
  pub text_of : List ℕ → String
  pub valid_json : List ℕ → Bool
  pub sha256_hex : List ℕ → String

-- A request; `body` is what its reader yields, or nothing if reading fails, and `new_id` what newID
-- makes of the clock and random bytes.
pub record Request : Type 0 where
  pub source : String
  pub headers : String → String
  pub remote_addr : String
  pub content_length : ℤ
  pub body : Option (List ℕ)
  pub now : ℕ
  pub new_id : Option String

abbrev pub max_body_bytes : ℕ
max_body_bytes = 1_048_576

abbrev pub replay_skew : ℕ
replay_skew = 300_000_000_000

abbrev pub replay_ttl : ℕ
replay_ttl = 600_000_000_000

-- [A-Za-z0-9._:-]
abbrev is_delivery_char : Char → Bool
is_delivery_char c = is_name_char c || code c == 46 || code c == 58

-- Whether validateDeliveryID finds no error.
unfoldable pub valid_delivery_id : String → Bool
unfolding every_char
valid_delivery_id id = not (ltb 128 (len id) || str_eq id "") && every_char is_delivery_char id

module _ (lib : Library) where
  unfoldable pub is_json_content_type : String → Bool
  is_json_content_type raw =
      let value = lib.auth.to_lower (lib.auth.trim_space raw) in
      let media = lib.auth.trim_space (lib.before_semicolon value) in
      if str_eq value ""
      then false
      else str_eq media "application/json" || lib.has_suffix media "+json"

  abbrev pub timestamp_of : Request → String
  timestamp_of r = lib.auth.trim_space (r.headers "X-Webhook-Timestamp")

  -- The delivery id of auth.deliveryID.
  abbrev pub delivery_of : Request → String
  delivery_of r = delivery_id lib.auth r.headers

  -- stamp.Before(now.Add(-skew)) || stamp.After(now.Add(skew)), of a time in seconds.
  abbrev pub is_stale : ℕ → ℕ → ℤ → Bool
  is_stale now skew (pos n) =
      ltb (n * 1_000_000_000 + skew) now || ltb (now + skew) (n * 1_000_000_000)
  is_stale now skew (negsuc n) = ltb skew (now + suc n * 1_000_000_000)

  abbrev fresh_stamp : ℕ → ℕ → Option ℤ → Bool
  fresh_stamp now skew none = false
  fresh_stamp now skew (some seconds) = not (is_stale now skew seconds)

  -- Whether validateReplayHeaders finds no error.
  unfoldable pub valid_replay_headers : Request → ℕ → ℕ → Bool
  valid_replay_headers r now skew =
      if str_eq (timestamp_of r) ""
      then false
      else fresh_stamp now skew (lib.parse_int (timestamp_of r))

-- The bytes that the handler reserves.
unfoldable pub reserved : Request → ℤ
reserved r = elim r.content_length as (λ _. ℤ) [
  | pos n ↦ if n == 0 then pos max_body_bytes else pos n
  | negsuc n ↦ pos max_body_bytes
]

-- r.ContentLength > maxBodyBytes
abbrev pub too_long : ℤ → Bool
too_long (pos n) = ltb max_body_bytes n
too_long (negsuc n) = false
