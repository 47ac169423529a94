-- ===== src/Handler/UrlPolicy.antt =====
-- internal/handler/urlpolicy.go, and sameAuthority and the checks of secureDialContext of
-- internal/handler/http.go. An address that does not parse is no `Ip`, so `ip == nil` does not arise.
pub mod Allowed
use Prim.Native.Char.{Char, code}
use Prim.Native.String.{[] as no_text, ◌∷◌ as char_then, ◌++◌ as ◌then◌}
use general_webhook.Base.{
  ℕ, String, Bool, true, false, not, ◌&&◌, ◌||◌, Option, none, some, List, [], ◌∷◌, ◌⊎◌, inl, inr,
  ltb, leb, ◌==◌, str_eq, if◌then◌else◌, exists, length,
}
use general_webhook.Config.Library.{Url}
use general_webhook.Config.Checks.{refuse, first_of}

-- The packages net/url, net, path and strings. `is_never_allowed` is IsLoopback, IsLinkLocalUnicast,
-- IsLinkLocalMulticast, IsUnspecified or IsMulticast; `scheme_mark` is whether a text contains "://".
pub record Library (Ip Cidr : Type 0) : Type 0 where
  pub parse_url : String → Option Url
  pub path_unescape : String → Option String
  pub parse_ip : String → Option Ip
  pub parse_cidr : String → Option Cidr
  pub contains_ip : Cidr → Ip → Bool
  pub is_never_allowed : Ip → Bool
  pub is_private : Ip → Bool
  pub clean : String → String
  pub to_lower : String → String
  pub trim_space : String → String
  pub trim_prefix : String → String → String
  pub trim_suffix : String → String → String
  pub has_prefix : String → String → Bool
  pub has_suffix : String → String → Bool
  pub contains : String → String → Bool
  pub split_slashes : String → List String
  pub equal_fold : String → String → Bool

pub data UrlError : Type 0 where
  invalid_url userinfo bad_scheme bad_encoding ambiguous_encoding encoded_separator : UrlError
  invalid_host blocked_host blocked_ip private_ip https_only not_in_allowlist : UrlError

-- 0-9, a-f, A-F
abbrev is_hex_digit : Char → Bool
is_hex_digit c =
    leb 48 (code c) && leb (code c) 57
    || leb 97 (code c) && leb (code c) 102
    || leb 65 (code c) && leb (code c) 70

abbrev is_escape : Char → String → Bool
is_escape c (char_then d (char_then e s)) = code c == 37 && is_hex_digit d && is_hex_digit e
is_escape c (char_then d no_text) = false
is_escape c no_text = false

unfoldable pub contains_percent_escape : String → Bool
contains_percent_escape no_text = false
contains_percent_escape (char_then c s) =
    let rest = contains_percent_escape s in is_escape c s || rest

abbrev is_empty : String → Bool
is_empty s = str_eq s ""

-- err == nil
abbrev pub passes : Option UrlError → Bool
passes none = true
passes (some _) = false

module _ {Ip Cidr : Type 0} (lib : Library Ip Cidr) where
  unfoldable pub normalize_hostname : String → String
  normalize_hostname host = lib.trim_suffix (lib.to_lower (lib.trim_space host)) "."

  unfoldable pub is_blocked_hostname : String → Bool
  unfolding normalize_hostname
  is_blocked_hostname host =
      let h = normalize_hostname host in
      str_eq h "localhost"
      || str_eq h "metadata.google.internal"
      || str_eq h "metadata.azure.internal"
      || lib.has_suffix h ".localhost"

  unfoldable pub validate_destination_ip : Bool → Ip → Option UrlError
  validate_destination_ip allow_private ip = first_of (
      refuse (lib.is_never_allowed ip) blocked_ip
      ∷ refuse (lib.is_private ip && not allow_private) private_ip
      ∷ [])

  unfoldable pub effective_port : Url → String
  effective_port u =
      if not (is_empty u.port)
      then u.port
      else if str_eq (lib.to_lower u.scheme) "https"
      then "443"
      else if str_eq (lib.to_lower u.scheme) "http"
      then "80"
      else ""

  -- One segment of the escaped path: whether it decodes, and to nothing that separates or climbs.
  abbrev segment_error : String → Option String → Option UrlError
  segment_error segment none = some bad_encoding
  segment_error segment (some value) =
      refuse
        (lib.contains value "/"
          || (str_eq value "." || str_eq value "..") && not (str_eq segment value))
        encoded_separator

  unfoldable pub check_segments : List String → Option UrlError
  check_segments [] = none
  check_segments (segment ∷ segments) =
      first_of (segment_error segment (lib.path_unescape segment) ∷ check_segments segments ∷ [])

  abbrev decoded_path : Url → Option String → UrlError ⊎ String
  decoded_path u none = inl bad_encoding
  decoded_path u (some decoded) =
      if lib.contains decoded "\\" || contains_percent_escape decoded
      then inl ambiguous_encoding
      else elim (check_segments (lib.split_slashes u.escaped_path)) [
        | some e ↦ inl e
        | none ↦ inr (lib.clean ("/" then lib.trim_prefix decoded "/"))
      ]

  unfoldable pub canonical_url_path : Url → UrlError ⊎ String
  unfolding check_segments contains_percent_escape
  canonical_url_path u = decoded_path u (lib.path_unescape u.escaped_path)

  unfoldable pub path_prefix_match : String → String → Bool
  path_prefix_match got prefix =
      if is_empty prefix || str_eq prefix "/"
      then true
      else (let g = lib.clean ("/" then lib.trim_prefix got "/") in
          let p = lib.clean ("/" then lib.trim_prefix prefix "/") in
          str_eq g p || lib.has_prefix g (lib.trim_suffix p "/" then "/"))

  abbrev matches_path : String → UrlError ⊎ String → Bool
  matches_path path (inl e) = false
  matches_path path (inr allowed) = path_prefix_match path allowed

  abbrev same_host : Url → Url → Bool
  same_host u v = str_eq (normalize_hostname u.hostname) (normalize_hostname v.hostname)

  unfoldable pub matches_url : Url → String → Option Url → Bool
  unfolding canonical_url_path path_prefix_match normalize_hostname effective_port
  matches_url u path none = false
  matches_url u path (some allowed) =
      if is_empty allowed.scheme
        || is_empty allowed.host
        || allowed.has_user
        || not (is_empty allowed.raw_query)
        || not (is_empty allowed.fragment)
      then false
      else if not (lib.equal_fold u.scheme allowed.scheme) || not (same_host u allowed)
      then false
      else if not (str_eq (effective_port u) (effective_port allowed))
      then false
      else matches_path path (canonical_url_path allowed)

  abbrev in_network : Cidr → Option Ip → Bool
  in_network network none = false
  in_network network (some ip) = lib.contains_ip network ip

  unfoldable pub match_allowlist_entry : Url → String → String → Bool
  unfolding matches_url normalize_hostname
  match_allowlist_entry u path entry =
      if is_empty entry then false else elim (lib.parse_cidr entry) [
        | some network ↦ in_network network (lib.parse_ip u.hostname)
        | none ↦
            if lib.contains entry "://"
            then matches_url u path (lib.parse_url entry)
            else if lib.equal_fold u.host entry
            then true
            else not (lib.contains entry ":")
              && str_eq (normalize_hostname u.hostname) (normalize_hostname entry)
              && is_empty u.port
      ]

  abbrev pub host_of : Url → String
  host_of u = normalize_hostname u.hostname

  unfoldable pub check_ip : Bool → Option Ip → Option UrlError
  unfolding validate_destination_ip
  check_ip allow_private none = none
  check_ip allow_private (some ip) = validate_destination_ip allow_private ip

  unfoldable pub check_allowlist : Url → List String → UrlError ⊎ String → Option UrlError
  unfolding match_allowlist_entry
  check_allowlist u allowlist (inl e) = some e
  check_allowlist u [] (inr path) = refuse (not (str_eq (lib.to_lower u.scheme) "https")) https_only
  check_allowlist u (entry ∷ allowlist) (inr path) =
      refuse
        (not (exists (λ e. match_allowlist_entry u path (lib.trim_space e)) (entry ∷ allowlist)))
        not_in_allowlist

  abbrev path_error : UrlError ⊎ String → Option UrlError
  path_error (inl e) = some e
  path_error (inr path) = none

  unfoldable pub check_destination : List String → Bool → Option Url → Option UrlError
  unfolding check_ip check_allowlist is_blocked_hostname canonical_url_path
  check_destination allowlist allow_private none = some invalid_url
  check_destination allowlist allow_private (some u) = first_of (
      refuse (is_empty u.scheme || is_empty u.host) invalid_url
      ∷ refuse u.has_user userinfo
      ∷ refuse
          (not (str_eq (lib.to_lower u.scheme) "http" || str_eq (lib.to_lower u.scheme) "https"))
          bad_scheme
      ∷ path_error (canonical_url_path u)
      ∷ refuse (is_empty (host_of u)) invalid_host
      ∷ refuse (is_blocked_hostname (host_of u)) blocked_host
      ∷ check_ip (allow_private && ltb 0 (length allowlist)) (lib.parse_ip (host_of u))
      ∷ check_allowlist u allowlist (canonical_url_path u)
      ∷ [])

  -- `none` is nil: the destination is allowed.
  unfoldable pub validate_url_destination_with_policy :
      String → List String → Bool → Option UrlError
  unfolding check_destination
  validate_url_destination_with_policy raw allowlist allow_private =
      check_destination allowlist allow_private (lib.parse_url raw)

  unfoldable pub validate_url_destination : String → List String → Option UrlError
  unfolding validate_url_destination_with_policy
  validate_url_destination raw allowlist = validate_url_destination_with_policy raw allowlist false

  unfoldable pub same_authority : Url → Url → Bool
  unfolding normalize_hostname effective_port
  same_authority a b =
      lib.equal_fold (normalize_hostname a.hostname) (normalize_hostname b.hostname)
      && str_eq (effective_port a) (effective_port b)

  -- The checks of secureDialContext on the resolved addresses, in order.
  unfoldable pub check_resolved : Bool → List Ip → Option UrlError
  unfolding validate_destination_ip
  check_resolved allow_private [] = none
  check_resolved allow_private (ip ∷ ips) =
      first_of (validate_destination_ip allow_private ip ∷ check_resolved allow_private ips ∷ [])

  -- Whether secureDialContext goes on to dial: the host, and the addresses it resolves to.
  unfoldable pub may_dial : Bool → String → List Ip → Bool
  unfolding check_resolved is_blocked_hostname
  may_dial allow_private host ips =
      not (is_blocked_hostname host)
      && ltb 0 (length ips)
      && passes (check_resolved allow_private ips)
