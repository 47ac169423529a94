-- ===== src/Handler/Examples.antt =====
-- A Retry-After header of a server that asks to be left alone, and destinations that the URL policy lets pass.
use general_webhook.Config.Library.{Url}
use general_webhook.Handler.UrlPolicy.{
  Library, validate_url_destination_with_policy, may_dial, is_blocked_hostname,
}
use general_webhook.Handler.UrlPolicy.Allowed.{
  Allowed, IpAllowed, validate_url_destination_with_policy-Allowed, may_dial-IpAllowed,
}
use general_webhook.Base.{
  List, ℕ, ℤ, pos, ◌≤◌, ◌<◌, length, ◌≡◌, refl, String, Option, none, some, true, false, [], ◌∷◌,
  str_eq, All,
}
use general_webhook.Handler.Errors.{max_duration, parse_retry_after, parse_retry_after-fits}

abbrev trimmed : String → String
trimmed raw = raw

abbrev all_seconds : String → Option ℤ
all_seconds text = some (pos 9_223_372_037)

abbrev no_time : String → Option ℕ
no_time text = none

parse_retry_after-fits_example :
    parse_retry_after trimmed all_seconds no_time "9223372037" 1000 ≤ max_duration
parse_retry_after-fits_example =
    parse_retry_after-fits trimmed all_seconds no_time "9223372037" 1000

abbrev site : Url
site = record {
  scheme = "https";
  host = "hooks.example";
  hostname = "hooks.example";
  port = "";
  opaque = "";
  fragment = "";
  raw_query = "";
  escaped_path = "/in";
  has_user = false;
}

abbrev plain : Library ℕ Unit
plain = record {
  parse_url = λ _. some site;
  path_unescape = λ s. some s;
  parse_ip = λ _. none;
  parse_cidr = λ _. none;
  contains_ip = λ _ _. false;
  is_never_allowed = λ _. false;
  is_private = λ _. true;
  clean = λ s. s;
  to_lower = λ s. s;
  trim_space = λ s. s;
  trim_prefix = λ s _. s;
  trim_suffix = λ s _. s;
  has_prefix = λ _ _. true;
  has_suffix = λ _ _. false;
  contains = λ _ _. false;
  split_slashes = λ s. s ∷ [];
  equal_fold = str_eq;
}

passes_policy :
    validate_url_destination_with_policy plain "https://hooks.example/in"
      ("hooks.example" ∷ [])
      true
    ≡ none
unfolding validate_url_destination_with_policy general_webhook.Config.Checks.first_of
    general_webhook.Base.exists
passes_policy = refl

validate_url_destination_with_policy-Allowed_example :
    Allowed plain "https://hooks.example/in" ("hooks.example" ∷ []) true
validate_url_destination_with_policy-Allowed_example =
    validate_url_destination_with_policy-Allowed plain "https://hooks.example/in"
      ("hooks.example" ∷ []) true passes_policy

abbrev addresses : List ℕ
addresses = 7 ∷ []

dials : may_dial plain true "hooks.example" addresses ≡ true
unfolding may_dial general_webhook.Config.Checks.first_of
dials = refl

may_dial-IpAllowed_example :
    (is_blocked_hostname plain "hooks.example" ≡ false)
    × (0 < length addresses)
    × All (IpAllowed plain true) addresses
may_dial-IpAllowed_example = may_dial-IpAllowed plain true "hooks.example" addresses dials
