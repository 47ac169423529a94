-- ===== src/Config/Library.antt =====
-- The packages that internal/config calls: strings, net, net/url, regexp, os, and the decoder of YAML.
-- A module of its own for the record that stands for them.
use general_webhook.Base.{String, Bool, Option, List}

-- The parts of a net/url.URL that the code reads; `has_user` is User != nil.
pub record Url : Type 0 where
  pub scheme : String
  pub host : String
  pub hostname : String
  pub port : String
  pub opaque : String
  pub fragment : String
  pub raw_query : String
  pub escaped_path : String
  pub has_user : Bool

-- `is_cidr`, `is_ip` and `compiles` say whether net.ParseCIDR, net.ParseIP and regexp.Compile succeed.
-- `secret_refs` are the names that explicitSecretRefRe finds. `replace_env f s` is
-- configEnvRe.ReplaceAllStringFunc(s, f), where f is given the two submatches after the match.
pub record Library : Type 0 where
  pub trim_space : String → String
  pub to_lower : String → String
  pub to_upper : String → String
  pub is_cidr : String → Bool
  pub is_ip : String → Bool
  pub compiles : String → Bool
  pub parse_url : String → Option Url
  pub secret_refs : String → List String
  pub lookup_env : String → Option String
  pub replace_env : (String → String → String → String) → String → String
