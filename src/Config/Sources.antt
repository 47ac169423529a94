-- ===== src/Config/Sources.antt =====
-- internal/config: the checks of `validate` on the sources, with compileRedaction and actionStrings.
use Prim.Native.String.{len}
use general_webhook.Base.{
  ℕ, String, Bool, true, false, not, ◌&&◌, ◌||◌, Option, none, some, List, [], ◌∷◌, ◌++◌, ◌==◌, ltb,
  str_eq, if◌then◌else◌, exists, length, suc,
}
use general_webhook.Config.{ActionConfig, Rule, LogPolicyConfig, AuthConfig, Source}
use general_webhook.Config.Library.{Library}
use general_webhook.Config.Checks.{refuse, first_of, below, above}

pub data SourceError : Type 0 where
  no_auth_type unknown_auth_type no_secret short_secret : SourceError
  unknown_signed_header duplicate_signed_header : String → SourceError
  signed_without_hmac bad_signed_headers : SourceError
  rule_without_var rule_without_regex rule_bad_regex : ℕ → SourceError
  bad_mode no_services bad_on_reject : SourceError
  empty_service empty_pattern bad_pattern : ℕ → SourceError
  no_actions : SourceError
  no_type no_url bad_method no_command negative_timeout long_timeout unknown_type : ℕ → SourceError
  missing_secret : ℕ → String → SourceError

abbrev is_empty : String → Bool
is_empty s = str_eq s ""

-- The wanted signed headers, in order.
abbrev pub wanted_headers : List String
wanted_headers = "timestamp" ∷ "delivery_id" ∷ "body" ∷ []

module _ (lib : Library) where
  abbrev pub header_name : String → String
  header_name h = lib.to_lower (lib.trim_space h)

  unfoldable pub check_signed : List String → List String → Option SourceError
  check_signed seen [] = none
  check_signed seen (raw ∷ signed) =
      let h = header_name raw in
      first_of (
        refuse (not (exists (λ known. str_eq (header_name h) known) wanted_headers))
          (unknown_signed_header h)
        ∷ refuse (exists (λ name. str_eq name h) seen) (duplicate_signed_header h)
        ∷ check_signed (h ∷ seen) signed
        ∷ [])

  unfoldable pub same_headers : List String → List String → Bool
  same_headers [] [] = true
  same_headers [] (h ∷ wanted) = false
  same_headers (raw ∷ signed) [] = false
  same_headers (raw ∷ signed) (h ∷ wanted) =
      let rest = same_headers signed wanted in str_eq (header_name raw) h && rest

  abbrev pub asks_secret : AuthConfig → Bool
  asks_secret ac = str_eq ac.type "hmac" || str_eq ac.type "token"

  unfoldable pub check_bound : AuthConfig → Option SourceError
  unfolding same_headers
  check_bound ac =
      if length ac.signed_headers == 0
      then none
      else first_of (
          refuse (not (str_eq ac.type "hmac")) signed_without_hmac
          ∷ refuse (not (same_headers ac.signed_headers wanted_headers)) bad_signed_headers
          ∷ [])

  unfoldable pub check_auth : AuthConfig → Option SourceError
  unfolding check_signed check_bound
  check_auth ac = first_of (
      refuse (is_empty ac.type) no_auth_type
      ∷ refuse (not (asks_secret ac || str_eq ac.type "none")) unknown_auth_type
      ∷ refuse (asks_secret ac && is_empty ac.secret) no_secret
      ∷ refuse (asks_secret ac && ltb (len ac.secret) 16) short_secret
      ∷ check_signed [] ac.signed_headers
      ∷ check_bound ac
      ∷ [])

  unfoldable pub check_rules : ℕ → List Rule → Option SourceError
  check_rules i [] = none
  check_rules i (r ∷ rules) = first_of (
      refuse (is_empty r.var) (rule_without_var i)
      ∷ refuse (is_empty r.regex) (rule_without_regex i)
      ∷ refuse (not (lib.compiles r.regex)) (rule_bad_regex i)
      ∷ check_rules (suc i) rules
      ∷ [])

  unfoldable pub check_services : ℕ → List String → Option SourceError
  check_services i [] = none
  check_services i (svc ∷ services) = first_of (
      refuse (is_empty (lib.trim_space svc)) (empty_service i)
      ∷ check_services (suc i) services
      ∷ [])

  unfoldable pub check_policy : Option LogPolicyConfig → Option SourceError
  unfolding check_services
  check_policy none = none
  check_policy (some lp) = first_of (
      refuse (not (str_eq lp.mode "allowlist")) bad_mode
      ∷ refuse (length lp.services == 0) no_services
      ∷ check_services 0 lp.services
      ∷ refuse (not (is_empty lp.on_reject) && not (str_eq lp.on_reject "drop_and_count"))
          bad_on_reject
      ∷ [])

  -- The patterns of a redaction, from the i-th on; the compiled ones are the patterns themselves.
  unfoldable pub compile_redaction : ℕ → List String → Option SourceError
  compile_redaction i [] = none
  compile_redaction i (p ∷ patterns) = first_of (
      refuse (is_empty (lib.trim_space p)) (empty_pattern i)
      ∷ refuse (not (lib.compiles p)) (bad_pattern i)
      ∷ compile_redaction (suc i) patterns
      ∷ [])

  unfoldable pub check_redaction : Option (List String) → Option SourceError
  unfolding compile_redaction
  check_redaction none = none
  check_redaction (some patterns) = compile_redaction 0 patterns

  abbrev header_strings : List (String × String) → List String
  header_strings [] = []
  header_strings (entry ∷ headers) = entry.0 ∷ entry.1 ∷ header_strings headers

  unfoldable pub action_strings : ActionConfig → List String
  action_strings ac = ac.url ∷ ac.command ∷ ac.body ∷ (ac.args ++ header_strings ac.headers)

  abbrev pub is_set : Option String → Bool
  is_set none = false
  is_set (some v) = not (is_empty v)

  unfoldable pub check_references : ℕ → List String → Option SourceError
  check_references i [] = none
  check_references i (name ∷ names) = first_of (
      refuse (not (is_set (lib.lookup_env name))) (missing_secret i name)
      ∷ check_references i names
      ∷ [])

  unfoldable pub check_strings : ℕ → List String → Option SourceError
  unfolding check_references
  check_strings i [] = none
  check_strings i (value ∷ values) =
      first_of (check_references i (lib.secret_refs value) ∷ check_strings i values ∷ [])

  abbrev pub method_allowed : String → Bool
  method_allowed method =
      is_empty method
      || str_eq method "GET"
      || str_eq method "POST"
      || str_eq method "PUT"
      || str_eq method "PATCH"
      || str_eq method "DELETE"

  unfoldable pub check_fields : ℕ → ActionConfig → Option SourceError
  check_fields i ac =
      if str_eq ac.type "http"
      then first_of (
          refuse (is_empty ac.url) (no_url i)
          ∷ refuse (not (method_allowed (lib.to_upper ac.method))) (bad_method i)
          ∷ [])
      else if str_eq ac.type "exec"
      then first_of (
          refuse (is_empty ac.command) (no_command i)
          ∷ refuse (below 0 ac.timeout) (negative_timeout i)
          ∷ refuse (above 900_000_000_000 ac.timeout) (long_timeout i)
          ∷ [])
      else some (unknown_type i)

  unfoldable pub check_actions : ℕ → List ActionConfig → Option SourceError
  unfolding check_fields action_strings check_strings
  check_actions i [] = none
  check_actions i (ac ∷ actions) = first_of (
      refuse (is_empty ac.type) (no_type i)
      ∷ check_fields i ac
      ∷ check_strings i (action_strings ac)
      ∷ check_actions (suc i) actions
      ∷ [])

  unfoldable pub check_source : Source → Option SourceError
  unfolding check_auth check_rules check_policy check_redaction check_actions
  check_source s = first_of (
      check_auth s.auth
      ∷ check_rules 0 s.rules
      ∷ check_policy s.log_policy
      ∷ check_redaction s.redaction
      ∷ refuse (length s.actions == 0) no_actions
      ∷ check_actions 0 s.actions
      ∷ [])

-- What `validate` and ParseSourceSnapshot fill in where the policy leaves it empty.
unfoldable pub filled_policy : LogPolicyConfig → LogPolicyConfig
filled_policy lp = record lp {
  on_reject = if is_empty lp.on_reject then "drop_and_count" else lp.on_reject;
  field = if is_empty lp.field then "service" else lp.field;
}

unfoldable pub filled_source : Source → Source
unfolding filled_policy
filled_source s = record s {
  log_policy = elim s.log_policy [ none ↦ none | some lp ↦ some (filled_policy lp) ];
}
