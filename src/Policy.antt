-- ===== src/Policy.antt =====
-- internal/policy/policy.go: Allow and Redact. The compiled patterns are given by `replace`, the
-- ReplaceAllString of a pattern with "***".
pub mod Counters
mod Examples
use general_webhook.Base.{
  String, Bool, true, none, some, List, [], ◌∷◌, str_eq, if◌then◌else◌, map, exists,
}
use general_webhook.Config.{LogPolicyConfig, Source, Vars, var_of}

-- `if field == "" { field = "service" }`
abbrev pub policy_field : LogPolicyConfig → String
policy_field lp = if str_eq lp.field "" then "service" else lp.field

unfoldable pub allow : Source → Vars → String × Bool
allow src vars = elim src.log_policy [
  | none ↦ ("", true)
  | some lp ↦
      let value = var_of vars (policy_field lp) in
      (value, exists (λ allowed. str_eq value allowed) lp.services)
]

unfoldable pub redact_value : (String → String → String) → List String → String → String
redact_value replace [] value = value
redact_value replace (re ∷ compiled) value = redact_value replace compiled (replace re value)

unfoldable pub redact : (String → String → String) → Source → Vars → Vars
unfolding redact_value
redact replace src vars = elim src.redaction [
  | none ↦ vars
  | some compiled ↦ map (λ entry. (entry.0, redact_value replace compiled entry.1)) vars
]
