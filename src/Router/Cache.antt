-- ===== src/Router/Cache.antt =====
-- internal/router/match.go: regexpCache and Match. The package regexp is a parameter: `compile`
-- answers nothing for an invalid pattern, and `size` is the length of a pattern in bytes. The mutex
-- makes each look-up one step.
use general_webhook.Base.{
  ℕ, ◌+◌, ◌%◌, String, Bool, true, false, Option, none, some, List, [], ◌∷◌, str_eq, ltb, ◌==◌,
  if◌then◌else◌, length, delete_where,
}
use general_webhook.Config.{Rule, Vars, var_of}

abbrev pub max_cached_rules : ℕ
max_cached_rules = 256

abbrev pub max_cached_pattern_bytes : ℕ
max_cached_pattern_bytes = 4096

-- The entries of the map, and the patterns in the order of their slots.
pub record RegexpCache (Regexp : Type 0) : Type 0 where
  pub entries : List (String × Regexp)
  pub order : ℕ → String
  pub next : ℕ

module _ {Regexp : Type 0} where
  abbrev pub empty_cache : RegexpCache Regexp
  empty_cache = record { entries = []; order = λ slot. ""; next = 0 }

  unfoldable pub cached : String → List (String × Regexp) → Option Regexp
  cached pattern [] = none
  cached pattern (e ∷ entries) =
      let rest = cached pattern entries in if str_eq e.0 pattern then some e.1 else rest

  -- `delete`, where all slots are taken.
  unfoldable pub make_room : RegexpCache Regexp → List (String × Regexp)
  make_room c =
      if length c.entries == max_cached_rules
      then delete_where (λ e. str_eq e.0 (c.order c.next)) c.entries
      else c.entries

  unfoldable pub remember : String → Regexp → RegexpCache Regexp → RegexpCache Regexp
  unfolding make_room
  remember pattern re c = record {
    entries = (pattern, re) ∷ make_room c;
    order = λ slot. if slot == c.next then pattern else c.order slot;
    next = (c.next + 1) % max_cached_rules;
  }

module _ {Regexp : Type 0} (compile : String → Option Regexp) (size : String → ℕ)
    (match_string : Regexp → String → Bool) where
  unfoldable pub compile_missing : String → RegexpCache Regexp → Option Regexp × RegexpCache Regexp
  unfolding remember
  compile_missing pattern c = elim (compile pattern) [
    | none ↦ (none, c)
    | some re ↦ (some re, remember pattern re c)
  ]

  unfoldable pub compile_cached : String → RegexpCache Regexp → Option Regexp × RegexpCache Regexp
  unfolding cached compile_missing
  compile_cached pattern c =
      if ltb max_cached_pattern_bytes (size pattern)
      then (compile pattern, c)
      else elim (cached pattern c.entries) [
        | some re ↦ (some re, c)
        | none ↦ compile_missing pattern c
      ]

  -- No result is the error of an invalid expression.
  unfoldable pub match_rules :
      List Rule → Vars → RegexpCache Regexp → Option Bool × RegexpCache Regexp
  unfolding compile_cached
  match_rules [] vars c = (some true, c)
  match_rules (r ∷ rules) vars c =
      let compiled = compile_cached r.regex c in
      let rest = match_rules rules vars compiled.1 in
      elim compiled.0 [
        | none ↦ (none, compiled.1)
        | some re ↦ if match_string re (var_of vars r.var) then rest else (some false, compiled.1)
      ]
