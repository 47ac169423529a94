-- ===== src/Config/Valid/Sources.antt =====
-- What `validate` promises of each source.
use Prim.Native.String.{len}
use general_webhook.Base.{
  ℕ, ◌≤◌, String, Bool, true, false, ◌&&◌, Option, not, if◌then◌else◌, none, some, List, [], ◌∷◌,
  ◌≡◌, refl, ◌⊎◌, inl, inr, arith, str_eq, eq_iff, length, Bool-cases, All, All-map, Distinct,
  exists, map, suc, ◌==◌,
}
use general_webhook.Config.{ActionConfig, Rule, LogPolicyConfig, AuthConfig, Source}
use general_webhook.Config.Library.{Library}
use general_webhook.Config.Checks.{
  Between, Between-of_checks, refuse-none, first_of-none, wrapped-none,
}
use general_webhook.Config.Sources.{
  check_source, check_auth, check_bound, check_rules, check_policy, check_redaction, check_actions,
  check_references, check_strings, check_services, compile_redaction, action_strings, is_set,
  method_allowed, check_fields, filled_policy, filled_source, same_headers, wanted_headers,
}
use general_webhook.Config.Heartbeat.{valid_source_name}
use general_webhook.Config.Validate.{check_sources}

abbrev pub same_name : Source → Source → Bool
same_name new old = str_eq old.name new.name

-- Every secret that a text of the action refers to is set.
abbrev pub SecretsSet : Library → ActionConfig → Type 0
SecretsSet lib ac =
    All (λ value. All (λ name. is_set lib (lib.lookup_env name) ≡ true) (lib.secret_refs value))
      (action_strings lib ac)

-- An action is a request with a URL and a known method, or a command whose time is limited.
abbrev pub ActionValid : Library → ActionConfig → Type 0
ActionValid lib ac =
    (((ac.type ≡ "http")
        × (str_eq ac.url "" ≡ false)
        × (method_allowed lib (lib.to_upper ac.method) ≡ true))
      ⊎ ((ac.type ≡ "exec")
          × (str_eq ac.command "" ≡ false)
          × Between 0 900_000_000_000 ac.timeout))
    × SecretsSet lib ac

abbrev pub RuleValid : Library → Rule → Type 0
RuleValid lib r =
    (str_eq r.var "" ≡ false) × (str_eq r.regex "" ≡ false) × (lib.compiles r.regex ≡ true)

-- A pattern of a redaction.
abbrev pub PatternValid : Library → String → Type 0
PatternValid lib p = (str_eq (lib.trim_space p) "" ≡ false) × (lib.compiles p ≡ true)

abbrev pub RedactionValid : Library → Option (List String) → Type 0
RedactionValid lib none = Unit
RedactionValid lib (some patterns) = All (PatternValid lib) patterns

-- A policy is an allowlist of named services that is filled in.
abbrev pub PolicyValid : Library → Option LogPolicyConfig → Type 0
PolicyValid lib o =
    (o ≡ none)
    ⊎ ((lp : LogPolicyConfig) × (o ≡ some lp)
        × (lp.mode ≡ "allowlist")
        × (str_eq lp.field "" ≡ false)
        × (1 ≤ length lp.services)
        × All (λ service. str_eq (lib.trim_space service) "" ≡ false) lp.services
        × (lp.on_reject ≡ "drop_and_count"))

pub record SourceValid (lib : Library) (s : Source) : Type 0 where
  pub secret :
      (s.auth.type ≡ "none")
      ⊎ (((s.auth.type ≡ "hmac") ⊎ (s.auth.type ≡ "token")) × (16 ≤ len s.auth.secret))
  pub signed :
      (length s.auth.signed_headers ≡ 0)
      ⊎ ((s.auth.type ≡ "hmac") × (same_headers lib s.auth.signed_headers wanted_headers ≡ true))
  pub name : valid_source_name s.name ≡ true
  pub rules : All (RuleValid lib) s.rules
  pub policy : PolicyValid lib s.log_policy
  pub redaction : RedactionValid lib s.redaction
  pub has_actions : 1 ≤ length s.actions
  pub actions : All (ActionValid lib) s.actions

module _ {A : Type 0} (name_of : A → String) where
  -- A name that is not among more names is not among fewer.
  pub apart :
      (name : String) (seen : List String) (xs : List A)
      → All (λ (x : A). exists (λ n. str_eq n (name_of x)) (name ∷ seen) ≡ false) xs
      → All (λ (x : A). str_eq name (name_of x) ≡ false) xs
  unfolding exists
  apart name seen = All-map _ _ (λ x h. ground (arith, h))

  pub others :
      (name : String) (seen : List String) (xs : List A)
      → All (λ (x : A). exists (λ n. str_eq n (name_of x)) (name ∷ seen) ≡ false) xs
      → All (λ (x : A). exists (λ n. str_eq n (name_of x)) seen ≡ false) xs
  unfolding exists
  others name seen = All-map _ _ (λ x h. ground (arith, h))

module _ (lib : Library) where
  check_secret :
      (ac : AuthConfig)
      → check_auth lib ac ≡ none
      → (ac.type ≡ "none") ⊎ (((ac.type ≡ "hmac") ⊎ (ac.type ≡ "token")) × (16 ≤ len ac.secret))
  unfolding check_auth
  check_secret ac h =
      let passed = first_of-none _ h in
      let known = passed.1.0 in
      let short = passed.1.1.1.0 in
      let k = refuse-none _ _ known in
      let s = refuse-none _ _ short in
      elim (Bool-cases (str_eq ac.type "hmac")) [
        | inl e ↦ inr (inl ((eq_iff _ _).0 e), ground (arith, e, s))
        | inr e ↦ elim (Bool-cases (str_eq ac.type "token")) [
          | inl f ↦ inr (inr ((eq_iff _ _).0 f), ground (arith, f, s))
          | inr f ↦ inl ((eq_iff _ _).0 (ground (arith, e, f, k)))
        ]
      ]

  check_signed_headers :
      (ac : AuthConfig)
      → check_bound lib ac ≡ none
      → (length ac.signed_headers ≡ 0)
        ⊎ ((ac.type ≡ "hmac") × (same_headers lib ac.signed_headers wanted_headers ≡ true))
  unfolding check_bound
  check_signed_headers ac h = elim (Bool-cases (length ac.signed_headers == 0)) [
    | inl e ↦ inl (ground (arith, e))
    | inr e ↦
        let passed = first_of-none _ (rw e at h) in
        let hmac = passed.0 in
        let same = passed.1.0 in
        inr (
          (eq_iff _ _).0 (ground (arith, refuse-none _ _ hmac)),
          ground (arith, refuse-none _ _ same),
        )
  ]

  check_auth-bound : (ac : AuthConfig) → check_auth lib ac ≡ none → check_bound lib ac ≡ none
  unfolding check_auth
  check_auth-bound ac h = let passed = first_of-none _ h in passed.1.1.1.1.1.0

  check_rules-Valid :
      (i : ℕ) (rules : List Rule) → check_rules lib i rules ≡ none → All (RuleValid lib) rules
  unfolding check_rules
  check_rules-Valid i [] h = tt
  check_rules-Valid i (r ∷ rules) h =
      let passed = first_of-none _ h in
      let var = passed.0 in
      let regex = passed.1.0 in
      let compiles = passed.1.1.0 in
      let rest = passed.1.1.1.0 in
      (
        (refuse-none _ _ var, refuse-none _ _ regex, ground (arith, refuse-none _ _ compiles)),
        check_rules-Valid (suc i) rules rest,
      )

  check_references-set :
      (i : ℕ) (names : List String)
      → check_references lib i names ≡ none
      → All (λ name. is_set lib (lib.lookup_env name) ≡ true) names
  unfolding check_references
  check_references-set i [] h = tt
  check_references-set i (name ∷ names) h =
      let passed = first_of-none _ h in
      let set = passed.0 in
      let rest = passed.1.0 in
      (ground (arith, refuse-none _ _ set), check_references-set i names rest)

  check_strings-set :
      (i : ℕ) (values : List String)
      → check_strings lib i values ≡ none
      → All
          (λ value. All (λ name. is_set lib (lib.lookup_env name) ≡ true) (lib.secret_refs value))
          values
  unfolding check_strings
  check_strings-set i [] h = tt
  check_strings-set i (value ∷ values) h =
      let passed = first_of-none _ h in
      let set = passed.0 in
      let rest = passed.1.0 in (check_references-set i _ set, check_strings-set i values rest)

  check_fields-Valid :
      (i : ℕ) (ac : ActionConfig)
      → check_fields lib i ac ≡ none
      → SecretsSet lib ac
      → ActionValid lib ac
  unfolding check_fields
  check_fields-Valid i ac h set = elim (Bool-cases (str_eq ac.type "http")) [
    | inl e ↦
        let passed = first_of-none _ (rw e at h) in
        let url = passed.0 in
        let method = passed.1.0 in
        (inl ((eq_iff _ _).0 e, refuse-none _ _ url, ground (arith, refuse-none _ _ method)), set)
    | inr e ↦ elim (Bool-cases (str_eq ac.type "exec")) [
      | inl f ↦
          let passed = first_of-none _ (rw (e, f) at h) in
          let command = passed.0 in
          let low = passed.1.0 in
          let high = passed.1.1.0 in
          (
            inr (
              (eq_iff _ _).0 f,
              refuse-none _ _ command,
              Between-of_checks _ _ _ (refuse-none _ _ low) (refuse-none _ _ high),
            ),
            set,
          )
      | inr f ↦ absurd (cc (rw (e, f) at h))
    ]
  ]

  check_actions-Valid :
      (i : ℕ) (actions : List ActionConfig)
      → check_actions lib i actions ≡ none
      → All (ActionValid lib) actions
  unfolding check_actions
  check_actions-Valid i [] h = tt
  check_actions-Valid i (ac ∷ actions) h =
      let passed = first_of-none _ h in
      let fields = passed.1.0 in
      let strings = passed.1.1.0 in
      let rest = passed.1.1.1.0 in
      (
        check_fields-Valid i ac fields (check_strings-set i (action_strings lib ac) strings),
        check_actions-Valid (suc i) actions rest,
      )

  check_services-named :
      (i : ℕ) (services : List String)
      → check_services lib i services ≡ none
      → All (λ service. str_eq (lib.trim_space service) "" ≡ false) services
  unfolding check_services
  check_services-named i [] h = tt
  check_services-named i (service ∷ services) h =
      let passed = first_of-none _ h in
      let named = passed.0 in
      let rest = passed.1.0 in (refuse-none _ _ named, check_services-named (suc i) services rest)

  compile_redaction-Valid :
      (i : ℕ) (patterns : List String)
      → compile_redaction lib i patterns ≡ none
      → All (PatternValid lib) patterns
  unfolding compile_redaction
  compile_redaction-Valid i [] h = tt
  compile_redaction-Valid i (p ∷ patterns) h =
      let passed = first_of-none _ h in
      let filled = passed.0 in
      let compiles = passed.1.0 in
      let rest = passed.1.1.0 in
      (
        (refuse-none _ _ filled, ground (arith, refuse-none _ _ compiles)),
        compile_redaction-Valid (suc i) patterns rest,
      )

  check_redaction-Valid :
      (o : Option (List String)) → check_redaction lib o ≡ none → RedactionValid lib o
  unfolding check_redaction
  check_redaction-Valid none h = tt
  check_redaction-Valid (some patterns) h = compile_redaction-Valid 0 patterns h

  filled_field : (s : String) → let t = if str_eq s "" then "service" else s in str_eq t "" ≡ false
  filled_field s = elim (Bool-cases (str_eq s "")) [ inl e ↦ rw e refl | inr e ↦ rw e e ]

  filled_on_reject :
      (s : String)
      → (not (str_eq s "") && not (str_eq s "drop_and_count")) ≡ false
      → (if str_eq s "" then "drop_and_count" else s) ≡ "drop_and_count"
  filled_on_reject s h = elim (Bool-cases (str_eq s "")) [
    | inl e ↦ rw e refl
    | inr e ↦ rw e ((eq_iff _ _).0 (ground (arith, e, h)))
  ]

  check_policy-Valid :
      (s : Source) (o : Option LogPolicyConfig)
      → s.log_policy ≡ o
      → check_policy lib o ≡ none
      → PolicyValid lib (filled_source s).log_policy
  unfolding check_policy filled_source filled_policy
  check_policy-Valid s none e h = inl (rw e refl)
  check_policy-Valid s (some lp) e h =
      let passed = first_of-none _ h in
      let mode = passed.0 in
      let some_service = passed.1.0 in
      let services = passed.1.1.0 in
      let on_reject = passed.1.1.1.0 in
      inr (
        filled_policy lp,
        rw e refl,
        (eq_iff _ _).0 (ground (arith, refuse-none _ _ mode)),
        filled_field lp.field,
        ground (arith, refuse-none _ _ some_service),
        check_services-named 0 lp.services services,
        filled_on_reject lp.on_reject (refuse-none _ _ on_reject),
      )

  check_source-Valid :
      (s : Source)
      → valid_source_name s.name ≡ true
      → check_source lib s ≡ none
      → SourceValid lib (filled_source s)
  unfolding check_source filled_source
  check_source-Valid s name h =
      let passed = first_of-none _ h in
      let auth = passed.0 in
      let rules = passed.1.0 in
      let policy = passed.1.1.0 in
      let redaction = passed.1.1.1.0 in
      let some_action = passed.1.1.1.1.0 in
      let actions = passed.1.1.1.1.1.0 in
      record {
        secret = check_secret s.auth auth;
        signed = check_signed_headers s.auth (check_auth-bound s.auth auth);
        name = name;
        rules = check_rules-Valid 0 s.rules rules;
        policy = check_policy-Valid s s.log_policy refl policy;
        redaction = check_redaction-Valid s.redaction redaction;
        has_actions = ground (arith, refuse-none _ _ some_action);
        actions = check_actions-Valid 0 s.actions actions;
      }

  -- The sources are valid, none has a name in `seen`, and no two have one name.
  pub check_sources-Valid :
      (seen : List String) (sources : List Source)
      → check_sources lib seen sources ≡ none
      → All (SourceValid lib) (map filled_source sources)
        × Distinct same_name (map filled_source sources)
        × All
            (λ (s : Source). exists (λ name. str_eq name s.name) seen ≡ false)
            (map filled_source sources)
  unfolding check_sources filled_source
  check_sources-Valid seen [] h = (tt, tt, tt)
  check_sources-Valid seen (s ∷ sources) h =
      let passed = first_of-none _ h in
      let name = passed.1.0 in
      let fresh = passed.1.1.0 in
      let source = passed.1.1.1.0 in
      let rest = passed.1.1.1.1.0 in
      let r = check_sources-Valid (s.name ∷ seen) sources rest in
      (
        (
          check_source-Valid s (ground (arith, refuse-none _ _ name)) (wrapped-none _ _ source),
          r.0,
        ),
        (apart (λ (x : Source). x.name) s.name seen _ r.2, r.1),
        (refuse-none _ _ fresh, others (λ (x : Source). x.name) s.name seen _ r.2),
      )
