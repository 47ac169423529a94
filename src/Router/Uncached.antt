-- ===== src/Router/Uncached.antt =====
-- Match with its cache, against Match without one.
use general_webhook.Base.{
  ℕ, String, Bool, true, false, Option, none, some, List, [], ◌∷◌, ◌≡◌, refl, sym, ◌∙◌, ap, str_eq,
  eq_iff, ltb, ◌==◌, if◌then◌else◌, length, map, All, All-delete_where, Bool-cases, Option-cases,
  inl, inr,
}
use general_webhook.Config.{Rule, Vars, var_of}
use general_webhook.Router.Cache.{
  RegexpCache, max_cached_rules, max_cached_pattern_bytes, empty_cache, cached, make_room, remember,
  compile_missing, compile_cached, match_rules,
}

module _ {Regexp : Type 0} (compile : String → Option Regexp) (size : String → ℕ)
    (match_string : Regexp → String → Bool) where
  -- The rules in order, each compiled afresh.
  unfoldable pub match_uncached : List Rule → Vars → Option Bool
  match_uncached [] vars = some true
  match_uncached (r ∷ rules) vars =
      let rest = match_uncached rules vars in
      elim (compile r.regex) [
        | none ↦ none
        | some re ↦ if match_string re (var_of vars r.var) then rest else some false
      ]

  -- What is cached for a pattern is what it compiles to.
  pub record CacheOk (c : RegexpCache Regexp) : Type 0 where
    pub entries : All (λ e. compile e.0 ≡ some e.1) c.entries

  empty-CacheOk : CacheOk empty_cache
  empty-CacheOk = record { entries = tt }

  cached_here :
      (pattern : String) (e : String × Regexp) (entries : List (String × Regexp))
      → str_eq e.0 pattern ≡ true
      → cached pattern (e ∷ entries) ≡ some e.1
  unfolding cached
  cached_here pattern e entries p = rw p refl

  cached_below :
      (pattern : String) (e : String × Regexp) (entries : List (String × Regexp))
      → str_eq e.0 pattern ≡ false
      → cached pattern (e ∷ entries) ≡ cached pattern entries
  unfolding cached
  cached_below pattern e entries p = rw p refl

  cached-compile :
      (pattern : String) (re : Regexp) (entries : List (String × Regexp))
      → All (λ e. compile e.0 ≡ some e.1) entries
      → cached pattern entries ≡ some re
      → compile pattern ≡ some re
  unfolding cached
  cached-compile pattern re [] h found = cc
  cached-compile pattern re (e ∷ entries) h found = elim (Bool-cases (str_eq e.0 pattern)) [
    | inl p ↦
        ap compile (sym ((eq_iff e.0 pattern).0 p))
        ∙ h.0
        ∙ sym (cached_here pattern e entries p)
        ∙ found
    | inr p ↦ cached-compile pattern re entries h.1 (sym (cached_below pattern e entries p) ∙ found)
  ]

  make_room-CacheOk :
      (c : RegexpCache Regexp) → CacheOk c → All (λ e. compile e.0 ≡ some e.1) (make_room c)
  unfolding make_room
  make_room-CacheOk c h = elim (Bool-cases (length c.entries == max_cached_rules)) [
    | inl p ↦ rw p (All-delete_where _ _ c.entries h.entries)
    | inr p ↦ rw p h.entries
  ]

  compile_missing-Ok :
      (pattern : String) (c : RegexpCache Regexp)
      → CacheOk c
      → ((compile_missing compile size match_string pattern c).0 ≡ compile pattern)
        × CacheOk (compile_missing compile size match_string pattern c).1
  unfolding compile_missing remember
  compile_missing-Ok pattern c h = elim (Option-cases (compile pattern)) [
    | inl e ↦ rw (e, compile_missing) (refl, h)
    | inr (re, e) ↦ rw (e, compile_missing) (refl, record { entries = (e, make_room-CacheOk c h) })
  ]

  compile_cached-Ok :
      (pattern : String) (c : RegexpCache Regexp)
      → CacheOk c
      → ((compile_cached compile size match_string pattern c).0 ≡ compile pattern)
        × CacheOk (compile_cached compile size match_string pattern c).1
  unfolding compile_cached
  compile_cached-Ok pattern c h = elim (Bool-cases (ltb max_cached_pattern_bytes (size pattern))) [
    | inl p ↦ rw p (refl, h)
    | inr p ↦ elim (Option-cases (cached pattern c.entries)) [
      | inl e ↦ rw (p, e) (compile_missing-Ok pattern c h)
      | inr (re, e) ↦ rw (p, e) (sym (cached-compile pattern re c.entries h.entries e), h)
    ]
  ]

  matched-Ok :
      (rules : List Rule) (vars : Vars) (c : RegexpCache Regexp)
      → CacheOk c
      → ((match_rules compile size match_string rules vars c).0 ≡ match_uncached rules vars)
        × CacheOk (match_rules compile size match_string rules vars c).1
  unfolding match_rules match_uncached
  matched-Ok [] vars c h = (refl, h)
  matched-Ok (r ∷ rules) vars c h =
      let k = compile_cached-Ok r.regex c h in
      let rest = matched-Ok rules vars (compile_cached compile size match_string r.regex c).1 k.1 in
      elim (Option-cases (compile r.regex)) [
        | inl e ↦ rw (k.0, e, match_rules, match_uncached) (refl, k.1)
        | inr (re, e) ↦ elim (Bool-cases (match_string re (var_of vars r.var))) [
          | inl p ↦ rw (k.0, e, p, match_rules, match_uncached) rest
          | inr p ↦ rw (k.0, e, p, match_rules, match_uncached) (refl, k.1)
        ]
      ]

  -- One after another, through one cache.
  unfoldable pub match_all :
      List (List Rule × Vars) → RegexpCache Regexp → List (Option Bool) × RegexpCache Regexp
  match_all [] c = ([], c)
  match_all (q ∷ queries) c =
      let first = match_rules compile size match_string q.0 q.1 c in
      let rest = match_all queries first.1 in (first.0 ∷ rest.0, rest.1)

  match_all-Ok :
      (queries : List (List Rule × Vars)) (c : RegexpCache Regexp)
      → CacheOk c
      → (match_all queries c).0 ≡ map (λ q. match_uncached q.0 q.1) queries
  unfolding match_all
  match_all-Ok [] c h = refl
  match_all-Ok (q ∷ queries) c h =
      let k = matched-Ok q.0 q.1 c h in rw (k.0, match_all-Ok queries _ k.1) refl

  -- From the empty cache on, every Match of a sequence answers what it would without a cache: an
  -- error at the first invalid rule, or whether all rules match.
  pub match_all-uncached :
      (queries : List (List Rule × Vars))
      → (match_all queries empty_cache).0 ≡ map (λ q. match_uncached q.0 q.1) queries
  match_all-uncached queries = match_all-Ok queries empty_cache empty-CacheOk
