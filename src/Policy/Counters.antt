-- ===== src/Policy/Counters.antt =====
-- internal/policy/policy.go: Counters, NewCounters, Inc and Snapshot. The map is a list of its keys
-- with their counts, validSourceName is a parameter, and they stay below 2 ^ 64.
use general_webhook.Base.{
  ℕ, suc, ◌+◌, String, Bool, true, List, [], ◌∷◌, ◌≡◌, refl, arith, str_eq, ltb, if◌then◌else◌,
  exists, length, ◌∙◌, Bool-cases, inl, inr,
}

abbrev pub unknown_source : String
unknown_source = "other"

abbrev pub Counters : Type 0
Counters = List (String × ℕ)

abbrev pub has_source : String → Counters → Bool
has_source source counts = exists (λ e. str_eq e.0 source) counts

module _ (valid_source_name : String → Bool) where
  -- A source named twice has one counter.
  unfoldable pub add_sources : List String → Counters → Counters
  add_sources [] counts = counts
  add_sources (source ∷ sources) counts =
      let rest = add_sources sources counts in
      if valid_source_name source
      then (if has_source source rest then rest else (source, 0) ∷ rest)
      else rest

  unfoldable pub new_counters : List String → Counters
  unfolding add_sources
  new_counters sources = add_sources sources ((unknown_source, 0) ∷ [])

-- data[source]++ at a key of the map.
unfoldable pub bump : String → Counters → Counters
bump source [] = []
bump source (e ∷ counts) =
    let rest = bump source counts in if str_eq e.0 source then (e.0, suc e.1) ∷ counts else e ∷ rest

unfoldable pub inc : String → Counters → Counters
unfolding bump
inc source counts = bump (if has_source source counts then source else unknown_source) counts

unfoldable pub snapshot : Counters → Counters
snapshot [] = []
snapshot (e ∷ counts) = let rest = snapshot counts in if ltb 0 e.1 then e ∷ rest else rest

abbrev pub total : Counters → ℕ
total [] = 0
total (e ∷ counts) = e.1 + total counts

bump-total :
    (source : String) (counts : Counters)
    → has_source source counts ≡ true
    → total (bump source counts) ≡ suc (total counts)
unfolding bump exists
bump-total source [] h = absurd (ground (arith, h))
bump-total source (e ∷ counts) h = elim (Bool-cases (str_eq e.0 source)) [
  | inl p ↦ rw p (omega arith)
  | inr p ↦ rw p (omega (arith, bump-total source counts (ground (arith, h, p))))
]

bump-has :
    (key source : String) (counts : Counters)
    → has_source key (bump source counts) ≡ has_source key counts
unfolding bump exists
bump-has key source [] = refl
bump-has key source (e ∷ counts) = elim (Bool-cases (str_eq e.0 source)) [
  | inl p ↦ rw p refl
  | inr p ↦ rw (p, bump-has key source counts) refl
]

inc-total :
    (source : String) (counts : Counters)
    → has_source unknown_source counts ≡ true
    → total (inc source counts) ≡ suc (total counts)
unfolding inc
inc-total source counts h = elim (Bool-cases (has_source source counts)) [
  | inl p ↦ rw p (bump-total source counts p)
  | inr p ↦ rw p (bump-total unknown_source counts h)
]

unfoldable pub inc_all : List String → Counters → Counters
inc_all [] counts = counts
inc_all (source ∷ sources) counts = inc_all sources (inc source counts)

inc-has :
    (source : String) (counts : Counters)
    → has_source unknown_source (inc source counts) ≡ has_source unknown_source counts
unfolding inc
inc-has source counts = bump-has unknown_source _ counts

inc_all-total :
    (sources : List String) (counts : Counters)
    → has_source unknown_source counts ≡ true
    → total (inc_all sources counts) ≡ length sources + total counts
unfolding inc_all
inc_all-total [] counts h = omega arith
inc_all-total (source ∷ sources) counts h =
    let rest = inc_all-total sources (inc source counts) (inc-has source counts ∙ h) in
    let one = inc-total source counts h in omega (arith, rest, one)

module _ (valid_source_name : String → Bool) where
  new_counters_start :
      (configured : List String)
      → (has_source unknown_source (new_counters valid_source_name configured) ≡ true)
        × (total (new_counters valid_source_name configured) ≡ 0)
  unfolding new_counters add_sources exists
  new_counters_start [] = (refl, refl)
  new_counters_start (source ∷ configured) =
      let h = new_counters_start configured in
      let rest = new_counters valid_source_name configured in
      elim (Bool-cases (valid_source_name source)) [
        | inl p ↦ elim (Bool-cases (has_source source rest)) [
          | inl q ↦ rw (p, q) h
          | inr q ↦ rw (p, q) (ground (arith, h.0), omega (arith, h.1))
        ]
        | inr p ↦ rw p h
      ]

  -- Every rejection is counted once: after the rejections of any sources, configured or not, the
  -- counts add up to the number of rejections.
  pub inc_all-counts :
      (configured rejected : List String)
      → total (inc_all rejected (new_counters valid_source_name configured)) ≡ length rejected
  inc_all-counts configured rejected =
      let h = new_counters_start configured in
      let k = inc_all-total rejected (new_counters valid_source_name configured) h.0 in
      omega (arith, h.1, k)
