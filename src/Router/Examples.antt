-- ===== src/Router/Examples.antt =====
-- A run of the rules, with the pattern itself as the compiled expression and "(" as an invalid one.
use general_webhook.Base.{
  ℕ, String, Bool, Option, none, some, List, [], ◌∷◌, ◌≡◌, str_eq, if◌then◌else◌, map,
}
use general_webhook.Config.{Rule, Vars}
use general_webhook.Router.Cache.{empty_cache}
use general_webhook.Router.Uncached.{match_uncached, match_all, match_all-uncached}

abbrev compiled : String → Option String
compiled pattern = if str_eq pattern "(" then none else some pattern

abbrev size : String → ℕ
size pattern = 4

abbrev equals : String → String → Bool
equals re value = str_eq re value

abbrev on_main : List Rule
on_main = record { var = "ref"; regex = "main" } ∷ []

abbrev invalid : List Rule
invalid = record { var = "ref"; regex = "(" } ∷ []

abbrev queries : List (List Rule × Vars)
queries = (on_main, ("ref", "main") ∷ []) ∷ (invalid, []) ∷ (on_main, ("ref", "next") ∷ []) ∷ []

match_all-uncached_example :
    (match_all compiled size equals queries empty_cache).0
    ≡ map (λ q. match_uncached compiled size equals q.0 q.1) queries
match_all-uncached_example = match_all-uncached compiled size equals queries
