-- ===== src/Policy/Examples.antt =====
-- Rejections of a configured source and of one that is not.
use general_webhook.Base.{Bool, true, String, List, [], ◌∷◌, ◌≡◌, length}
use general_webhook.Policy.Counters.{new_counters, inc_all, total, inc_all-counts}

abbrev any_name : String → Bool
any_name source = true

abbrev configured : List String
configured = "git" ∷ "ci" ∷ []

abbrev rejected : List String
rejected = "git" ∷ "gone" ∷ "git" ∷ []

inc_all-counts_example :
    total (inc_all rejected (new_counters any_name configured)) ≡ length rejected
inc_all-counts_example = inc_all-counts any_name configured rejected
