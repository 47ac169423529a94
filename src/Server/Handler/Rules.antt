-- ===== src/Server/Handler/Rules.antt =====
-- What a handler leaves of the server's state: rules for each way to build one.
use general_webhook.Base.{
  ℕ, ℤ, String, Bool, true, false, Option, none, some, ◌≡◌, refl, ◌∙◌, ap, subst, ◌⊎◌, inl, inr,
  if◌then◌else◌,
}
use general_webhook.Store.Tx.{Tx}
use general_webhook.Server.Budget.{Budget, acquire, release, release-acquire, acquire-refused}
use general_webhook.Server.Limiter.{Arithmetic, RateLimiter, allow}
use general_webhook.Server.Handler.Answers.{Answers}
use general_webhook.Server.Handler.{
  Handler, State, Refusal, answer, refuse, demand, found, continue, ◌>>=◌, stored, wake_queue,
  budgeted, Layer, reject_rate, limiter_at, with_limiter, limited, pre_auth_ip,
  authenticated_global, source_ip, admin_ip,
}

module _ {F : Type 0} where
  -- The store and the queue are as they were.
  pub record Same (s t : State F) : Type 0 where
    pub world : t.world ≡ s.world
    pub life : t.life ≡ s.life

  pub record Quiet {A : Type 0} (m : Handler F A) : Type 0 where
    pub at : (s : State F) → Same s (m s).1

  -- What is taken of the budget is given back.
  pub record Balanced {A : Type 0} (m : Handler F A) : Type 0 where
    pub at : (s : State F) → (m s).1.budget ≡ s.budget

  pub Same-refl : (s : State F) → Same s s
  Same-refl s = record { world = refl; life = refl }

  pub Same-trans : (s t u : State F) → Same s t → Same t u → Same s u
  Same-trans s t u h k = record { world = k.world ∙ h.world; life = k.life ∙ h.life }

  module _ {A : Type 0} where
    pub Quiet-answer : (a : A) → Quiet (answer a)
    unfolding answer
    Quiet-answer a = record { at = λ s. Same-refl s }

    pub Quiet-found : (o : Option A) (code : ℕ) (text : String) → Quiet (found o code text)
    unfolding found
    Quiet-found none code text = record { at = λ s. Same-refl s }
    Quiet-found (some a) code text = record { at = λ s. Same-refl s }

    pub Balanced-answer : (a : A) → Balanced (answer a)
    unfolding answer
    Balanced-answer a = record { at = λ s. refl }

    pub Balanced-refuse : (code : ℕ) (text : String) → Balanced (refuse {A = A} code text)
    unfolding refuse
    Balanced-refuse code text = record { at = λ s. refl }

    pub Balanced-found : (o : Option A) (code : ℕ) (text : String) → Balanced (found o code text)
    unfolding found
    Balanced-found none code text = record { at = λ s. refl }
    Balanced-found (some a) code text = record { at = λ s. refl }

    pub Balanced-stored : (m : Tx A) → Balanced (stored m)
    unfolding stored
    Balanced-stored m = record { at = λ s. refl }

    budgeted_back :
        (n : ℤ) (rest : Handler F A) (s : State F) (granted : Bool) (b : Budget)
        → Balanced rest
        → acquire n s.budget ≡ (granted, b)
        → (budgeted n rest s).1.budget ≡ s.budget
    unfolding budgeted
    budgeted_back n rest s true b h e =
        rw e (ap (release n) (h.at (record s { budget = b })) ∙ release-acquire n s.budget b e)
    budgeted_back n rest s false b h e = rw e (acquire-refused n s.budget b e)

    -- What a handler acquires it releases, whichever way it returns.
    pub Balanced-budgeted :
        (n : ℤ) (rest : Handler F A) → Balanced rest → Balanced (budgeted n rest)
    Balanced-budgeted n rest h = record {
      at = λ s. budgeted_back n rest s (acquire n s.budget).0 (acquire n s.budget).1 h refl;
    }

  pub Quiet-demand : (b : Bool) (code : ℕ) (text : String) → Quiet (demand b code text)
  unfolding demand
  Quiet-demand true code text = record { at = λ s. Same-refl s }
  Quiet-demand false code text = record { at = λ s. Same-refl s }

  pub Balanced-demand : (b : Bool) (code : ℕ) (text : String) → Balanced (demand b code text)
  unfolding demand
  Balanced-demand true code text = record { at = λ s. refl }
  Balanced-demand false code text = record { at = λ s. refl }

  pub Balanced-wake_queue : Balanced wake_queue
  unfolding wake_queue
  Balanced-wake_queue = record { at = λ s. refl }

  with_limiter-Same :
      (layer : Layer) (r : RateLimiter F) (s : State F) → Same s (with_limiter layer r s)
  with_limiter-Same pre_auth_ip r s = record { world = refl; life = refl }
  with_limiter-Same authenticated_global r s = record { world = refl; life = refl }
  with_limiter-Same source_ip r s = record { world = refl; life = refl }
  with_limiter-Same admin_ip r s = record { world = refl; life = refl }

  with_limiter-budget :
      (layer : Layer) (r : RateLimiter F) (s : State F) → (with_limiter layer r s).budget ≡ s.budget
  with_limiter-budget pre_auth_ip r s = refl
  with_limiter-budget authenticated_global r s = refl
  with_limiter-budget source_ip r s = refl
  with_limiter-budget admin_ip r s = refl

  verdict-Same :
      (b : Bool) (layer : Layer) (t : State F)
      → Same t (if b then answer tt t else reject_rate layer t).1
  unfolding answer reject_rate
  verdict-Same true layer t = record { world = refl; life = refl }
  verdict-Same false layer t = record { world = refl; life = refl }

  verdict-budget :
      (b : Bool) (layer : Layer) (t : State F)
      → (if b then answer tt t else reject_rate layer t).1.budget ≡ t.budget
  unfolding answer reject_rate
  verdict-budget true layer t = refl
  verdict-budget false layer t = refl

  pub Quiet-limited :
      (num : Arithmetic F) (layer : Layer) (key : String) (now : ℕ)
      → Quiet (limited num layer key now)
  unfolding limited
  Quiet-limited num layer key now = record {
    at = λ s.
        let out = allow num key now (limiter_at layer s) in
        Same-trans s _ _ (with_limiter-Same layer out.1 s)
          (verdict-Same out.0 layer (with_limiter layer out.1 s));
  }

  pub Balanced-limited :
      (num : Arithmetic F) (layer : Layer) (key : String) (now : ℕ)
      → Balanced (limited num layer key now)
  unfolding limited
  Balanced-limited num layer key now = record {
    at = λ s.
        let out = allow num key now (limiter_at layer s) in
        verdict-budget out.0 layer (with_limiter layer out.1 s) ∙ with_limiter-budget layer out.1 s;
  }

  module _ {A B : Type 0} where
    continue-Same :
        (s t : State F) (o : Refusal ⊎ A) (k : A → Handler F B)
        → Same s t
        → ((a : A) → Quiet (k a))
        → Same s (continue (o, t) k).1
    continue-Same s t (inl r) k h q = h
    continue-Same s t (inr a) k h q = Same-trans s t _ h ((q a).at t)

    pub Quiet-bind :
        (m : Handler F A) (k : A → Handler F B)
        → Quiet m
        → ((a : A) → Quiet (k a))
        → Quiet (m >>= k)
    unfolding ◌>>=◌
    Quiet-bind m k h q = record { at = λ s. continue-Same s (m s).1 (m s).0 k (h.at s) q }

    continue-budget :
        (t : State F) (o : Refusal ⊎ A) (k : A → Handler F B)
        → ((a : A) → Balanced (k a))
        → (continue (o, t) k).1.budget ≡ t.budget
    continue-budget t (inl r) k q = refl
    continue-budget t (inr a) k q = (q a).at t

    pub Balanced-bind :
        (m : Handler F A) (k : A → Handler F B)
        → Balanced m
        → ((a : A) → Balanced (k a))
        → Balanced (m >>= k)
    unfolding ◌>>=◌
    Balanced-bind m k h q = record { at = λ s. continue-budget (m s).1 (m s).0 k q ∙ h.at s }

module _ {F A : Type 0} {m : Handler F A} {s t : State F} {a : A} where
  -- A quiet handler that answers has changed neither the store nor the queue.
  pub Answers-Same : Quiet m → Answers m s a t → Same s t
  Answers-Same q h =
      let end = ap (λ (x : (Refusal ⊎ A) × State F). x.1) h.runs in subst (Same s) end (q.at s)

pub ruleset quiet_rules = (Quiet-answer, Quiet-found, Quiet-demand, Quiet-limited, Quiet-bind)

pub ruleset balance_rules = (
  Balanced-answer, Balanced-refuse, Balanced-found, Balanced-demand, Balanced-limited,
  Balanced-stored, Balanced-wake_queue, Balanced-budgeted, Balanced-bind,
)
