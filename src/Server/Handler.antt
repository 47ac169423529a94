-- ===== src/Server/Handler.antt =====
-- The handlers of net/http as actions on the server's state, which an answer other than the expected
-- one ends.
pub mod Rules
pub mod Answers
use general_webhook.Base.{
  ℕ, ◌+◌, ℤ, String, Bool, true, false, Option, none, some, ◌⊎◌, inl, inr, ◌==◌, if◌then◌else◌,
}
use general_webhook.Store.Tx.{World, Tx, Result, ok, err}
use general_webhook.Queue.Lifecycle.{Life, wake}
use general_webhook.Server.Budget.{Budget, acquire, release}
use general_webhook.Server.Limiter.{Arithmetic, RateLimiter, allow}

-- The counters of rateRejected, by layer.
pub record Rejected : Type 0 where
  pub pre_auth_ip : ℕ
  pub authenticated_global : ℕ
  pub source_ip : ℕ
  pub admin_ip : ℕ

-- What of a Server changes; `world` is the store and `life` the queue.
pub record State (F : Type 0) : Type 0 where
  pub limiter : RateLimiter F
  pub global : RateLimiter F
  pub pre_auth : RateLimiter F
  pub ops : RateLimiter F
  pub budget : Budget
  pub stopping : Bool
  pub rejected : Rejected
  pub world : World
  pub life : Life

-- http.Error: the code and the text.
pub record Refusal : Type 0 where
  pub code : ℕ
  pub text : String

module _ (F A : Type 0) where
  abbrev pub Handler : Type 0
  Handler = State F → (Refusal ⊎ A) × State F

module _ {F : Type 0} where
  unfoldable pub answer : {A : Type 0} → A → Handler F A
  answer a s = (inr a, s)

  unfoldable pub refuse : {A : Type 0} → ℕ → String → Handler F A
  refuse code text s = (inl (record { code = code; text = text }), s)

  -- `if !b { http.Error(w, text, code); return }`
  unfoldable pub demand : Bool → ℕ → String → Handler F Unit
  unfolding answer refuse
  demand true code text = answer tt
  demand false code text = refuse code text

  unfoldable pub found : {A : Type 0} → Option A → ℕ → String → Handler F A
  unfolding answer refuse
  found none code text = refuse code text
  found (some a) code text = answer a

  module _ {A B : Type 0} where
    abbrev pub continue : (Refusal ⊎ A) × State F → (A → Handler F B) → (Refusal ⊎ B) × State F
    continue (inl r, s) f = (inl r, s)
    continue (inr a, s) f = f a s

    infixl 5 ◌>>=◌ ◌>>◌
    unfoldable pub ◌>>=◌ : Handler F A → (A → Handler F B) → Handler F B
    unfolding answer refuse demand found
    ◌>>=◌ m f s = continue (m s) f

    abbrev pub ◌>>◌ : Handler F A → Handler F B → Handler F B
    m >> n = m >>= λ _. n

  -- A call of the store.
  unfoldable pub stored : {A : Type 0} → Tx A → Handler F (Result A)
  stored m s = (inr (m s.world).0, record s { world = (m s.world).1 })

  -- q.Wake()
  unfoldable pub wake_queue : Handler F Unit
  wake_queue s = (inr tt, record s { life = (wake s.life).1 })

  -- `if !s.budget.acquire(n) { 503 }; defer s.budget.release(n)`, and then the rest.
  unfoldable pub budgeted : {A : Type 0} → ℤ → Handler F A → Handler F A
  unfolding refuse
  budgeted n rest s =
      let got = acquire n s.budget in
      if got.0
      then (let out = rest (record s { budget = got.1 }) in
          (out.0, record out.1 { budget = release n out.1.budget }))
      else refuse 503 "server busy" (record s { budget = got.1 })

-- The limiters of a request, with the layer of rateRejected that counts a refusal.
pub data Layer : Type 0 where
  pre_auth_ip authenticated_global source_ip admin_ip : Layer

unfoldable pub count_rejected : Layer → Rejected → Rejected
count_rejected pre_auth_ip c = record c { pre_auth_ip = c.pre_auth_ip + 1 }
count_rejected authenticated_global c = record c {
  authenticated_global = c.authenticated_global + 1;
}
count_rejected source_ip c = record c { source_ip = c.source_ip + 1 }
count_rejected admin_ip c = record c { admin_ip = c.admin_ip + 1 }

module _ {F : Type 0} where
  unfoldable pub reject_rate : {A : Type 0} → Layer → Handler F A
  unfolding refuse count_rejected
  reject_rate layer s =
      refuse 429 "rate limit exceeded" (record s { rejected = count_rejected layer s.rejected })

  abbrev pub limiter_at : Layer → State F → RateLimiter F
  limiter_at pre_auth_ip s = s.pre_auth
  limiter_at authenticated_global s = s.global
  limiter_at source_ip s = s.limiter
  limiter_at admin_ip s = s.ops

  abbrev pub with_limiter : Layer → RateLimiter F → State F → State F
  with_limiter pre_auth_ip r s = record s { pre_auth = r }
  with_limiter authenticated_global r s = record s { global = r }
  with_limiter source_ip r s = record s { limiter = r }
  with_limiter admin_ip r s = record s { ops = r }

  -- `if !limiter.allow(key, now) { s.rejectRate(w, layer); return }`
  unfoldable pub limited : Arithmetic F → Layer → String → ℕ → Handler F Unit
  unfolding answer reject_rate
  limited num layer key now s =
      let out = allow num key now (limiter_at layer s) in
      let after = with_limiter layer out.1 s in
      if out.0 then answer tt after else reject_rate layer after
