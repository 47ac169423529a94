-- ===== src/Queue/Failure.antt =====
-- internal/queue/queue.go: what `process` does with an action that failed, once its log is written.
-- Times are in nanoseconds.
use general_webhook.Base.{
  ◌⊎◌, inl, inr, Bool-cases, ltb, ℕ, ◌+◌, ◌-◌, ◌*◌, ◌^◌, ◌≤◌, ◌<◌, min, String, Bool, true, false,
  ◌≡◌, refl, sym, ◌∙◌, ap, arith, ◌||◌, leb, ◌==◌, if◌then◌else◌,
}
use Prim.Native.String.{◌++◌}
use general_webhook.Handler.Errors.{ActionError, is_non_retryable, retry_after}
use general_webhook.Store.Claim.{PendingEvent}
use general_webhook.Queue.Settings.{Queue}
use general_webhook.Queue.Backoff.{retry_cap, retry_delay, retry_cap-min}

pub data Decision : Type 0 where
  requeues : Decision
  kills : String → Decision
  retries : ℕ → String → ℕ → Decision

-- ev.RetryStartedAt.Add(q.maxRetryAge)
unfoldable pub deadline : Queue → PendingEvent → ℕ
deadline q ev = ev.retry_started_at_ms * 1_000_000 + q.max_retry_age

-- `if delay <= 0 { delay = q.retryDelay(attempt) }`
unfoldable pub delay_of : Queue → (ℕ → ℕ) → ActionError → ℕ → ℕ
delay_of q jitter e attempt =
    if retry_after e == 0
    then retry_delay jitter q.retry_base q.max_retry_delay attempt
    else retry_after e

-- `now` is the clock when the retry is computed, `detail` the redacted message.
unfoldable pub decide :
    Queue → PendingEvent → (ℕ → ℕ) → ActionError → Bool → ℕ → String → ℕ → Decision
unfolding deadline delay_of
decide q ev jitter e canceled attempt detail now =
    let next = now + delay_of q jitter e attempt in
    if canceled || e.canceled
    then requeues
    else if is_non_retryable e || leb (q.max_retries + 1) attempt
    then kills detail
    else if leb (deadline q ev) next
    then kills ("retry deadline exceeded: " ++ detail)
    else retries next detail (retry_after e)

abbrev is_retries : Decision → Bool
is_retries (retries _ _ _) = true
is_retries _ = false

abbrev next_of : Decision → ℕ
next_of (retries next _ _) = next
next_of _ = 0

abbrev asked_of : Decision → ℕ
asked_of (retries _ _ asked) = asked
asked_of _ = 0

not_requeues : {n : ℕ} {m : String} {a : ℕ} → ¬ (retries n m a ≡ requeues)
not_requeues h = cc

not_kills : {n : ℕ} {m : String} {a : ℕ} (s : String) → ¬ (retries n m a ≡ kills s)
not_kills s h = cc

retries_of :
    (stop last late : Bool) (x y : String) (n a : ℕ) (m : String) (n' a' : ℕ)
    → (if stop then requeues else if last then kills x else if late then kills y else retries n x a)
      ≡ retries n' m a'
    → (last ≡ false) × ((late ≡ false) × ((n ≡ n') × (a ≡ a')))
retries_of true last late x y n a m n' a' h = absurd (not_requeues (sym h))
retries_of false true late x y n a m n' a' h = absurd (not_kills x (sym h))
retries_of false false true x y n a m n' a' h = absurd (not_kills y (sym h))
retries_of false false false x y n a m n' a' h = (refl, (refl, (ap next_of h, ap asked_of h)))

delay_of-bounds :
    (q : Queue) (jitter : ℕ → ℕ) (e : ActionError) (attempt : ℕ)
    → ((limit : ℕ) → jitter limit ≤ limit)
    → (retry_after e ≤ delay_of q jitter e attempt)
      × ((0 < retry_after e → delay_of q jitter e attempt ≡ retry_after e)
          × (retry_after e ≡ 0
              → delay_of q jitter e attempt
                ≤ min (q.retry_base * 2 ^ (attempt - 1)) q.max_retry_delay))
unfolding delay_of retry_delay
delay_of-bounds q jitter e attempt within =
    let limit = within (retry_cap q.retry_base q.max_retry_delay attempt) in
    let least = retry_cap-min q.retry_base q.max_retry_delay attempt in
    (ground arith, ((λ h. ground (arith, h)), (λ h. ground (arith, h, limit, least))))

-- If the jitter stays within its cap, a retry is decided only when the error is retryable and at
-- most `max_retries` attempts were made; it comes before the retry deadline of the event, and at
-- the delay that the server asked for, or, if it asked for none, after at most the doubled base,
-- limited by the largest delay.
pub decide-retries :
    (q : Queue) (ev : PendingEvent) (jitter : ℕ → ℕ) (e : ActionError) (canceled : Bool)
    (attempt : ℕ) (detail : String) (now next : ℕ) (message : String) (asked : ℕ)
    → ((limit : ℕ) → jitter limit ≤ limit)
    → decide q ev jitter e canceled attempt detail now ≡ retries next message asked
    → (is_non_retryable e ≡ false)
      × ((attempt ≤ q.max_retries)
          × ((next < deadline q ev)
              × (((0 < asked) × (next ≡ now + asked))
                  ⊎ ((asked ≡ 0)
                      × (next ≤ now + min (q.retry_base * 2 ^ (attempt - 1)) q.max_retry_delay)))))
unfolding decide
decide-retries q ev jitter e canceled attempt detail now next message asked within h =
    let a =
      retries_of (canceled || e.canceled) (is_non_retryable e || leb (q.max_retries + 1) attempt)
        (leb (deadline q ev) (now + delay_of q jitter e attempt)) detail
        ("retry deadline exceeded: " ++ detail) (now + delay_of q jitter e attempt) (retry_after e)
        message next asked h in
    let b = delay_of-bounds q jitter e attempt within in
    (
      ground (arith, a.0),
      (
        ground (arith, a.0),
        (
          ground (arith, a.1.0, a.1.1.0),
          elim (Bool-cases (ltb 0 asked)) [
            | inl p ↦ inl (
              ground (arith, p),
              omega (arith, a.1.1.0, a.1.1.1, b.1.0 (ground (arith, p, a.1.1.1))),
            )
            | inr p ↦
                inr (ground (arith, p), omega (arith, a.1.1.0, b.1.1 (a.1.1.1 ∙ ground (arith, p))))
          ],
        ),
      ),
    )
