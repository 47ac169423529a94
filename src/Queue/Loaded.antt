-- ===== src/Queue/Loaded.antt =====
-- The settings of a queue that is made from a loaded configuration, as cmd/server/main.go makes it.
use general_webhook.Base.{
  ℕ, ◌≤◌, ◌<◌, ℤ, pos, String, Option, some, List, ◌≡◌, refl, sym, subst, arith, pos_part,
}
use general_webhook.Config.{QueueConfig, Config}
use general_webhook.Config.Library.{Library}
use general_webhook.Config.Valid.{QueueValid, load-Valid}
use general_webhook.Config.Load.{load, loaded}
use general_webhook.Queue.Settings.{Queue, new_queue, second, positive_or, at_least_or}

-- The queue has the numbers of the configuration, none replaced by a default, and they are in order.
pub record Configured (c : QueueConfig) (q : Queue) : Type 0 where
  pub workers : c.workers ≡ pos q.workers
  pub buffer : c.buffer ≡ pos q.buffer
  pub max_retries : c.max_retries ≡ pos q.max_retries
  pub retry_base : c.retry_base ≡ pos q.retry_base
  pub max_retry_delay : c.max_retry_delay ≡ pos q.max_retry_delay
  pub max_retry_age : c.max_retry_age ≡ pos q.max_retry_age
  pub some_worker : 1 ≤ q.workers
  pub attempts : q.max_retries ≤ 20
  pub some_delay : 0 < q.retry_base
  pub delay_order : q.retry_base ≤ q.max_retry_delay
  pub age_order : q.retry_base ≤ q.max_retry_age

positive_or-same : (d n : ℕ) → 1 ≤ n → positive_or d (pos n) ≡ n
positive_or-same d n h = ground (arith, h)

at_least_or-same : (low d n : ℕ) → low ≤ n → at_least_or low d (pos n) ≡ n
at_least_or-same low d n h = ground (arith, h)

new_queue-Configured :
    (workers buffer max_retries retry_base max_retry_delay max_retry_age : ℕ) (cfg : Option Config)
    (owner : String)
    → 1 ≤ workers
    → 1 ≤ buffer
    → max_retries ≤ 20
    → 1 ≤ retry_base
    → retry_base ≤ max_retry_delay
    → retry_base ≤ max_retry_age
    → let c : QueueConfig = record {
      workers = pos workers;
      buffer = pos buffer;
      max_retries = pos max_retries;
      retry_base = pos retry_base;
      max_retry_delay = pos max_retry_delay;
      max_retry_age = pos max_retry_age;
    } in
      Configured c (new_queue c cfg owner)
unfolding new_queue
new_queue-Configured workers buffer max_retries retry_base delay age cfg owner w b r p d a =
    let base = positive_or-same second retry_base p in
    rw
      (
        positive_or-same 1 workers w,
        positive_or-same 1 buffer b,
        base,
        at_least_or-same retry_base _ delay d,
        at_least_or-same retry_base _ age a,
      )
      (record {
        workers = refl;
        buffer = refl;
        max_retries = refl;
        retry_base = refl;
        max_retry_delay = refl;
        max_retry_age = refl;
        some_worker = w;
        attempts = r;
        some_delay = p;
        delay_order = d;
        age_order = a;
      })

-- `pos_part c.retry_base` is the base.
from_base : (base n : ℕ) (v : ℤ) → v ≡ pos base → pos_part v ≤ n → base ≤ n
from_base base n v e h = subst (λ (x : ℤ). pos_part x ≤ n) e h

valid-Configured :
    (c : QueueConfig) (cfg : Option Config) (owner : String)
    → QueueValid c
    → Configured c (new_queue c cfg owner)
valid-Configured c cfg owner v =
    let base = v.retry_base.is_value in
    let delay = from_base _ _ _ base v.max_retry_delay.at_least in
    let age = from_base _ _ _ base v.max_retry_age.at_least in
    let same : (record {
      workers = pos v.workers.value;
      buffer = pos v.buffer.value;
      max_retries = pos v.max_retries.value;
      retry_base = pos v.retry_base.value;
      max_retry_delay = pos v.max_retry_delay.value;
      max_retry_age = pos v.max_retry_age.value;
    })
        ≡ c =
      λ i. record {
        workers = sym v.workers.is_value i;
        buffer = sym v.buffer.is_value i;
        max_retries = sym v.max_retries.is_value i;
        retry_base = sym base i;
        max_retry_delay = sym v.max_retry_delay.is_value i;
        max_retry_age = sym v.max_retry_age.is_value i;
      } in
    subst (λ (x : QueueConfig). Configured x (new_queue x cfg owner)) same
      (new_queue-Configured _ _ _ _ _ _ cfg owner v.workers.at_least v.buffer.at_least
        v.max_retries.at_most (omega (arith, v.retry_base.at_least)) delay age)

-- A queue that is made from a configuration as it was loaded has exactly the numbers of that
-- configuration, at least one worker, at most 20 retries, and delays and ages that are not below the
-- positive retry base.
pub load-Configured :
    (lib : Library) (raw : Option (List ℕ)) (decode : List ℕ → Config → Option Config) (d : Config)
    (owner : String)
    → load lib raw decode ≡ loaded d
    → Configured d.queue (new_queue d.queue (some d) owner)
load-Configured lib raw decode d owner h =
    valid-Configured d.queue (some d) owner (load-Valid lib raw decode d h).queue
