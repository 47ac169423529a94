-- ===== src/Queue/Lifecycle.antt =====
-- internal/queue/queue.go: Start, Ready, worker, Wake, Enqueue, isStopped and Stop, as steps that the
-- mutex, the channels and the atomic counter make one at a time. What a worker does between its
-- selects is `drain`.
use general_webhook.Base.{
  ℕ, suc, ◌+◌, ◌-◌, Bool, true, false, not, List, [], ◌∷◌, ◌≡◌, refl, ltb, ◌&&◌, ◌==◌,
  if◌then◌else◌,
}

-- `hints` is the length of the channel `wake`, of capacity `buffer`.
pub record Life : Type 0 where
  pub buffer : ℕ
  pub workers : ℕ
  pub hints : ℕ
  pub stopped : Bool
  pub live_workers : ℕ

unfoldable pub wake : Life → Bool × Life
wake l =
    if l.stopped
    then (false, l)
    else (true, record l { hints = if ltb l.hints l.buffer then suc l.hints else l.hints })

unfoldable pub start : Life → Life
unfolding wake
start l = (wake (record l { live_workers = l.live_workers + l.workers })).1

unfoldable pub ready : Life → Bool
ready l = not l.stopped && ltb 0 l.live_workers

-- Stop closes stopCh once, and then waits until no worker is left or its context ends.
unfoldable pub stop : Life → Life
stop l = record l { stopped = true }

-- Whether the wait of Stop is over.
unfoldable pub stop_returns : Life → Bool
stop_returns l = l.live_workers == 0

-- One select of a worker: it takes a hint, or is woken by its ticker, or ends. Both of the first two
-- call `drain`.
pub data Select : Type 0 where
  hinted ticked ended : Select

unfoldable pub worker_select : Select → Life → Life
worker_select hinted l = record l { hints = l.hints - 1 }
worker_select ticked l = l
worker_select ended l = record l { live_workers = l.live_workers - 1 }

pub data Step : Type 0 where
  wakes starts stops : Step
  selects : Select → Step

unfoldable pub run_step : Step → Life → Life
run_step wakes l = (wake l).1
run_step starts l = start l
run_step stops l = stop l
run_step (selects s) l = worker_select s l

unfoldable pub run_steps : List Step → Life → Life
run_steps [] l = l
run_steps (s ∷ steps) l = run_steps steps (run_step s l)

stopped_stays : (s : Step) (l : Life) → l.stopped ≡ true → (run_step s l).stopped ≡ true
unfolding run_step start stop worker_select wake
stopped_stays wakes l h = rw h refl
stopped_stays starts l h = rw h refl
stopped_stays stops l h = refl
stopped_stays (selects hinted) l h = h
stopped_stays (selects ticked) l h = h
stopped_stays (selects ended) l h = h

stopped_forever :
    (steps : List Step) (l : Life) → l.stopped ≡ true → (run_steps steps l).stopped ≡ true
unfolding run_steps
stopped_forever [] l h = h
stopped_forever (s ∷ steps) l h = stopped_forever steps (run_step s l) (stopped_stays s l h)

stop_stops : (l : Life) → (stop l).stopped ≡ true
unfolding stop
stop_stops l = refl

-- After Stop, whatever happens, a wake is refused and adds no hint, and the queue is not ready: a
-- stopped queue is not started again.
pub stop-final :
    (l : Life) (steps : List Step)
    → (wake (run_steps steps (stop l)) ≡ (false, run_steps steps (stop l)))
      × (ready (run_steps steps (stop l)) ≡ false)
unfolding wake ready
stop-final l steps =
    let h = stopped_forever steps (stop l) (stop_stops l) in rw (h, wake, ready) (refl, refl)
