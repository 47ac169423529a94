-- ===== src/Heartbeat/Metrics.antt =====
-- What the metrics of internal/heartbeat/heartbeat.go keep, however the workers interleave.
use general_webhook.Base.{
  ℕ, zero, suc, ◌≤◌, ◌<◌, ◌≡◌, refl, arith, Bool-cases, inl, inr, List, [], ◌∷◌, All, ltb, ◌==◌,
}
use general_webhook.Config.{HeartbeatTarget, HeartbeatConfig}
use general_webhook.Heartbeat.{
  TargetMetrics, Phase, idle, sending, logging, raising, swapping, Worker, Monitor, Input, LogEnd,
  log_canceled, log_saved, log_failed, after_log, worker, accepted, turn, turn_at, run,
  idle_workers, new_monitor,
}

-- The last success of a target is in the shared time, or is what its worker is about to put there.
abbrev pub Reported : Phase → ℕ → ℕ → Type 0
Reported (raising at) success last = success ≡ at
Reported (swapping at previous) success last = (success ≡ at) × (previous < at)
Reported idle success last = success ≤ last
Reported sending success last = success ≤ last
Reported logging success last = success ≤ last

-- Every failure is of an attempt that has ended, and every missing log of a failure whose log has ended.
abbrev pub Counted : Phase → TargetMetrics → Type 0
Counted sending m = (m.log_failures ≤ m.failures) × (m.failures < m.attempts)
Counted logging m = (m.log_failures < m.failures) × (m.failures ≤ m.attempts)
Counted idle m = (m.log_failures ≤ m.failures) × (m.failures ≤ m.attempts)
Counted (raising at) m = (m.log_failures ≤ m.failures) × (m.failures ≤ m.attempts)
Counted (swapping at previous) m = (m.log_failures ≤ m.failures) × (m.failures ≤ m.attempts)

abbrev pub Kept : ℕ → Worker → Type 0
Kept last w = Counted w.phase w.metrics × Reported w.phase w.metrics.last_success last

-- What a move leaves behind: its own worker is kept, and the shared time has not fallen.
abbrev Moved : ℕ → Worker × ℕ → Type 0
Moved last moved = Kept moved.1 moved.0 × (last ≤ moved.1)

Reported-later :
    (phase : Phase) (success last later : ℕ)
    → last ≤ later
    → Reported phase success last
    → Reported phase success later
Reported-later (raising at) success last later k h = h
Reported-later (swapping at previous) success last later k h = h
Reported-later idle success last later k h = omega (arith, h, k)
Reported-later sending success last later k h = omega (arith, h, k)
Reported-later logging success last later k h = omega (arith, h, k)

later-Kept :
    (ws : List Worker) (last later : ℕ) → last ≤ later → All (Kept last) ws → All (Kept later) ws
later-Kept [] last later k h = tt
later-Kept (w ∷ ws) last later k h = (
  (h.0.0, Reported-later w.phase w.metrics.last_success last later k h.0.1),
  later-Kept ws last later k h.1,
)

after_log-Moved :
    (e : LogEnd) (m : TargetMetrics) (last : ℕ)
    → Counted logging m
    → m.last_success ≤ last
    → Moved last (worker idle (after_log e m), last)
unfolding after_log
after_log-Moved log_canceled m last c r = (((omega (arith, c), c.1), r), omega arith)
after_log-Moved log_saved m last c r = (((omega (arith, c), c.1), r), omega arith)
after_log-Moved log_failed m last c r = (((omega (arith, c), c.1), r), omega arith)

turn-Moved :
    (phase : Phase) (i : Input) (m : TargetMetrics) (last : ℕ)
    → Counted phase m
    → Reported phase m.last_success last
    → Moved last (turn phase i m last)
unfolding turn
turn-Moved idle i m last c r = elim (Bool-cases i.is_canceled) [
  | inl e ↦ rw e ((c, r), omega arith)
  | inr e ↦ rw e (((c.0, omega (arith, c)), r), omega arith)
]
turn-Moved sending i m last c r = elim (Bool-cases (accepted m.mode i.answer)) [
  | inl e ↦ rw e (((c.0, omega (arith, c)), refl), omega arith)
  | inr e ↦ elim (Bool-cases i.is_canceled) [
    | inl f ↦ rw (e, f) (((c.0, omega (arith, c)), r), omega arith)
    | inr f ↦ rw (e, f) (((omega (arith, c), omega (arith, c)), r), omega arith)
  ]
]
turn-Moved (raising at) i m last c r = elim (Bool-cases (ltb last at)) [
  | inl e ↦ rw e ((c, (r, ground (arith, e))), omega arith)
  | inr e ↦ rw e ((c, ground (arith, e, r)), omega arith)
]
turn-Moved (swapping at previous) i m last c r = elim (Bool-cases (last == previous)) [
  | inl e ↦ rw e ((c, omega (arith, r)), ground (arith, e, r))
  | inr e ↦ rw e ((c, r.0), omega arith)
]
turn-Moved logging i m last c r = after_log-Moved i.log_end m last c r

turn_at-Kept :
    (n : ℕ) (i : Input) (ws : List Worker) (last : ℕ)
    → All (Kept last) ws
    → All (Kept (turn_at n i ws last).1) (turn_at n i ws last).0 × (last ≤ (turn_at n i ws last).1)
unfolding turn_at
turn_at-Kept n i [] last h = (tt, omega arith)
turn_at-Kept zero i (w ∷ ws) last h =
    let moved = turn-Moved w.phase i w.metrics last h.0.0 h.0.1 in
    ((moved.0, later-Kept ws last _ moved.1 h.1), moved.1)
turn_at-Kept (suc n) i (w ∷ ws) last h =
    let rest = turn_at-Kept n i ws last h.1 in
    (((h.0.0, Reported-later w.phase w.metrics.last_success last _ rest.1 h.0.1), rest.0), rest.1)

abbrev pub Sound : Monitor → Type 0
Sound m = All (Kept m.last_success) m.workers

pub run-Sound :
    (moves : List (ℕ × Input)) (m : Monitor)
    → Sound m
    → Sound (run moves m) × (m.last_success ≤ (run moves m).last_success)
unfolding run
run-Sound [] m h = (h, omega arith)
run-Sound (move ∷ moves) m h =
    let moved = turn_at-Kept move.0 move.1 m.workers m.last_success h in
    let rest = run-Sound moves _ moved.0 in (rest.0, omega (arith, moved.1, rest.1))

idle_workers-Kept : (targets : List HeartbeatTarget) → All (Kept 0) (idle_workers targets)
unfolding idle_workers
idle_workers-Kept [] = tt
idle_workers-Kept (t ∷ targets) =
    (((omega arith, omega arith), omega arith), idle_workers-Kept targets)

-- However the workers interleave from the start, no target counts more failures than attempts or more
-- missing logs than failures, the time of the last success is not before that of any target unless its
-- worker is about to report it, and no later move makes it fall.
pub run-Kept :
    (cfg : HeartbeatConfig) (moves later : List (ℕ × Input))
    → Sound (run moves (new_monitor cfg))
      × ((run moves (new_monitor cfg)).last_success
          ≤ (run later (run moves (new_monitor cfg))).last_success)
unfolding new_monitor
run-Kept cfg moves later =
    let start = run-Sound moves (new_monitor cfg) (idle_workers-Kept cfg.targets) in
    (start.0, (run-Sound later _ start.0).1)
