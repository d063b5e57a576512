-- ===== src/Examples/Timing.antt =====
-- Timers: a queue whose delayed jobs come due, and the coordinator.
use kiomq.Prelude.{
  List, ◌≤◌, ◌≡◌, ◌+◌, refl, true, false, none, some, [], ◌∷◌, any, ltb, ◌==◌, if◌then◌else◌, arith,
}
use kiomq.SkipMap.Listed.{listed}
use kiomq.SkipMap.Sorted
use kiomq.TimedMap
use kiomq.Metrics.{default_metrics}
use kiomq.Store.{Store}
use kiomq.Timers.{
  stalled_check, Collector, Registration, extend_lock, collect_metrics, reregister_worker, send_all,
  schedule, respond, register_worker, register_worker_timers, worker_timers, next_duration,
  holds_queue,
}
use kiomq.Timers.Once.{
  taken, entered, busy as in_use, send_all-taken, register_worker_timers-stalled,
}
use kiomq.Timers.Registry.{register_worker-lasts}
use kiomq.Timers.Awaited.{Event, joined, sent, expired, after, respond-awaited}
use kiomq.Timer.{Timer, active as on, ready, woken, here, stop, run, is_running}
use kiomq.Timer.Stopped.{stop-calls}
use kiomq.Worker.{Crew}
use kiomq.Worker.Timed.{promote_jobs}
use kiomq.Examples.{sample, at, empty_store, empty_queue, opts}
use kiomq.Examples.Workers.{collector, crew}

send_all-taken_example :
    (send_all 9 (worker_timers opts) collector).delayed_queue
    ≡ entered (taken (in_use 9 collector) (worker_timers opts)) []
send_all-taken_example = send_all-taken {E = sample} (worker_timers opts) 9 collector

-- With the interval of the stalled check and the duration of the locks at their defaults.
register_worker_timers-stalled_example :
    (register_worker_timers 9 opts collector).delayed_queue
    ≡ entered (extend_lock 30000 ∷ collect_metrics 100 ∷ reregister_worker ∷ []) []
unfolding holds_queue Sorted.lookup
register_worker_timers-stalled_example =
    register_worker_timers-stalled {E = sample} 9 opts collector refl refl refl refl (omega arith)
      (omega arith) (omega arith) (omega arith) (omega arith)

abbrev registration : Registration sample
registration = record { opts = opts; created_at = 0 }

register_worker-lasts_example :
    let after = register_worker 1 registration 5 collector in
    ((TimedMap.get after.workers 1 200000).0
      ≡ (if ltb 200000 (5 + 100000000) then some registration else none))
    × (register_worker 1 registration 100005 after ≡ after)
unfolding TimedMap.new Sorted.lookup
register_worker-lasts_example =
    register_worker-lasts {E = sample} 1 5 100005 200000 registration registration collector refl
      refl (omega arith)

-- The coordinator knows queue 9.
abbrev known : Collector sample
known = record collector { queues = listed.insert listed.new 9 default_metrics }

-- Queue 8 joins and sends a timer, and one of another duration expires.
abbrev others : List Event
others =
    joined 8 default_metrics ∷ sent 8 (extend_lock 30000) ∷ expired 100 (collect_metrics 100) ∷ []

respond-awaited_example :
    let r =
      respond 30000 (extend_lock 30000) (after others (schedule 9 (extend_lock 30000) known)) in
    (any (λ i. i == 9) r.0 ≡ true) × (respond 30000 (stalled_check 30000) r.1 ≡ ([], r.1))
unfolding Sorted.lookup Sorted.insert next_duration
respond-awaited_example =
    respond-awaited {E = sample} (extend_lock 30000) (extend_lock 30000) (stalled_check 30000) 9
      others known refl (tt, (tt, (refl, tt)))

-- Jobs 1 and 2 are due between 1490 and 1540.
abbrev delayed_store : Store sample
delayed_store = record empty_store {
  delayed = listed.insert (listed.insert listed.new 1500 1) 1520 2;
  stored_metrics = record default_metrics { delayed = 2 };
}

abbrev dozing : Crew sample
dozing = record (crew (record empty_queue { store = delayed_store })) { collector = known }

-- What queue 8 does before the timer expires.
abbrev waking : Crew sample
waking = record dozing {
  collector = after others (promote_jobs 1490 50 (at 1490) dozing).1.collector;
}

-- One task is before a tick, and one was notified.
abbrev ticking_timer : Timer
ticking_timer = record {
  interval = 100;
  state = on;
  skip_first_tick = false;
  cancelled = false;
  tasks = ready ∷ woken ∷ [];
  calls = 3;
}

stop-calls_example :
    ((stop ticking_timer).cancelled ≡ true)
    × ((stop ticking_timer).calls ≤ 4)
    × ((run (stop ticking_timer)).0 ≡ true)
    × (is_running (run (stop ticking_timer)).1 ≡ true)
    × ((run (stop ticking_timer)).1.calls ≤ 4)
unfolding stop run
stop-calls_example =
    stop-calls ticking_timer (stop ticking_timer) (run (stop ticking_timer)).1 here here
