-- ===== src/Examples/Workers.antt =====
-- A worker at work: its runs of a job, and its main loop.
use kiomq.Prelude.{◌≡◌, refl, true, false, none, some, [], ◌≤◌, length, ◌+◌}
use kiomq.SkipMap.Listed.{listed}
use kiomq.SkipMap.Lookups.{get-insert}
use kiomq.SkipMap.Sorted
use kiomq.Job.{Job, JobState, new as new_job}
use kiomq.Job.Backoff.{BackOffJobOptions}
use kiomq.Job.Backoff
use kiomq.Result.{ok, err, worker_already_closed}
use kiomq.TimedMap
use kiomq.Metrics.{queue_is_paused, update}
use kiomq.Suffix.{CollectionSuffix}
use kiomq.Store.{Store}
use kiomq.Store
use kiomq.Store.Items.{add_item}
use kiomq.Store.Publish.{create_stream_listener, get_metrics}
use kiomq.Store.Jobs.Held.{with_job, with_job-Held}
use kiomq.Queue.{Queue, is_paused}
use kiomq.Queue
use kiomq.Queue.Retry.{calculate_next_delay_ms}
use kiomq.Timers.{Collector}
use kiomq.Worker.{Worker, WorkerState, Crew, JobMeta, default_cells, run, close_begin, is_running}
use kiomq.Worker.Process.{caught, error, process_job}
use kiomq.Worker.Process.Failure.{Retried, process_job-retries}
use kiomq.Worker.Loop.{
  Running, start, turn, wind_down, Reachable, started, next, turned, wound_down, closed,
}
use kiomq.Worker.Loop.Bounded.{IsRunning}
use kiomq.Worker.Loop.Reached.{Reachable-IsRunning}
use kiomq.Worker.States.{run-returned, run-paused}
use kiomq.Examples.{sample, at, empty_store, empty_queue, worker_token, opts, running, busy}
use kiomq.Deque
use kiomq.Worker.Loop.{top}

abbrev pub collector : Collector sample
collector = record {
  workers = TimedMap.new;
  queues = listed.new;
  global_timers = listed.new;
  delayed_queue = [];
}

abbrev pub crew : Queue sample → Crew sample
crew queue = record {
  queue_id = 9;
  queue = queue;
  jobs_in_progress = listed.new;
  workers = listed.new;
  collector = collector;
  cells = λ _. record default_cells { state = WorkerState.active };
}

abbrev worker : Worker sample
worker = record { id = 1; opts = opts; created_at = 0 }

-- Job 1 runs.
abbrev entry : JobMeta sample
entry = record { job = running; token = worker_token; has_handle = true; opts = opts }

abbrev at_work : JobMeta sample → Crew sample
at_work e = record (crew busy) { jobs_in_progress = listed.insert listed.new 1 e }

open_queue : is_paused busy ≡ false
unfolding is_paused queue_is_paused Queue.new add_item Store.new create_stream_listener get_metrics
    update
open_queue = refl

-- It may run twice more, after a second each.
abbrev patient : JobMeta sample
patient = record entry {
  job = record running {
    opts = record running.opts { attempts = 3; backoff = some (Backoff.number 1000) };
  };
}

patient_delay : calculate_next_delay_ms busy (Backoff.number 1000) 0 ≡ some 1000
unfolding calculate_next_delay_ms Backoff.normalize Backoff.calculate Queue.new Backoff.new
    Backoff.fixed Backoff.lookup_strategy
patient_delay = refl

process_job-retries_example : Retried 1 3000 true (at 2000) (at_work patient) running (
    process_job 1 running worker_token
      (caught (error "no answer" none))
      (at 2000)
      (at_work patient))
unfolding new_job Store.new Sorted.lookup add_item
process_job-retries_example =
    process_job-retries {E = sample} 1 1000 running worker_token (error "no answer" none) (at 2000)
      (at_work patient) running patient (Backoff.number 1000) 3000 open_queue
      (with_job-Held (add_item CollectionSuffix.active 1 none true empty_store) 1 running) refl
      (get-insert listed listed.new 1 1 patient) refl refl patient_delay refl refl refl

Reachable-IsRunning_example :
    let r = turn worker 5 (at 0) (start worker (crew empty_queue)) in
    IsRunning worker r × (length (r.crew.cells 1).processing ≤ 1)
unfolding start
Reachable-IsRunning_example =
    Reachable-IsRunning worker (crew empty_queue)
      (turn worker 5 (at 0) (start worker (crew empty_queue))) refl refl
      (next started (turned 5 (at 0) refl))

-- The worker is closed at once.
abbrev shut : Running sample
shut = let r = start worker (crew empty_queue) in record r { crew = (close_begin worker r.crew).1 }

abbrev gone : Running sample
gone = wind_down worker (turn worker 5 (at 0) shut)

gone-Reachable : Reachable worker (crew empty_queue) gone
unfolding start close_begin is_running turn
gone-Reachable =
    next (next (next started closed) (turned 5 (at 0) refl)) (wound_down refl refl refl)

run-returned_example : run worker gone.crew ≡ (err worker_already_closed, gone.crew)
unfolding wind_down
run-returned_example = run-returned worker (crew empty_queue) gone refl refl gone-Reachable refl

-- The queue asks its workers to pause.
abbrev calm : Queue sample
calm = record empty_queue { store = record empty_store { pause_workers = true } }

abbrev resting : Running sample
resting = turn worker 5 (at 0) (start worker (crew calm))

run-paused_example :
    (close_begin worker resting.crew ≡ (false, resting.crew))
    × ((run worker resting.crew).0 ≡ ok tt)
    × (((run worker resting.crew).1.cells 1).main_tasks ≡ (resting.crew.cells 1).main_tasks + 1)
unfolding start turn
run-paused_example =
    run-paused worker (crew calm) resting refl refl (next started (turned 5 (at 0) refl)) refl

-- Job 1 waits, with its id in its record.
abbrev entered : Job sample
entered = record running { state = JobState.wait }

abbrev one_waits : Queue sample
one_waits = record empty_queue {
  store = with_job (add_item CollectionSuffix.wait 1 none true empty_store) 1 entered;
}

abbrev at_start : Running sample
at_start = record { loop = record { at = top; permits = 1 }; crew = crew one_waits }
