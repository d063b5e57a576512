-- ===== src/Worker.antt =====
-- worker/mod.rs and queue/mod.rs: the workers of a queue. What a worker shares with its tasks, its
-- queue and its clones is a cell under the worker's id; the processor is a parameter of the children.
pub mod Process
pub mod Loop
pub mod States
pub mod Timed
use kiomq.Prelude.{
  ℕ, ◌+◌, Bool, true, false, not, ◌&&◌, ◌||◌, Option, none, some, List, [], ◌==◌, if◌then◌else◌,
  is_some, unwrap_or,
}
use kiomq.Env.{Env}
use kiomq.Job.{Job, JobToken}
use kiomq.Result.{
  Action, Result, ok, err, worker_already_running, worker_already_closed, continue, pure, ◌>>◌,
}
use kiomq.Result
use kiomq.Store.{Now}
use kiomq.Queue.{Queue}
use kiomq.Queue.Control.{resume_workers}
use kiomq.Queue.Moves.{WorkerOpts}
use kiomq.Timers.{Registration, Collector, register_worker, unregister_worker}

pub data WorkerState : Type 0 where
  active idle closed : WorkerState

abbrev pub is_active : WorkerState → Bool
is_active active = true
is_active _ = false

abbrev pub is_idle_state : WorkerState → Bool
is_idle_state idle = true
is_idle_state _ = false

abbrev pub is_closed : WorkerState → Bool
is_closed closed = true
is_closed _ = false

-- What is kept of a job while it runs: whether its task's handle is stored, not the handle itself.
pub record JobMeta (E : Env) : Type 0 where
  pub job : Job E
  pub token : JobToken
  pub has_handle : Bool
  pub opts : WorkerOpts

pub record Cells : Type 0 where
  pub state : WorkerState
  pub cancelled : Bool
  -- Whether the tracker of the tasks is closed, and the jobs whose tasks have not ended.
  pub closing : Bool
  pub processing : List ℕ
  pub active_job_count : ℕ
  -- How many main loops were spawned.
  pub main_tasks : ℕ

pub record Crew (E : Env) : Type 0 where
  pub queue_id : ℕ
  pub queue : Queue E
  pub jobs_in_progress : E.maps.Map (JobMeta E)
  pub workers : E.maps.Map (Registration E)
  pub collector : Collector E
  pub cells : ℕ → Cells

pub record Worker (E : Env) : Type 0 where
  pub id : ℕ
  pub opts : WorkerOpts
  pub created_at : E.Dt

abbrev pub default_cells : Cells
default_cells = record {
  state = idle;
  cancelled = false;
  closing = false;
  processing = [];
  active_job_count = 0;
  main_tasks = 0;
}

-- worker/worker_opts.rs: the number of processors comes from the system.
unfoldable pub default_worker_opts : ℕ → WorkerOpts
default_worker_opts cpus = record {
  stalled_interval = 30000;
  lock_duration = 30000;
  lock_renew_time = 15000;
  max_stalled_count = 1;
  concurrency = cpus;
  autorun = false;
  metrics_update_interval = 100;
}

module _ {E : Env} where
  -- A change of a worker's cells.
  abbrev pub with_cells : ℕ → (Cells → Cells) → Crew E → Crew E
  with_cells id f c = record c { cells = λ j. if j == id then f (c.cells j) else c.cells j }

  unfoldable pub add_worker : ℕ → WorkerOpts → Now E → Crew E → Crew E
  add_worker id opts now c =
      let entry : Registration E = record { opts = opts; created_at = now.utc } in
      record c {
        workers =
            if is_some (E.maps.get c.workers id)
            then c.workers
            else E.maps.insert c.workers id entry;
        collector = register_worker id entry now.instant c.collector;
      }

  unfoldable pub add_worker_heartbeat : ℕ → Now E → Crew E → Crew E
  add_worker_heartbeat worker_id now c = elim (E.maps.get c.workers worker_id) [
    | none ↦ c
    | some entry ↦ record c { collector = register_worker worker_id entry now.instant c.collector }
  ]

  unfoldable pub remove_worker : ℕ → Crew E → Crew E
  remove_worker id c = record c {
    workers = (E.maps.remove c.workers id).1;
    collector = unregister_worker id c.collector;
  }

  unfoldable pub is_running : Worker E → Crew E → Bool
  is_running w c = is_active (c.cells w.id).state && not (c.cells w.id).cancelled

  unfoldable pub is_idle : Worker E → Crew E → Bool
  is_idle w c = is_idle_state (c.cells w.id).state

  unfoldable pub is_closed_worker : Worker E → Crew E → Bool
  is_closed_worker w c = (c.cells w.id).cancelled || is_closed (c.cells w.id).state

  spawn_main : Worker E → Crew E → Result Unit × Crew E
  spawn_main w c = (ok tt, with_cells w.id (λ s. record s { main_tasks = s.main_tasks + 1 }) c)

  -- The exchange of the state succeeds on an idle worker, cancelled or not.
  unfoldable pub run : Worker E → Action (Crew E) Unit
  unfolding spawn_main
  run w c =
      let current = (c.cells w.id).state in
      let cancelled = (c.cells w.id).cancelled in
      if is_idle_state current
      then spawn_main w (with_cells w.id (λ s. record s { state = active }) c)
      else if is_active current && not cancelled
      then (err worker_already_running, c)
      else if is_closed current || cancelled
      then (err worker_already_closed, c)
      else spawn_main w c

  unfoldable pub new : ℕ → Option WorkerOpts → ℕ → Now E → Action (Crew E) (Worker E)
  unfolding add_worker run default_worker_opts
  new id worker_opts cpus now c =
      let opts = unwrap_or worker_opts (default_worker_opts cpus) in
      let worker : Worker E = record { id = id; opts = opts; created_at = now.utc } in
      let fresh = with_cells id (λ _. default_cells) (add_worker id opts now c) in
      continue (if opts.autorun then run worker fresh else (ok tt, fresh)) (λ _. pure worker)

  -- Up to the point where the main loop is waited for; whether it is.
  unfoldable pub close_begin : Worker E → Crew E → Bool × Crew E
  unfolding is_running
  close_begin w c = if not (is_running w c) then (false, c) else (
    true,
    let q = resume_workers c.queue in
        with_cells w.id (λ s. record s { closing = true; cancelled = true })
          (record c {
            queue = record q {
              store = record q.store { notified = q.store.notified + 1; pause_workers = false };
            };
          }),
  )

  -- After the main loop has ended.
  unfoldable pub close_end : Worker E → Crew E → Crew E
  unfolding remove_worker
  close_end w c = remove_worker w.id c
