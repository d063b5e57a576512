-- ===== src/Worker/Loop.antt =====
-- utils/mod.rs: `main_loop`. A loop rests where it awaits something; between two rests the code is
-- one function here. The permits are those of the loop's own semaphore, and each task keeps one.
pub mod Bounded
pub mod Reached
pub mod Launch
pub mod Cycle
use kiomq.Prelude.{
  ℕ, ◌-◌, Bool, true, false, ◌||◌, Option, none, some, List, [], ◌∷◌, ◌==◌, leb, if◌then◌else◌,
  length, any, ◌≡◌, ◌+◌,
}
use kiomq.Env.{Env}
use kiomq.Job.{Job, JobState, JobToken}
use kiomq.Result.{KioError, Result, ok, err}
use kiomq.Store.{Now}
use kiomq.Queue.{Queue}
use kiomq.Queue.Control.{update_processing_count}
use kiomq.Timers.{register_worker_timers}
use kiomq.Worker.{Worker, WorkerState, Cells, JobMeta, Crew, with_cells, close_begin, run}
use kiomq.Worker.Process.{Returned, process_job, get_next_job}
use kiomq.Worker.Process.Settled.{id_of}

pub data Position : Type 0 where
  -- The head of the loop, the wait of a paused worker, and before a task's handle is stored.
  top paused_here : Position
  spawned : ℕ → Position
  -- The wait for the tasks, and the two ways out.
  drained returned : Position
  broken : KioError → Position

pub record Loop : Type 0 where
  pub at : Position
  pub permits : ℕ

pub record Running (E : Env) : Type 0 where
  pub loop : Loop
  pub crew : Crew E

-- The tracker without a task of a job.
abbrev pub drop_task : ℕ → List ℕ → List ℕ
drop_task id [] = []
drop_task id (i ∷ is) = if i == id then is else i ∷ drop_task id is

module _ {E : Env} where
  abbrev pub moved_to : Position → Running E → Running E
  moved_to p r = record r { loop = record r.loop { at = p } }

  abbrev pub with_queue : Queue E → Running E → Running E
  with_queue q r = record r { crew = record r.crew { queue = q } }

  abbrev pub with_state : Worker E → WorkerState → Running E → Running E
  with_state w state r = record r {
    crew = with_cells w.id (λ s. record s { state = state }) r.crew;
  }

  -- A queue has its timers from its creation on.
  unfoldable pub start : Worker E → Crew E → Running E
  start w c = record {
    loop = record { at = top; permits = w.opts.concurrency };
    crew = record c { collector = register_worker_timers c.queue_id w.opts c.collector };
  }

  -- By the answer to the report of a new run.
  pub launched : Worker E → ℕ → Job E → JobToken → Running E → Result ℕ × Queue E → Running E
  launched w id job token r (err e, q) = moved_to (broken e) (with_queue q r)
  launched w id job token r (ok _, q) = record {
    loop = record { at = spawned id; permits = r.loop.permits - 1 };
    crew =
        with_cells w.id (λ s. record s { processing = id ∷ s.processing })
          (record r.crew {
            queue = q;
            jobs_in_progress =
                E.maps.insert r.crew.jobs_in_progress id
                  (record { job = job; token = token; has_handle = false; opts = w.opts });
          });
  }

  -- By the id of the job that was taken. A permit that is not handed to a task is given back.
  launch : Worker E → Option ℕ → Job E → JobToken → Now E → Running E → Running E
  unfolding launched
  launch w none job token now r = moved_to top r
  launch w (some id) job token now r =
      launched w id job token r (update_processing_count true w.id id job.state now r.crew.queue)

  taken : Worker E → JobToken → Now E → Running E → Result (Option (Job E)) × Queue E → Running E
  unfolding launch
  taken w token now r (ok (some job), q) = launch w job.id job token now (with_queue q r)
  taken w token now r (ok none, q) = moved_to top (with_queue q r)
  taken w token now r (err e, q) = moved_to top (with_queue q r)

  -- The token has the worker, a new number, and the worker's count of jobs.
  admit : Worker E → ℕ → Now E → Running E → Running E
  unfolding taken
  admit w next_id now r =
      let s = r.crew.cells w.id in
      let token : JobToken = record {
        worker = w.id;
        next_id = next_id;
        token_prefix = s.active_job_count;
      } in
      if (r.loop.permits == 0) || leb w.opts.concurrency (length s.processing)
      then moved_to top r
      else taken w token now r (get_next_job token s.cancelled w.opts none now r.crew.queue)

  -- From the head of the loop.
  unfoldable pub turn : Worker E → ℕ → Now E → Running E → Running E
  unfolding admit
  turn w next_id now r =
      if (r.crew.cells w.id).cancelled
      then moved_to drained r
      else if r.crew.queue.store.pause_workers
      then moved_to paused_here (with_state w WorkerState.idle r)
      else admit w next_id now r

  -- A paused worker is notified.
  unfoldable pub resume : Worker E → ℕ → Now E → Running E → Running E
  unfolding admit
  resume w next_id now r = admit w next_id now (with_state w WorkerState.active r)

  abbrev handed : E.maps.Map (JobMeta E) → ℕ → Option (JobMeta E) → E.maps.Map (JobMeta E)
  handed m id none = m
  handed m id (some entry) = E.maps.insert m id (record entry { has_handle = true })

  -- The handle of a new task is stored, if the job's entry is still there.
  unfoldable pub store_handle : ℕ → Running E → Running E
  store_handle id r =
      let m = r.crew.jobs_in_progress in
      moved_to top
        (record r { crew = record r.crew { jobs_in_progress = handed m id (E.maps.get m id) } })

  -- A task ends, with the permit that it holds.
  unfoldable pub end_task : Worker E → Job E → JobToken → Returned E → Now E → Running E → Running E
  end_task w job token ret now r = record {
    loop = record r.loop { permits = r.loop.permits + 1 };
    crew =
        with_cells w.id (λ s. record s { processing = drop_task (id_of job) s.processing })
          (process_job w.id job token ret now r.crew).1;
  }

  -- All tasks of a cancelled worker have ended.
  unfoldable pub wind_down : Worker E → Running E → Running E
  wind_down w r = moved_to returned (with_state w WorkerState.closed r)

  -- What can happen next, as long as no call of `run` succeeds, as one does in the wait. Anything else
  -- may change but the worker's own cells.
  pub data Step (w : Worker E) : Running E → Running E → Type 0 where
    turned :
        {r : Running E} (next_id : ℕ) (now : Now E)
        → r.loop.at ≡ top
        → Step w r (turn w next_id now r)
    notified :
        {r : Running E} (next_id : ℕ) (now : Now E)
        → r.loop.at ≡ paused_here
        → Step w r (resume w next_id now r)
    given_up :
        {r : Running E}
        → r.loop.at ≡ paused_here
        → (r.crew.cells w.id).cancelled ≡ true
        → Step w r (moved_to drained r)
    stored : {r : Running E} (id : ℕ) → r.loop.at ≡ spawned id → Step w r (store_handle id r)
    ended :
        {r : Running E} (job : Job E) (token : JobToken) (ret : Returned E) (now : Now E)
        → any (λ i. i == id_of job) (r.crew.cells w.id).processing ≡ true
        → Step w r (end_task w job token ret now r)
    wound_down :
        {r : Running E}
        → r.loop.at ≡ drained
        → (r.crew.cells w.id).closing ≡ true
        → (r.crew.cells w.id).processing ≡ []
        → Step w r (wind_down w r)
    -- A call of `run` that fails. One that succeeds starts another loop, and is no step of this one.
    refused :
        {r : Running E} (error : KioError)
        → (run w r.crew).0 ≡ err error
        → Step w r (record r { crew = (run w r.crew).1 })
    closed : {r : Running E} → Step w r (record r { crew = (close_begin w r.crew).1 })
    elsewhere :
        {r : Running E} (c : Crew E)
        → c.cells w.id ≡ r.crew.cells w.id
        → Step w r (record r { crew = c })

  pub data Reachable (w : Worker E) (c : Crew E) : Running E → Type 0 where
    started : Reachable w c (start w c)
    next : {r s : Running E} → Reachable w c r → Step w r s → Reachable w c s
