-- ===== src/Worker/Process/Success.antt =====
-- utils/mod.rs: `process_job` for a processor that returns a result.
use kiomq.Prelude.{ℕ, ◌≡◌, Bool, none}
use kiomq.Env.{Env}
use kiomq.Deque.{iter}
use kiomq.Job.{Job, JobState}
use kiomq.Result.{Result, ok}
use kiomq.Store.{Store, Now}
use kiomq.Store.Items.Removal.{but}
use kiomq.Store.Jobs.{bumped}
use kiomq.Store.Jobs.Held.{Held}
use kiomq.Queue.{Queue}
use kiomq.Worker.{Crew}
use kiomq.Worker.Process.Settled.{one_fewer}

module _ {E : Env} where
  -- The job is over: its entry is gone and its record, completed, is kept; its id is off the active
  -- list and in the completed set, and no job waits more or less; and, if the run is reported, one job fewer is counted.
  abbrev pub Completed : ℕ → ℕ → Bool → Now E → Crew E → Job E → Result Unit × Crew E → Type 0
  Completed worker_id id reported now c running r =
      (final : Job E) × (r.0 ≡ ok tt)
      × (E.maps.get r.1.jobs_in_progress id ≡ none)
      × Held r.1.queue.store id final
      × (final.state ≡ JobState.completed)
      × (final.attempts_made ≡ bumped running.attempts_made 1)
      × (r.1.queue.store.waiting ≡ c.queue.store.waiting)
      × (iter r.1.queue.store.active ≡ but id (iter c.queue.store.active))
      × (r.1.queue.store.completed
          ≡ E.maps.insert c.queue.store.completed (E.timestamp_micros now.utc) id)
      × (r.1.queue.store.processing ≡ one_fewer reported c.queue.store.processing)
      × ((r.1.cells worker_id).active_job_count
          ≡ one_fewer reported (c.cells worker_id).active_job_count)
