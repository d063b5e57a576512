-- ===== src/Job/Options/Defaults.antt =====
-- How the options of a job fall back on those of its queue (utils/mod.rs).
use kiomq.Prelude.{◌≤◌, ◌≡◌, arith}
use kiomq.Env.{Env}
use kiomq.Job.Options.{JobOptions, QueueOpts, update_job_opts}

module _ {E : Env} where
  -- Applying the defaults of a queue twice is applying them once, and leaves a job at least the
  -- attempts of the queue and those of its own.
  pub update_job_opts-idempotent :
      (q : QueueOpts E) (o : JobOptions E)
      → (update_job_opts q (update_job_opts q o) ≡ update_job_opts q o)
        × (q.attempts ≤ (update_job_opts q o).attempts)
        × (o.attempts ≤ (update_job_opts q o).attempts)
  unfolding update_job_opts
  update_job_opts-idempotent q o = ground arith
