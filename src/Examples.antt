-- ===== src/Examples.antt =====
-- A concrete environment and a store, a queue and a job in it, for the examples of the children.
mod Lists
mod Jobs
mod Queues
mod Upkeep
mod Small
mod Workers
mod Timing
mod Disk
use kiomq.Prelude.{ℕ, true, ◌+◌, ◌-◌, ◌*◌, ◌/◌, ltb, if◌then◌else◌, Option, none, some}
use kiomq.SkipMap.Listed.{listed}
use kiomq.SkipMap.Keyed.{functions}
use kiomq.Env.{Env}
use kiomq.Job.{Job, JobState, JobToken, JobMetrics, new as new_job}
use kiomq.Suffix.{CollectionSuffix}
use kiomq.Store.Items.{add_item}
use kiomq.Store.Jobs.Held.{with_job}
use kiomq.Queue.Moves.{WorkerOpts}
use kiomq.Job.Delay.{time_milis}
use kiomq.Job.Options.{JobOptions, default_options}
use kiomq.Store.{Store, Now}
use kiomq.Store
use kiomq.Queue.{Queue}
use kiomq.Queue

-- A time is a number of milliseconds, and a schedule is its period. A step of 2^53 milliseconds or
-- more leaves the range of dates.
abbrev pub sample : Env
sample = record {
  Input = ℕ;
  Output = ℕ;
  Progress = ℕ;
  Dt = ℕ;
  epoch = 0;
  timestamp_millis = λ t. t;
  timestamp_micros = λ t. t * 1000;
  from_timestamp_micros = λ n. some (n / 1000);
  add_ms = λ t ms. if ltb ms 0x20000000000000 then some (t + ms) else none;
  diff_ms = λ t u. t - u;
  elapsed = λ t u. (t - u) * 1000000;
  Cron = ℕ;
  find_next_occurrence = λ period t. some (t + period);
  maps = listed;
  names = functions;
}

abbrev pub at : ℕ → Now sample
at t = record { utc = t; instant = t }

abbrev pub empty_store : Store sample
empty_store = Store.new none "mail"

abbrev pub empty_queue : Queue sample
empty_queue = Queue.new empty_store none

abbrev pub job : Job sample
job = new_job "send" (some 7) none none 1000

abbrev pub with_delay : ℕ → JobOptions sample
with_delay ms = record default_options { delay = time_milis ms }

abbrev pub metrics : JobMetrics
metrics = record { ran_for = 5; delayed_for = 0; attempt = 1; delay = 0; id = 1 }

abbrev pub worker_token : JobToken
worker_token = record { worker = 1; next_id = 2; token_prefix = 3 }

abbrev pub opts : WorkerOpts
opts = record {
  stalled_interval = 30000;
  lock_duration = 30000;
  lock_renew_time = 15000;
  max_stalled_count = 1;
  concurrency = 1;
  autorun = true;
  metrics_update_interval = 100;
}

-- Job 1 is active, with its record.
abbrev pub running : Job sample
running = record job { id = some 1; state = JobState.active }

abbrev pub busy : Queue sample
busy = record empty_queue {
  store = with_job (add_item CollectionSuffix.active 1 none true empty_store) 1 running;
}
