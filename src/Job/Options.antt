-- ===== src/Job/Options.antt =====
-- job/mod.rs and queue/options.rs: the options of a job and of a queue, and utils/mod.rs: how a
-- job's options fall back on the queue's.
pub mod Defaults
use kiomq.Prelude.{ℕ, Bool, Option, none, some, if◌then◌else◌, ltb}
use kiomq.Env.{Env}
use kiomq.Job.Delay.{JobDelay, time_milis}
use kiomq.Job.Backoff.{BackOffJobOptions}
use kiomq.Job.Repeat.{Repeat}

-- Numbers are `i64`s.
pub record KeepJobs : Type 0 where
  pub age : Option ℕ
  pub count : Option ℕ

pub data RemoveOnCompletionOrFailure : Type 0 where
  bool : Bool → RemoveOnCompletionOrFailure
  int : ℕ → RemoveOnCompletionOrFailure
  opts : KeepJobs → RemoveOnCompletionOrFailure

pub record JobOptions (E : Env) : Type 0 where
  pub priority : ℕ
  pub delay : JobDelay E
  pub id : Option ℕ
  pub attempts : ℕ
  pub remove_on_complete : Option RemoveOnCompletionOrFailure
  pub remove_on_fail : Option RemoveOnCompletionOrFailure
  pub backoff : Option BackOffJobOptions
  pub repeat : Option (Repeat E)

pub data QueueEventMode : Type 0 where
  pub_sub stream : QueueEventMode

pub record QueueOpts (E : Env) : Type 0 where
  pub remove_on_fail : Option RemoveOnCompletionOrFailure
  pub remove_on_complete : Option RemoveOnCompletionOrFailure
  pub attempts : ℕ
  pub default_backoff : Option BackOffJobOptions
  pub event_mode : Option QueueEventMode
  pub repeat : Option (Repeat E)

module _ {E : Env} where
  abbrev pub default_options : JobOptions E
  default_options = record {
    priority = 0;
    delay = time_milis 0;
    id = none;
    attempts = 0;
    remove_on_complete = none;
    remove_on_fail = none;
    backoff = none;
    repeat = none;
  }

  abbrev pub default_queue_opts : QueueOpts E
  default_queue_opts = record {
    remove_on_fail = none;
    remove_on_complete = none;
    attempts = 1;
    default_backoff = none;
    event_mode = some stream;
    repeat = none;
  }

abbrev pub or_else {ℓ} : {A : Type ℓ} → Option A → Option A → Option A
or_else none d = d
or_else (some a) d = some a

module _ {E : Env} where
  unfoldable pub update_job_opts : QueueOpts E → JobOptions E → JobOptions E
  update_job_opts queue_opts o = record o {
    remove_on_complete = or_else o.remove_on_complete queue_opts.remove_on_complete;
    remove_on_fail = or_else o.remove_on_fail queue_opts.remove_on_fail;
    attempts = if ltb o.attempts queue_opts.attempts then queue_opts.attempts else o.attempts;
    backoff = or_else o.backoff queue_opts.default_backoff;
    repeat = or_else o.repeat queue_opts.repeat;
  }
