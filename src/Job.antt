-- ===== src/Job.antt =====
-- job/mod.rs: the data of a job, its options and its life-cycle states.
pub mod Delay
pub mod Backoff
pub mod Repeat
pub mod Options
pub mod Fields
use mathlib.Core.Option
use kiomq.Prelude.{ℕ, Option, none, some, List, [], String, unwrap_or, Bool, ◌&&◌, ◌==◌}
use kiomq.Env.{Env}
use Delay.{JobDelay, as_diff_ms}
use Options.{JobOptions, default_options}

pub data JobState : Type 0 where
  wait prioritized stalled active paused resumed completed failed delayed : JobState
  progress obliterated processing : JobState

pub JobState-discrete : Discrete JobState
JobState-discrete = hlevel

pub record Trace : Type 0 where
  pub run : ℕ
  pub reason : String
  pub frames : List String

pub record FailedDetails : Type 0 where
  pub run : ℕ
  pub reason : String

pub record JobMetrics : Type 0 where
  pub ran_for : ℕ
  pub delayed_for : ℕ
  pub attempt : ℕ
  pub delay : ℕ
  pub id : ℕ

-- A `Uuid` is the 128-bit number that it holds: the worker's, that of the token, and a prefix.
pub record JobToken : Type 0 where
  pub worker : ℕ
  pub next_id : ℕ
  pub token_prefix : ℕ

unfoldable pub token_eq : JobToken → JobToken → Bool
token_eq a b = a.worker == b.worker && a.next_id == b.next_id && a.token_prefix == b.token_prefix

pub record Job (E : Env) : Type 0 where
  pub id : Option ℕ
  pub ts : E.Dt
  pub name : String
  pub state : JobState
  pub progress : Option E.Progress
  pub attempts_made : ℕ
  pub opts : JobOptions E
  pub delay : ℕ
  pub input : Option E.Input
  pub returned_value : Option E.Output
  pub stack_trace : List Trace
  pub failed_reason : Option FailedDetails
  pub processed_on : Option E.Dt
  pub finished_on : Option E.Dt
  pub queue_name : Option String
  pub token : Option JobToken
  pub stalled_counter : ℕ
  pub logs : List String
  pub priority : ℕ

module _ {E : Env} where
  unfoldable pub new : String → Option E.Input → Option ℕ → Option String → E.Dt → Job E
  new name input id queue_name now = record {
    id = id;
    ts = now;
    name = name;
    state = wait;
    progress = none;
    attempts_made = 0;
    opts = default_options;
    delay = 0;
    input = input;
    returned_value = none;
    stack_trace = [];
    failed_reason = none;
    processed_on = none;
    finished_on = none;
    queue_name = queue_name;
    token = none;
    stalled_counter = 0;
    logs = [];
    priority = 0;
  }

  -- `none` is the panic of a cron schedule without a next occurrence.
  unfoldable pub add_opts : Job E → JobOptions E → Option (Job E)
  add_opts job opts =
      Option.map
        (λ (delay : ℕ). record job { priority = opts.priority; delay = delay; opts = opts })
        (as_diff_ms opts.delay job.ts)

  unfoldable pub get_metrics : Job E → Option JobMetrics
  get_metrics job =
      Option.map
        (λ (delay : ℕ). record {
          ran_for =
              E.elapsed (unwrap_or job.finished_on E.epoch) (unwrap_or job.processed_on E.epoch);
          delayed_for = E.elapsed (unwrap_or job.processed_on E.epoch) job.ts;
          attempt = job.attempts_made;
          delay = delay;
          id = unwrap_or job.id 0;
        })
        (as_diff_ms job.opts.delay job.ts)
