-- ===== src/Events.antt =====
-- events/redis_events.rs and events/mod.rs: what a store publishes, and what a listener is given.
pub mod Listener
use mathlib.Core.Option
use kiomq.Prelude.{ℕ, Option, none, some, String, unwrap_or}
use kiomq.Env.{Env}
use kiomq.Job.{
  JobState, wait, prioritized, stalled, active, paused, resumed, completed, failed, delayed,
  progress, obliterated, processing, FailedDetails, JobMetrics,
}

pub record QueueStreamEvent (E : Env) : Type 0 where
  pub id : E.Dt × ℕ
  pub priority : Option ℕ
  pub event : JobState
  pub delay : Option ℕ
  pub prev : Option JobState
  pub job_id : ℕ
  pub returned_value : Option E.Output
  pub failed_reason : Option FailedDetails
  pub progress_data : Option E.Progress
  pub name : Option String
  pub worker_id : Option ℕ
  pub metrics : Option JobMetrics

-- Durations are in milliseconds.
pub data EventParameters (E : Env) : Type 0 where
  prioritized_event : ℕ → Option String → ℕ → EventParameters E
  added : ℕ → Option String → EventParameters E
  waiting_to_run : ℕ → Option JobState → EventParameters E
  delayed_event : ℕ → ℕ → EventParameters E
  active_event : ℕ → Option JobState → EventParameters E
  completed_event : ℕ → JobMetrics → ℕ → Option JobState → E.Output → EventParameters E
  void : EventParameters E
  progress_event : ℕ → E.Progress → EventParameters E
  stalled_event : ℕ → JobState → EventParameters E
  failed_event : FailedDetails → ℕ → JobState → EventParameters E
  processing_event : ℕ → ℕ → JobState → EventParameters E

abbrev pub default_job_metrics : JobMetrics
default_job_metrics = record { ran_for = 0; delayed_for = 0; attempt = 0; delay = 0; id = 0 }

abbrev pub default_details : FailedDetails
default_details = record { run = 0; reason = "" }

module _ {E : Env} where
  -- `now` is the time of the event's id.
  unfoldable pub default_event : E.Dt → QueueStreamEvent E
  default_event now = record {
    id = (now, 0);
    priority = none;
    event = wait;
    delay = none;
    prev = none;
    job_id = 0;
    returned_value = none;
    failed_reason = none;
    progress_data = none;
    name = none;
    worker_id = none;
    metrics = none;
  }

  abbrev completed_with : QueueStreamEvent E → JobMetrics → E.Output → EventParameters E
  completed_with event job_metrics result =
      completed_event event.job_id job_metrics job_metrics.delay event.prev result

  by_state : JobState → QueueStreamEvent E → Option (EventParameters E)
  by_state prioritized event =
      some (prioritized_event event.job_id event.name (unwrap_or event.priority 0))
  by_state wait event = elim event.prev [
    | none ↦ some (added event.job_id event.name)
    | some p ↦ some (waiting_to_run event.job_id (some p))
  ]
  by_state stalled event = some (stalled_event event.job_id (unwrap_or event.prev wait))
  by_state active event = some (active_event event.job_id event.prev)
  by_state paused event = some void
  by_state resumed event = some void
  by_state obliterated event = some void
  by_state completed event =
      Option.map (completed_with event (unwrap_or event.metrics default_job_metrics))
        event.returned_value
  by_state failed event = some (
      failed_event (unwrap_or event.failed_reason default_details) event.job_id
        (unwrap_or event.prev wait))
  by_state delayed event = some (delayed_event event.job_id (unwrap_or event.delay 0))
  by_state progress event = Option.map (progress_event event.job_id) event.progress_data
  by_state processing event =
      some (processing_event (unwrap_or event.worker_id 0) event.job_id (unwrap_or event.prev wait))

  -- `none` is the panic of an event that lacks its result or its progress.
  unfoldable pub from_queue_event : QueueStreamEvent E → Option (EventParameters E)
  unfolding by_state
  from_queue_event event = by_state event.event event
