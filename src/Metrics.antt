-- ===== src/Metrics.antt =====
-- queue/options.rs: `QueueMetrics`, the shared snapshot of the counts of a queue. A counter is the
-- `u64` in its cell.
pub mod Idle
use kiomq.Prelude.{ℕ, Bool, true, false, not, ◌&&◌, ◌||◌, ltb, ◌==◌}
use kiomq.Job.Options.{QueueEventMode, stream}

pub record QueueMetrics : Type 0 where
  pub last_id : ℕ
  pub processing : ℕ
  pub prioritized : ℕ
  pub active : ℕ
  pub stalled : ℕ
  pub delayed : ℕ
  pub completed : ℕ
  pub failed : ℕ
  pub paused : ℕ
  pub waiting : ℕ
  pub is_paused : Bool
  pub event_mode : QueueEventMode

abbrev pub default_metrics : QueueMetrics
default_metrics = record {
  last_id = 0;
  processing = 0;
  prioritized = 0;
  active = 0;
  stalled = 0;
  delayed = 0;
  completed = 0;
  failed = 0;
  paused = 0;
  waiting = 0;
  is_paused = false;
  event_mode = stream;
}

-- Every cell but `is_paused` takes over the other's value.
unfoldable pub update : QueueMetrics → QueueMetrics → QueueMetrics
update m other = record m {
  paused = other.paused;
  completed = other.completed;
  stalled = other.stalled;
  active = other.active;
  last_id = other.last_id;
  delayed = other.delayed;
  failed = other.failed;
  waiting = other.waiting;
  processing = other.processing;
  prioritized = other.prioritized;
  event_mode = other.event_mode;
}

unfoldable pub has_delayed : QueueMetrics → Bool
has_delayed m = ltb 0 m.delayed

unfoldable pub queue_has_work : QueueMetrics → Bool
queue_has_work m = ltb 0 m.waiting || ltb 0 m.delayed || ltb 0 m.stalled || ltb 0 m.prioritized

unfoldable pub queue_is_paused : QueueMetrics → Bool
queue_is_paused m = m.is_paused

unfoldable pub workers_idle : QueueMetrics → Bool
workers_idle m = m.processing == 0

unfoldable pub has_active_jobs : QueueMetrics → Bool
has_active_jobs m = ltb 0 m.active

unfoldable pub is_idle : QueueMetrics → Bool
unfolding queue_has_work has_active_jobs workers_idle
is_idle m = not (queue_has_work m) && not (has_active_jobs m) && workers_idle m

unfoldable pub all_jobs_completed : QueueMetrics → Bool
unfolding is_idle
all_jobs_completed m = ltb 0 m.last_id && m.completed == m.last_id && m.active == 0 && is_idle m

unfoldable pub clear : QueueMetrics → QueueMetrics
unfolding update
clear m = update m default_metrics
