-- ===== src/Store.antt =====
-- stores/inmemory_store.rs: the state of `InMemoryStore`, and the queue's shared cells that a queue
-- hands to it. The children hold its operations. Sets of ids are maps to the unit type.
pub mod Items
pub mod Ids
pub mod Jobs
pub mod Publish
pub mod Insert
pub mod Pause
pub mod Invariant
pub mod Delayed
pub mod Fifo
use kiomq.Prelude.{ℕ, Bool, true, false, Option, none, some, List, [], String, unwrap_or}
use kiomq.Env.{Env}
use kiomq.Deque.{Deque}
use kiomq.Deque
use kiomq.TimedMap.{TimedMap}
use kiomq.TimedMap
use kiomq.Job.{Job, JobState, JobToken}
use kiomq.Job.Options.{QueueEventMode, pub_sub}
use kiomq.Metrics.{QueueMetrics, default_metrics}
use kiomq.Events.{EventParameters}

pub data Lock : Type 0 where
  token : JobToken → Lock
  stall_check : Lock

-- The readings of the two clocks, `Utc::now()` and `Instant::now()`, in one call.
pub record Now (E : Env) : Type 0 where
  pub utc : E.Dt
  pub instant : ℕ

pub record Store (E : Env) : Type 0 where
  pub name : String
  pub prefix : String
  pub processing : ℕ
  pub is_paused : Bool
  pub jobs : TimedMap E.maps (Job E)
  pub locks : TimedMap E.maps Lock
  pub id_counter : ℕ
  pub priority_counter : ℕ
  pub completed : E.maps.Map ℕ
  pub prioritized : E.maps.Map ℕ
  pub delayed : E.maps.Map ℕ
  pub failed : E.maps.Map ℕ
  pub stalled : E.maps.Map Unit
  pub active : Deque E.maps
  pub waiting : Deque E.maps
  pub paused : Deque E.maps
  pub event_mode : QueueEventMode
  -- Whether a queue has handed over its emitter, its metrics, its notifier and its flag.
  pub attached : Bool
  pub is_inital : Bool
  -- The queue's own cells: `current_metrics`, `pause_workers`, how often `notify_waiters` was
  -- called, and what the emitter was given, newest first.
  pub stored_metrics : QueueMetrics
  pub pause_workers : Bool
  pub notified : ℕ
  pub emitted : List (JobState × EventParameters E)

module _ {E : Env} where
  unfoldable pub new : Option String → String → Store E
  new prefix name = record {
    name = name;
    prefix = unwrap_or prefix "kio";
    processing = 0;
    is_paused = false;
    jobs = TimedMap.new;
    locks = TimedMap.new;
    id_counter = 0;
    priority_counter = 0;
    completed = E.maps.new;
    prioritized = E.maps.new;
    delayed = E.maps.new;
    failed = E.maps.new;
    stalled = E.maps.new;
    active = Deque.new;
    waiting = Deque.new;
    paused = Deque.new;
    event_mode = pub_sub;
    attached = false;
    is_inital = false;
    stored_metrics = default_metrics;
    pause_workers = false;
    notified = 0;
    emitted = [];
  }

  unfoldable pub toggle_expiration : Store E → Store E
  toggle_expiration s = record s {
    locks = TimedMap.toggle_expiration s.locks;
    jobs = TimedMap.toggle_expiration s.jobs;
  }
