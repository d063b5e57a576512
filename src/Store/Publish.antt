-- ===== src/Store/Publish.antt =====
-- stores/inmemory_store.rs: `get_metrics` and `publish_event`; utils/mod.rs: what follows an event.
pub mod Frame
pub mod Workers
use kiomq.Prelude.{
  ℕ, ◌+◌, Bool, true, false, ◌&&◌, Option, none, some, List, [], ◌∷◌, length, if◌then◌else◌,
}
use kiomq.Env.{Env}
use kiomq.Deque
use kiomq.Metrics.{QueueMetrics, update, is_idle, queue_has_work}
use kiomq.Events.{QueueStreamEvent, from_queue_event}
use kiomq.Result.{Action, Result, ok, err, panicked}
use kiomq.Store.{Store}

module _ {E : Env} where
  unfoldable pub get_metrics : Store E → QueueMetrics
  get_metrics s = record {
    last_id = s.id_counter;
    processing = s.processing;
    active = Deque.len s.active;
    stalled = length (E.maps.iter s.stalled);
    completed = length (E.maps.iter s.completed);
    delayed = length (E.maps.iter s.delayed);
    prioritized = length (E.maps.iter s.prioritized);
    paused = Deque.len s.paused;
    failed = length (E.maps.iter s.failed);
    waiting = Deque.len s.waiting;
    is_paused = s.is_paused;
    event_mode = s.event_mode;
  }

  -- The waiting workers are woken before the flag falls.
  unfoldable pub resume_helper : Store E → Store E
  resume_helper s =
      if queue_has_work s.stored_metrics && s.pause_workers
      then record s { notified = s.notified + 1; pause_workers = false }
      else s

  unfoldable pub pause_or_resume_workers : Store E → Store E
  unfolding resume_helper
  pause_or_resume_workers s =
      if s.is_inital
      then record s { is_inital = false }
      else if is_idle s.stored_metrics
      then record s { pause_workers = true }
      else resume_helper s

  -- The emitter gets the event, then the shared metrics take over the store's counts.
  unfoldable pub process_each_event : QueueStreamEvent E → Action (Store E) Unit
  unfolding get_metrics
  process_each_event event s = elim (from_queue_event event) [
    | none ↦ (err panicked, s)
    | some param ↦ (
      ok tt,
      record s {
        emitted = (event.event, param) ∷ s.emitted;
        stored_metrics = update s.stored_metrics (get_metrics s);
      },
    )
  ]

  unfoldable pub published : Result Unit × Store E → Result Unit × Store E
  published (err e, s) = (err e, s)
  published (ok _, s) = (ok tt, pause_or_resume_workers s)

  unfoldable pub publish_event : QueueStreamEvent E → Action (Store E) Unit
  unfolding process_each_event published pause_or_resume_workers
  publish_event event s = if s.attached then published (process_each_event event s) else (ok tt, s)

  -- What `create_stream_listener` hands over: the queue's metrics and its flag.
  unfoldable pub create_stream_listener : QueueMetrics → Bool → Store E → Store E
  create_stream_listener metrics pause_workers s = record s {
    attached = true;
    stored_metrics = metrics;
    pause_workers = pause_workers;
  }
