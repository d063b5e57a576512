-- ===== src/Rocks/Publish.antt =====
-- stores/rocksdb_store.rs: `publish_event` and `create_stream_listener`; utils/mod.rs: what follows an
-- event, for this store.
use kiomq.Prelude.{◌+◌, Bool, true, false, ◌&&◌, none, some, ◌∷◌, if◌then◌else◌}
use kiomq.Env.{Env}
use kiomq.ColumnFamily.{ColumnFamily}
use kiomq.Metrics.{QueueMetrics, update, is_idle, queue_has_work}
use kiomq.Events.{QueueStreamEvent, from_queue_event}
use kiomq.Result.{Action, Result, ok, err, panicked}
use kiomq.Rocks.{RocksDbStore}
use kiomq.Rocks.Jobs.{get_metrics}

module _ {C : ColumnFamily} {E : Env} where
  unfoldable pub resume_helper : RocksDbStore C E → RocksDbStore C E
  resume_helper s =
      if queue_has_work s.stored_metrics && s.pause_workers
      then record s { notified = s.notified + 1; pause_workers = false }
      else s

  unfoldable pub pause_or_resume_workers : RocksDbStore C E → RocksDbStore C E
  unfolding resume_helper
  pause_or_resume_workers s =
      if s.is_inital
      then record s { is_inital = false }
      else if is_idle s.stored_metrics
      then record s { pause_workers = true }
      else resume_helper s

  -- Counts that cannot be read leave the shared metrics as they are.
  counted : RocksDbStore C E → RocksDbStore C E
  counted s = elim (get_metrics s) [
    | none ↦ s
    | some m ↦ record s { stored_metrics = update s.stored_metrics m }
  ]

  unfoldable pub process_each_event : QueueStreamEvent E → Action (RocksDbStore C E) Unit
  unfolding counted
  process_each_event event s = elim (from_queue_event event) [
    | none ↦ (err panicked, s)
    | some param ↦ (ok tt, counted (record s { emitted = (event.event, param) ∷ s.emitted }))
  ]

  published : Result Unit × RocksDbStore C E → Result Unit × RocksDbStore C E
  unfolding pause_or_resume_workers
  published (err e, s) = (err e, s)
  published (ok _, s) = (ok tt, pause_or_resume_workers s)

  unfoldable pub publish_event : QueueStreamEvent E → Action (RocksDbStore C E) Unit
  unfolding process_each_event published
  publish_event event s = if s.attached then published (process_each_event event s) else (ok tt, s)

  unfoldable pub create_stream_listener : QueueMetrics → Bool → RocksDbStore C E → RocksDbStore C E
  create_stream_listener metrics pause_workers s = record s {
    attached = true;
    stored_metrics = metrics;
    pause_workers = pause_workers;
  }
