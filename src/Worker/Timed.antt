-- ===== src/Worker/Timed.antt =====
-- utils/mod.rs and timers/delay_queue_timer.rs: what a queue does in time, the promotion of delayed
-- jobs and the answers to its timers. The workers' own measurements are left out.
pub mod Promoted
use kiomq.Prelude.{
  ℕ, Bool, true, false, not, ◌||◌, Option, none, some, List, [], ◌∷◌, map, filter, any, ◌==◌,
  if◌then◌else◌, unwrap_or,
}
use kiomq.Env.{Env}
use kiomq.Job.{Job, JobState, JobToken}
use kiomq.Job.Fields
use kiomq.Suffix.{CollectionSuffix}
use kiomq.Metrics.{QueueMetrics, has_delayed, is_idle}
use kiomq.Result.{Action, Result, ok, err, ◌>>=◌, ◌>>◌, continue, pure, panicked}
use kiomq.Result
use kiomq.Store.{Store, Now}
use kiomq.Store.Items.{add_item, get_delayed_at}
use kiomq.Store.Jobs.{get_counter, get_token, purge_expired}
use kiomq.Store.Publish.{pause_or_resume_workers}
use kiomq.Queue.{Queue, call_store, update_store, refresh_metrics}
use kiomq.Queue.Moves.{move_job_to_finished_or_failed}
use kiomq.Queue.Control.{extend_lock}
use kiomq.Queue.Stalled.{make_stalled_jobs_wait}
use kiomq.Timers.{
  TimerType, stalled_check, extend_lock as to_extend, collect_metrics, promoted_delayed,
  reregister_worker, Registration, register_queue, send, send_all, eviction_interval_ms,
}
use kiomq.Worker.{Crew, Cells, JobMeta, WorkerState, is_active, is_idle_state, add_worker_heartbeat}
use kiomq.Worker.Process.{on_queue}

abbrev default_token : JobToken
default_token = record { worker = 0; next_id = 0; token_prefix = 0 }

module _ {E : Env} where
  -- A job that missed its time fails. Whether that succeeds is not looked at.
  fail_missed : E.Dt → Now E → ℕ → Queue E → Queue E
  fail_missed date_time now job_id q =
      let (attempts, s) =
        get_counter (CollectionSuffix.job job_id) (some "attemptsMade") now q.store in
      let (token, s') = get_token job_id now s in
      (move_job_to_finished_or_failed job_id (E.timestamp_micros date_time)
        (unwrap_or token default_token) JobState.failed
        (Fields.failed
          (record { run = unwrap_or attempts 0; reason = "Job has missed delay deadline" }))
        none now (record q { store = s' })).1

  fail_all : E.Dt → Now E → List ℕ → Queue E → Queue E
  unfolding fail_missed
  fail_all date_time now [] q = q
  fail_all date_time now (id ∷ ids) q = fail_all date_time now ids (fail_missed date_time now id q)

  -- The jobs by their moments are looked up once the later of the two dates is known.
  unfoldable pub promoted : E.Dt → E.Dt → Now E → Crew E → Crew E
  unfolding fail_all
  promoted date_time stop_date now c =
      let start = E.timestamp_millis date_time in
      let stop = E.timestamp_millis stop_date in
      let ((jobs, missed), s) = get_delayed_at start stop c.queue.store in
      record c {
        collector =
            send_all c.queue_id (map (λ id. promoted_delayed id c.queue_id) jobs) c.collector;
        queue = fail_all date_time now missed (record c.queue { store = s });
      }

  unfoldable pub promote_jobs : E.Dt → ℕ → Now E → Action (Crew E) Unit
  unfolding promoted
  promote_jobs date_time interval_ms now c =
      if not (has_delayed c.queue.store.stored_metrics)
      then (ok tt, c)
      else elim (E.add_ms date_time interval_ms) [
        | none ↦ (err panicked, c)
        | some stop_date ↦ (ok tt, promoted date_time stop_date now c)
      ]

  -- The head of the loop of the queue's timer task.
  unfoldable pub promote_delayed_jobs : E.Dt → Now E → Action (Crew E) Unit
  unfolding promote_jobs
  promote_delayed_jobs date_time now c =
      let metrics = c.queue.store.stored_metrics in
      if not (has_delayed metrics) || is_idle metrics
      then (ok tt, c)
      else promote_jobs date_time eviction_interval_ms now c

  -- The first worker with the interval of a check.
  checked : ℕ → List (ℕ × Registration E) → Now E → Action (Queue E) Unit
  checked duration [] now = pure tt
  checked duration ((id, entry) ∷ workers) now =
      if entry.opts.stalled_interval == duration
      then (do outcome ← make_stalled_jobs_wait entry.opts now; pure tt)
      else checked duration workers now

  -- The jobs of those workers whose locks last for a duration.
  renewed : (ℕ → Bool) → List (ℕ × JobMeta E) → Now E → Action (Queue E) Unit
  renewed chosen [] now = pure tt
  renewed chosen ((key, entry) ∷ jobs) now = do
    (if chosen entry.token.worker
        then elim entry.job.id [
          | none ↦ pure tt
          | some id ↦ do extended ← extend_lock id entry.opts.lock_duration entry.token now; pure tt
        ]
        else pure tt)
    renewed chosen jobs now

  chosen_by : ℕ → List (ℕ × Registration E) → ℕ → Bool
  chosen_by duration workers id =
      any (λ e. e.0 == id) (filter (λ e. e.1.opts.lock_duration == duration) workers)

  -- The flag and the notifier, by fresh metrics and for a queue that is no longer new.
  woken : QueueMetrics → Store E → Store E
  woken metrics s =
      let t = pause_or_resume_workers (record s { stored_metrics = metrics; is_inital = false }) in
      record s { pause_workers = t.pause_workers; notified = t.notified }

  collected : Now E → Queue E → Queue E
  unfolding woken refresh_metrics
  collected now q =
      let fresh = refresh_metrics (record q { store = purge_expired now q.store }) in
      record fresh { store = woken fresh.store.stored_metrics fresh.store }

  heartbeats : List (ℕ × Registration E) → Now E → Crew E → Crew E
  heartbeats [] now c = c
  heartbeats ((id, entry) ∷ workers) now c =
      let state = (c.cells id).state in
      heartbeats workers now
        (if is_active state || is_idle_state state then add_worker_heartbeat id now c else c)

  rearm : TimerType → Action (Crew E) Unit
  rearm timer =
      Result.update (λ (c : Crew E). record c { collector = send c.queue_id timer c.collector })

  unfoldable pub process_timer : TimerType → Now E → Action (Crew E) Unit
  unfolding checked renewed chosen_by collected heartbeats rearm
  process_timer (stalled_check duration) now c =
      (do on_queue (checked duration (E.maps.iter c.workers) now); rearm (stalled_check duration)) c
  process_timer (to_extend duration) now c =
      (do
        on_queue (
            renewed (chosen_by duration (E.maps.iter c.workers)) (E.maps.iter c.jobs_in_progress)
              now)
        rearm (to_extend duration))
        c
  process_timer (collect_metrics duration) now c =
      rearm (collect_metrics duration) (record c { queue = collected now c.queue })
  process_timer (promoted_delayed job_id queue_id) now c =
      on_queue (update_store (add_item CollectionSuffix.wait job_id none true)) c
  process_timer reregister_worker now c =
      let d = heartbeats (E.maps.iter c.workers) now c in
      rearm reregister_worker (record d {
        collector = register_queue d.queue_id d.queue.store.stored_metrics d.collector;
      })
