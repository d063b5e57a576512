-- ===== src/Worker/Process.antt =====
-- utils/mod.rs: what a worker does with one job. The processor's answer is a parameter.
pub mod Settled
pub mod Quiet
pub mod Success
pub mod Failure
use kiomq.Prelude.{
  ℕ, Bool, true, false, Option, none, some, String, List, ltb, ◌==◌, if◌then◌else◌, unwrap_or,
}
use kiomq.Words.{wrapping_add, wrapping_sub}
use kiomq.Env.{Env}
use kiomq.Job.{Job, JobState, JobToken, JobMetrics, FailedDetails, Trace, get_metrics}
use kiomq.Job.Fields.{ProcessedResult}
use kiomq.Job.Fields
use kiomq.Events.{default_job_metrics}
use kiomq.Result.{Action, Result, ok, err, ◌>>=◌, ◌>>◌, continue, pure, gets}
use kiomq.Result
use kiomq.Store.{Now}
use kiomq.Queue.{Queue}
use kiomq.Queue.Moves.{
  WorkerOpts, MoveToActiveResult, process_job as to_process, move_to_active,
  move_job_to_finished_or_failed, prepare_job_for_processing,
}
use kiomq.Queue.Control.{update_processing_count}
use kiomq.Queue.Retry.{RetryOptions, with_repeat, failed, retry_job, clean_up_job}
use kiomq.Worker.{Crew, JobMeta, with_cells}

-- error/backtrace_utils.rs: the ways in which a processor fails, with the frames of its backtrace.
pub data CaughtError : Type 0 where
  panic : String → Option (List String) → CaughtError
  error : String → Option (List String) → CaughtError
  join_error : String → CaughtError

pub data Returned (E : Env) : Type 0 where
  output : E.Output → Returned E
  caught : CaughtError → Returned E

abbrev pub reason_of : CaughtError → String
reason_of (panic payload frames) = payload
reason_of (error text frames) = text
reason_of (join_error text) = text

abbrev pub frames_of : CaughtError → Option (List String)
frames_of (panic payload frames) = frames
frames_of (error text frames) = frames
frames_of (join_error text) = none

abbrev pub details : ℕ → CaughtError → FailedDetails
details run e = record { run = run; reason = reason_of e }

abbrev trace_from : ℕ → String → Option (List String) → Option Trace
trace_from run reason none = none
trace_from run reason (some frames) = some (record { run = run; reason = reason; frames = frames })

abbrev pub trace_of : ℕ → CaughtError → Option Trace
trace_of run e = trace_from run (reason_of e) (frames_of e)

abbrev pub report_if : Bool → JobState → Option JobState
report_if true state = some state
report_if false state = none

module _ {E : Env} where
  abbrev pub on_queue : {A : Type 0} → Action (Queue E) A → Action (Crew E) A
  on_queue f c = ((f c.queue).0, record c { queue = (f c.queue).1 })

  abbrev timed : Option E.Dt → ℕ → Job E → Now E → JobMetrics → JobMetrics
  timed none job_id job now m = m
  timed (some processed_at) job_id job now m = record m {
    id = job_id;
    delayed_for = E.elapsed processed_at job.ts;
    ran_for = E.elapsed now.utc processed_at;
  }

  -- The metrics that go with a result. `get_metrics` panics for a schedule without a next run after the
  -- job's creation, but so does `add_opts` on the same data when the job is made, so that no job comes
  -- here without metrics.
  unfoldable pub metrics_of : Job E → Now E → JobMetrics
  metrics_of job now =
      timed job.processed_on (unwrap_or job.id 0) job now
        (record (unwrap_or (get_metrics job) default_job_metrics) {
          attempt = wrapping_add job.attempts_made 1;
        })

  -- `jobs_in_progress.remove(&job_id)`.
  abbrev pub take_entry : ℕ → Action (Crew E) (Option (JobMeta E))
  take_entry job_id c =
      let (entry, rest) = E.maps.remove c.jobs_in_progress job_id in
      (ok entry, record c { jobs_in_progress = rest })

  -- What follows a completed run: another one, or the end.
  unfoldable pub after_success : ℕ → Job E → Job E → Now E → Action (Queue E) Unit
  after_success job_id job completed now =
      if ltb completed.attempts_made job.opts.attempts
      then elim completed.opts.repeat [
        | none ↦ pure tt
        | some repeat_opts ↦
            retry_job job_id (with_repeat repeat_opts) (wrapping_sub completed.attempts_made 1) now
      ]
      else clean_up_job job_id job.opts.remove_on_complete now

  retry_if : ℕ → Job E → Job E → Now E → Action (Queue E) Unit
  retry_if job_id job failed_job now =
      if ltb failed_job.attempts_made job.opts.attempts
      then elim job.opts.backoff [
        | none ↦ pure tt
        | some backoff ↦
            retry_job job_id (failed backoff) (wrapping_sub failed_job.attempts_made 1) now
      ]
      else pure tt

  -- What follows a failed run.
  unfoldable pub after_failure : ℕ → Job E → Job E → Now E → Action (Queue E) Unit
  unfolding retry_if
  after_failure job_id job failed_job now = do
    retry_if job_id job failed_job now
    if failed_job.attempts_made == job.opts.attempts
        then clean_up_job job_id job.opts.remove_on_fail now
        else pure tt

  -- The entry of the job goes, with what follows by its options, and the state to report if the
  -- handle of its task is stored.
  unfoldable pub settle :
      ℕ → JobState → (Job E → Action (Queue E) Unit) → Action (Crew E) (Option JobState)
  settle job_id state follow = do
    found ← take_entry job_id
    elim found [
      | none ↦ pure none
      | some entry ↦ do on_queue (follow entry.job); pure (report_if entry.has_handle state)
    ]

  -- The worker's count of jobs is only ever lowered, and wraps.
  unfoldable pub report : ℕ → ℕ → Now E → Option JobState → Action (Crew E) Unit
  report worker_id job_id now none = pure tt
  report worker_id job_id now (some state) = do
    Result.update (
        with_cells worker_id
          (λ s. record s { active_job_count = wrapping_sub s.active_job_count 1 }))
    on_queue (update_processing_count false worker_id job_id state now)
    pure tt

  -- The run of a job, up to what is reported.
  unfoldable pub conclude :
      Job E → JobToken → Returned E → Now E → Action (Crew E) (Option JobState)
  unfolding settle after_success after_failure metrics_of
  conclude job token (output result) now =
      let job_id = unwrap_or job.id 0 in
      do
        completed ← on_queue (
            move_job_to_finished_or_failed job_id (E.timestamp_micros now.utc) token
              JobState.completed (Fields.success result (metrics_of job now)) none now)
        settle job_id JobState.completed (λ entry. after_success job_id entry completed now)
  conclude job token (caught e) now =
      let job_id = unwrap_or job.id 0 in
      let run = wrapping_add job.attempts_made 1 in
      do
        failed_job ← on_queue (
            move_job_to_finished_or_failed job_id (E.timestamp_micros now.utc) token JobState.failed
              (Fields.failed (details run e)) (trace_of run e) now)
        settle job_id JobState.failed (λ entry. after_failure job_id entry failed_job now)

  unfoldable pub process_job : ℕ → Job E → JobToken → Returned E → Now E → Action (Crew E) Unit
  unfolding conclude report
  process_job worker_id job token returned now = do
    task_queue ← conclude job token returned now
    report worker_id (unwrap_or job.id 0) now task_queue

  unfoldable pub to_take : MoveToActiveResult E → Option (Job E)
  to_take (to_process job) = some job
  to_take _ = none

  unfoldable pub get_next_job :
      JobToken → Bool → WorkerOpts → Option ℕ → Now E → Action (Queue E) (Option (Job E))
  unfolding to_take
  get_next_job token true opts passed_id now = pure none
  get_next_job token false opts (some job_id) now = do
    job ←
        prepare_job_for_processing token job_id (E.timestamp_micros now.utc) opts JobState.wait now
    pure (some job)
  get_next_job token false opts none now = do
    result ← move_to_active token opts now
    pure (to_take result)
