-- ===== src/Queue/Moves.antt =====
-- queue/mod.rs: the transitions of a job.
pub mod Claim
pub mod Prepare
pub mod Open
pub mod Final
pub mod Finish
pub mod Priority
use kiomq.Prelude.{
  ℕ, Bool, true, false, not, ◌||◌, Option, none, some, List, [], ◌∷◌, ◌++◌, unwrap_or,
  if◌then◌else◌, String,
}
use kiomq.Env.{Env}
use kiomq.Job.{Job, JobState, JobToken, Trace, FailedDetails}
use kiomq.Job.Fields.{JobField, ProcessedResult}
use kiomq.Job.Fields
use kiomq.Suffix.{CollectionSuffix, from_state}
use kiomq.Events.{QueueStreamEvent, default_event}
use kiomq.Result.{
  Action, ok, err, job_not_found, ◌>>=◌, ◌>>◌, continue, or_raise, raise, pure, gets,
}
use kiomq.Store.{Store, Now}
use kiomq.Store.Items.{add_item, remove_item, remove, exists_in, pop_set, pop_back_push_front}
use kiomq.Store.Jobs.{get_job, get_state, job_exists, set_lock, set_fields, incr, unsigned_abs}
use kiomq.Store.Publish.{publish_event}
use kiomq.Queue.{Queue, on_store, call_store, update_store, is_paused}

-- worker/worker_opts.rs, in milliseconds.
pub record WorkerOpts : Type 0 where
  pub stalled_interval : ℕ
  pub lock_duration : ℕ
  pub lock_renew_time : ℕ
  pub max_stalled_count : ℕ
  pub concurrency : ℕ
  pub autorun : Bool
  pub metrics_update_interval : ℕ

abbrev pub is_final : JobState → Bool
is_final JobState.failed = true
is_final JobState.completed = true
is_final _ = false

-- `priority_or_wait` results: `DelayUntil`, `ProcessJob`.
pub data MoveToActiveResult (E : Env) : Type 0 where
  is_paused_result : MoveToActiveResult E
  rate_limit delay_until : ℕ → MoveToActiveResult E
  process_job : Job E → MoveToActiveResult E

module _ {E : Env} where
  -- Into a final state: one more attempt, out of the old collection and into the new one by time.
  to_final : ℕ → JobState → JobState → ℕ → Now E → Action (Queue E) Unit
  to_final job_id from to score now = do
    call_store (incr (CollectionSuffix.job job_id) 1 (some "attemptsMade") now)
    update_store (remove_item (from_state from) job_id)
    update_store (add_item (from_state to) job_id (some score) false)

  -- Into any other state, unless the new collection has the job already.
  to_other : ℕ → JobState → JobState → Now E → Action (Queue E) Unit
  to_other job_id from to now = do
    exists_in_list ← call_store (exists_in (from_state to) job_id now)
    update_store (
        if exists_in_list then (λ s. s) else (λ s.
          add_item (from_state to) job_id none false (remove_item (from_state from) job_id s)))

  pub trace_fields : Option Trace → List (JobField E)
  trace_fields none = []
  trace_fields (some t) = Fields.back_trace t ∷ []

  -- The time of the end is recorded with a result only.
  pub result_fields : Option (ProcessedResult E) → Option ℕ → List (JobField E)
  result_fields none ts = []
  result_fields (some rec) none = Fields.payload rec ∷ []
  result_fields (some rec) (some ts) =
      Fields.payload rec ∷ Fields.finished_on (unsigned_abs ts) ∷ []

  pub with_result : Option (ProcessedResult E) → QueueStreamEvent E → QueueStreamEvent E
  with_result none event = event
  with_result (some (Fields.failed details)) event = record event { failed_reason = some details }
  with_result (some (Fields.success value metrics)) event = record event {
    returned_value = some value;
    metrics = some metrics;
  }

  pub moved :
      ℕ
      → JobState
      → JobState
      → Option (ProcessedResult E)
      → Option ℕ
      → Option Trace
      → Now E
      → Action (Queue E) Unit
  unfolding to_final to_other trace_fields result_fields with_result
  moved job_id from to value ts backtrace now = do
    (if is_final to
        then to_final job_id from to (unwrap_or ts (E.timestamp_micros now.utc)) now
        else to_other job_id from to now)
    update_store
        (set_fields job_id (Fields.state to ∷ trace_fields backtrace ++ result_fields value ts) now)
    on_store (
        publish_event (
          with_result value
            (record (default_event now.utc) { event = to; prev = some from; job_id = job_id })))

  unfoldable pub move_job_to_state :
      ℕ
      → JobState
      → JobState
      → Option (ProcessedResult E)
      → Option ℕ
      → Option Trace
      → Now E
      → Action (Queue E) Unit
  unfolding moved is_paused
  move_job_to_state job_id from to value ts backtrace now q =
      if is_paused q
      then (ok tt, q)
      else continue (call_store (job_exists job_id now) q) (λ found.
        if found then moved job_id from to value ts backtrace now else raise job_not_found)

  unfoldable pub prepare_job_for_processing :
      JobToken → ℕ → ℕ → WorkerOpts → JobState → Now E → Action (Queue E) (Job E)
  unfolding move_job_to_state
  prepare_job_for_processing token job_id ts opts prev_state now = do
    update_store (set_lock (CollectionSuffix.lock job_id) (some token) opts.lock_duration now)
    move_job_to_state job_id prev_state JobState.active none none none now
    update_store (set_fields job_id (Fields.token token ∷ Fields.processed_on ts ∷ []) now)
    found ← call_store (get_job job_id now)
    or_raise found job_not_found

  -- The least score goes first; an empty set forgets the counter's collection.
  unfoldable pub move_job_from_priorty_to_active : Action (Queue E) (Option ℕ)
  move_job_from_priorty_to_active = do
    min_priority_job ← call_store (pop_set CollectionSuffix.prioritized true)
    elim min_priority_job [
      | (job_id, score) ∷ rest ↦ do
        update_store (add_item CollectionSuffix.active job_id none true)
        pure (some job_id)
      | [] ↦ do update_store (remove CollectionSuffix.priority_counter); pure none
    ]

  prepare_job : JobToken → WorkerOpts → Now E → ℕ → Action (Queue E) (MoveToActiveResult E)
  unfolding prepare_job_for_processing
  prepare_job token opts now id = do
    prev_state ← call_store (get_state id now)
    job ←
        prepare_job_for_processing token id (E.timestamp_micros now.utc) opts
          (unwrap_or prev_state JobState.wait) now
    pure (process_job job)

  -- The next delay of an empty queue is 1 / 0x1000, that is 0.
  unfoldable pub move_to_active :
      JobToken → WorkerOpts → Now E → Action (Queue E) (MoveToActiveResult E)
  unfolding prepare_job move_job_from_priorty_to_active
  move_to_active token opts now = do
    job_id ← call_store (pop_back_push_front CollectionSuffix.wait CollectionSuffix.active)
    elim job_id [
      | some id ↦ prepare_job token opts now id
      | none ↦ do
        prioritized ← move_job_from_priorty_to_active
        elim prioritized [ some id ↦ prepare_job token opts now id | none ↦ pure (delay_until 0) ]
    ]

  -- The token is not looked at.
  unfoldable pub move_job_to_finished_or_failed :
      ℕ
      → ℕ
      → JobToken
      → JobState
      → ProcessedResult E
      → Option Trace
      → Now E
      → Action (Queue E) (Job E)
  unfolding move_job_to_state
  move_job_to_finished_or_failed job_id ts token move_to_state processed backtrace now = do
    prev_state ← call_store (get_state job_id now)
    move_job_to_state job_id (unwrap_or prev_state JobState.wait) move_to_state (some processed)
        (some ts) backtrace now
    found ← call_store (get_job job_id now)
    or_raise found job_not_found
