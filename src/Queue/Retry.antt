-- ===== src/Queue/Retry.antt =====
-- queue/mod.rs: what happens to a job after its last attempt so far.
pub mod Requeue
pub mod Cleanup
use kiomq.Prelude.{ℕ, ◌&&◌, Bool, true, false, Option, none, some, String, if◌then◌else◌, ltb, ◌==◌}
use kiomq.Words.{i64_max, is_positive}
use kiomq.Env.{Env}
use kiomq.Job.Backoff.{BackoffFn, BackOffJobOptions, normalize, calculate, has_strategy, register}
use kiomq.Job.Repeat.{Repeat, next_occurrence}
use kiomq.Job.Options.{RemoveOnCompletionOrFailure, KeepJobs}
use kiomq.Job.Options
use kiomq.Suffix.{CollectionSuffix}
use kiomq.Result.{Action, ok, ◌>>=◌, ◌>>◌, continue, pure, gets, or_raise, panicked}
use kiomq.Store.{Now}
use kiomq.Store.Items.{add_item, remove_item, remove}
use kiomq.Store.Jobs.{expire}
use kiomq.Queue.{Queue, update_store}

pub data RetryOptions (E : Env) : Type 0 where
  failed : BackOffJobOptions → RetryOptions E
  with_repeat : Repeat E → RetryOptions E

-- `i64::try_from(id).unwrap_or(i64::MAX) > max_to_keep`, for a positive bound.
abbrev exceeds : ℕ → ℕ → Bool
exceeds id max_to_keep =
    is_positive max_to_keep && ltb max_to_keep (if ltb i64_max id then i64_max else id)

module _ {E : Env} where
  unfoldable pub register_backoff_strategy : String → BackoffFn → Queue E → Queue E
  register_backoff_strategy name strategy q =
      if has_strategy q.backoff name
      then q
      else record q { backoff = register q.backoff name strategy }

  unfoldable pub calculate_next_delay_ms : Queue E → BackOffJobOptions → ℕ → Option ℕ
  calculate_next_delay_ms q backoff_job_opts attempts = elim (normalize (some backoff_job_opts)) [
    | none ↦ none
    | some backoff_opts ↦ calculate q.backoff (some backoff_opts) attempts none
  ]

  unfoldable pub retry_failed : ℕ → BackOffJobOptions → ℕ → Now E → Action (Queue E) Unit
  unfolding calculate_next_delay_ms
  retry_failed job_id backoff_job_opts attempts now = do
    delay ← gets (λ q. calculate_next_delay_ms q backoff_job_opts attempts)
    elim delay [
      | none ↦ pure tt
      | some next_delay ↦ do
        expected ← or_raise (E.add_ms now.utc next_delay) panicked
        update_store
            (add_item CollectionSuffix.delayed job_id (some (E.timestamp_millis expected)) false)
        update_store (remove_item CollectionSuffix.failed job_id)
    ]

  -- The sentinel 0 means the waiting list.
  requeue : ℕ → ℕ → Action (Queue E) Unit
  requeue job_id next_delayed_timestamp = update_store (
      if next_delayed_timestamp == 0
      then add_item CollectionSuffix.wait job_id none true
      else add_item CollectionSuffix.delayed job_id (some next_delayed_timestamp) true)

  unfoldable pub retry_job : ℕ → RetryOptions E → ℕ → Now E → Action (Queue E) Unit
  unfolding retry_failed requeue
  retry_job job_id (failed backoff_job_opts) attempts now =
      retry_failed job_id backoff_job_opts attempts now
  retry_job job_id (with_repeat repeat) attempts now = do
    found ← gets (λ q. next_occurrence repeat q.backoff attempts now.utc)
    next ← or_raise found panicked
    elim next [
      | none ↦ pure tt
      | some next_delayed_timestamp ↦ requeue job_id next_delayed_timestamp
    ]

  abbrev drop_beyond : ℕ → Option ℕ → Action (Queue E) Unit
  drop_beyond job_id none = pure tt
  drop_beyond job_id (some max_to_keep) =
      update_store
        (if exceeds job_id max_to_keep then remove (CollectionSuffix.job job_id) else (λ s. s))

  abbrev expire_after : ℕ → Option ℕ → Now E → Action (Queue E) Unit
  expire_after job_id none now = pure tt
  expire_after job_id (some expire_in_secs) now =
      update_store (expire (CollectionSuffix.job job_id) expire_in_secs now)

  unfoldable pub clean_up_job :
      ℕ → Option RemoveOnCompletionOrFailure → Now E → Action (Queue E) Unit
  clean_up_job job_id none now = pure tt
  clean_up_job job_id (some (Options.bool remove_immediately)) now =
      update_store (if remove_immediately then remove (CollectionSuffix.job job_id) else (λ s. s))
  clean_up_job job_id (some (Options.int max_to_keep)) now = drop_beyond job_id (some max_to_keep)
  clean_up_job job_id (some (Options.opts keep)) now = do
    expire_after job_id keep.age now
    drop_beyond job_id keep.count
