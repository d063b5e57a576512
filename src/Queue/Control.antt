-- ===== src/Queue/Control.antt =====
-- queue/mod.rs: pausing, resuming, emptying a queue, the locks of its jobs and its processing count.
pub mod Counted
pub mod Flags
pub mod Locks
pub mod Emptied
use kiomq.Prelude.{
  ℕ, Bool, true, false, not, Option, none, some, List, [], ◌∷◌, unwrap_or, if◌then◌else◌,
}
use kiomq.Words.{u64_size}
use kiomq.Env.{Env}
use kiomq.Job.{JobState, JobToken, token_eq}
use kiomq.Metrics.{update, clear}
use kiomq.Suffix.{CollectionSuffix}
use kiomq.Events.{default_event}
use kiomq.Result.{Action, ok, ◌>>=◌, ◌>>◌, continue, pure, gets}
use kiomq.Result
use kiomq.Store.{Store, Now}
use kiomq.Store.Items.{remove_item, clear_collections, pause}
use kiomq.Store.Jobs.{get_token, set_lock, clear_jobs, incr, get_counter}
use kiomq.Store.Publish.{get_metrics, publish_event, resume_helper}
use kiomq.Queue.{Queue, on_store, call_store, update_store, refresh_metrics}

-- -1 as an `i64`.
abbrev minus_one : ℕ
minus_one = 0xffffffffffffffff

module _ {E : Env} where
  -- Pauses a queue that is not paused, by the store's flag, and resumes one that is.
  unfoldable pub pause_or_resume : Now E → Action (Queue E) Unit
  unfolding refresh_metrics
  pause_or_resume now = do
    Result.update refresh_metrics
    stop ← gets (λ (q : Queue E). not (get_metrics q.store).is_paused)
    update_store (pause stop)
    Result.update (λ (q : Queue E). record q { paused = stop })
    on_store (
        publish_event (record (default_event now.utc) {
          event = if stop then JobState.paused else JobState.resumed;
        }))

  unfoldable pub extend_lock : ℕ → ℕ → JobToken → Now E → Action (Queue E) Bool
  extend_lock job_id lock_duration token now = do
    previous ← call_store (get_token job_id now)
    elim previous [
      | none ↦ pure false
      | some prev_token ↦
          if token_eq prev_token token
          then (do
            update_store (set_lock (CollectionSuffix.lock job_id) (some token) lock_duration now)
            update_store (remove_item CollectionSuffix.stalled job_id)
            pure true)
          else pure false
    ]

  unfoldable pub obliterate : Now E → Action (Queue E) Unit
  obliterate now = do
    last_id ← gets (λ (q : Queue E). q.store.stored_metrics.last_id)
    update_store (clear_jobs last_id)
    update_store clear_collections
    last_id' ← gets (λ (q : Queue E). q.store.stored_metrics.last_id)
    on_store (
        publish_event
          (record (default_event now.utc) { event = JobState.obliterated; job_id = last_id' }))
    update_store (λ s. record s { stored_metrics = clear s.stored_metrics })
    update_store clear_collections
    Result.update (λ (q : Queue E). record q { closed = true })

  unfoldable pub pause_active_workers : Queue E → Queue E
  pause_active_workers q = record q { store = record q.store { pause_workers = true } }

  unfoldable pub resume_workers : Queue E → Queue E
  resume_workers q = record q { store = resume_helper q.store }

  unfoldable pub update_processing_count : Bool → ℕ → ℕ → JobState → Now E → Action (Queue E) ℕ
  update_processing_count increment worker_id job_id state now = do
    call_store
        (incr CollectionSuffix.meta (if increment then 1 else minus_one) (some "processing") now)
    on_store (
        publish_event (record (default_event now.utc) {
          job_id = job_id;
          event = JobState.processing;
          prev = some state;
          worker_id = some worker_id;
        }))
    current ← call_store (get_counter CollectionSuffix.meta (some "processing") now)
    pure (unwrap_or current 0)
