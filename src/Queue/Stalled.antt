-- ===== src/Queue/Stalled.antt =====
-- queue/mod.rs: the periodic check for jobs whose worker has gone.
pub mod Outcome
use kiomq.Prelude.{
  ℕ, ◌+◌, Bool, true, false, Option, none, some, List, [], ◌∷◌, ◌++◌, if◌then◌else◌, ltb, unwrap_or,
}
use kiomq.Words.{wrapping_add}
use kiomq.Env.{Env}
use kiomq.Job.{JobState}
use kiomq.Job.Fields
use kiomq.Suffix.{CollectionSuffix, tag}
use kiomq.Result.{Action, ok, ◌>>=◌, ◌>>◌, continue, pure, gets}
use kiomq.Store.{Now}
use kiomq.Store.Items.{add_item, remove_item, exists_in}
use kiomq.Store.Ids.{get_job_ids_in_state}
use kiomq.Store.Jobs.{get_state, get_counter, incr, set_lock}
use kiomq.Queue.{Queue, call_store, update_store, is_paused}
use kiomq.Queue.Moves.{WorkerOpts, move_job_to_state}

module _ {E : Env} where
  unfoldable pub get_target_list : Queue E → Bool × JobState
  unfolding is_paused
  get_target_list q = (is_paused q, if is_paused q then JobState.paused else JobState.wait)

  -- A job that stalled too often fails, any other goes back to the target list. What comes back
  -- are the failed ids and the ids put back, the given ones before them.
  strike : ℕ → WorkerOpts → JobState → Now E → List ℕ × List ℕ → Action (Queue E) (List ℕ × List ℕ)
  strike id opts target now (failed, stall) = do
    stalled_count ← call_store (incr (CollectionSuffix.job id) 1 (some "stalledCounter") now)
    attempts_made ← call_store (get_counter (CollectionSuffix.job id) (some "attempts_made") now)
    from ← call_store (get_state id now)
    if ltb opts.max_stalled_count stalled_count
        then (do
          move_job_to_state id (unwrap_or from JobState.wait) JobState.failed
              (some (
                Fields.failed (record {
                  run = wrapping_add (unwrap_or attempts_made 0) 1;
                  reason = "job stalled more than allowable limit";
                })))
              none none now
          pure (id ∷ failed, stall))
        else (do
          move_job_to_state id JobState.active target none none none now
          pure (failed, id ∷ stall))

  -- The first loop, over the ids that were found stalled.
  recover : List ℕ → WorkerOpts → JobState → Now E → Action (Queue E) (List ℕ × List ℕ)
  unfolding strike
  recover [] opts target now = pure ([], [])
  recover (id ∷ ids) opts target now = do
    lock_exists ← call_store (exists_in (CollectionSuffix.lock id) id now)
    results ← if lock_exists then strike id opts target now ([], []) else pure ([], [])
    rest ← recover ids opts target now
    pure (results.0 ++ rest.0, results.1 ++ rest.1)

  -- The second loop, over the active ids: those without a lock are stalled.
  unfoldable pub mark_stalled : List ℕ → Now E → Action (Queue E) Unit
  mark_stalled [] now = pure tt
  mark_stalled (id ∷ ids) now = do
    lock_exists ← call_store (exists_in (CollectionSuffix.lock id) id now)
    update_store (
        if lock_exists then (λ s. s) else (λ s.
          remove_item CollectionSuffix.active id
            (add_item CollectionSuffix.stalled id none true s)))
    mark_stalled ids now

  -- Which of the two loops runs.
  sort_out : List ℕ → WorkerOpts → JobState → Now E → Action (Queue E) (List ℕ × List ℕ)
  unfolding recover mark_stalled
  sort_out [] opts target now = recover [] opts target now
  sort_out (id ∷ ids) opts target now = do
    active_elements ← gets (λ (q : Queue E). get_job_ids_in_state JobState.active none none q.store)
    mark_stalled active_elements now
    pure ([], [])

  unfoldable pub make_stalled_jobs_wait : WorkerOpts → Now E → Action (Queue E) (List ℕ × List ℕ)
  unfolding sort_out get_target_list
  make_stalled_jobs_wait opts now = do
    target ← gets get_target_list
    check_key_exists ←
        call_store
          (exists_in CollectionSuffix.stalled_check (tag CollectionSuffix.stalled_check) now)
    if check_key_exists then pure ([], []) else (do
      update_store (set_lock CollectionSuffix.stalled_check none opts.stalled_interval now)
      stalled ← gets (λ (q : Queue E). get_job_ids_in_state JobState.stalled none none q.store)
      sort_out stalled opts target.1 now)
