-- ===== src/Worker/Process/Failure.antt =====
-- utils/mod.rs: `process_job` for a processor that fails.
use kiomq.Prelude.{ℕ, ◌≡◌, refl, ap, ◌∙◌, Bool, true, false, none, some, ltb, ◌==◌, arith}
use kiomq.Words.{wrapping_sub}
use kiomq.SkipMap.Lookups.{get-insert}
use kiomq.Env.{Env}
use kiomq.Deque.{iter}
use kiomq.Job.{Job, JobState, JobToken}
use kiomq.Job.Backoff.{BackOffJobOptions}
use kiomq.Result.{Result, ok}
use kiomq.Suffix.{CollectionSuffix, tag}
use kiomq.Store.{Store, Now}
use kiomq.Store.Items.{add_item, remove_item, scored}
use kiomq.Store.Items.Removal.{but, ids, iter-without_scored, remove_item-lists}
use kiomq.Store.Jobs.{bumped}
use kiomq.Store.Jobs.Held.{Held, with_job, with_job-Held, attempted}
use kiomq.Queue.{Queue, is_paused}
use kiomq.Queue.Moves.Final.{done, done-attempted, done_store, shifted, finish-Ended}
use kiomq.Queue.Retry.{calculate_next_delay_ms}
use kiomq.Queue.Retry.Requeue.{calculate-backoff, put_off, retry_job-put_off}
use kiomq.Worker.{Crew, JobMeta}
use kiomq.Worker.Process.{Returned, CaughtError, caught, process_job, after_failure}
use kiomq.Worker.Process.Settled.{
  processed, moved_on, trace, id_of, finished, process_job-finished, one_fewer, finished-own,
  finished-gone,
}

module _ {E : Env} where
  after_failure-retries :
      (id next_delay : ℕ) (job failed_job : Job E) (backoff : BackOffJobOptions) (now : Now E)
      (q : Queue E) (at : E.Dt)
      → ltb failed_job.attempts_made job.opts.attempts ≡ true
      → job.opts.backoff ≡ some backoff
      → calculate_next_delay_ms q backoff (wrapping_sub failed_job.attempts_made 1)
        ≡ some next_delay
      → E.add_ms now.utc next_delay ≡ some at
      → after_failure id job failed_job now q
        ≡ (ok tt, record q { store = put_off id (E.timestamp_millis at) q.store })
  unfolding after_failure
  after_failure-retries id next_delay job failed_job backoff now q at more policy next ranged =
      let other : (failed_job.attempts_made == job.opts.attempts) ≡ false = ground arith in
      rw
        (
          more,
          policy,
          retry_job-put_off id (wrapping_sub failed_job.attempts_made 1) next_delay backoff now q at
              next ranged,
          other,
        )
        refl

  -- The entry is gone and the record is a failed one; the id is off the active list and out of the
  -- failed set, and in the delayed set at its next time; one job fewer is counted, if reported.
  abbrev pub Retried : ℕ → E.Dt → Bool → Now E → Crew E → Job E → Result Unit × Crew E → Type 0
  Retried id at reported now c running r =
      (final : Job E) × (r.0 ≡ ok tt)
      × (E.maps.get r.1.jobs_in_progress id ≡ none)
      × Held r.1.queue.store id final
      × (final.state ≡ JobState.failed)
      × (final.attempts_made ≡ bumped running.attempts_made 1)
      × (iter r.1.queue.store.active ≡ but id (iter c.queue.store.active))
      × (ids E.maps r.1.queue.store.failed
          ≡ but id
              (ids E.maps (E.maps.insert c.queue.store.failed (E.timestamp_micros now.utc) id)))
      × (r.1.queue.store.delayed ≡ E.maps.insert c.queue.store.delayed (E.timestamp_millis at) id)
      × (r.1.queue.store.processing ≡ one_fewer reported c.queue.store.processing)

  -- A processor fails on a job that a worker runs: the job's record is kept and has the state
  -- `active`, the queue is not paused and has an entry of the job, whose options allow another
  -- attempt and have a backoff policy with a next delay, by which the date stays in chrono's range, and
  -- no entry of the failed set has the id's
  -- number as its time, nor is this the time of the end. Then the run succeeds, the entry is gone,
  -- the record is a failed one with one attempt more, the id is off the active list and out of the
  -- failed set, and in the delayed set at the next time; and one job fewer is counted as being
  -- processed, if the task's handle was stored in the entry.
  pub process_job-retries :
      (worker_id next_delay : ℕ) (job : Job E) (token : JobToken) (err : CaughtError) (now : Now E)
      (c : Crew E) (running : Job E) (entry : JobMeta E) (backoff : BackOffJobOptions) (at : E.Dt)
      → is_paused c.queue ≡ false
      → Held c.queue.store (id_of job) running
      → running.state ≡ JobState.active
      → E.maps.get c.jobs_in_progress (id_of job) ≡ some entry
      → ltb (bumped running.attempts_made 1) entry.job.opts.attempts ≡ true
      → entry.job.opts.backoff ≡ some backoff
      → calculate_next_delay_ms c.queue backoff (wrapping_sub (bumped running.attempts_made 1) 1)
        ≡ some next_delay
      → E.add_ms now.utc next_delay ≡ some at
      → E.maps.get c.queue.store.failed (id_of job) ≡ none
      → (id_of job == E.timestamp_micros now.utc) ≡ false
      → Retried
          (id_of job)
          at
          entry.has_handle
          now
          c
          running
          (process_job worker_id job token (caught err) now c)
  unfolding add_item remove_item scored
  process_job-retries worker_id next_delay job token err now c running entry backoff at not_paused
        held active e more policy next ranged clear apart =
      let id = id_of job in
      let ret : Returned E = caught err in
      let ts = E.timestamp_micros now.utc in
      let value = processed job ret now in
      let bt = trace job ret in
      let final = done ts value bt running in
      let time = E.timestamp_millis at in
      let (attempts, _, state) = done-attempted ts value bt running in
      let (won, kept, left, same) =
        finish-Ended id ts token value bt now c.queue running not_paused held active in
      let q1 = (moved_on id job token ret now c.queue).1 in
      let q2 = record q1 { store = put_off id time q1.store } in
      let rest =
        after_failure-retries id next_delay entry.job final backoff now q1 at
          (ap (λ n. ltb n entry.job.opts.attempts) attempts ∙ more) policy
          (calculate-backoff q1 c.queue backoff (wrapping_sub final.attempts_made 1) same
            ∙ ap (λ n. calculate_next_delay_ms c.queue backoff (wrapping_sub n 1)) attempts
            ∙ next)
          ranged in
      let end : process_job worker_id job token ret now c
          ≡ (ok tt, finished entry.has_handle worker_id id JobState.failed now q2 c) =
        process_job-finished worker_id job token ret now c running entry not_paused held active e
          (ap (λ r. r.0) rest)
        ∙ ap (λ r. (ok tt, finished entry.has_handle worker_id id JobState.failed now r.1 c))
            rest in
      let told =
        finished-own entry.has_handle worker_id id JobState.failed now q2 c
          (put_off id time (done_store id ts value bt running c.queue.store))
          (ap (put_off id time) left) in
      let key = tag (CollectionSuffix.job id) in
      (
        final,
        ap (λ r. r.0) end,
        ap (λ r. E.maps.get r.1.jobs_in_progress id) end
            ∙ finished-gone entry.has_handle worker_id id JobState.failed now q2 c,
        ap (λ r. E.maps.get r.1.queue.store.jobs.inner key) end
            ∙ ap (λ (t : Store E). E.maps.get t.jobs.inner key) told
            ∙ with_job-Held (shifted id ts value (with_job c.queue.store id (attempted running))) id
                final,
        state,
        attempts,
        ap (λ r. iter r.1.queue.store.active) end
            ∙ ap (λ (t : Store E). iter t.active) told
            ∙ (remove_item-lists id c.queue.store).0,
        ap (λ r. ids E.maps r.1.queue.store.failed) end
            ∙ ap (λ (t : Store E). ids E.maps t.failed) told
            ∙ iter-without_scored E.maps (E.maps.insert c.queue.store.failed ts id) id
                (get-insert E.maps c.queue.store.failed ts id id ∙ rw apart clear),
        ap (λ r. r.1.queue.store.delayed) end ∙ ap (λ (t : Store E). t.delayed) told,
        ap (λ r. r.1.queue.store.processing) end ∙ ap (λ (t : Store E). t.processing) told,
      )
