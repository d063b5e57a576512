-- ===== src/Worker/Process/Settled.antt =====
-- utils/mod.rs: `process_job` as one step, for a job that is known to the queue.
use kiomq.Prelude.{
  ℕ, ◌≡◌, refl, sym, ap, ◌∙◌, Bool, true, false, Option, none, some, unwrap_or, ==-refl,
  if◌then◌else◌,
}
use kiomq.Words.{wrapping_add, wrapping_sub}
use kiomq.SkipMap.{SkipMap}
use kiomq.SkipMap.Lookups.{get-remove}
use kiomq.Env.{Env}
use kiomq.Job.{Job, JobState, JobToken, Trace}
use kiomq.Job.Fields.{ProcessedResult, success, failed}
use kiomq.Result.{Action, Result, ok, continue, continue-ok}
use kiomq.Store.{Store, Now}
use kiomq.Store.Publish.Frame.{own}
use kiomq.Store.Jobs.Held.{Held}
use kiomq.Queue.{Queue, is_paused}
use kiomq.Queue.Moves.{move_job_to_finished_or_failed}
use kiomq.Queue.Moves.Final.{closing, done, finish-Ended}
use kiomq.Queue.Control.{update_processing_count}
use kiomq.Queue.Control.Counted.{update_processing_count-own}
use kiomq.Worker.{Crew, JobMeta, with_cells}
use kiomq.Worker.Process.{
  Returned, output, caught, details, trace_of, metrics_of, after_success, after_failure, settle,
  report, report_if, conclude, process_job, on_queue,
}

module _ (S : SkipMap) {V : Type 0} where
  remove_get : (m : S.Map V) (k : ℕ) → (S.remove m k).0 ≡ S.get m k
  remove_get m k = S.remove-lookup m k ∙ sym (S.get-lookup m k)

-- The count of the jobs that are being processed, or of those of a worker, after a run.
abbrev pub one_fewer : Bool → ℕ → ℕ
one_fewer b n = if b then wrapping_sub n 1 else n

module _ {E : Env} where
  -- What the answer of a processor is recorded as.
  abbrev pub processed : Job E → Returned E → Now E → ProcessedResult E
  processed job (output result) now = success result (metrics_of job now)
  processed job (caught e) now = failed (details (wrapping_add job.attempts_made 1) e)

  abbrev pub trace : Job E → Returned E → Option Trace
  trace job (output result) = none
  trace job (caught e) = trace_of (wrapping_add job.attempts_made 1) e

  abbrev pub follow : ℕ → Returned E → Job E → Job E → Now E → Action (Queue E) Unit
  follow id (output result) = after_success id
  follow id (caught e) = after_failure id

  -- The queue once the job is in its final state, and after what follows by its options.
  abbrev pub moved_on :
      ℕ → Job E → JobToken → Returned E → Now E → Queue E → Result (Job E) × Queue E
  moved_on id job token ret now =
      move_job_to_finished_or_failed id (E.timestamp_micros now.utc) token
        (closing (processed job ret now)) (processed job ret now) (trace job ret) now

  abbrev pub id_of : Job E → ℕ
  id_of job = unwrap_or job.id 0

  pub conclude-settle :
      (job : Job E) (token : JobToken) (ret : Returned E) (now : Now E) (c : Crew E)
      → conclude job token ret now c
        ≡ continue (on_queue (moved_on (id_of job) job token ret now) c) (λ final.
          settle
            (id_of job)
            (closing (processed job ret now))
            (λ entry. follow (id_of job) ret entry final now))
  unfolding conclude
  conclude-settle job token (output result) now c = refl
  conclude-settle job token (caught err) now c = refl

  -- The crew without the entry of a job.
  abbrev pub left_over : ℕ → Queue E → Crew E → Crew E
  left_over id q c = record c {
    queue = q;
    jobs_in_progress = (E.maps.remove c.jobs_in_progress id).1;
  }

  settle_entry :
      (id : ℕ) (state : JobState) (f : Job E → Action (Queue E) Unit) (entry : JobMeta E)
      (c : Crew E)
      → E.maps.get c.jobs_in_progress id ≡ some entry
      → (f entry.job c.queue).0 ≡ ok tt
      → settle id state f c
        ≡ (ok (report_if entry.has_handle state), left_over id (f entry.job c.queue).1 c)
  unfolding settle
  settle_entry id state f entry c e fine =
      rw (remove_get E.maps c.jobs_in_progress id ∙ e, fine) refl

  report-some :
      (worker_id id : ℕ) (now : Now E) (state : JobState) (c : Crew E)
      → report worker_id id now (some state) c ≡ (
        ok tt,
        with_cells worker_id
            (λ s. record s { active_job_count = wrapping_sub s.active_job_count 1 })
            (record c { queue = (update_processing_count false worker_id id state now c.queue).1 }),
      )
  unfolding report
  report-some worker_id id now state c =
      rw (update_processing_count-own false worker_id id state now c.queue).0 refl

  -- The crew after a reported run.
  abbrev pub reported : ℕ → ℕ → JobState → Now E → Queue E → Crew E → Crew E
  reported worker_id id state now q c =
      with_cells worker_id (λ s. record s { active_job_count = wrapping_sub s.active_job_count 1 })
        (left_over id (update_processing_count false worker_id id state now q).1 c)

  abbrev pub finished : Bool → ℕ → ℕ → JobState → Now E → Queue E → Crew E → Crew E
  finished true worker_id id state now q c = reported worker_id id state now q c
  finished false worker_id id state now q c = left_over id q c

  report_flag :
      (b : Bool) (worker_id id : ℕ) (now : Now E) (state : JobState) (q : Queue E) (c : Crew E)
      → report worker_id id now (report_if b state) (left_over id q c)
        ≡ (ok tt, finished b worker_id id state now q c)
  unfolding report
  report_flag true worker_id id now state q c =
      report-some worker_id id now state (left_over id q c)
  report_flag false worker_id id now state q c = refl

  -- The run of a job that the queue has an entry of, whose record is kept and has the state
  -- `active`: the queue is moved on, followed up and, if the task's handle is stored, told.
  pub process_job-finished :
      (worker_id : ℕ) (job : Job E) (token : JobToken) (ret : Returned E) (now : Now E) (c : Crew E)
      (running : Job E) (entry : JobMeta E)
      → is_paused c.queue ≡ false
      → Held c.queue.store (id_of job) running
      → running.state ≡ JobState.active
      → E.maps.get c.jobs_in_progress (id_of job) ≡ some entry
      → let id = id_of job in
        let value = processed job ret now in
        let final = done (E.timestamp_micros now.utc) value (trace job ret) running in
        let q1 = (moved_on id job token ret now c.queue).1 in
        (follow id ret entry.job final now q1).0 ≡ ok tt
        → process_job worker_id job token ret now c ≡ (
          ok tt,
          finished entry.has_handle worker_id id
              (closing value)
              now
              (follow id ret entry.job final now q1).1
              c,
        )
  unfolding process_job
  process_job-finished worker_id job token ret now c running entry not_paused held active e fine =
      let id = id_of job in
      let value = processed job ret now in
      let (won, _, _, _) =
        finish-Ended id (E.timestamp_micros now.utc) token value (trace job ret) now c.queue running
          not_paused held active in
      let final = done (E.timestamp_micros now.utc) value (trace job ret) running in
      let m = moved_on id job token ret now c.queue in
      ap (λ r. continue r (report worker_id id now))
        (conclude-settle job token ret now c
          ∙ continue-ok (on_queue (moved_on id job token ret now) c) final
              (λ final. settle id (closing value) (λ entry. follow id ret entry final now)) won
          ∙ settle_entry id (closing value) (λ entry. follow id ret entry final now) entry
              (record c { queue = m.1 }) e fine)
      ∙ report_flag entry.has_handle worker_id id now (closing value)
          (follow id ret entry.job final now m.1).1 c

  left_over-gone :
      (id : ℕ) (m : E.maps.Map (JobMeta E)) → E.maps.get (E.maps.remove m id).1 id ≡ none
  left_over-gone id m = get-remove E.maps m id id ∙ rw (==-refl id) refl

  -- The store at the end of a run, from the one that the queue was left with.
  pub finished-own :
      (b : Bool) (worker_id id : ℕ) (state : JobState) (now : Now E) (q : Queue E) (c : Crew E)
      (s : Store E)
      → own q.store ≡ own s
      → own (finished b worker_id id state now q c).queue.store
        ≡ own (record s { processing = one_fewer b s.processing })
  finished-own true worker_id id state now q c s e =
      (update_processing_count-own false worker_id id state now q).1
      ∙ ap (λ (t : Store E). record t { processing = wrapping_sub t.processing 1 }) e
  finished-own false worker_id id state now q c s e = e

  pub finished-count :
      (b : Bool) (worker_id id : ℕ) (state : JobState) (now : Now E) (q : Queue E) (c : Crew E)
      → ((finished b worker_id id state now q c).cells worker_id).active_job_count
        ≡ one_fewer b (c.cells worker_id).active_job_count
  finished-count true worker_id id state now q c = rw (==-refl worker_id) refl
  finished-count false worker_id id state now q c = refl

  pub finished-gone :
      (b : Bool) (worker_id id : ℕ) (state : JobState) (now : Now E) (q : Queue E) (c : Crew E)
      → E.maps.get (finished b worker_id id state now q c).jobs_in_progress id ≡ none
  finished-gone true worker_id id state now q c = left_over-gone id c.jobs_in_progress
  finished-gone false worker_id id state now q c = left_over-gone id c.jobs_in_progress
