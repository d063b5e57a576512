-- ===== src/Worker/Process/Quiet.antt =====
-- utils/mod.rs: what `process_job` leaves of its worker's cells as it is.
use kiomq.Prelude.{
  ℕ, ◌≡◌, refl, Bool, false, Option, none, some, List, ==-refl, ap, ◌∙◌, Option-cases, inl, inr,
}
use kiomq.Env.{Env}
use kiomq.Job.{Job, JobState, JobToken}
use kiomq.Result.{Action, continue-kept}
use kiomq.Store.{Now}
use kiomq.Words.{wrapping_sub}
use kiomq.Queue.{Queue}
use kiomq.Queue.Control.{update_processing_count}
use kiomq.Queue.Moves.Final.{closing}
use kiomq.Worker.{Crew, Cells, WorkerState, with_cells}
use kiomq.Worker.Process.{Returned, settle, report, conclude, process_job, on_queue}
use kiomq.Worker.Process.Settled.{id_of, conclude-settle, moved_on, processed, follow}

-- The cells without the count of jobs.
abbrev pub quiet : Cells → WorkerState × Bool × Bool × List ℕ
quiet s = (s.state, s.cancelled, s.closing, s.processing)

module _ {E : Env} where
  settle-quiet :
      (worker_id id : ℕ) (state : JobState) (f : Job E → Action (Queue E) Unit) (c : Crew E)
      → quiet ((settle id state f c).1.cells worker_id) ≡ quiet (c.cells worker_id)
  unfolding settle
  settle-quiet worker_id id state f c =
      elim (Option-cases (E.maps.remove c.jobs_in_progress id).0) [
        | inl e ↦ rw e refl
        | inr (entry, e) ↦ rw e (
            continue-kept (λ (d : Crew E). quiet (d.cells worker_id)) (quiet (c.cells worker_id))
              (on_queue (f entry.job) _) _ refl (λ a d h. h))
      ]

  abbrev lowered : ℕ → Crew E → Crew E
  lowered worker_id =
      with_cells worker_id (λ s. record s { active_job_count = wrapping_sub s.active_job_count 1 })

  lowered-quiet :
      (worker_id : ℕ) (c : Crew E)
      → quiet ((lowered worker_id c).cells worker_id) ≡ quiet (c.cells worker_id)
  lowered-quiet worker_id c = rw (==-refl worker_id) refl

  report-quiet :
      (worker_id id : ℕ) (now : Now E) (state : Option JobState) (c : Crew E)
      → quiet ((report worker_id id now state c).1.cells worker_id) ≡ quiet (c.cells worker_id)
  unfolding report
  report-quiet worker_id id now none c = refl
  report-quiet worker_id id now (some state) c =
      continue-kept (λ (d : Crew E). quiet (d.cells worker_id)) (quiet (c.cells worker_id))
        (on_queue (update_processing_count false worker_id id state now) (lowered worker_id c)) _
        (lowered-quiet worker_id c) (λ a d h. h)

  conclude-quiet :
      (worker_id : ℕ) (job : Job E) (token : JobToken) (ret : Returned E) (now : Now E) (c : Crew E)
      → quiet ((conclude job token ret now c).1.cells worker_id) ≡ quiet (c.cells worker_id)
  conclude-quiet worker_id job token ret now c =
      ap (λ r. quiet (r.1.cells worker_id)) (conclude-settle job token ret now c)
      ∙ continue-kept (λ (d : Crew E). quiet (d.cells worker_id)) (quiet (c.cells worker_id))
          (on_queue (moved_on (id_of job) job token ret now) c) _ refl
          (λ final d h.
            settle-quiet worker_id (id_of job) (closing (processed job ret now))
              (λ entry. follow (id_of job) ret entry final now) d
            ∙ h)

  -- The tasks, the state and the flags of a worker are not changed by one of its runs.
  pub process_job-quiet :
      (worker_id : ℕ) (job : Job E) (token : JobToken) (ret : Returned E) (now : Now E) (c : Crew E)
      → quiet ((process_job worker_id job token ret now c).1.cells worker_id)
        ≡ quiet (c.cells worker_id)
  unfolding process_job
  process_job-quiet worker_id job token ret now c =
      continue-kept (λ (d : Crew E). quiet (d.cells worker_id)) (quiet (c.cells worker_id))
        (conclude job token ret now c) _ (conclude-quiet worker_id job token ret now c)
        (λ state d h. report-quiet worker_id (id_of job) now state d ∙ h)
