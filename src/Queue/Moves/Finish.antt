-- ===== src/Queue/Moves/Finish.antt =====
-- queue/mod.rs: a job that completes, from the active list to the completed set.
use kiomq.Prelude.{ℕ, ◌≡◌, refl, ap, ◌∙◌, false, Option, none, some}
use kiomq.Env.{Env}
use kiomq.Deque.{iter}
use kiomq.Job.{Job, JobState, Trace, JobMetrics, JobToken}
use kiomq.Job.Fields.{success}
use kiomq.Result.{Result, ok}
use kiomq.Store.{Store, Now}
use kiomq.Store.Items.{add_item, remove_item, scored}
use kiomq.Store.Items.Removal.{but, remove_item-lists}
use kiomq.Store.Jobs.{apply_fields, bumped, unsigned_abs, set_field}
use kiomq.Store.Jobs.Held.{Held}
use kiomq.Queue.{Queue, is_paused}
use kiomq.Queue.Moves.Final.{done, finish-Ended}
use kiomq.Queue.Moves.{move_job_to_finished_or_failed, trace_fields, result_fields}

module _ {E : Env} where
  done-fields :
      (ts : ℕ) (value : E.Output) (metrics : JobMetrics) (backtrace : Option Trace) (job : Job E)
      → let final = done ts (success value metrics) backtrace job in
        (final.state ≡ JobState.completed)
        × (final.attempts_made ≡ bumped job.attempts_made 1)
        × (final.returned_value ≡ some value)
        × (final.finished_on ≡ E.from_timestamp_micros (unsigned_abs ts))
  unfolding apply_fields set_field trace_fields result_fields
  done-fields ts value metrics none job = (refl, refl, refl, refl)
  done-fields ts value metrics (some t) job = (refl, refl, refl, refl)

  -- The answer is the stored record of the job, completed by its result at a time, and the id has
  -- changed its collection.
  abbrev pub Finished : ℕ → ℕ → E.Output → Queue E → Job E → Result (Job E) × Queue E → Type 0
  Finished id ts value q job r =
      (final : Job E) × (r.0 ≡ ok final)
      × Held r.1.store id final
      × (final.state ≡ JobState.completed)
      × (final.attempts_made ≡ bumped job.attempts_made 1)
      × (final.returned_value ≡ some value)
      × (final.finished_on ≡ E.from_timestamp_micros (unsigned_abs ts))
      × (iter r.1.store.active ≡ but id (iter q.store.active))
      × (r.1.store.completed ≡ E.maps.insert q.store.completed ts id)

  -- Completing a job with the state `active`, in a queue that is not paused, with the result of its
  -- processor: the call succeeds and returns the job's record, which is the stored one, with the
  -- state `completed`, one attempt more, the result and the time; the id is off the active list and
  -- in the completed set by that time.
  pub finish-completes :
      (id ts : ℕ) (token : JobToken) (value : E.Output) (metrics : JobMetrics)
      (backtrace : Option Trace) (now : Now E) (q : Queue E) (job : Job E)
      → is_paused q ≡ false
      → Held q.store id job
      → job.state ≡ JobState.active
      → Finished id ts value q job (
          move_job_to_finished_or_failed id ts token JobState.completed
            (success value metrics)
            backtrace
            now
            q)
  unfolding add_item remove_item set_field scored
  finish-completes id ts token value metrics backtrace now q job running h active =
      let (fine, held, left, _) =
        finish-Ended id ts token (success value metrics) backtrace now q job running h active in
      let fields = done-fields ts value metrics backtrace job in
      (
        done ts (success value metrics) backtrace job,
        fine,
        held,
        fields.0,
        fields.1,
        fields.2,
        fields.3,
        ap (λ (t : Store E). iter t.active) left ∙ (remove_item-lists id q.store).0,
        ap (λ (t : Store E). t.completed) left,
      )
