-- ===== src/Queue/Moves/Final.antt =====
-- queue/mod.rs: a job whose run has ended, from the active list into the set of its final state.
use kiomq.Prelude.{ℕ, ◌≡◌, refl, ap, ◌∙◌, true, false, Option, none, some, ◌∷◌, ◌++◌}
use kiomq.Env.{Env}
use kiomq.Job.{Job, JobState, Trace, JobToken}
use kiomq.Job.Fields.{ProcessedResult, success, failed}
use kiomq.Job.Fields
use kiomq.Suffix.{CollectionSuffix, from_state, tag}
use kiomq.Events.{
  QueueStreamEvent, EventParameters, completed_event, failed_event, from_queue_event, default_event,
}
use kiomq.Result.{Result, ok, continue-ok, continue}
use kiomq.Store.{Store, Now}
use kiomq.Store.Items.{add_item, remove_item}
use kiomq.Store.Jobs.{apply_fields, bumped, set_field}
use kiomq.Store.Jobs.Held.{
  Held, with_job, with_job-Held, attempted, get_state-Held, incr-Held, set_fields-Held,
}
use kiomq.Store.Publish.Frame.{own, publish-own, publish-ok}
use kiomq.Queue.{Queue, is_paused}
use kiomq.Queue.Moves.Open.{move_job_to_state-open, looked_up, looked_up-Held}
use kiomq.Queue.Moves.{
  moved, move_job_to_state, move_job_to_finished_or_failed, trace_fields, result_fields,
  with_result, is_final,
}

module _ {E : Env} where
  -- The final state of a result.
  abbrev pub closing : ProcessedResult E → JobState
  closing (success value metrics) = JobState.completed
  closing (failed details) = JobState.failed

  abbrev pub collection : ProcessedResult E → CollectionSuffix
  collection (success value metrics) = CollectionSuffix.completed
  collection (failed details) = CollectionSuffix.failed

  -- The record with the fields that are set.
  abbrev pub done : ℕ → ProcessedResult E → Option Trace → Job E → Job E
  done ts value backtrace job =
      apply_fields
        (Fields.state (closing value) ∷ trace_fields backtrace
          ++ result_fields (some value) (some ts))
        (attempted job)

  -- One attempt more, and the same options.
  pub done-attempted :
      (ts : ℕ) (value : ProcessedResult E) (backtrace : Option Trace) (job : Job E)
      → let final = done ts value backtrace job in
        (final.attempts_made ≡ bumped job.attempts_made 1)
        × (final.opts ≡ job.opts)
        × (final.state ≡ closing value)
  unfolding apply_fields set_field trace_fields result_fields
  done-attempted ts (success result metrics) none job = (refl, refl, refl)
  done-attempted ts (success result metrics) (some t) job = (refl, refl, refl)
  done-attempted ts (failed details) none job = (refl, refl, refl)
  done-attempted ts (failed details) (some t) job = (refl, refl, refl)

  ending : ℕ → ProcessedResult E → EventParameters E
  ending id (success value metrics) =
      completed_event id metrics metrics.delay (some JobState.active) value
  ending id (failed details) = failed_event details id JobState.active

  abbrev ended : ℕ → ProcessedResult E → Now E → QueueStreamEvent E
  ended id value now = with_result (some value) (record (default_event now.utc) {
    event = closing value;
    prev = some JobState.active;
    job_id = id;
  })

  -- The store with the id in its new collection.
  abbrev pub shifted : ℕ → ℕ → ProcessedResult E → Store E → Store E
  shifted id ts value s =
      add_item (collection value) id (some ts) false (remove_item CollectionSuffix.active id s)

  shifted-Held :
      (id ts : ℕ) (value : ProcessedResult E) (s : Store E) (job : Job E)
      → Held s id job
      → Held (shifted id ts value s) id job
  unfolding add_item remove_item
  shifted-Held id ts (success value metrics) s job h = h
  shifted-Held id ts (failed details) s job h = h

  -- The store before the event.
  abbrev pub done_store : ℕ → ℕ → ProcessedResult E → Option Trace → Job E → Store E → Store E
  done_store id ts value backtrace job s =
      with_job (shifted id ts value (with_job s id (attempted job))) id
        (done ts value backtrace job)

  abbrev Moved :
      ℕ → ℕ → ProcessedResult E → Option Trace → Queue E → Job E → Result Unit × Queue E → Type 0
  Moved id ts value backtrace q job r =
      (r.0 ≡ ok tt)
      × (own r.1.store ≡ own (done_store id ts value backtrace job q.store))
      × (r.1.backoff ≡ q.backoff)

  is_final-closing : (value : ProcessedResult E) → is_final (closing value) ≡ true
  is_final-closing (success value metrics) = refl
  is_final-closing (failed details) = refl

  from_state-closing : (value : ProcessedResult E) → from_state (closing value) ≡ collection value
  unfolding from_state
  from_state-closing (success value metrics) = refl
  from_state-closing (failed details) = refl

  from_queue_event-ended :
      (id : ℕ) (value : ProcessedResult E) (now : Now E)
      → from_queue_event (ended id value now) ≡ some (ending id value)
  unfolding from_queue_event default_event ending with_result
  from_queue_event-ended id (success value metrics) now = refl
  from_queue_event-ended id (failed details) now = refl

  moved-final :
      (id ts : ℕ) (value : ProcessedResult E) (backtrace : Option Trace) (now : Now E) (q : Queue E)
      (job : Job E)
      → Held q.store id job
      → Moved id ts value backtrace q job
          (moved id JobState.active (closing value) (some value) (some ts) backtrace now q)
  unfolding moved from_state
  moved-final id ts value backtrace now q job h =
      rw
        (
          is_final-closing value,
          incr-Held q.store id job now h,
          from_state-closing value,
          set_fields-Held (shifted id ts value (with_job q.store id (attempted job))) id
              (attempted job)
              (Fields.state (closing value) ∷ trace_fields backtrace
                ++ result_fields (some value) (some ts))
              now
              (shifted-Held id ts value (with_job q.store id (attempted job)) (attempted job)
                (with_job-Held q.store id (attempted job))),
          publish-ok (ended id value now) (ending id value)
              (done_store id ts value backtrace job q.store) (from_queue_event-ended id value now),
        )
        (
          refl,
          publish-own (ended id value now) (done_store id ts value backtrace job q.store),
          refl,
        )

  finish_open :
      (id ts : ℕ) (token : JobToken) (to : JobState) (value : ProcessedResult E)
      (backtrace : Option Trace) (now : Now E) (q : Queue E) (job : Job E)
      → Held q.store id job
      → move_job_to_finished_or_failed id ts token to value backtrace now q
        ≡ continue
            (move_job_to_state id job.state to (some value) (some ts) backtrace now q)
            (λ _. looked_up id now)
  unfolding move_job_to_finished_or_failed
  finish_open id ts token to value backtrace now q job h =
      rw (get_state-Held q.store id job now h) refl

  -- The call succeeds with the job's record, which is the stored one.
  abbrev pub Ended :
      ℕ → ℕ → ProcessedResult E → Option Trace → Queue E → Job E → Result (Job E) × Queue E → Type 0
  Ended id ts value backtrace q job r =
      (r.0 ≡ ok (done ts value backtrace job))
      × Held r.1.store id (done ts value backtrace job)
      × (own r.1.store ≡ own (done_store id ts value backtrace job q.store))
      × (r.1.backoff ≡ q.backoff)

  -- Ending a job with the state `active`, in a queue that is not paused.
  pub finish-Ended :
      (id ts : ℕ) (token : JobToken) (value : ProcessedResult E) (backtrace : Option Trace)
      (now : Now E) (q : Queue E) (job : Job E)
      → is_paused q ≡ false
      → Held q.store id job
      → job.state ≡ JobState.active
      → Ended id ts value backtrace q job
          (move_job_to_finished_or_failed id ts token (closing value) value backtrace now q)
  finish-Ended id ts token value backtrace now q job running h active =
      let final = done ts value backtrace job in
      let m = moved id JobState.active (closing value) (some value) (some ts) backtrace now q in
      let (fine, left, same) = moved-final id ts value backtrace now q job h in
      let held : Held m.1.store id final =
        ap (λ (t : Store E). E.maps.get t.jobs.inner (tag (CollectionSuffix.job id))) left
        ∙ with_job-Held (shifted id ts value (with_job q.store id (attempted job))) id final in
      let e : move_job_to_finished_or_failed id ts token (closing value) value backtrace now q
          ≡ (ok final, m.1) =
        finish_open id ts token (closing value) value backtrace now q job h
        ∙ ap
            (λ st.
              continue
                (move_job_to_state id st (closing value) (some value) (some ts) backtrace now q)
                (λ _. looked_up id now))
            active
        ∙ ap (λ r. continue r (λ _. looked_up id now))
            (move_job_to_state-open id JobState.active (closing value) (some value) (some ts)
              backtrace now q job running h)
        ∙ continue-ok m tt (λ _. looked_up id now) fine
        ∙ looked_up-Held id now m.1 final held in
      (
        ap (λ r. r.0) e,
        ap (λ r. E.maps.get r.1.store.jobs.inner (tag (CollectionSuffix.job id))) e ∙ held,
        ap (λ r. own r.1.store) e ∙ left,
        ap (λ r. r.1.backoff) e ∙ same,
      )
