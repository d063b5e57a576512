-- ===== src/Queue/Control/Counted.antt =====
-- queue/mod.rs: the number of jobs that are being processed.
use kiomq.Prelude.{ℕ, ◌≡◌, refl, ap, Bool, true, false, some, if◌then◌else◌}
use kiomq.Words.{wrapping_add, wrapping_sub}
use kiomq.Env.{Env}
use kiomq.Job.{JobState}
use kiomq.Events.{QueueStreamEvent, processing_event, from_queue_event, default_event}
use kiomq.Result.{ok}
use kiomq.Store.{Store, Now}
use kiomq.Store.Jobs.{incr, get_counter}
use kiomq.Store.Publish.Frame.{own, publish-own, publish-ok, publish-is_paused}
use kiomq.Metrics.{queue_is_paused}
use kiomq.Queue.{Queue, is_paused}
use kiomq.Queue.Control.{update_processing_count}

module _ {E : Env} where
  abbrev event : ℕ → ℕ → JobState → Now E → QueueStreamEvent E
  event worker_id job_id state now = record (default_event now.utc) {
    job_id = job_id;
    event = JobState.processing;
    prev = some state;
    worker_id = some worker_id;
  }

  -- What the report changes of the store's own state.
  pub update_processing_count-own :
      (increment : Bool) (worker_id job_id : ℕ) (state : JobState) (now : Now E) (q : Queue E)
      → let r = update_processing_count increment worker_id job_id state now q in
        let n =
          if increment
          then wrapping_add q.store.processing 1
          else wrapping_sub q.store.processing 1 in
        (r.0 ≡ ok n) × (own r.1.store ≡ own (record q.store { processing = n }))
  unfolding update_processing_count incr get_counter from_queue_event default_event
  update_processing_count-own true worker_id job_id state now q =
      let s = record q.store { processing = wrapping_add q.store.processing 1 } in
      let ev = event worker_id job_id state now in
      let same = publish-own ev s in
      rw (publish-ok ev (processing_event worker_id job_id state) s refl)
        (ap (λ (t : Store E). ok t.processing) same, same)
  update_processing_count-own false worker_id job_id state now q =
      let s = record q.store { processing = wrapping_sub q.store.processing 1 } in
      let ev = event worker_id job_id state now in
      let same = publish-own ev s in
      rw (publish-ok ev (processing_event worker_id job_id state) s refl)
        (ap (λ (t : Store E). ok t.processing) same, same)

  -- Reporting the start or the end of a job's run succeeds, and moves the number of running jobs by
  -- one, up or down, wrapping as a 64-bit counter does: at the end of a run while the number is zero
  -- it becomes the greatest one. The answer is the new number, which the store holds.
  pub update_processing_count-counts :
      (increment : Bool) (worker_id job_id : ℕ) (state : JobState) (now : Now E) (q : Queue E)
      → let r = update_processing_count increment worker_id job_id state now q in
        let n =
          if increment
          then wrapping_add q.store.processing 1
          else wrapping_sub q.store.processing 1 in
        (r.0 ≡ ok n) × (r.1.store.processing ≡ n)
  update_processing_count-counts increment worker_id job_id state now q =
      let r = update_processing_count-own increment worker_id job_id state now q in
      (r.0, ap (λ (t : Store E). t.processing) r.1)

  -- The report leaves the flag that the store shares.
  pub update_processing_count-flag :
      (increment : Bool) (worker_id job_id : ℕ) (state : JobState) (now : Now E) (q : Queue E)
      → is_paused (update_processing_count increment worker_id job_id state now q).1 ≡ is_paused q
  unfolding update_processing_count incr get_counter from_queue_event default_event is_paused
      queue_is_paused
  update_processing_count-flag true worker_id job_id state now q =
      let s = record q.store { processing = wrapping_add q.store.processing 1 } in
      let ev = event worker_id job_id state now in
      rw (publish-ok ev (processing_event worker_id job_id state) s refl) (publish-is_paused ev s)
  update_processing_count-flag false worker_id job_id state now q =
      let s = record q.store { processing = wrapping_sub q.store.processing 1 } in
      let ev = event worker_id job_id state now in
      rw (publish-ok ev (processing_event worker_id job_id state) s refl) (publish-is_paused ev s)
