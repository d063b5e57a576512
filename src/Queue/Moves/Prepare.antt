-- ===== src/Queue/Moves/Prepare.antt =====
-- queue/mod.rs: how a job on the active list is prepared for its worker.
use kiomq.Prelude.{ℕ, ◌≡◌, refl, ap, ◌∙◌, true, false, none, some, [], ◌∷◌}
use kiomq.Env.{Env}
use kiomq.Deque.{contains_value}
use kiomq.Job.{Job, JobState, JobToken}
use kiomq.Job.Fields.{JobField}
use kiomq.Job.Fields
use kiomq.Suffix.{CollectionSuffix, from_state, tag}
use kiomq.Events.{QueueStreamEvent, active_event, from_queue_event, default_event}
use kiomq.Result.{ok, continue-ok, continue, Action, ◌>>◌}
use kiomq.Store.{Store, Now}
use kiomq.Store.Items.{exists_in}
use kiomq.Store.Jobs.{apply_fields, set_field, set_lock, set_fields}
use kiomq.Store.Jobs.Held.{Held, with_job, with_job-Held, set_fields-Held}
use kiomq.Store.Publish.Frame.{own, publish-own, publish-ok, publish-is_paused}
use kiomq.Queue.{Queue, is_paused, update_store}
use kiomq.Metrics.{queue_is_paused}
use kiomq.Queue.Moves.Open.{move_job_to_state-open, looked_up, looked_up-Held}
use kiomq.Queue.Moves.{WorkerOpts, moved, move_job_to_state, prepare_job_for_processing}

module _ {E : Env} where
  abbrev activation : ℕ → JobState → Now E → QueueStreamEvent E
  activation id from now = record (default_event now.utc) {
    event = JobState.active;
    prev = some from;
    job_id = id;
  }

  abbrev pub activated : Job E → Job E
  activated job = record job { state = JobState.active }

  -- A job that is on the active list already only changes its state.
  moved-active :
      (id : ℕ) (from : JobState) (now : Now E) (q : Queue E) (job : Job E)
      → Held q.store id job
      → contains_value q.store.active id ≡ true
      → let r = moved id from JobState.active none none none now q in
        (r.0 ≡ ok tt)
        × (own r.1.store ≡ own (with_job q.store id (activated job)))
        × (r.1.store.stored_metrics.is_paused ≡ q.store.stored_metrics.is_paused)
  unfolding moved from_state from_queue_event default_event exists_in apply_fields set_field
  moved-active id from now q job h there =
      rw
        (
          there,
          set_fields-Held q.store id job (Fields.state JobState.active ∷ []) now h,
          publish-ok (activation id from now) (active_event id (some from))
              (with_job q.store id (activated job)) refl,
        )
        (
          refl,
          publish-own (activation id from now) (with_job q.store id (activated job)),
          publish-is_paused (activation id from now) (with_job q.store id (activated job)),
        )

  -- The record that a worker gets.
  abbrev pub claimed : JobToken → ℕ → Job E → Job E
  claimed token ts job = record job {
    state = JobState.active;
    token = some token;
    processed_on = E.from_timestamp_micros ts;
  }

  -- The store with the lock of the job.
  abbrev pub with_lock : JobToken → ℕ → WorkerOpts → Now E → Store E → Store E
  with_lock token id opts now s =
      set_lock (CollectionSuffix.lock id) (some token) opts.lock_duration now s

  abbrev locked : JobToken → ℕ → WorkerOpts → Now E → Queue E → Queue E
  locked token id opts now q = record q { store = with_lock token id opts now q.store }

  -- The two last steps.
  abbrev marked : JobToken → ℕ → ℕ → Now E → Action (Queue E) (Job E)
  marked token id ts now = do
    update_store (set_fields id (Fields.token token ∷ Fields.processed_on ts ∷ []) now)
    looked_up id now

  marked-Held :
      (token : JobToken) (id ts : ℕ) (now : Now E) (q : Queue E) (job : Job E)
      → Held q.store id (activated job)
      → let final = claimed token ts job in
        marked token id ts now q ≡ (ok final, record q { store = with_job q.store id final })
  unfolding apply_fields set_field
  marked-Held token id ts now q job h =
      let final = claimed token ts job in
      rw
        (set_fields-Held q.store id (activated job)
          (Fields.token token ∷ Fields.processed_on ts ∷ []) now h)
        (looked_up-Held id now (record q { store = with_job q.store id final }) final
          (with_job-Held q.store id final))

  prepare_open :
      (token : JobToken) (id ts : ℕ) (opts : WorkerOpts) (prev : JobState) (now : Now E)
      (q : Queue E)
      → prepare_job_for_processing token id ts opts prev now q
        ≡ continue
            (move_job_to_state id prev JobState.active none none none now
              (locked token id opts now q))
            (λ _. marked token id ts now)
  unfolding prepare_job_for_processing
  prepare_open token id ts opts prev now q = refl

  -- The store after a claim, but for the shared cells.
  abbrev pub claimed_store : JobToken → ℕ → ℕ → WorkerOpts → Job E → Now E → Store E → Store E
  claimed_store token id ts opts job now s =
      with_job (with_job (with_lock token id opts now s) id (activated job)) id
        (claimed token ts job)

  pub prepared :
      (token : JobToken) (id ts : ℕ) (opts : WorkerOpts) (prev : JobState) (now : Now E)
      (q : Queue E) (job : Job E)
      → is_paused q ≡ false
      → Held q.store id job
      → contains_value q.store.active id ≡ true
      → let r = prepare_job_for_processing token id ts opts prev now q in
        (r.0 ≡ ok (claimed token ts job))
        × (own r.1.store ≡ own (claimed_store token id ts opts job now q.store))
        × (r.1.store.stored_metrics.is_paused ≡ q.store.stored_metrics.is_paused)
  unfolding set_lock is_paused queue_is_paused
  prepared token id ts opts prev now q job running h there =
      let final = claimed token ts job in
      let q2 = locked token id opts now q in
      let m = moved id prev JobState.active none none none now q2 in
      let (fine, left, flag) = moved-active id prev now q2 job h there in
      let held : Held m.1.store id (activated job) =
        ap (λ (t : Store E). E.maps.get t.jobs.inner (tag (CollectionSuffix.job id))) left
        ∙ with_job-Held q2.store id (activated job) in
      let e : prepare_job_for_processing token id ts opts prev now q
          ≡ (ok final, record m.1 { store = with_job m.1.store id final }) =
        prepare_open token id ts opts prev now q
        ∙ ap (λ r. continue r (λ _. marked token id ts now))
            (move_job_to_state-open id prev JobState.active none none none now q2 job running h)
        ∙ continue-ok m tt (λ _. marked token id ts now) fine
        ∙ marked-Held token id ts now m.1 job held in
      (
        ap (λ r. r.0) e,
        ap (λ r. own r.1.store) e ∙ ap (λ (t : Store E). with_job t id final) left,
        ap (λ r. r.1.store.stored_metrics.is_paused) e ∙ flag,
      )
