-- ===== src/Queue/Moves/Claim.antt =====
-- queue/mod.rs: a worker takes the next waiting job.
use kiomq.Prelude.{
  ℕ, ◌+◌, ◌<◌, ◌≡◌, refl, ap, ◌∙◌, true, false, none, some, List, [], ◌∷◌, ◌++◌, if◌then◌else◌,
  ==-refl, ◌==◌, any, ltb, ◌||◌,
}
use kiomq.Env.{Env}
use kiomq.Deque.{iter, contains_value}
use kiomq.Job.{Job, JobToken}
use kiomq.Suffix.{CollectionSuffix, tag}
use kiomq.Result.{Result, ok, continue-ok, continue, pure}
use kiomq.Store.{Store, Now, Lock}
use kiomq.Store.Items.{pop_back_push_front}
use kiomq.Store.Jobs.{get_token, token_of, lock_of, set_lock}
use kiomq.Store.Jobs.Held.{Held, with_job, with_job-Held, get_state-Held}
use kiomq.Store.Publish.Frame.{own}
use kiomq.Queue.{Queue, is_paused}
use kiomq.Store.Fifo.{served, pop_back_push_front-frame}
use kiomq.TimedMap
use kiomq.TimedMap.Expiry.{get-insert_expirable}
use kiomq.Queue.Control.Locks.{token_of-if}
use kiomq.Deque.Refine.{IsDeque}
use kiomq.Metrics.{queue_is_paused}
use kiomq.Queue.Moves.{
  WorkerOpts, prepare_job_for_processing, prepare_job, move_to_active, MoveToActiveResult,
  process_job,
}
use kiomq.Queue.Moves.Prepare.{activated, claimed, with_lock, claimed_store, prepared}

any_first : (id : ℕ) (xs ys : List ℕ) → xs ≡ id ∷ ys → any (λ v. v == id) xs ≡ true
any_first id xs ys e = rw (e, ==-refl id) refl

module _ {E : Env} where
  prepare_job_open :
      (token : JobToken) (id : ℕ) (opts : WorkerOpts) (now : Now E) (q : Queue E) (job : Job E)
      → Held q.store id job
      → prepare_job token opts now id q
        ≡ continue
            (prepare_job_for_processing token id (E.timestamp_micros now.utc) opts job.state now q)
            (λ found. pure (process_job found))
  unfolding prepare_job
  prepare_job_open token id opts now q job h = rw (get_state-Held q.store id job now h) refl

  -- The answer and what is left.
  abbrev Prepared :
      ℕ
      → JobToken
      → WorkerOpts
      → Now E
      → Queue E
      → Job E
      → Result (MoveToActiveResult E) × Queue E
      → Type 0
  Prepared id token opts now q job r =
      (r.0 ≡ ok (process_job (claimed token (E.timestamp_micros now.utc) job)))
      × (own r.1.store
          ≡ own (claimed_store token id (E.timestamp_micros now.utc) opts job now q.store))
      × (r.1.store.stored_metrics.is_paused ≡ q.store.stored_metrics.is_paused)

  prepare_job-Prepared :
      (token : JobToken) (id : ℕ) (opts : WorkerOpts) (now : Now E) (q : Queue E) (job : Job E)
      → is_paused q ≡ false
      → Held q.store id job
      → contains_value q.store.active id ≡ true
      → Prepared id token opts now q job (prepare_job token opts now id q)
  prepare_job-Prepared token id opts now q job running h there =
      let ts = E.timestamp_micros now.utc in
      let m = prepare_job_for_processing token id ts opts job.state now q in
      let (fine, left, flag) = prepared token id ts opts job.state now q job running h there in
      let e =
        prepare_job_open token id opts now q job h
        ∙ continue-ok m (claimed token ts job) (λ found. pure (process_job found)) fine in
      (
        ap (λ r. r.0) e,
        ap (λ r. own r.1.store) e ∙ left,
        ap (λ r. r.1.store.stored_metrics.is_paused) e ∙ flag,
      )

  move_open :
      (token : JobToken) (id : ℕ) (opts : WorkerOpts) (now : Now E) (q : Queue E)
      → (pop_back_push_front CollectionSuffix.wait CollectionSuffix.active q.store).0 ≡ some id
      → move_to_active token opts now q
        ≡ prepare_job token opts now id (record q {
          store = (pop_back_push_front CollectionSuffix.wait CollectionSuffix.active q.store).1;
        })
  unfolding move_to_active
  move_open token id opts now q out = rw out refl

  -- The job is handed out with its new record, the lock is the worker's for its time, and the id has
  -- changed its list.
  abbrev pub Claimed :
      ℕ
      → List ℕ
      → JobToken
      → WorkerOpts
      → Now E
      → Queue E
      → Job E
      → Result (MoveToActiveResult E) × Queue E
      → Type 0
  Claimed id xs token opts now q job r =
      let final = claimed token (E.timestamp_micros now.utc) job in
      (r.0 ≡ ok (process_job final))
      × Held r.1.store id final
      × (iter r.1.store.waiting ≡ xs)
      × (iter r.1.store.active ≡ id ∷ iter q.store.active)
      × ((later : Now E)
          → (get_token id later r.1.store).0 ≡ (
              if q.store.locks.disable_expiration
                || ltb later.instant (now.instant + opts.lock_duration)
              then some token
              else none))

  -- In a queue that is not paused, a worker that asks for a job gets the oldest waiting one, if that
  -- one has a record and the active list is well-formed and has room for it: the job's record is
  -- stored and returned with the state `active`, the worker's token and the time; the id is moved
  -- from the end of the waiting list to the front of the active one; and the worker's token is found
  -- as the job's lock for the lock's duration, or for ever where expiration is disabled.
  pub move_to_active-claims :
      (xs : List ℕ) (id : ℕ) (token : JobToken) (opts : WorkerOpts) (now : Now E) (q : Queue E)
      (job : Job E)
      → is_paused q ≡ false
      → iter q.store.waiting ≡ xs ++ id ∷ []
      → IsDeque q.store.active
      → 0 < q.store.active.head_idx
      → Held q.store id job
      → Claimed id xs token opts now q job (move_to_active token opts now q)
  unfolding is_paused queue_is_paused contains_value set_lock get_token lock_of
  move_to_active-claims xs id token opts now q job running e v room h =
      let p = pop_back_push_front CollectionSuffix.wait CollectionSuffix.active q.store in
      let q' = record q { store = p.1 } in
      let (out, left, taken, _, _) = served q.store xs id e v room in
      let (jobs, locks, shared, _, _) = pop_back_push_front-frame q.store in
      let final = claimed token (E.timestamp_micros now.utc) job in
      let held : Held p.1 id job =
        ap (λ j. E.maps.get j.inner (tag (CollectionSuffix.job id))) jobs ∙ h in
      let (fine, same, _) =
        prepare_job-Prepared token id opts now q' job (ap (λ m. m.is_paused) shared ∙ running) held
          (any_first id _ _ taken) in
      let key = tag (CollectionSuffix.lock id) in
      let s2 = with_job (with_lock token id opts now p.1) id (activated job) in
      rw (move_open token id opts now q out) (
        fine,
        ap (λ (t : Store E). E.maps.get t.jobs.inner (tag (CollectionSuffix.job id))) same
            ∙ with_job-Held s2 id final,
        ap (λ (t : Store E). iter t.waiting) same ∙ left,
        ap (λ (t : Store E). iter t.active) same ∙ taken,
        λ later.
            ap (λ (t : Store E). token_of (TimedMap.get t.locks key later.instant).0) same
            ∙ ap token_of (
                get-insert_expirable p.1.locks key key (Lock.token token) opts.lock_duration
                  now.instant later.instant)
            ∙ rw (==-refl key, locks) (token_of-if _ token),
      )

  -- A claim leaves the flag that the store shares, and the parts of the store that it does not name.
  pub move_to_active-flag :
      (xs : List ℕ) (id : ℕ) (token : JobToken) (opts : WorkerOpts) (now : Now E) (q : Queue E)
      (job : Job E)
      → is_paused q ≡ false
      → iter q.store.waiting ≡ xs ++ id ∷ []
      → IsDeque q.store.active
      → 0 < q.store.active.head_idx
      → Held q.store id job
      → let r = move_to_active token opts now q in
        (is_paused r.1 ≡ false)
        × (r.1.store.processing ≡ q.store.processing)
        × (r.1.store.completed ≡ q.store.completed)
  unfolding is_paused queue_is_paused contains_value set_lock pop_back_push_front
  move_to_active-flag xs id token opts now q job running e v room h =
      let p = pop_back_push_front CollectionSuffix.wait CollectionSuffix.active q.store in
      let (out, _, taken, _, _) = served q.store xs id e v room in
      let (jobs, _, shared, count, done) = pop_back_push_front-frame q.store in
      let held : Held p.1 id job =
        ap (λ j. E.maps.get j.inner (tag (CollectionSuffix.job id))) jobs ∙ h in
      let (_, same, flag) =
        prepare_job-Prepared token id opts now (record q { store = p.1 }) job
          (ap (λ m. m.is_paused) shared ∙ running) held (any_first id _ _ taken) in
      rw (move_open token id opts now q out) (
        flag ∙ ap (λ m. m.is_paused) shared ∙ running,
        ap (λ (t : Store E). t.processing) same ∙ count,
        ap (λ (t : Store E). t.completed) same ∙ done,
      )
