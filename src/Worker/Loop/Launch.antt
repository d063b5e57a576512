-- ===== src/Worker/Loop/Launch.antt =====
-- utils/mod.rs: the steps of a main loop that start a task and end it.
use kiomq.Prelude.{
  ℕ, ◌≡◌, refl, sym, ap, ◌∙◌, true, false, ◌||◌, none, some, List, ◌∷◌, ◌==◌, ==-refl, leb,
  if◌then◌else◌, length,
}
use kiomq.SkipMap.Lookups.{get-insert}
use kiomq.Env.{Env}
use kiomq.Job.{Job, JobToken}
use kiomq.Result.{ok, continue-ok, pure}
use kiomq.Store.{Now}
use kiomq.Queue.{Queue}
use kiomq.Queue.Moves.{move_to_active, process_job as to_process}
use kiomq.Queue.Control.{update_processing_count}
use kiomq.Worker.{Worker, WorkerState, JobMeta}
use kiomq.Worker.Process.{Returned, get_next_job, to_take}
use kiomq.Worker.Process.Settled.{id_of}
use kiomq.Worker.Process.Quiet.{process_job-quiet}
use kiomq.Worker.Loop.{
  top, paused_here, drained, Running, drop_task, moved_to, with_queue, with_state, turn, admit,
  taken, launch, launched, store_handle, handed, end_task,
}

drop_task-first : (id i : ℕ) (is : List ℕ) → id ≡ i → drop_task i (id ∷ is) ≡ is
drop_task-first id i is e = rw (e, ==-refl i) refl

module _ {E : Env} where
  -- The token of a loop's next job.
  abbrev pub token_of : Worker E → ℕ → Running E → JobToken
  token_of w next_id r = record {
    worker = w.id;
    next_id = next_id;
    token_prefix = (r.crew.cells w.id).active_job_count;
  }

  -- The loop is at its head, has a permit to give, and neither stops nor pauses.
  abbrev pub IsFree : Worker E → Running E → Type 0
  IsFree w r =
      ((r.crew.cells w.id).cancelled ≡ false)
      × (r.crew.queue.store.pause_workers ≡ false)
      × (((r.loop.permits == 0) || leb w.opts.concurrency (length (r.crew.cells w.id).processing))
          ≡ false)

  next_job :
      (token : JobToken) (w : Worker E) (now : Now E) (q : Queue E) (job : Job E)
      → (move_to_active token w.opts now q).0 ≡ ok (to_process job)
      → get_next_job token false w.opts none now q
        ≡ (ok (some job), (move_to_active token w.opts now q).1)
  unfolding get_next_job to_take
  next_job token w now q job e =
      continue-ok (move_to_active token w.opts now q) (to_process job) (λ x. pure (to_take x)) e

  -- A turn that takes a job and reports its start.
  pub turn-launched :
      (w : Worker E) (next_id id n : ℕ) (now : Now E) (r : Running E) (job : Job E)
      → IsFree w r
      → let token = token_of w next_id r in
        let m = move_to_active token w.opts now r.crew.queue in
        let u = update_processing_count true w.id id job.state now m.1 in
        m.0 ≡ ok (to_process job)
        → job.id ≡ some id
        → u.0 ≡ ok n
        → turn w next_id now r ≡ launched w id job token (with_queue m.1 r) (ok n, u.1)
  unfolding turn admit taken launch
  turn-launched w next_id id n now r job (going, awake, free) out named fine =
      let token = token_of w next_id r in
      let s = r.crew.cells w.id in
      let q = r.crew.queue in
      let m = move_to_active token w.opts now q in
      let u = update_processing_count true w.id id job.state now m.1 in
      ap
        (λ b.
          if b
          then moved_to drained r
          else if q.store.pause_workers
          then moved_to paused_here (with_state w WorkerState.idle r)
          else admit w next_id now r)
        going
      ∙ ap
          (λ b.
            if b
            then moved_to paused_here (with_state w WorkerState.idle r)
            else admit w next_id now r)
          awake
      ∙ ap
          (λ b.
            if b
            then moved_to top r
            else taken w token now r (get_next_job token s.cancelled w.opts none now q))
          free
      ∙ ap (λ b. taken w token now r (get_next_job token b w.opts none now q)) going
      ∙ ap (taken w token now r) (next_job token w now q job out)
      ∙ ap (λ o. launch w o job token now (with_queue m.1 r)) named
      ∙ ap (λ x. launched w id job token (with_queue m.1 r) (x, u.1)) fine

  -- The new entry of a job, and the loop once its handle is in it.
  abbrev pub fresh_entry : Worker E → Job E → JobToken → JobMeta E
  fresh_entry w job token = record { job = job; token = token; has_handle = false; opts = w.opts }

  abbrev pub ready_entry : Worker E → Job E → JobToken → JobMeta E
  ready_entry w job token = record (fresh_entry w job token) { has_handle = true }

  pub stored-launched :
      (w : Worker E) (id n : ℕ) (job : Job E) (token : JobToken) (q : Queue E) (r : Running E)
      → let r1 = launched w id job token r (ok n, q) in
        store_handle id r1
        ≡ moved_to top (record r1 {
          crew = record r1.crew {
            jobs_in_progress = E.maps.insert r1.crew.jobs_in_progress id (ready_entry w job token);
          };
        })
  unfolding store_handle launched
  stored-launched w id n job token q r =
      let m = r.crew.jobs_in_progress in
      let r1 = launched w id job token r (ok n, q) in
      let there : E.maps.get r1.crew.jobs_in_progress id ≡ some (fresh_entry w job token) =
        get-insert E.maps m id id (fresh_entry w job token) ∙ rw (==-refl id) refl in
      ap
        (λ o. moved_to top (record r1 {
          crew = record r1.crew { jobs_in_progress = handed r1.crew.jobs_in_progress id o };
        }))
        there

  pub launched-tasks :
      (w : Worker E) (id n : ℕ) (job : Job E) (token : JobToken) (q : Queue E) (r : Running E)
      → ((launched w id job token r (ok n, q)).crew.cells w.id).processing
        ≡ id ∷ (r.crew.cells w.id).processing
  unfolding launched
  launched-tasks w id n job token q r = rw (==-refl w.id) refl

  pub ended-tasks :
      (w : Worker E) (id : ℕ) (job : Job E) (token : JobToken) (ret : Returned E) (now : Now E)
      (r : Running E) (is : List ℕ)
      → (r.crew.cells w.id).processing ≡ id ∷ is
      → id_of job ≡ id
      → ((end_task w job token ret now r).crew.cells w.id).processing ≡ is
  unfolding end_task
  ended-tasks w id job token ret now r is tasks named = rw (==-refl w.id) (
      ap (drop_task (id_of job))
        (ap (λ x. x.3) (process_job-quiet w.id job token ret now r.crew) ∙ tasks)
      ∙ drop_task-first id (id_of job) is (sym named))
