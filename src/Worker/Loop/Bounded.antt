-- ===== src/Worker/Loop/Bounded.antt =====
-- utils/mod.rs and worker/mod.rs: what holds at every rest of a main loop.
use kiomq.Prelude.{
  ℕ, ◌+◌, ◌≤◌, ◌≡◌, refl, sym, ap, ◌∙◌, Bool, true, false, ◌||◌, Option, none, some, List, [], ◌∷◌,
  ◌==◌, ==-refl, leb, if◌then◌else◌, length, any, arith, Bool-cases, inl, inr,
}
use kiomq.Env.{Env}
use kiomq.Job.{Job, JobToken}
use kiomq.Result.{Result, ok, err}
use kiomq.Store.{Now}
use kiomq.Queue.{Queue}
use kiomq.Worker.{Worker, WorkerState, Cells}
use kiomq.Worker.Process.{Returned, process_job}
use kiomq.Worker.Process.Settled.{id_of}
use kiomq.Worker.Process.Quiet.{quiet, process_job-quiet}
use kiomq.Worker.Loop.{
  Position, top, paused_here, spawned, drained, returned, broken, Loop, Running, drop_task,
  moved_to, with_state, turn, resume, end_task, launched, launch, taken, admit,
}

-- What a worker's state says of its loop. A loop that broke off leaves the state as it was.
unfoldable pub Fits : Position → Cells → Type 0
Fits top s = s.state ≡ WorkerState.active
Fits paused_here s = s.state ≡ WorkerState.idle
Fits (spawned id) s = s.state ≡ WorkerState.active
Fits drained s = s.cancelled ≡ true
Fits returned s = (s.state ≡ WorkerState.closed) × (s.cancelled ≡ true) × (s.processing ≡ [])
Fits (broken e) s = s.state ≡ WorkerState.active

-- Each permit is free or with a task.
abbrev pub IsLoop : ℕ → Loop → Cells → Type 0
IsLoop concurrency l s = (l.permits + length s.processing ≡ concurrency) × Fits l.at s

length-drop_task :
    (id : ℕ) (is : List ℕ) → any (λ i. i == id) is ≡ true → length (drop_task id is) + 1 ≡ length is
length-drop_task id [] h = cc
length-drop_task id (i ∷ is) h = elim (Bool-cases (i == id)) [
  | inl e ↦ rw e (omega arith)
  | inr e ↦
      rw e (omega (arith, length-drop_task id is (rw⁻¹ (ap (λ b. b || any (λ i. i == id) is) e) h)))
]

-- A task that ends leaves the position of the loop.
end_task-Fits :
    (p : Position) (id : ℕ) (s t : Cells)
    → quiet t ≡ quiet s
    → any (λ i. i == id) s.processing ≡ true
    → Fits p s
    → Fits p (record t { processing = drop_task id t.processing })
unfolding Fits
end_task-Fits top id s t q a f = ap (λ x. x.0) q ∙ f
end_task-Fits paused_here id s t q a f = ap (λ x. x.0) q ∙ f
end_task-Fits (spawned i) id s t q a f = ap (λ x. x.0) q ∙ f
end_task-Fits drained id s t q a f = ap (λ x. x.1) q ∙ f
end_task-Fits returned id s t q a f =
    let clash : false ≡ true = ap (any (λ i. i == id)) (sym f.2) ∙ a in cc
end_task-Fits (broken e) id s t q a f = ap (λ x. x.0) q ∙ f

module _ {E : Env} where
  abbrev pub IsRunning : Worker E → Running E → Type 0
  IsRunning w r = IsLoop w.opts.concurrency r.loop (r.crew.cells w.id)

  launched-IsRunning :
      (w : Worker E) (id : ℕ) (job : Job E) (token : JobToken) (r : Running E)
      (res : Result ℕ × Queue E)
      → 1 ≤ r.loop.permits
      → r.loop.permits + length (r.crew.cells w.id).processing ≡ w.opts.concurrency
      → (r.crew.cells w.id).state ≡ WorkerState.active
      → IsRunning w (launched w id job token r res)
  unfolding launched Fits
  launched-IsRunning w id job token r (ok n, q) free h active =
      rw (==-refl w.id) (omega (arith, h), active)
  launched-IsRunning w id job token r (err e, q) free h active = (h, active)

  launch-IsRunning :
      (w : Worker E) (id : Option ℕ) (job : Job E) (token : JobToken) (now : Now E) (r : Running E)
      → 1 ≤ r.loop.permits
      → r.loop.permits + length (r.crew.cells w.id).processing ≡ w.opts.concurrency
      → (r.crew.cells w.id).state ≡ WorkerState.active
      → IsRunning w (launch w id job token now r)
  unfolding launch Fits
  launch-IsRunning w none job token now r free h active = (h, active)
  launch-IsRunning w (some id) job token now r free h active =
      launched-IsRunning w id job token r _ free h active

  taken-IsRunning :
      (w : Worker E) (token : JobToken) (now : Now E) (r : Running E)
      (res : Result (Option (Job E)) × Queue E)
      → 1 ≤ r.loop.permits
      → r.loop.permits + length (r.crew.cells w.id).processing ≡ w.opts.concurrency
      → (r.crew.cells w.id).state ≡ WorkerState.active
      → IsRunning w (taken w token now r res)
  unfolding taken Fits
  taken-IsRunning w token now r (ok none, q) free h active = (h, active)
  taken-IsRunning w token now r (ok (some job), q) free h active =
      launch-IsRunning w job.id job token now _ free h active
  taken-IsRunning w token now r (err e, q) free h active = (h, active)

  admit-IsRunning :
      (w : Worker E) (next_id : ℕ) (now : Now E) (r : Running E)
      → r.loop.permits + length (r.crew.cells w.id).processing ≡ w.opts.concurrency
      → (r.crew.cells w.id).state ≡ WorkerState.active
      → IsRunning w (admit w next_id now r)
  unfolding admit Fits
  admit-IsRunning w next_id now r h active =
      elim (Bool-cases
        ((r.loop.permits == 0) || leb w.opts.concurrency (length (r.crew.cells w.id).processing))) [
          | inl e ↦ rw e (h, active)
          | inr e ↦ rw e (taken-IsRunning w _ now r _ (ground (arith, e)) h active)
        ]

  pausable :
      (cancelled pause : Bool) (w : Worker E) (next_id : ℕ) (now : Now E) (r : Running E)
      → (r.crew.cells w.id).cancelled ≡ cancelled
      → r.loop.permits + length (r.crew.cells w.id).processing ≡ w.opts.concurrency
      → (r.crew.cells w.id).state ≡ WorkerState.active
      → IsRunning w (
          if cancelled
          then moved_to drained r
          else if pause
          then moved_to paused_here (with_state w WorkerState.idle r)
          else admit w next_id now r)
  unfolding Fits
  pausable true pause w next_id now r e h active = (h, e)
  pausable false true w next_id now r e h active = rw (==-refl w.id) (h, refl)
  pausable false false w next_id now r e h active = admit-IsRunning w next_id now r h active

  pub turn-IsRunning :
      (w : Worker E) (next_id : ℕ) (now : Now E) (r : Running E)
      → r.loop.permits + length (r.crew.cells w.id).processing ≡ w.opts.concurrency
      → (r.crew.cells w.id).state ≡ WorkerState.active
      → IsRunning w (turn w next_id now r)
  unfolding turn
  turn-IsRunning w next_id now r h active =
      pausable (r.crew.cells w.id).cancelled r.crew.queue.store.pause_workers w next_id now r refl h
        active

  pub resume-IsRunning :
      (w : Worker E) (next_id : ℕ) (now : Now E) (r : Running E)
      → r.loop.permits + length (r.crew.cells w.id).processing ≡ w.opts.concurrency
      → IsRunning w (resume w next_id now r)
  unfolding resume
  resume-IsRunning w next_id now r h =
      admit-IsRunning w next_id now (with_state w WorkerState.active r) (rw (==-refl w.id) h)
        (rw (==-refl w.id) refl)

  pub end_task-IsRunning :
      (w : Worker E) (job : Job E) (token : JobToken) (ret : Returned E) (now : Now E)
      (r : Running E)
      → any (λ i. i == id_of job) (r.crew.cells w.id).processing ≡ true
      → IsRunning w r
      → IsRunning w (end_task w job token ret now r)
  unfolding end_task
  end_task-IsRunning w job token ret now r a h =
      let c = (process_job w.id job token ret now r.crew).1 in
      let same = process_job-quiet w.id job token ret now r.crew in
      let tasks : (c.cells w.id).processing ≡ (r.crew.cells w.id).processing = ap (λ x. x.3) same in
      rw (==-refl w.id) (
        ap (λ is. r.loop.permits + 1 + length (drop_task (id_of job) is)) tasks
            ∙ omega (arith, length-drop_task (id_of job) (r.crew.cells w.id).processing a, h.0),
        end_task-Fits r.loop.at (id_of job) (r.crew.cells w.id) (c.cells w.id) same a h.1,
      )
