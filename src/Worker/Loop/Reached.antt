-- ===== src/Worker/Loop/Reached.antt =====
-- utils/mod.rs and worker/mod.rs: the reachable rests of a main loop.
use kiomq.Prelude.{ℕ, ◌≤◌, ◌≡◌, refl, subst, true, [], length, arith, ==-refl, Bool-cases, inl, inr}
use kiomq.Env.{Env}
use kiomq.Worker.{Worker, WorkerState, Cells, Crew, close_begin, is_running, run}
use kiomq.Result.{KioError, err}
use kiomq.Worker.Loop.{
  Position, top, paused_here, spawned, drained, returned, broken, Running, start, store_handle,
  wind_down, Step, turned, notified, given_up, stored, ended, wound_down, refused, closed,
  elsewhere, Reachable, started, next,
}
use kiomq.Worker.Loop.Bounded.{
  Fits, IsRunning, turn-IsRunning, resume-IsRunning, end_task-IsRunning,
}

-- What a position says of the state.
at_top : (p : Position) (s : Cells) → p ≡ top → Fits p s → s.state ≡ WorkerState.active
unfolding Fits
at_top p s e f = subst (λ q. Fits q s) e f

at_spawned :
    (p : Position) (id : ℕ) (s : Cells) → p ≡ spawned id → Fits p s → s.state ≡ WorkerState.active
unfolding Fits
at_spawned p id s e f = subst (λ q. Fits q s) e f

at_drained : (p : Position) (s : Cells) → p ≡ drained → Fits p s → s.cancelled ≡ true
unfolding Fits
at_drained p s e f = subst (λ q. Fits q s) e f

-- Closing a running worker sets its two flags.
flagged :
    (p : Position) (s : Cells) → Fits p s → Fits p (record s { closing = true; cancelled = true })
unfolding Fits
flagged top s f = f
flagged paused_here s f = f
flagged (spawned id) s f = f
flagged drained s f = refl
flagged returned s f = (f.0, refl, f.2)
flagged (broken e) s f = f

module _ {E : Env} where
  close-IsRunning :
      (w : Worker E) (r : Running E)
      → IsRunning w r
      → IsRunning w (record r { crew = (close_begin w r.crew).1 })
  unfolding close_begin
  close-IsRunning w r h = elim (Bool-cases (is_running w r.crew)) [
    | inl e ↦ rw (e, ==-refl w.id) (h.0, flagged r.loop.at (r.crew.cells w.id) h.1)
    | inr e ↦ rw e h
  ]

  -- A call of `run` that fails changes nothing.
  run-err :
      (w : Worker E) (c : Crew E) (error : KioError) → (run w c).0 ≡ err error → (run w c).1 ≡ c
  unfolding run
  run-err w c error e = ground (arith, e)

  Step-IsRunning : {w : Worker E} {r s : Running E} → Step w r s → IsRunning w r → IsRunning w s
  unfolding store_handle wind_down Fits
  Step-IsRunning {w} {r} (turned next_id now e) h =
      turn-IsRunning w next_id now r h.0 (at_top r.loop.at (r.crew.cells w.id) e h.1)
  Step-IsRunning {w} {r} (notified next_id now e) h = resume-IsRunning w next_id now r h.0
  Step-IsRunning {w} {r} (given_up e c) h = (h.0, c)
  Step-IsRunning {w} {r} (stored id e) h = (h.0, at_spawned r.loop.at id (r.crew.cells w.id) e h.1)
  Step-IsRunning {w} {r} (ended job token ret now a) h =
      end_task-IsRunning w job token ret now r a h
  Step-IsRunning {w} {r} (wound_down e c idle) h =
      rw (==-refl w.id) (h.0, (refl, at_drained r.loop.at (r.crew.cells w.id) e h.1, idle))
  Step-IsRunning {w} {r} (refused error e) h = rw (run-err w r.crew error e) h
  Step-IsRunning {w} {r} closed h = close-IsRunning w r h
  Step-IsRunning {w} {r} (elsewhere c same) h = rw same h

  runs :
      {w : Worker E} {c : Crew E} {r : Running E}
      → (c.cells w.id).state ≡ WorkerState.active
      → (c.cells w.id).processing ≡ []
      → Reachable w c r
      → IsRunning w r
  unfolding start Fits
  runs {w} active idle started = (rw idle (omega arith), active)
  runs active idle (next steps step) = Step-IsRunning step (runs active idle steps)

  -- As long as no call of `run` succeeds, as one does while the loop waits for a notification, where
  -- it starts a second loop: at every rest of a main loop that was started on an active worker
  -- without tasks, whatever calls of `run` were refused and of `close` were made, each of the
  -- permits of its semaphore is free or held by one of the worker's tasks; so it never runs more
  -- tasks than its concurrency. The worker is active at the head of the loop and idle in its wait
  -- for a notification; and where the loop has returned, the worker is closed and cancelled, and no
  -- task is left.
  pub Reachable-IsRunning :
      (w : Worker E) (c : Crew E) (r : Running E)
      → (c.cells w.id).state ≡ WorkerState.active
      → (c.cells w.id).processing ≡ []
      → Reachable w c r
      → IsRunning w r × (length (r.crew.cells w.id).processing ≤ w.opts.concurrency)
  Reachable-IsRunning w c r active idle steps =
      let h = runs active idle steps in (h, omega (arith, h.0))
