-- ===== src/Worker/States.antt =====
-- worker/mod.rs: running and closing a worker, by where its main loop is.
use kiomq.Prelude.{◌+◌, ◌≡◌, refl, subst, false, [], ==-refl}
use kiomq.Env.{Env}
use kiomq.Result.{ok, err, worker_already_closed}
use kiomq.Worker.{Worker, WorkerState, Cells, Crew, run, close_begin, is_running, spawn_main}
use kiomq.Worker.Loop.{Position, paused_here, returned, Running, Reachable}
use kiomq.Worker.Loop.Bounded.{Fits}
use kiomq.Worker.Loop.Reached.{Reachable-IsRunning}

at_returned : (p : Position) (s : Cells) → p ≡ returned → Fits p s → s.state ≡ WorkerState.closed
unfolding Fits
at_returned p s e f = (subst (λ q. Fits q s) e f).0

at_paused : (p : Position) (s : Cells) → p ≡ paused_here → Fits p s → s.state ≡ WorkerState.idle
unfolding Fits
at_paused p s e f = subst (λ q. Fits q s) e f

module _ {E : Env} where
  -- A worker whose main loop, started on an active worker without tasks, has returned, with no call of
  -- `run` that succeeded in between, cannot be run again: the call changes nothing and reports a
  -- closed worker.
  pub run-returned :
      (w : Worker E) (c : Crew E) (r : Running E)
      → (c.cells w.id).state ≡ WorkerState.active
      → (c.cells w.id).processing ≡ []
      → Reachable w c r
      → r.loop.at ≡ returned
      → run w r.crew ≡ (err worker_already_closed, r.crew)
  unfolding run
  run-returned w c r active none_yet steps e =
      rw
        (at_returned r.loop.at (r.crew.cells w.id) e
          (Reachable-IsRunning w c r active none_yet steps).0.1)
        refl

  -- While the main loop, started on an active worker without tasks, waits for a notification, the
  -- worker cannot be closed, for the call does nothing; and running it succeeds and spawns another
  -- main loop beside the one that waits.
  pub run-paused :
      (w : Worker E) (c : Crew E) (r : Running E)
      → (c.cells w.id).state ≡ WorkerState.active
      → (c.cells w.id).processing ≡ []
      → Reachable w c r
      → r.loop.at ≡ paused_here
      → (close_begin w r.crew ≡ (false, r.crew))
        × ((run w r.crew).0 ≡ ok tt)
        × (((run w r.crew).1.cells w.id).main_tasks ≡ (r.crew.cells w.id).main_tasks + 1)
  unfolding run spawn_main close_begin is_running
  run-paused w c r active none_yet steps e =
      let idle =
        at_paused r.loop.at (r.crew.cells w.id) e
          (Reachable-IsRunning w c r active none_yet steps).0.1 in
      (rw idle refl, rw idle refl, rw (idle, ==-refl w.id) refl)
