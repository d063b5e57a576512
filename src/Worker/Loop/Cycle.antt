-- ===== src/Worker/Loop/Cycle.antt =====
-- utils/mod.rs and queue/mod.rs: one job through a main loop, from the waiting list to its end.
use kiomq.Prelude.{ℕ, ◌≡◌, List, ◌∷◌}
use kiomq.Env.{Env}
use kiomq.Deque.{iter}
use kiomq.Job.{Job, JobState}
use kiomq.Store.{Store}
use kiomq.Store.Items.Removal.{but}
use kiomq.Store.Jobs.{bumped}
use kiomq.Store.Jobs.Held.{Held}
use kiomq.Worker.{Worker}
use kiomq.Worker.Loop.{top, Running}

module _ {E : Env} where
  -- The loop after a whole run: it is back at its head with the same permits and tasks; the job has
  -- left the waiting list and the active one, and is completed; and the number of jobs that are
  -- being processed is the old one.
  abbrev pub Cycled : Worker E → ℕ → List ℕ → ℕ → Running E → Job E → Running E → Type 0
  Cycled w id xs ts r job s =
      let q = r.crew.queue.store in
      let t = s.crew.queue.store in
      (s.loop.at ≡ top)
      × (s.loop.permits ≡ r.loop.permits)
      × ((s.crew.cells w.id).processing ≡ (r.crew.cells w.id).processing)
      × (iter t.waiting ≡ xs)
      × (iter t.active ≡ but id (id ∷ iter q.active))
      × ((final : Job E) × Held t id final
          × (final.state ≡ JobState.completed)
          × (final.attempts_made ≡ bumped job.attempts_made 1))
      × (t.completed ≡ E.maps.insert q.completed ts id)
      × (t.processing ≡ q.processing)
