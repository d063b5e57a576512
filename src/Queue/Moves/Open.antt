-- ===== src/Queue/Moves/Open.antt =====
-- queue/mod.rs: the parts that the moves of a recorded job share.
use kiomq.Prelude.{ℕ, ◌≡◌, refl, Bool, true, false, Option, if◌then◌else◌}
use kiomq.Env.{Env}
use kiomq.Job.{Job, JobState, Trace}
use kiomq.Job.Fields.{ProcessedResult}
use kiomq.Result.{ok, job_not_found, continue, Action, raise, or_raise, ◌>>=◌}
use kiomq.Store.{Now}
use kiomq.Store.Jobs.{get_job, job_exists}
use kiomq.Store.Jobs.Held.{Held, job_exists-Held, get_job-Held}
use kiomq.Queue.{Queue, is_paused, call_store}
use kiomq.Queue.Moves.{moved, move_job_to_state}

module _ {E : Env} where
  move_open :
      (paused : Bool) (id : ℕ) (from to : JobState) (value : Option (ProcessedResult E))
      (ts : Option ℕ) (backtrace : Option Trace) (now : Now E) (q : Queue E) (job : Job E)
      → paused ≡ false
      → Held q.store id job
      → (if paused
          then (ok tt, q)
          else continue (call_store (job_exists id now) q) (λ found.
            if found then moved id from to value ts backtrace now else raise job_not_found))
        ≡ moved id from to value ts backtrace now q
  move_open true id from to value ts backtrace now q job e h = cc
  move_open false id from to value ts backtrace now q job e h =
      rw (job_exists-Held q.store id job now h) refl

  -- In a queue that is not paused, a job with a record is moved.
  pub move_job_to_state-open :
      (id : ℕ) (from to : JobState) (value : Option (ProcessedResult E)) (ts : Option ℕ)
      (backtrace : Option Trace) (now : Now E) (q : Queue E) (job : Job E)
      → is_paused q ≡ false
      → Held q.store id job
      → move_job_to_state id from to value ts backtrace now q
        ≡ moved id from to value ts backtrace now q
  unfolding move_job_to_state
  move_job_to_state-open id from to value ts backtrace now q job running h =
      move_open (is_paused q) id from to value ts backtrace now q job running h

  -- The last lookup of a move.
  abbrev pub looked_up : ℕ → Now E → Action (Queue E) (Job E)
  looked_up id now = do found ← call_store (get_job id now); or_raise found job_not_found

  pub looked_up-Held :
      (id : ℕ) (now : Now E) (q : Queue E) (job : Job E)
      → Held q.store id job
      → looked_up id now q ≡ (ok job, q)
  looked_up-Held id now q job h = rw (get_job-Held q.store id job now h) refl
