-- ===== src/Queue/Stalled/Outcome.antt =====
-- queue/mod.rs: what the check for stalled jobs answers.
use kiomq.Prelude.{ℕ, ◌≡◌, refl, ap, Bool, true, false, none, List, [], ◌∷◌, if◌then◌else◌}
use kiomq.Env.{Env}
use kiomq.Job.{JobState}
use kiomq.Suffix.{CollectionSuffix}
use kiomq.Result.{ok, pure, gets, continue-ok, ◌>>=◌, ◌>>◌}
use kiomq.Store.{Now}
use kiomq.Store.Ids.{get_job_ids_in_state}
use kiomq.Store.Jobs.{set_lock}
use kiomq.Queue.{Queue, update_store}
use kiomq.Queue.Moves.{WorkerOpts}
use kiomq.Queue.Stalled.{get_target_list, mark_stalled, recover, sort_out, make_stalled_jobs_wait}

module _ {E : Env} where
  mark_stalled-ok : (ids : List ℕ) (now : Now E) (q : Queue E) → (mark_stalled ids now q).0 ≡ ok tt
  unfolding mark_stalled
  mark_stalled-ok [] now q = refl
  mark_stalled-ok (id ∷ ids) now q = mark_stalled-ok ids now _

  sort_out-ok :
      (stalled : List ℕ) (opts : WorkerOpts) (target : JobState) (now : Now E) (q : Queue E)
      → (sort_out stalled opts target now q).0 ≡ ok ([], [])
  unfolding sort_out recover
  sort_out-ok [] opts target now q = refl
  sort_out-ok (id ∷ ids) opts target now q =
      let ids' = get_job_ids_in_state JobState.active none none q.store in
      ap (λ r. r.0) (continue-ok (mark_stalled ids' now q) tt _ (mark_stalled-ok ids' now q))

  checked :
      (exists : Bool) (opts : WorkerOpts) (target : JobState) (now : Now E) (q : Queue E)
      → ((if exists then pure ([], []) else (do
        update_store (set_lock CollectionSuffix.stalled_check none opts.stalled_interval now)
        stalled ← gets (λ (q : Queue E). get_job_ids_in_state JobState.stalled none none q.store)
        sort_out stalled opts target now))
          q).0
        ≡ ok ([], [])
  checked true opts target now q = refl
  checked false opts target now q = sort_out-ok _ opts target now _

  -- The check always succeeds and never reports a job, neither as failed nor as put back.
  pub make_stalled_jobs_wait-empty :
      (opts : WorkerOpts) (now : Now E) (q : Queue E)
      → (make_stalled_jobs_wait opts now q).0 ≡ ok ([], [])
  unfolding make_stalled_jobs_wait
  make_stalled_jobs_wait-empty opts now q = checked _ opts (get_target_list q).1 now _
