-- ===== src/Queue/Retry/Cleanup.antt =====
-- queue/mod.rs: which records `clean_up_job` removes.
use kiomq.Prelude.{
  ℕ, ◌<◌, ◌≡◌, refl, ◌∙◌, Bool, true, false, ◌&&◌, none, some, if◌then◌else◌, ltb, arith, ==-refl,
}
use kiomq.Words.{i64_min}
use kiomq.Env.{Env}
use kiomq.TimedMap.Expiry.{get-remove_lem, expire_constant}
use kiomq.Job.{Job}
use kiomq.Job.Options.{RemoveOnCompletionOrFailure, KeepJobs}
use kiomq.Job.Options
use kiomq.Suffix.{CollectionSuffix, tag}
use kiomq.Result.{ok}
use kiomq.Store.{Store, Now}
use kiomq.Store.Items.{remove}
use kiomq.Store.Jobs.{get_job, expire}
use kiomq.Store.Jobs.Held.{Held}
use kiomq.Queue.{Queue}
use kiomq.Queue.Retry.{clean_up_job, exceeds}

module _ {E : Env} where
  -- What a later lookup finds after a removal that depends on a test.
  removed_if :
      (drop : Bool) (id : ℕ) (later : Now E) (s : Store E)
      → (get_job id later ((if drop then remove (CollectionSuffix.job id) else (λ s. s)) s)).0
        ≡ (if drop then none else (get_job id later s).0)
  unfolding get_job remove
  removed_if true id later s =
      let key = tag (CollectionSuffix.job id) in
      get-remove_lem s.jobs key key later.instant ∙ rw (==-refl key) refl
  removed_if false id later s = refl

  -- Cleaning up succeeds, and with a number of jobs to keep, for numbers below 2^63, it removes the
  -- record of a job exactly if the number is not zero and the job's id is greater: the jobs with the
  -- least ids are those that are kept.
  pub clean_up_job-int :
      (id max_to_keep : ℕ) (now later : Now E) (q : Queue E)
      → id < i64_min
      → max_to_keep < i64_min
      → ((clean_up_job id (some (Options.int max_to_keep)) now q).0 ≡ ok tt)
        × ((get_job id later (clean_up_job id (some (Options.int max_to_keep)) now q).1.store).0 ≡ (
            if ltb 0 max_to_keep && ltb max_to_keep id then none else (get_job id later q.store).0))
  unfolding clean_up_job
  clean_up_job-int id max_to_keep now later q h k =
      let same : exceeds id max_to_keep ≡ (ltb 0 max_to_keep && ltb max_to_keep id) =
        ground arith in
      (refl, removed_if (exceeds id max_to_keep) id later q.store ∙ rw same refl)

  -- A greatest age has no effect on the record of a job, which has no timeout to be changed.
  pub clean_up_job-age :
      (id age : ℕ) (job : Job E) (now : Now E) (q : Queue E)
      → Held q.store id job
      → clean_up_job id (some (Options.opts (record { age = some age; count = none }))) now q
        ≡ (ok tt, q)
  unfolding clean_up_job expire
  clean_up_job-age id age job now q h =
      rw (expire_constant q.store.jobs (tag (CollectionSuffix.job id)) job _ now.instant h) refl
