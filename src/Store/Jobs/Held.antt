-- ===== src/Store/Jobs/Held.antt =====
-- stores/inmemory_store.rs: the operations on a job whose record is kept, without a timeout.
use kiomq.Prelude.{ℕ, ◌≡◌, refl, true, some, List}
use kiomq.Env.{Env}
use kiomq.TimedMap.{constant}
use kiomq.TimedMap
use kiomq.TimedMap.Expiry.{
  get_constant, modify_constant, held-insert_constant, contains_key_constant,
}
use kiomq.Job.{Job}
use kiomq.Job.Fields.{JobField}
use kiomq.Suffix.{CollectionSuffix, tag}
use kiomq.Store.{Store, Now}
use kiomq.Store.Jobs.{
  get_job, get_state, job_exists, incr, incr_job, bump_job, bumped, set_fields, apply_fields,
}

module _ {E : Env} where
  abbrev pub Held : Store E → ℕ → Job E → Type 0
  Held s id job = E.maps.get s.jobs.inner (tag (CollectionSuffix.job id)) ≡ some (constant job)

  -- The store with another record for a job.
  abbrev pub with_job : Store E → ℕ → Job E → Store E
  with_job s id job = record s {
    jobs = TimedMap.insert_constant s.jobs (tag (CollectionSuffix.job id)) job;
  }

  pub with_job-Held : (s : Store E) (id : ℕ) (job : Job E) → Held (with_job s id job) id job
  with_job-Held s id job = held-insert_constant s.jobs (tag (CollectionSuffix.job id)) job

  pub get_job-Held :
      (s : Store E) (id : ℕ) (job : Job E) (now : Now E)
      → Held s id job
      → get_job id now s ≡ (some job, s)
  unfolding get_job
  get_job-Held s id job now h =
      rw (get_constant s.jobs (tag (CollectionSuffix.job id)) job now.instant h) refl

  pub get_state-Held :
      (s : Store E) (id : ℕ) (job : Job E) (now : Now E)
      → Held s id job
      → get_state id now s ≡ (some job.state, s)
  unfolding get_state
  get_state-Held s id job now h =
      rw (get_constant s.jobs (tag (CollectionSuffix.job id)) job now.instant h) refl

  pub job_exists-Held :
      (s : Store E) (id : ℕ) (job : Job E) (now : Now E)
      → Held s id job
      → job_exists id now s ≡ (true, s)
  unfolding job_exists
  job_exists-Held s id job now h =
      rw (contains_key_constant s.jobs (tag (CollectionSuffix.job id)) job now.instant h) refl

  -- One attempt more.
  abbrev pub attempted : Job E → Job E
  attempted job = record job { attempts_made = bumped job.attempts_made 1 }

  pub incr-Held :
      (s : Store E) (id : ℕ) (job : Job E) (now : Now E)
      → Held s id job
      → (incr (CollectionSuffix.job id) 1 (some "attemptsMade") now s).1
        ≡ with_job s id (attempted job)
  unfolding incr incr_job bump_job
  incr-Held s id job now h =
      rw
        (
          get_constant s.jobs (tag (CollectionSuffix.job id)) job now.instant h,
          modify_constant s.jobs (tag (CollectionSuffix.job id)) job _ now.instant h,
        )
        refl

  pub set_fields-Held :
      (s : Store E) (id : ℕ) (job : Job E) (fields : List (JobField E)) (now : Now E)
      → Held s id job
      → set_fields id fields now s ≡ with_job s id (apply_fields fields job)
  unfolding set_fields
  set_fields-Held s id job fields now h =
      rw
        (modify_constant s.jobs (tag (CollectionSuffix.job id)) job (apply_fields fields)
          now.instant h)
        refl
