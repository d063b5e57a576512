-- ===== src/Store/Insert.antt =====
-- stores/inmemory_store.rs: `insert`, `add_bulk` and `add_bulk_only`; utils/mod.rs: the priority score.
pub mod Score
pub mod Batch
pub mod Lands
pub mod Placed
pub mod Answers
use Prim.Native.String.{◌++◌}
use kiomq.Prelude.{
  ℕ, ◌+◌, ◌*◌, ◌%◌, Bool, true, false, not, ◌&&◌, Option, none, some, List, [], ◌∷◌, String, ltb,
  if◌then◌else◌, unwrap_or,
}
use kiomq.Words.{u64_size, wrapping_add}
use kiomq.Env.{Env}
use kiomq.TimedMap
use kiomq.Job.{Job, JobState, add_opts, new as new_job}
use kiomq.Job.Delay.{next_occurrance_timestamp_ms, as_diff_ms}
use kiomq.Job.Options.{JobOptions, QueueOpts, default_options, update_job_opts}
use kiomq.Suffix.{CollectionSuffix, tag}
use kiomq.Events.{QueueStreamEvent, default_event}
use kiomq.Result.{
  Action, Result, ok, err, delay_below_allowed_limit, panicked, ◌>>=◌, ◌>>◌, or_raise, raise, pure,
  call, gets, continue,
}
use kiomq.Store.{Store, Now}
use kiomq.Store.Items.{add_item}
use kiomq.Store.Jobs.{incr}
use kiomq.Store.Publish.{publish_event}

-- worker/worker_opts.rs.
abbrev pub min_delay_ms_limit : ℕ
min_delay_ms_limit = 50

-- `(priority << 32) + (prio_counter & 0xffff_ffff_ffff)`: the mask keeps 48 bits.
unfoldable pub calculate_next_priority_score : ℕ → ℕ → ℕ
calculate_next_priority_score priority prio_counter =
    wrapping_add (priority * 0x100000000 % u64_size) (prio_counter % 0x1000000000000)

module _ {E : Env} where
  -- Where a new job goes, its state there, and the state that its event announces. `expected` is
  -- the moment of a delayed job; a delay without one leaves the job in no collection.
  unfoldable pub place :
      Job E → ℕ → ℕ → ℕ → Bool → Option ℕ → ℕ → Store E → (Store E × Job E) × JobState
  place job priority pc id is_paused expected delay s =
      let waiting = if is_paused then CollectionSuffix.paused else CollectionSuffix.wait in
      let event = if is_paused then JobState.paused else JobState.wait in
      if ltb 0 delay
      then elim expected [
        | none ↦ ((s, job), event)
        | some expected_active_time ↦ (
          (
            add_item CollectionSuffix.delayed id (some expected_active_time) false s,
            record job { state = JobState.delayed },
          ),
          JobState.delayed,
        )
      ]
      else if ltb 0 priority
      then (
        (
          add_item CollectionSuffix.prioritized id
              (some (calculate_next_priority_score priority pc)) true s,
          record job { state = JobState.prioritized },
        ),
        JobState.prioritized,
      )
      else ((add_item waiting id none true s, job), event)

  -- The event of a new job.
  event_of : JobState → ℕ → ℕ → ℕ → String → Now E → QueueStreamEvent E
  event_of event id delay priority name now = record (default_event now.utc) {
    job_id = id;
    event = event;
    name = some name;
    delay = if ltb 0 delay then some delay else none;
    priority = if ltb 0 priority && not (ltb 0 delay) then some priority else none;
  }

  -- Once the delay is known and allowed: the job is placed, recorded, and announced.
  pub insert_at :
      Job E → ℕ → ℕ → ℕ → String → Bool → Option ℕ → ℕ → Now E → Action (Store E) (Job E)
  unfolding place event_of
  insert_at job priority pc id name is_paused expected delay now s =
      let ((s', job'), event) = place job priority pc id is_paused expected delay s in
      let stored = record job' { id = some id } in
      continue
        (publish_event (event_of event id delay priority name now) (record s' {
          jobs = TimedMap.insert_constant s'.jobs (tag (CollectionSuffix.job id)) stored;
        }))
        (λ _. pure stored)

  unfoldable pub insert :
      Job E → JobOptions E → ℕ → ℕ → String → Bool → Now E → Action (Store E) (Job E)
  unfolding insert_at
  insert job opts pc id name is_paused now = do
    expected ← or_raise (next_occurrance_timestamp_ms opts.delay now.utc) panicked
    delay ← or_raise (as_diff_ms opts.delay now.utc) panicked
    job' ← or_raise (add_opts job opts) panicked
    if ltb 0 delay && ltb delay min_delay_ms_limit
        then raise (delay_below_allowed_limit min_delay_ms_limit delay)
        else insert_at job' opts.priority pc id name is_paused expected delay now

  -- The priority counter moves only for jobs with a priority.
  next_pc : JobOptions E → Now E → Store E → ℕ × Store E
  next_pc opts now s =
      if ltb 0 opts.priority then incr CollectionSuffix.priority_counter 1 none now s else (0, s)

  unfoldable pub add_one :
      String × Option (JobOptions E) × E.Input
      → QueueOpts E
      → Bool
      → Now E
      → Action (Store E) (Job E)
  unfolding next_pc
  add_one (name, opts, input) queue_opts is_paused now = do
    let opts' = update_job_opts queue_opts (unwrap_or opts default_options)
    pc ← call (next_pc opts' now)
    queue_name ← gets (λ s. s.prefix ++ ":" ++ s.name)
    id ← call (incr CollectionSuffix.id 1 none now)
    insert (new_job name (some input) opts'.id (some queue_name) now.utc) opts' pc id name is_paused
        now

  -- The loop over the batch; a refused job ends it, and those before it stay.
  unfoldable pub add_bulk :
      List (String × Option (JobOptions E) × E.Input)
      → QueueOpts E
      → Bool
      → Now E
      → Action (Store E) (List (Job E))
  unfolding add_one
  add_bulk [] queue_opts is_paused now = pure []
  add_bulk (item ∷ items) queue_opts is_paused now = do
    job ← add_one item queue_opts is_paused now
    jobs ← add_bulk items queue_opts is_paused now
    pure (job ∷ jobs)

  unfoldable pub add_bulk_only :
      List (String × Option (JobOptions E) × E.Input)
      → QueueOpts E
      → Bool
      → Now E
      → Action (Store E) Unit
  unfolding add_one
  add_bulk_only [] queue_opts is_paused now = pure tt
  add_bulk_only (item ∷ items) queue_opts is_paused now = do
    add_one item queue_opts is_paused now
    add_bulk_only items queue_opts is_paused now
