-- ===== src/Rocks/Insert.antt =====
-- stores/rocksdb_store.rs: `prepare_for_insert`, `submit_changes`, `add_bulk` and `add_bulk_only`. A
-- batch of jobs is collected beside the store, and written when it is whole.
pub mod Submitted
use Prim.Native.String.{◌++◌ as str_append}
use kiomq.Prelude.{
  ℕ, Bool, true, false, not, ◌&&◌, Option, none, some, List, [], ◌∷◌, ◌++◌, String, ltb,
  if◌then◌else◌, unwrap_or,
}
use kiomq.Env.{Env}
use kiomq.ColumnFamily.{ColumnFamily}
use kiomq.SkipMap.Sorted
use kiomq.Metrics.{update}
use kiomq.Job.{Job, JobState, add_opts, new as new_job}
use kiomq.Job.Delay.{next_occurrance_timestamp_ms, as_diff_ms}
use kiomq.Job.Options.{JobOptions, QueueOpts, default_options, update_job_opts}
use kiomq.Suffix.{CollectionSuffix, tag}
use kiomq.Events.{QueueStreamEvent, default_event}
use kiomq.Result.{
  Action, Result, ok, err, delay_below_allowed_limit, panicked, json_error, ◌>>=◌, ◌>>◌, or_raise,
  raise, pure, call, gets, continue,
}
use kiomq.Result as Result
use kiomq.Store.{Now}
use kiomq.Store.Insert.{min_delay_ms_limit, calculate_next_priority_score}
use kiomq.Rocks.{RocksDbStore, Value, array, object, job, put, fetch, fetch_list, fetch_map}
use kiomq.Rocks.Jobs.{incr, get_metrics}
use kiomq.Rocks.Publish.{publish_event}

-- What a batch adds to the collections: a list, and two maps in the order of insertion.
pub record Batch : Type 0 where
  pub list : List ℕ
  pub priorized : List (ℕ × ℕ)
  pub delayed : List (ℕ × ℕ)

abbrev pub empty : Batch
empty = record { list = []; priorized = []; delayed = [] }

-- `BTreeMap::extend`.
abbrev pub extend : List (ℕ × ℕ) → List (ℕ × ℕ) → List (ℕ × ℕ)
extend m [] = m
extend m ((k, v) ∷ es) = extend (Sorted.insert k v m) es

module _ {E : Env} where
  -- Where a new job goes, its state there, and the state that its event announces.
  unfoldable pub place :
      Job E → ℕ → ℕ → ℕ → Bool → Option ℕ → ℕ → Batch → (Batch × Job E) × JobState
  place j priority pc id is_paused expected delay b =
      let event = if is_paused then JobState.paused else JobState.wait in
      if ltb 0 delay
      then elim expected [
        | none ↦ ((b, j), event)
        | some expected_active_time ↦ (
          (
            record b { delayed = Sorted.insert expected_active_time id b.delayed },
            record j { state = JobState.delayed },
          ),
          JobState.delayed,
        )
      ]
      else if ltb 0 priority
      then (
        (
          record b {
            priorized = Sorted.insert (calculate_next_priority_score priority pc) id b.priorized;
          },
          record j { state = JobState.prioritized },
        ),
        JobState.prioritized,
      )
      else ((record b { list = id ∷ b.list }, j), event)

  event_of : JobState → ℕ → ℕ → ℕ → String → Now E → QueueStreamEvent E
  event_of event id delay priority name now = record (default_event now.utc) {
    job_id = id;
    event = event;
    name = some name;
    delay = if ltb 0 delay then some delay else none;
    priority = if ltb 0 priority && not (ltb 0 delay) then some priority else none;
  }

module _ {C : ColumnFamily} {E : Env} where
  -- Once the delay is known and allowed. The record goes to the store's batch of jobs.
  prepared :
      Job E
      → ℕ
      → ℕ
      → ℕ
      → String
      → Bool
      → Option ℕ
      → ℕ
      → Now E
      → Batch
      → Action (RocksDbStore C E) (Job E × Batch)
  unfolding place event_of
  prepared j priority pc id name is_paused expected delay now b s =
      let ((b', j'), event) = place j priority pc id is_paused expected delay b in
      let stored = record j' { id = some id } in
      continue
        (publish_event (event_of event id delay priority name now)
          (record s { job_batch = s.job_batch ++ (id, stored) ∷ [] }))
        (λ _. pure (stored, b'))

  unfoldable pub prepare_for_insert :
      ℕ
      → ℕ
      → Bool
      → Job E
      → JobOptions E
      → Batch
      → String
      → Now E
      → Action (RocksDbStore C E) (Job E × Batch)
  unfolding prepared
  prepare_for_insert id pc is_paused j opts b name now = do
    expected ← or_raise (next_occurrance_timestamp_ms opts.delay now.utc) panicked
    delay ← or_raise (as_diff_ms opts.delay now.utc) panicked
    j' ← or_raise (add_opts j opts) panicked
    if ltb 0 delay && ltb delay min_delay_ms_limit
        then raise (delay_below_allowed_limit min_delay_ms_limit delay)
        else prepared j' opts.priority pc id name is_paused expected delay now b

  -- The batch of jobs is written, and is empty afterwards.
  unfoldable pub written : List (ℕ × Job E) → RocksDbStore C E → RocksDbStore C E
  unfolding put
  written [] s = s
  written ((id, j) ∷ rest) s = written rest (put (CollectionSuffix.job id) (job j) s)

  unfoldable pub commit : RocksDbStore C E → RocksDbStore C E
  unfolding written
  commit s = written s.job_batch (record s { job_batch = [] })

  -- The new ids stand before those that were there. The collections are read before the jobs are
  -- written, and written after them.
  unfoldable pub submit_changes : Bool → Batch → RocksDbStore C E → RocksDbStore C E
  unfolding commit
  submit_changes is_paused b s =
      let next_list = if is_paused then CollectionSuffix.paused else CollectionSuffix.wait in
      let queue = unwrap_or (fetch_list next_list s) [] in
      let delayed = unwrap_or (fetch_map CollectionSuffix.delayed s) [] in
      let priorized = unwrap_or (fetch_map CollectionSuffix.prioritized s) [] in
      put CollectionSuffix.prioritized (object (extend priorized b.priorized)) (
        put CollectionSuffix.delayed (object (extend delayed b.delayed))
          (put next_list (array (b.list ++ queue)) (commit s)))

  next_pc : JobOptions E → RocksDbStore C E → ℕ × RocksDbStore C E
  next_pc opts s =
      if ltb 0 opts.priority then incr CollectionSuffix.priority_counter 1 none s else (0, s)

  -- One round of the loop.
  unfoldable pub add_one :
      String × Option (JobOptions E) × E.Input
      → QueueOpts E
      → Bool
      → Now E
      → Batch
      → Action (RocksDbStore C E) (Job E × Batch)
  unfolding next_pc
  add_one (name, opts, input) queue_opts is_paused now b = do
    let opts' = update_job_opts queue_opts (unwrap_or opts default_options)
    pc ← call (next_pc opts')
    queue_name ← gets (λ (s : RocksDbStore C E). str_append s.prefix (str_append ":" s.name))
    id ← call (incr CollectionSuffix.id 1 none)
    prepare_for_insert id pc is_paused
        (new_job name (some input) opts'.id (some queue_name) now.utc) opts' b name now

  collect :
      List (String × Option (JobOptions E) × E.Input)
      → QueueOpts E
      → Bool
      → Now E
      → Batch
      → Action (RocksDbStore C E) (List (Job E) × Batch)
  unfolding add_one
  collect [] queue_opts is_paused now b = pure ([], b)
  collect (item ∷ items) queue_opts is_paused now b = do
    one ← add_one item queue_opts is_paused now b
    rest ← collect items queue_opts is_paused now one.1
    pure (one.0 ∷ rest.0, rest.1)

  -- The shared metrics take over the counts, and it is an error if these cannot be read.
  refreshed : Action (RocksDbStore C E) Unit
  refreshed s = elim (get_metrics s) [
    | none ↦ (err json_error, s)
    | some m ↦
        (ok tt, if s.attached then record s { stored_metrics = update s.stored_metrics m } else s)
  ]

  -- A refused job ends the call before anything is placed.
  unfoldable pub add_bulk :
      List (String × Option (JobOptions E) × E.Input)
      → QueueOpts E
      → Bool
      → Now E
      → Action (RocksDbStore C E) (List (Job E))
  unfolding collect refreshed
  add_bulk items queue_opts is_paused now = do
    done ← collect items queue_opts is_paused now empty
    Result.update (submit_changes is_paused done.1)
    refreshed
    pure done.0

  unfoldable pub add_bulk_only :
      List (String × Option (JobOptions E) × E.Input)
      → QueueOpts E
      → Bool
      → Now E
      → Action (RocksDbStore C E) Unit
  unfolding collect refreshed
  add_bulk_only items queue_opts is_paused now = do
    done ← collect items queue_opts is_paused now empty
    Result.update (submit_changes is_paused done.1)
    refreshed
