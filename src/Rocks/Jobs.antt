-- ===== src/Rocks/Jobs.antt =====
-- stores/rocksdb_store.rs: the operations on job records, locks and counters, and `get_metrics`.
use Prim.Native.Char.{code}
use mathlib.Core.Option
use text.Mathlib.Text.{◌==◌ as str_eq}
use kiomq.Prelude.{
  ℕ, ◌-◌, ltb, Bool, true, false, ◌&&◌, ◌||◌, Option, none, some, List, [], ◌∷◌, String, ◌==◌,
  if◌then◌else◌, length, unwrap_or,
}
use kiomq.Words.{is_negative, wrapping_add, wrapping_sub}
use kiomq.Env.{Env}
use kiomq.ColumnFamily.{ColumnFamily}
use kiomq.TimedMap
use kiomq.Job.{Job, JobState, JobToken}
use kiomq.Job.Fields.{JobField}
use kiomq.Metrics.{QueueMetrics, default_metrics}
use kiomq.Suffix.{CollectionSuffix, tag}
use kiomq.Result.{Result, ok, err, json_error}
use kiomq.Store.Jobs.{unsigned_abs, lower, lock_of, apply_fields}
use kiomq.Rocks.{
  RocksDbStore, Value, Meta, default_meta, meta, job, bytes, as_list, as_map, as_set, as_meta,
  as_job, as_token, ivec_to_number, put, fetch, get_meta,
}

-- Whether the lower case of a text begins with a lower-case text, or contains it.
abbrev starts_with : String → String → Bool
starts_with s String.[] = true
starts_with String.[] (String.◌∷◌ d t) = false
starts_with (String.◌∷◌ c s) (String.◌∷◌ d t) = lower (code c) == code d && starts_with s t

abbrev contains : String → String → Bool
contains String.[] t = starts_with String.[] t
contains (String.◌∷◌ c s) t = starts_with (String.◌∷◌ c s) t || contains s t

-- A counter after a change.
abbrev pub moved_by : ℕ → ℕ → ℕ
moved_by current delta =
    if is_negative delta
    then wrapping_sub current (unsigned_abs delta)
    else wrapping_add current (unsigned_abs delta)

abbrev pub meta_by : ℕ → Meta → Meta
meta_by delta m = record m {
  processing =
      if is_negative delta
      then m.processing - unsigned_abs delta
      else wrapping_add m.processing (unsigned_abs delta);
}

module _ {A B : Type 0} where
  infixl 5 ◌>>=◌
  abbrev ◌>>=◌ : Option A → (A → Option B) → Option B
  m >>= f = Option.bind m f

module _ {E : Env} where
  -- `+=` of the sum of the attempts and the change, for both counters.
  unfoldable pub update_job : String → ℕ → Job E → ℕ × Job E
  update_job field delta j =
      let attempts = wrapping_add j.attempts_made (wrapping_add j.attempts_made delta) in
      let stalled = wrapping_add j.stalled_counter (wrapping_add j.attempts_made delta) in
      if str_eq field "attempts_made" || str_eq field "attemptsMade"
      then (attempts, record j { attempts_made = attempts })
      else if str_eq field "stalled_counter" || str_eq field "stalledCounter"
      then (stalled, record j { stalled_counter = stalled })
      else (0, j)

  -- A count of the elements of a record, 0 without one, `none` if it is of another type.
  abbrev counted : {A : Type 0} → (Value E → Option A) → (A → ℕ) → Option (Value E) → Option ℕ
  counted read size none = some 0
  counted read size (some v) = Option.map size (read v)

  meta_read : Option (Value E) → Option Meta
  meta_read none = some default_meta
  meta_read (some v) = as_meta v

module _ {C : ColumnFamily} {E : Env} where
  unfoldable pub get_job : ℕ → RocksDbStore C E → Option (Job E)
  get_job id s = Option.bind (fetch (CollectionSuffix.job id) s) as_job

  unfoldable pub get_token : ℕ → RocksDbStore C E → Option JobToken
  get_token id s = Option.bind (fetch (CollectionSuffix.lock id) s) as_token

  unfoldable pub get_state : ℕ → RocksDbStore C E → Option JobState
  unfolding get_job
  get_state id s = Option.map (λ (j : Job E). j.state) (get_job id s)

  -- The progress goes to the stored record, if there is one, and to the caller's copy. The error is
  -- that of a record that is no job.
  unfoldable pub update_job_progress :
      Job E → E.Progress → RocksDbStore C E → Result (Job E) × RocksDbStore C E
  update_job_progress j value s =
      let key = tag (CollectionSuffix.job (unwrap_or j.id 0)) in
      let next = record j { progress = some value } in
      elim (C.get s.jobs key) [
        | none ↦ (ok next, s)
        | some record_of ↦ elim (as_job record_of) [
          | none ↦ (err json_error, s)
          | some old ↦ (
            ok next,
            record s { jobs = C.put s.jobs key (job (record old { progress = some value })) },
          )
        ]
      ]

  unfoldable pub set_lock :
      CollectionSuffix → Option JobToken → ℕ → ℕ → RocksDbStore C E → RocksDbStore C E
  set_lock col token lock_duration instant s = record s {
    locks = TimedMap.insert_expirable s.locks (tag col) (lock_of token) lock_duration instant;
  }

  unfoldable pub set_fields : ℕ → List (JobField E) → RocksDbStore C E → RocksDbStore C E
  unfolding get_job
  set_fields job_id fields s = elim (get_job job_id s) [
    | none ↦ s
    | some j ↦ put (CollectionSuffix.job job_id) (job (apply_fields fields j)) s
  ]

  unfoldable pub get_counter : CollectionSuffix → Option String → RocksDbStore C E → Option ℕ
  unfolding get_job get_meta
  get_counter (CollectionSuffix.job id) (some field) s =
      Option.map
        (λ (j : Job E). if contains field "attempts" then j.attempts_made else j.stalled_counter)
        (get_job id s)
  get_counter col (some field) s = Option.map (λ (m : Meta). m.processing) (get_meta s)
  get_counter col none s = Option.map ivec_to_number (C.get s.main_tree (tag col))

  -- A counter that has no record counts from 1, and one at 0 reports 1 whatever the change is.
  unfoldable pub count : CollectionSuffix → ℕ → RocksDbStore C E → ℕ × RocksDbStore C E
  unfolding get_counter
  count col delta s =
      let current = unwrap_or (get_counter col none s) 1 in
      let next = moved_by current delta in
      (if current == 0 then 1 else next, put col (bytes next) s)

  -- A job without a record is counted as a counter of its key would be.
  unfoldable pub incr :
      CollectionSuffix → ℕ → Option String → RocksDbStore C E → ℕ × RocksDbStore C E
  unfolding count update_job get_job
  incr (CollectionSuffix.job id) delta (some field) s = elim (get_job id s) [
    | none ↦ count (CollectionSuffix.job id) delta s
    | some j ↦ (
      (update_job field delta j).0,
      put (CollectionSuffix.job id) (job (update_job field delta j).1) s,
    )
  ]
  incr CollectionSuffix.meta delta (some field) s =
      let m =
        meta_by delta
          (unwrap_or (Option.bind (fetch CollectionSuffix.meta s) as_meta) default_meta) in
      (m.processing, put CollectionSuffix.meta (meta m) s)
  incr col delta hash_key s = count col delta s

  unfoldable pub expire : CollectionSuffix → ℕ → RocksDbStore C E → RocksDbStore C E
  expire col secs s = s

  unfoldable pub purge_expired : ℕ → RocksDbStore C E → RocksDbStore C E
  purge_expired instant s = record s {
    locks =
        if ltb 0 (TimedMap.len_expired s.locks)
        then TimedMap.purge_expired s.locks instant
        else s.locks;
  }

  unfoldable pub fetch_jobs : List ℕ → RocksDbStore C E → List (Job E)
  unfolding get_job
  fetch_jobs [] s = []
  fetch_jobs (id ∷ ids) s =
      let rest = fetch_jobs ids s in elim (get_job id s) [ none ↦ rest | some j ↦ j ∷ rest ]

  unfoldable pub get_metrics : RocksDbStore C E → Option QueueMetrics
  unfolding meta_read
  get_metrics s =
      let at = λ (col : CollectionSuffix). C.get s.main_tree (tag col) in
      do
        stalled ← counted as_set length (at CollectionSuffix.stalled)
        active ← counted as_list length (at CollectionSuffix.active)
        completed ← counted as_map length (at CollectionSuffix.completed)
        delayed ← counted as_map length (at CollectionSuffix.delayed)
        waiting ← counted as_list length (at CollectionSuffix.wait)
        m ← meta_read (at CollectionSuffix.meta)
        prioritized ← counted as_map length (at CollectionSuffix.prioritized)
        failed ← counted as_map length (at CollectionSuffix.failed)
        paused ← counted as_list length (at CollectionSuffix.paused)
        some (record default_metrics {
          last_id = unwrap_or (Option.map ivec_to_number (at CollectionSuffix.id)) 0;
          stalled = stalled;
          active = active;
          completed = completed;
          delayed = delayed;
          waiting = waiting;
          processing = m.processing;
          is_paused = m.paused;
          prioritized = prioritized;
          failed = failed;
          paused = paused;
        })
