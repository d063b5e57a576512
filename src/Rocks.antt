-- ===== src/Rocks.antt =====
-- stores/rocksdb_store.rs: the state of `RocksDbStore` and the access to its records. A record is
-- held as what its bytes say: the JSON text of a collection, of the meta data, of a job or of a
-- token, or a number in eight bytes. A deque and a set have the same text. The counters are the
-- only records that are read as numbers.
pub mod Items
pub mod Jobs
pub mod Publish
pub mod Insert
pub mod Records
pub mod Alike
pub mod Counted
pub mod Lost
use kiomq.Prelude.{
  ℕ, String, Bool, true, false, Option, none, some, List, [], ◌∷◌, ◌++◌, map, unwrap_or,
  if◌then◌else◌,
}
use mathlib.Core.Option
use kiomq.Env.{Env}
use kiomq.ColumnFamily.{ColumnFamily}
use kiomq.SkipMap.Sorted
use kiomq.TimedMap.{TimedMap}
use kiomq.TimedMap
use kiomq.Job.{Job, JobState, JobToken}
use kiomq.Events.{EventParameters}
use kiomq.Metrics.{QueueMetrics, default_metrics}
use kiomq.Suffix.{CollectionSuffix, tag}
use kiomq.Suffix
use kiomq.Store.{Lock}

pub record Meta : Type 0 where
  pub processing : ℕ
  pub paused : Bool

abbrev pub default_meta : Meta
default_meta = record { processing = 0; paused = false }

pub data Value (E : Env) : Type 0 where
  array : List ℕ → Value E
  object : List (ℕ × ℕ) → Value E
  meta : Meta → Value E
  job : Job E → Value E
  token : JobToken → Value E
  bytes : ℕ → Value E
  -- The text of the number 0, in one byte.
  digit : Value E

pub record RocksDbStore (C : ColumnFamily) (E : Env) : Type 0 where
  pub main_tree : C.Map (Value E)
  pub jobs : C.Map (Value E)
  pub locks : TimedMap E.maps Lock
  -- The jobs that are to be written together, oldest first.
  pub job_batch : List (ℕ × Job E)
  pub prefix : String
  pub name : String
  -- Whether a queue has handed over its cells, and those cells, as in the store in memory.
  pub attached : Bool
  pub is_inital : Bool
  pub stored_metrics : QueueMetrics
  pub pause_workers : Bool
  pub notified : ℕ
  pub emitted : List (JobState × EventParameters E)

abbrev pub is_job : CollectionSuffix → Bool
is_job (CollectionSuffix.job _) = true
is_job _ = false

-- The elements of a `BTreeSet`, with the entries of an ordered map for its order.
abbrev pub set_of : List ℕ → List (ℕ × Unit {0})
set_of [] = []
set_of (x ∷ xs) = Sorted.insert x tt (set_of xs)

module _ {E : Env} where
  -- What `simd_json::from_slice` makes of a record, for each type that is asked for.
  abbrev pub as_list : Value E → Option (List ℕ)
  as_list (array xs) = some xs
  as_list _ = none

  abbrev pub as_map : Value E → Option (List (ℕ × ℕ))
  as_map (object m) = some m
  as_map _ = none

  abbrev pub as_set : Value E → Option (List (ℕ × Unit {0}))
  as_set (array xs) = some (set_of xs)
  as_set _ = none

  abbrev pub as_meta : Value E → Option Meta
  as_meta (meta m) = some m
  as_meta _ = none

  abbrev pub as_job : Value E → Option (Job E)
  as_job (job j) = some j
  as_job _ = none

  abbrev pub as_token : Value E → Option JobToken
  as_token (token t) = some t
  as_token _ = none

  -- Anything but eight bytes is 0.
  unfoldable pub ivec_to_number : Value E → ℕ
  ivec_to_number (bytes n) = n
  ivec_to_number _ = 0

module _ {C : ColumnFamily} {E : Env} where
  unfoldable pub put : CollectionSuffix → Value E → RocksDbStore C E → RocksDbStore C E
  put col value s =
      if is_job col
      then record s { jobs = C.put s.jobs (tag col) value }
      else record s { main_tree = C.put s.main_tree (tag col) value }

  -- The record under a key, before it is read as one type or another.
  unfoldable pub fetch : CollectionSuffix → RocksDbStore C E → Option (Value E)
  fetch col s = C.get (if is_job col then s.jobs else s.main_tree) (tag col)

  abbrev pub fetch_list : CollectionSuffix → RocksDbStore C E → Option (List ℕ)
  fetch_list col s = Option.bind (fetch col s) as_list

  abbrev pub fetch_map : CollectionSuffix → RocksDbStore C E → Option (List (ℕ × ℕ))
  fetch_map col s = Option.bind (fetch col s) as_map

  abbrev pub fetch_set : CollectionSuffix → RocksDbStore C E → Option (List (ℕ × Unit {0}))
  fetch_set col s = Option.bind (fetch col s) as_set

  unfoldable pub get_meta : RocksDbStore C E → Option Meta
  get_meta s = Option.bind (C.get s.main_tree (tag CollectionSuffix.meta)) as_meta

  -- `new`, with names in lower case. The families of a new store, with the collections empty and no meta data. The paused list has
  -- no record either.
  unfoldable pub initial_collections : Option String → String → RocksDbStore C E
  initial_collections prefix name =
      let empty = C.new {V = Value E} in
      let m = C.put empty (tag CollectionSuffix.wait) (array []) in
      let m = C.put m (tag CollectionSuffix.active) (array []) in
      let m = C.put m (tag CollectionSuffix.stalled) (array []) in
      let m = C.put m (tag CollectionSuffix.completed) (object []) in
      let m = C.put m (tag CollectionSuffix.prioritized) (object []) in
      let m = C.put m (tag CollectionSuffix.failed) (object []) in
      let m = C.put m (tag CollectionSuffix.delayed) (object []) in
      let m = C.put m (tag CollectionSuffix.id) digit in
      let m = C.put m (tag CollectionSuffix.priority_counter) digit in
      record {
        main_tree = m;
        jobs = empty;
        locks = TimedMap.new;
        job_batch = [];
        prefix = unwrap_or prefix "kio";
        name = name;
        attached = false;
        is_inital = false;
        stored_metrics = default_metrics;
        pause_workers = false;
        notified = 0;
        emitted = [];
      }
