-- ===== src/Rocks/Items.antt =====
-- stores/rocksdb_store.rs: the operations on the collections of ids.
use kiomq.Prelude.{
  ℕ, ◌+◌, ◌-◌, Bool, true, false, not, ◌&&◌, Option, none, some, List, [], ◌∷◌, ◌++◌, ◌==◌, ltb,
  leb, if◌then◌else◌, map, any, filter, is_some, length, get_elem?, unwrap_or, zero, suc,
}
use mathlib.Core.Option
use kiomq.Words.{wrapping_sub}
use kiomq.Env.{Env}
use kiomq.ColumnFamily.{ColumnFamily}
use kiomq.SkipMap.Sorted
use kiomq.SkipMap.Sorted.{first?, last?}
use kiomq.Deque.Refine.{lasts}
use kiomq.TimedMap
use kiomq.Job.{JobState}
use kiomq.Suffix.{CollectionSuffix, tag, from_state}
use kiomq.Result.{Action, panicked, pure, raise}
use kiomq.Rocks.{RocksDbStore, array, object, meta, put, fetch_list, fetch_map, fetch_set, get_meta}

-- The arms that `add_item`, `exists_in` and `remove_item` share: a deque, a map from scores to ids,
-- a set of ids, or no collection of ids.
pub data Arm : Type 0 where
  list scores ids other : Arm

abbrev pub arm : CollectionSuffix → Arm
arm CollectionSuffix.active = list
arm CollectionSuffix.wait = list
arm CollectionSuffix.paused = list
arm CollectionSuffix.completed = scores
arm CollectionSuffix.delayed = scores
arm CollectionSuffix.failed = scores
arm CollectionSuffix.prioritized = scores
arm CollectionSuffix.stalled = ids
arm _ = other

-- Without a score nothing is inserted, into a set neither.
abbrev pub scored : Option ℕ → ℕ → List (ℕ × ℕ) → List (ℕ × ℕ)
scored none item m = m
scored (some score) item m = Sorted.insert score item m

abbrev pub joined : Option ℕ → ℕ → List (ℕ × Unit {0}) → List (ℕ × Unit {0})
joined none item m = m
joined (some score) item m = Sorted.insert item tt m

abbrev pub erase_all : List (ℕ × ℕ) → List (ℕ × ℕ) → List (ℕ × ℕ)
erase_all [] m = m
erase_all (e ∷ es) m = erase_all es (Sorted.erase e.0 m)

abbrev is_list : CollectionSuffix → Bool
is_list CollectionSuffix.wait = true
is_list CollectionSuffix.active = true
is_list _ = false

abbrev pub drop : ℕ → List ℕ → List ℕ
drop zero xs = xs
drop (suc n) [] = []
drop (suc n) (x ∷ xs) = drop n xs

abbrev pub take : ℕ → List ℕ → List ℕ
take zero xs = []
take (suc n) [] = []
take (suc n) (x ∷ xs) = x ∷ take n xs

module _ {C : ColumnFamily} {E : Env} where
  unfoldable pub add_item :
      CollectionSuffix → ℕ → Option ℕ → Bool → RocksDbStore C E → RocksDbStore C E
  add_item col item score append s =
      let queue = unwrap_or (fetch_list col s) [] in
      elim (arm col) [
        | list ↦ put col (array (if append then item ∷ queue else queue ++ item ∷ [])) s
        | scores ↦ put col (object (scored score item (unwrap_or (fetch_map col s) []))) s
        | ids ↦
            put col (array (map (λ e. e.0) (joined score item (unwrap_or (fetch_set col s) [])))) s
        | other ↦ s
      ]

  unfoldable pub job_exists : ℕ → RocksDbStore C E → Bool
  job_exists id s = C.may_exist s.jobs (tag (CollectionSuffix.job id))

  unfoldable pub metadata_field_exists : RocksDbStore C E → Bool
  metadata_field_exists s = C.may_exist s.main_tree (tag CollectionSuffix.meta)

  -- Whether a lock has expired is not asked.
  unfoldable pub exists_elsewhere : CollectionSuffix → RocksDbStore C E → Bool
  unfolding job_exists
  exists_elsewhere (CollectionSuffix.job id) s = job_exists id s
  exists_elsewhere (CollectionSuffix.lock i) s =
      is_some (E.maps.get s.locks.inner (tag (CollectionSuffix.lock i)))
  exists_elsewhere CollectionSuffix.stalled_check s =
      is_some (E.maps.get s.locks.inner (tag CollectionSuffix.stalled_check))
  exists_elsewhere _ s = false

  unfoldable pub exists_in : CollectionSuffix → ℕ → RocksDbStore C E → Bool
  unfolding exists_elsewhere
  exists_in col item s = elim (arm col) [
    | list ↦ any (λ x. x == item) (unwrap_or (fetch_list col s) [])
    | scores ↦ any (λ e. e.1 == item) (unwrap_or (fetch_map col s) [])
    | ids ↦ is_some (Sorted.lookup item (unwrap_or (fetch_set col s) []))
    | other ↦ exists_elsewhere col s
  ]

  -- `none` for any collection but the three lists, or without a record.
  unfoldable pub item_exists_in_list : CollectionSuffix → ℕ → RocksDbStore C E → Option Bool
  item_exists_in_list col item s = elim (arm col) [
    | list ↦ Option.map (any (λ x. x == item)) (fetch_list col s)
    | _ ↦ none
  ]

  -- Any record is deleted from the family of the collections.
  unfoldable pub remove : CollectionSuffix → RocksDbStore C E → RocksDbStore C E
  remove key s = record s { main_tree = C.delete s.main_tree (tag key) }

  unfoldable pub remove_item : CollectionSuffix → ℕ → RocksDbStore C E → RocksDbStore C E
  unfolding remove
  remove_item col item s = elim (arm col) [
    | list ↦ elim (fetch_list col s) [
      | none ↦ s
      | some queue ↦ put col (array (filter (λ x. not (x == item)) queue)) s
    ]
    | scores ↦ elim (fetch_map col s) [
      | none ↦ s
      | some m ↦ put col (object (filter (λ e. not (e.1 == item)) m)) s
    ]
    | ids ↦ elim (fetch_set col s) [
      | none ↦ s
      | some m ↦ put col (array (map (λ e. e.0) (Sorted.erase item m))) s
    ]
    | other ↦ remove col s
  ]

  unfoldable pub pop_set :
      CollectionSuffix → Bool → RocksDbStore C E → List (ℕ × ℕ) × RocksDbStore C E
  pop_set col min s = elim (arm col) [
    | scores ↦
        let m = unwrap_or (fetch_map col s) [] in
        elim (if min then first? m else last? m) [
          | none ↦ ([], s)
          | some (score, id) ↦ ((id, score) ∷ [], put col (object (Sorted.erase score m)) s)
        ]
    | _ ↦ ([], s)
  ]

  -- Both lists are read before either is written.
  unfoldable pub moved :
      CollectionSuffix
      → CollectionSuffix
      → Option ℕ × List ℕ
      → List ℕ
      → RocksDbStore C E
      → Option ℕ × RocksDbStore C E
  moved src dst (none, rest) queue s = (none, s)
  moved src dst (some value, rest) queue s =
      (some value, put dst (array (value ∷ queue)) (put src (array rest) s))

  unfoldable pub pop_back_push_front :
      CollectionSuffix → CollectionSuffix → RocksDbStore C E → Option ℕ × RocksDbStore C E
  unfolding moved
  pop_back_push_front src dst s =
      if is_list src && is_list dst
      then moved src dst (lasts (unwrap_or (fetch_list src s) [])) (unwrap_or (fetch_list dst s) [])
          s
      else (none, s)

  -- The due jobs, then the missed ones. A range of a `BTreeMap` that ends before it starts panics.
  unfoldable pub get_delayed_at : ℕ → ℕ → Action (RocksDbStore C E) (List ℕ × List ℕ)
  get_delayed_at start stop s = elim (fetch_map CollectionSuffix.delayed s) [
    | none ↦ pure ([], []) s
    | some delayed ↦
        let missed = filter (λ e. ltb e.0 (wrapping_sub start 1)) delayed in
        let jobs = filter (λ e. leb start e.0 && ltb e.0 stop) delayed in
        if ltb stop start
        then raise panicked s
        else pure (map (λ e. e.1) jobs, map (λ e. e.1) missed)
            (put CollectionSuffix.delayed (object (erase_all (jobs ++ missed) delayed)) s)
  ]

  -- The contents of a compacted family stay; only the locks go.
  unfoldable pub clear_collections : RocksDbStore C E → RocksDbStore C E
  clear_collections s = record s { locks = TimedMap.clear s.locks }

  unfoldable pub clear_jobs : ℕ → RocksDbStore C E → RocksDbStore C E
  clear_jobs last_id s = s

  -- The list changes its key; what stood under the other key is overwritten.
  unfoldable pub renamed : CollectionSuffix → CollectionSuffix → RocksDbStore C E → RocksDbStore C E
  unfolding put
  renamed src dst s =
      if C.may_exist s.main_tree (tag CollectionSuffix.paused)
      then elim (C.get s.main_tree (tag src)) [
        | none ↦ s
        | some removed ↦ put dst removed (record s { main_tree = C.delete s.main_tree (tag src) })
      ]
      else s

  -- Without meta data no flag is set.
  unfoldable pub flagged : Bool → RocksDbStore C E → RocksDbStore C E
  unfolding get_meta
  flagged paused s = elim (get_meta s) [
    | none ↦ s
    | some m ↦ record s {
      main_tree =
          C.put s.main_tree (tag CollectionSuffix.meta) (meta (record m { paused = paused }));
    }
  ]

  unfoldable pub pause : Bool → RocksDbStore C E → RocksDbStore C E
  unfolding renamed flagged
  pause true s = flagged true (renamed CollectionSuffix.wait CollectionSuffix.paused s)
  pause false s = flagged false (renamed CollectionSuffix.paused CollectionSuffix.wait s)

-- A range by positions that both belong to it, from an ordered map: empty if one of the positions
-- is beyond the end, and a panic if the second comes before the first.
unfoldable pub values_between : {V : Type 0} → List (ℕ × V) → ℕ → Option ℕ → Option (List (ℕ × V))
values_between m start stop = elim (get_elem? m start) [
  | none ↦ some []
  | some first ↦ elim (get_elem? m (unwrap_or stop (length m - 1))) [
    | none ↦ some []
    | some last ↦
        if ltb last.0 first.0
        then none
        else some (filter (λ e. leb first.0 e.0 && leb e.0 last.0) m)
  ]
]

-- `VecDeque::range(start..=end)`, which panics beyond the length and for an end before the start.
unfoldable pub range : List ℕ → ℕ → ℕ → Option (List ℕ)
range xs start stop =
    if leb start (stop + 1) && leb (stop + 1) (length xs)
    then some (take (stop + 1 - start) (drop start xs))
    else none

-- The ids of a range, if there is a record.
scored_ids : Option (List (ℕ × ℕ)) → ℕ → Option ℕ → Option (List ℕ)
unfolding values_between
scored_ids none start stop = some []
scored_ids (some m) start stop = Option.map (map (λ e. e.1)) (values_between m start stop)

set_ids : Option (List (ℕ × Unit {0})) → ℕ → Option ℕ → Option (List ℕ)
unfolding values_between
set_ids none start stop = some []
set_ids (some m) start stop = Option.map (map (λ e. e.0)) (values_between m start stop)

listed_ids : Option (List ℕ) → ℕ → Option ℕ → Option (List ℕ)
unfolding range
listed_ids none start stop = some []
listed_ids (some []) start stop = some []
listed_ids (some (x ∷ xs)) start stop = range (x ∷ xs) start (unwrap_or stop (length xs))

module _ {C : ColumnFamily} {E : Env} where
  -- `none` is a panic. The collection is that of `From<JobState>`.
  unfoldable pub get_job_ids_in_state :
      JobState → Option ℕ → Option ℕ → RocksDbStore C E → Option (List ℕ)
  unfolding scored_ids set_ids listed_ids
  get_job_ids_in_state JobState.prioritized start stop s =
      scored_ids (fetch_map (from_state JobState.prioritized) s) (unwrap_or start 0) stop
  get_job_ids_in_state JobState.completed start stop s =
      scored_ids (fetch_map (from_state JobState.completed) s) (unwrap_or start 0) stop
  get_job_ids_in_state JobState.failed start stop s =
      scored_ids (fetch_map (from_state JobState.failed) s) (unwrap_or start 0) stop
  get_job_ids_in_state JobState.delayed start stop s =
      scored_ids (fetch_map (from_state JobState.delayed) s) (unwrap_or start 0) stop
  get_job_ids_in_state JobState.stalled start stop s =
      set_ids (fetch_set (from_state JobState.stalled) s) (unwrap_or start 0) stop
  get_job_ids_in_state JobState.active start stop s =
      listed_ids (fetch_list (from_state JobState.active) s) (unwrap_or start 0) stop
  get_job_ids_in_state JobState.wait start stop s =
      listed_ids (fetch_list (from_state JobState.wait) s) (unwrap_or start 0) stop
  get_job_ids_in_state JobState.paused start stop s =
      listed_ids (fetch_list (from_state JobState.paused) s) (unwrap_or start 0) stop
  get_job_ids_in_state _ start stop s = some []
