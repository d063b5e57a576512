-- ===== src/Store/Ids.antt =====
-- stores/inmemory_store.rs: `get_job_ids_in_state`, the ids of one collection by position.
pub mod Whole
use kiomq.Prelude.{
  ℕ, ◌-◌, Bool, ◌&&◌, Option, none, some, List, [], length, get_elem?, map, leb, if◌then◌else◌,
  unwrap_or,
}
use kiomq.Env.{Env}
use kiomq.SkipMap.{SkipMap}
use kiomq.Job.{JobState}
use kiomq.Store.{Store}

module _ (S : SkipMap) {V : Type 0} where
  -- `range(start_element..=last_element)`, when both positions are there.
  between : S.Map V → Option (ℕ × V) → Option (ℕ × V) → List (ℕ × V)
  between m none last = []
  between m (some first) none = []
  between m (some first) (some last) = S.range m (λ k. leb first.0 k && leb k last.0)

  -- The positions count from 0 and both belong to the range.
  unfoldable pub entries_between : S.Map V → ℕ → Option ℕ → List (ℕ × V)
  unfolding between
  entries_between m start stop = elim (S.front m) [
    | none ↦ []
    | some _ ↦
        between m (get_elem? (S.iter m) start)
          (get_elem? (S.iter m) (unwrap_or stop (length (S.iter m) - 1)))
  ]

module _ (S : SkipMap) where
  abbrev pub values_between : S.Map ℕ → ℕ → Option ℕ → List ℕ
  unfolding entries_between
  values_between m start stop = map (λ e. e.1) (entries_between S m start stop)

module _ {E : Env} where
  unfoldable pub get_job_ids_in_state : JobState → Option ℕ → Option ℕ → Store E → List ℕ
  unfolding entries_between
  get_job_ids_in_state JobState.wait start stop s =
      values_between E.maps s.waiting.entries (unwrap_or start 0) stop
  get_job_ids_in_state JobState.prioritized start stop s =
      values_between E.maps s.prioritized (unwrap_or start 0) stop
  get_job_ids_in_state JobState.stalled start stop s =
      map (λ e. e.0) (entries_between E.maps s.stalled (unwrap_or start 0) stop)
  get_job_ids_in_state JobState.active start stop s =
      values_between E.maps s.active.entries (unwrap_or start 0) stop
  get_job_ids_in_state JobState.paused start stop s =
      values_between E.maps s.paused.entries (unwrap_or start 0) stop
  get_job_ids_in_state JobState.completed start stop s =
      values_between E.maps s.completed (unwrap_or start 0) stop
  get_job_ids_in_state JobState.failed start stop s =
      values_between E.maps s.failed (unwrap_or start 0) stop
  get_job_ids_in_state JobState.delayed start stop s =
      values_between E.maps s.delayed (unwrap_or start 0) stop
  get_job_ids_in_state _ start stop s = []
