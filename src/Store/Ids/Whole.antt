-- ===== src/Store/Ids/Whole.antt =====
-- stores/inmemory_store.rs: `get_job_ids_in_state` without bounds.
use kiomq.Prelude.{
  ℕ, ◌-◌, ◌≤◌, ◌≡◌, refl, ap, ◌∙◌, ◌&&◌, none, some, List, [], ◌∷◌, map, filter, length, get_elem?,
  leb, arith, split_last, subst,
}
use kiomq.Env.{Env}
use kiomq.SkipMap.{SkipMap}
use kiomq.SkipMap.Sorted.{Above, Above-mono, IsSorted, first?}
use kiomq.Deque.{iter}
use kiomq.Job.{JobState}
use kiomq.Store.{Store}
use kiomq.Store.Ids.{entries_between, between, get_job_ids_in_state}

module _ {V : Type 0} where
  get_elem_last :
      (e : ℕ × V) (m : List (ℕ × V)) → get_elem? (e ∷ m) (length m) ≡ some (split_last e m).1
  get_elem_last e [] = refl
  get_elem_last e (d ∷ m) = get_elem_last d m

  -- All keys are up to `b`.
  abbrev UpTo : ℕ → List (ℕ × V) → Type 0
  UpTo b [] = Unit {0}
  UpTo b ((k, v) ∷ m) = (k ≤ b) × UpTo b m

  UpTo-last : (e : ℕ × V) (m : List (ℕ × V)) → Above e.0 m → UpTo (split_last e m).1.0 (e ∷ m)
  UpTo-last (k, v) [] s = (omega arith, tt)
  UpTo-last (k, v) ((j, w) ∷ m) s =
      let rest = UpTo-last (j, w) m s.1 in (omega (arith, s.0, rest.0), rest)

  filter_all :
      (a b : ℕ) (m : List (ℕ × V))
      → Above a m
      → UpTo b m
      → filter (λ e. leb a e.0 && leb e.0 b) m ≡ m
  filter_all a b [] s t = refl
  filter_all a b ((k, v) ∷ m) s t =
      ground (arith, s.0, t.0, filter_all a b m (Above-mono a k m (omega (arith, s.0)) s.1) t.1)

module _ (S : SkipMap) {V : Type 0} where
  opened :
      (m : S.Map V) (x : ℕ × V)
      → S.front m ≡ some x
      → entries_between S m 0 none
        ≡ between S m (get_elem? (S.iter m) 0) (get_elem? (S.iter m) (length (S.iter m) - 1))
  unfolding entries_between
  opened m x e = rw (e, entries_between) refl

  last_at :
      (e : ℕ × V) (l : List (ℕ × V))
      → get_elem? (e ∷ l) (length (e ∷ l) - 1) ≡ some (split_last e l).1
  last_at e l =
      let n : length (e ∷ l) - 1 ≡ length l = omega arith in
      ap (get_elem? (e ∷ l)) n ∙ get_elem_last e l

  -- Without bounds, every entry.
  pub entries_whole :
      (m : S.Map V) (l : List (ℕ × V)) → S.iter m ≡ l → entries_between S m 0 none ≡ l
  unfolding entries_between between
  entries_whole m [] e = rw (S.front-first? m, e, entries_between) refl
  entries_whole m ((k, v) ∷ l) e =
      let sorted = subst IsSorted e (S.iter-IsSorted m) in
      let b = (split_last (k, v) l).1.0 in
      opened m (k, v) (S.front-first? m ∙ ap first? e)
      ∙ ap (λ n. between S m (get_elem? n 0) (get_elem? n (length n - 1))) e
      ∙ ap (λ o. between S m (some (k, v)) o) (last_at (k, v) l)
      ∙ S.range-filter m (λ j. leb k j && leb j b)
      ∙ ap (filter (λ d. leb k d.0 && leb d.0 b)) e
      ∙ ground (
        arith,
        (UpTo-last (k, v) l sorted).0,
        filter_all k b l sorted (UpTo-last (k, v) l sorted).1,
      )

module _ {E : Env} where
  -- Without bounds, the ids of a state are all ids of the collection for it: of a list from front to
  -- back, of a sorted set by their scores, and of the stalled set in their own order.
  pub get_job_ids_in_state-whole :
      (s : Store E)
      → (get_job_ids_in_state JobState.wait none none s ≡ iter s.waiting)
        × (get_job_ids_in_state JobState.active none none s ≡ iter s.active)
        × (get_job_ids_in_state JobState.paused none none s ≡ iter s.paused)
        × (get_job_ids_in_state JobState.stalled none none s
            ≡ map (λ e. e.0) (E.maps.iter s.stalled))
        × (get_job_ids_in_state JobState.prioritized none none s
            ≡ map (λ e. e.1) (E.maps.iter s.prioritized))
        × (get_job_ids_in_state JobState.delayed none none s
            ≡ map (λ e. e.1) (E.maps.iter s.delayed))
        × (get_job_ids_in_state JobState.completed none none s
            ≡ map (λ e. e.1) (E.maps.iter s.completed))
        × (get_job_ids_in_state JobState.failed none none s ≡ map (λ e. e.1) (E.maps.iter s.failed))
  unfolding get_job_ids_in_state iter
  get_job_ids_in_state-whole s =
      let values =
        λ (m : E.maps.Map ℕ). ap (map (λ e. e.1)) (entries_whole E.maps m (E.maps.iter m) refl) in
      (
        values s.waiting.entries,
        values s.active.entries,
        values s.paused.entries,
        ap (map (λ e. e.0)) (entries_whole E.maps s.stalled (E.maps.iter s.stalled) refl),
        values s.prioritized,
        values s.delayed,
        values s.completed,
        values s.failed,
      )
