-- ===== src/Store/Items.antt =====
-- stores/inmemory_store.rs: the operations on the collections of ids.
pub mod Removal
use kiomq.Prelude.{
  ℕ, ◌+◌, ◌-◌, Bool, true, false, not, ◌&&◌, ◌||◌, Option, none, some, List, [], ◌∷◌, ◌==◌, ltb,
  leb, if◌then◌else◌, map, any, is_some, zero, suc,
}
use kiomq.Words.{wrapping_sub}
use kiomq.Env.{Env}
use kiomq.SkipMap.{SkipMap}
use kiomq.SkipMap.Sweep.{sweep}
use kiomq.Deque.{Deque}
use kiomq.Deque
use kiomq.TimedMap
use kiomq.Suffix.{CollectionSuffix, tag}
use kiomq.Suffix
use kiomq.Store.{Store, Now}

module _ (S : SkipMap) where
  -- An insertion into one of the sorted sets, which does nothing without a score.
  unfoldable pub scored : S.Map ℕ → Option ℕ → ℕ → S.Map ℕ
  scored m none item = m
  scored m (some score) item = S.insert m score item

  abbrev pub holds : S.Map ℕ → ℕ → Bool
  holds m item = any (λ e. e.1 == item) (S.iter m)

  -- `map.iter().filter(value == item).for_each(remove)`.
  abbrev pub without : S.Map ℕ → ℕ → S.Map ℕ
  without m item = sweep S (λ e. e.1 == item) m (S.iter m)

  -- In the sorted sets the item is first looked for among the scores.
  abbrev pub without_scored : S.Map ℕ → ℕ → S.Map ℕ
  without_scored m item = if is_some (S.get m item) then (S.remove m item).1 else without m item

  -- `pop_front` and `pop_back` of a sorted set, with the score behind the id.
  unfoldable pub popped : S.Map ℕ → Bool → List (ℕ × ℕ) × S.Map ℕ
  popped m min = elim (if min then S.front m else S.back m) [
    | none ↦ ([], m)
    | some (score, id) ↦ ((id, score) ∷ [], (S.remove m score).1)
  ]

module _ {S : SkipMap} where
  -- `append` pushes at the front.
  abbrev pub end_of : Bool → Deque S → ℕ → Deque S
  end_of append d item = if append then Deque.push_front d item else Deque.push_back d item

  abbrev pub without_value : Deque S → ℕ → Deque S
  without_value d item = record d { entries = without S d.entries item }

  -- The loop of `pause`: `rounds` is more than the number of entries to move.
  unfoldable pub drain : ℕ → Deque S → Deque S → Deque S × Deque S
  drain zero src dst = (src, dst)
  drain (suc rounds) src dst = elim (Deque.pop_front src).0 [
    | none ↦ ((Deque.pop_front src).1, dst)
    | some entry ↦ drain rounds (Deque.pop_front src).1 (Deque.push_back dst entry)
  ]

module _ {E : Env} where
  unfoldable pub add_item : CollectionSuffix → ℕ → Option ℕ → Bool → Store E → Store E
  unfolding scored
  add_item CollectionSuffix.active item score append s = record s {
    active = end_of append s.active item;
  }
  add_item CollectionSuffix.wait item score append s = record s {
    waiting = end_of append s.waiting item;
  }
  add_item CollectionSuffix.paused item score append s = record s {
    paused = end_of append s.paused item;
  }
  add_item CollectionSuffix.completed item score append s = record s {
    completed = scored E.maps s.completed score item;
  }
  add_item CollectionSuffix.failed item score append s = record s {
    failed = scored E.maps s.failed score item;
  }
  add_item CollectionSuffix.prioritized item score append s = record s {
    prioritized = scored E.maps s.prioritized score item;
  }
  add_item CollectionSuffix.delayed item score append s = record s {
    delayed = scored E.maps s.delayed score item;
  }
  add_item CollectionSuffix.stalled item score append s = record s {
    stalled = E.maps.insert s.stalled item tt;
  }
  add_item _ item score append s = s

  -- The only pair of collections that is served.
  unfoldable pub moved : Option ℕ × Deque E.maps → Store E → Option ℕ × Store E
  moved (none, waiting) s = (none, record s { waiting = waiting })
  moved (some value, waiting) s =
      (some value, record s { waiting = waiting; active = Deque.push_front s.active value })

  unfoldable pub pop_back_push_front :
      CollectionSuffix → CollectionSuffix → Store E → Option ℕ × Store E
  unfolding moved
  pop_back_push_front CollectionSuffix.wait CollectionSuffix.active s =
      moved (Deque.pop_back s.waiting) s
  pop_back_push_front _ _ s = (none, s)

  unfoldable pub exists_in : CollectionSuffix → ℕ → Now E → Store E → Bool × Store E
  exists_in CollectionSuffix.active item now s = (Deque.contains_value s.active item, s)
  exists_in CollectionSuffix.wait item now s = (Deque.contains_value s.waiting item, s)
  exists_in CollectionSuffix.paused item now s = (Deque.contains_value s.paused item, s)
  exists_in CollectionSuffix.completed item now s = (holds E.maps s.completed item, s)
  exists_in CollectionSuffix.failed item now s = (holds E.maps s.failed item, s)
  exists_in CollectionSuffix.prioritized item now s = (holds E.maps s.prioritized item, s)
  exists_in CollectionSuffix.delayed item now s = (holds E.maps s.delayed item, s)
  exists_in CollectionSuffix.stalled item now s = (is_some (E.maps.get s.stalled item), s)
  exists_in (CollectionSuffix.job i) item now s =
      let (found, jobs) = TimedMap.contains_key s.jobs (tag (CollectionSuffix.job i)) now.instant in
      (found, record s { jobs = jobs })
  exists_in (CollectionSuffix.lock i) item now s =
      let (found, locks) =
        TimedMap.contains_key s.locks (tag (CollectionSuffix.lock i)) now.instant in
      (found, record s { locks = locks })
  exists_in CollectionSuffix.stalled_check item now s =
      let (found, locks) =
        TimedMap.contains_key s.locks (tag CollectionSuffix.stalled_check) now.instant in
      (found, record s { locks = locks })
  exists_in _ item now s = (false, s)

  unfoldable pub remove_item : CollectionSuffix → ℕ → Store E → Store E
  remove_item CollectionSuffix.active item s = record s { active = without_value s.active item }
  remove_item CollectionSuffix.wait item s = record s { waiting = without_value s.waiting item }
  remove_item CollectionSuffix.paused item s = record s { paused = without_value s.paused item }
  remove_item CollectionSuffix.completed item s = record s {
    completed = without_scored E.maps s.completed item;
  }
  remove_item CollectionSuffix.failed item s = record s {
    failed = without_scored E.maps s.failed item;
  }
  remove_item CollectionSuffix.prioritized item s = record s {
    prioritized = without_scored E.maps s.prioritized item;
  }
  remove_item CollectionSuffix.delayed item s = record s {
    delayed = without_scored E.maps s.delayed item;
  }
  remove_item CollectionSuffix.stalled item s = record s {
    stalled = (E.maps.remove s.stalled item).1;
  }
  remove_item (CollectionSuffix.job i) item s = record s {
    jobs = TimedMap.remove s.jobs (tag (CollectionSuffix.job i));
  }
  remove_item (CollectionSuffix.lock i) item s = record s {
    locks = TimedMap.remove s.locks (tag (CollectionSuffix.lock i));
  }
  remove_item _ item s = s

  unfoldable pub remove : CollectionSuffix → Store E → Store E
  remove CollectionSuffix.active s = record s { active = Deque.clear s.active }
  remove CollectionSuffix.completed s = record s { active = Deque.clear s.active }
  remove CollectionSuffix.delayed s = record s { delayed = E.maps.clear s.delayed }
  remove CollectionSuffix.stalled s = record s { stalled = E.maps.clear s.stalled }
  remove CollectionSuffix.prioritized s = record s { prioritized = E.maps.clear s.prioritized }
  remove CollectionSuffix.wait s = record s { waiting = Deque.clear s.waiting }
  remove CollectionSuffix.paused s = record s { paused = Deque.clear s.paused }
  remove CollectionSuffix.failed s = record s { failed = E.maps.clear s.failed }
  remove (CollectionSuffix.job i) s = record s {
    jobs = TimedMap.remove s.jobs (tag (CollectionSuffix.job i));
  }
  remove (CollectionSuffix.lock i) s = record s {
    locks = TimedMap.remove s.locks (tag (CollectionSuffix.lock i));
  }
  remove CollectionSuffix.stalled_check s = record s {
    locks = TimedMap.remove s.locks (tag CollectionSuffix.stalled_check);
  }
  remove _ s = s

  unfoldable pub clear_collections : Store E → Store E
  clear_collections s = record s {
    completed = E.maps.clear s.completed;
    failed = E.maps.clear s.failed;
    delayed = E.maps.clear s.delayed;
    prioritized = E.maps.clear s.prioritized;
    stalled = E.maps.clear s.stalled;
    waiting = Deque.clear s.waiting;
    paused = Deque.clear s.paused;
    active = Deque.clear s.active;
  }

  unfoldable pub pop_set : CollectionSuffix → Bool → Store E → List (ℕ × ℕ) × Store E
  unfolding popped
  pop_set CollectionSuffix.completed min s = (
    (popped E.maps s.completed min).0,
    record s { completed = (popped E.maps s.completed min).1 },
  )
  pop_set CollectionSuffix.delayed min s =
      ((popped E.maps s.delayed min).0, record s { delayed = (popped E.maps s.delayed min).1 })
  pop_set CollectionSuffix.failed min s =
      ((popped E.maps s.failed min).0, record s { failed = (popped E.maps s.failed min).1 })
  pop_set CollectionSuffix.prioritized min s = (
    (popped E.maps s.prioritized min).0,
    record s { prioritized = (popped E.maps s.prioritized min).1 },
  )
  pop_set _ min s = ([], s)

  -- The due jobs, then the missed ones; both are taken out of the set. The bounds are `u64`s.
  unfoldable pub get_delayed_at : ℕ → ℕ → Store E → (List ℕ × List ℕ) × Store E
  get_delayed_at start stop s =
      let before = wrapping_sub start 1 in
      let due = E.maps.range s.delayed (λ k. leb start k && ltb k stop) in
      let rest = sweep E.maps (λ _. true) s.delayed due in
      let missed = E.maps.range rest (λ k. ltb k before) in
      (
        (map (λ e. e.1) due, map (λ e. e.1) missed),
        record s { delayed = sweep E.maps (λ _. true) rest missed },
      )

  unfoldable pub pause : Bool → Store E → Store E
  unfolding drain
  pause true s =
      let (waiting, paused) = drain (suc (Deque.len s.waiting)) s.waiting s.paused in
      record s { waiting = waiting; paused = paused; is_paused = true }
  pause false s =
      let (paused, waiting) = drain (suc (Deque.len s.paused)) s.paused s.waiting in
      record s { waiting = waiting; paused = paused; is_paused = false }
