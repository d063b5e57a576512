-- ===== src/Rocks/Alike/Delayed.antt =====
-- stores/rocksdb_store.rs beside stores/inmemory_store.rs: the due jobs.
use mathlib.Core.Option
use kiomq.Prelude.{
  ℕ, ◌-◌, ◌<◌, ◌≤◌, ◌≡◌, refl, ap, sym, ◌∙◌, subst, Bool, true, false, not, ◌&&◌, ◌||◌, some, List,
  [], ◌∷◌, ◌++◌, ◌==◌, ltb, leb, map, filter, arith,
}
use kiomq.Words.{u64_size, wrapping_sub}
use kiomq.Env.{Env}
use kiomq.ColumnFamily.{ColumnFamily}
use kiomq.Deque.{iter}
use kiomq.SkipMap.Listed.{listed}
use kiomq.SkipMap.Sorted.{IsSorted, erase}
use kiomq.SkipMap.Sweep.{sweep, iter-sweep_all}
use kiomq.Suffix.{CollectionSuffix, tag, discriminant}
use kiomq.Result.{ok}
use kiomq.Store.{Store}
use kiomq.Store.Items as Memory
use kiomq.Store.Delayed.{filter_cong, filter-filter, get_delayed_at-splits}
use kiomq.Rocks.{RocksDbStore, array, object, fetch, put}
use kiomq.Rocks.Records.{fetch-put_same, fetch-put_other}
use kiomq.Rocks.Items.{erase_all}
use kiomq.Rocks.Items as Disk
use kiomq.Rocks.Alike.{IsAlike}

erase_all-append : (xs ys m : List (ℕ × ℕ)) → erase_all (xs ++ ys) m ≡ erase_all ys (erase_all xs m)
erase_all-append [] ys m = refl
erase_all-append (x ∷ xs) ys m = erase_all-append xs ys (erase x.0 m)

-- Erasing keys one by one is the sweep of an ordered map that is its own list.
erase_all-sweep :
    (es : List (ℕ × ℕ)) (m : listed.Map ℕ) → erase_all es m.0 ≡ (sweep listed (λ _. true) m es).0
unfolding sweep
erase_all-sweep [] m = refl
erase_all-sweep (e ∷ es) m = erase_all-sweep es (listed.remove m e.0).1

erased :
    (p : ℕ → Bool) (m : List (ℕ × ℕ))
    → IsSorted m
    → erase_all (filter (λ e. p e.0) m) m ≡ filter (λ e. not (p e.0)) m
erased p m s =
    erase_all-sweep (filter (λ e. p e.0) m) (m, s) ∙ iter-sweep_all listed (λ e. p e.0) (m, s)

filtered-IsSorted :
    (p : ℕ → Bool) (m : List (ℕ × ℕ)) → IsSorted m → IsSorted (filter (λ e. not (p e.0)) m)
filtered-IsSorted p m s =
    subst IsSorted (iter-sweep_all listed (λ e. p e.0) (m, s))
      (sweep listed (λ _. true) (m, s) (filter (λ e. p e.0) m)).1

module _ (start stop : ℕ) where
  abbrev due : ℕ → Bool
  due k = leb start k && ltb k stop

  abbrev missed : ℕ → Bool
  missed k = ltb k (wrapping_sub start 1)

  erased_both :
      (m : List (ℕ × ℕ))
      → 0 < start
      → start < u64_size
      → start ≤ stop
      → IsSorted m
      → erase_all (filter (λ e. due e.0) m ++ filter (λ e. missed e.0) m) m
        ≡ filter (λ e. leb stop e.0 || (e.0 == start - 1)) m
  erased_both m pos fits h s =
      let rest = filter (λ e. not (due e.0)) m in
      let same =
        filter-filter (λ e. missed e.0) (λ e. not (due e.0)) m
        ∙ filter_cong _ (λ e. missed e.0) (λ a. ground arith) m in
      erase_all-append (filter (λ e. due e.0) m) (filter (λ e. missed e.0) m) m
      ∙ ap (erase_all (filter (λ e. missed e.0) m)) (erased due m s)
      ∙ ap (λ es. erase_all es rest) (sym same)
      ∙ erased missed rest (filtered-IsSorted due m s)
      ∙ filter-filter (λ e. not (missed e.0)) (λ e. not (due e.0)) m
      ∙ filter_cong _ _ (λ a. ground arith) m

module _ {E : Env} where
  memory-frame :
      (start stop : ℕ) (s : Store E)
      → ((Memory.get_delayed_at start stop s).1.waiting ≡ s.waiting)
        × ((Memory.get_delayed_at start stop s).1.active ≡ s.active)
  unfolding Memory.get_delayed_at
  memory-frame start stop s = (refl, refl)

module _ {C : ColumnFamily} {E : Env} where
  disk-due :
      (start stop : ℕ) (m : List (ℕ × ℕ)) (r : RocksDbStore C E)
      → fetch CollectionSuffix.delayed r ≡ some (object m)
      → start ≤ stop
      → let jobs = filter (λ e. due start stop e.0) m in
        let late = filter (λ e. missed start stop e.0) m in
        Disk.get_delayed_at start stop r ≡ (
          ok (map (λ e. e.1) jobs, map (λ e. e.1) late),
          put CollectionSuffix.delayed (object (erase_all (jobs ++ late) m)) r,
        )
  unfolding Disk.get_delayed_at Option.bind
  disk-due start stop m r e h =
      let ordered : ltb stop start ≡ false = ground arith in
      rw (Disk.get_delayed_at, e, ordered) refl

  -- Between two moments `start ≤ stop`, with `start` above 0, a store in the database that holds
  -- the same jobs as one in memory hands out the same due jobs and the same missed jobs, in the
  -- same order, and the two hold the same jobs afterwards.
  pub get_delayed_at-same :
      (s : Store E) (r : RocksDbStore C E) (start stop : ℕ)
      → IsAlike s r
      → 0 < start
      → start < u64_size
      → start ≤ stop
      → ((Disk.get_delayed_at start stop r).0 ≡ ok (Memory.get_delayed_at start stop s).0)
        × IsAlike (Memory.get_delayed_at start stop s).1 (Disk.get_delayed_at start stop r).1
  unfolding tag discriminant Memory.get_delayed_at
  get_delayed_at-same s r start stop a pos fits h =
      let (jobs, late, left) = get_delayed_at-splits s start stop pos fits h in
      let all = E.maps.iter s.delayed in
      let before =
        filter_cong (λ e. missed start stop e.0) (λ e. ltb e.0 (start - 1)) (λ e. ground arith)
          all in
      let (same_waiting, same_active) = memory-frame start stop s in
      rw (disk-due start stop all r a.delayed h) (
        rw (jobs, late, before) refl,
        record {
          waiting =
              fetch-put_other CollectionSuffix.wait CollectionSuffix.delayed _ r refl
              ∙ a.waiting
              ∙ ap (λ d. some (array (iter d))) (sym same_waiting);
          active =
              fetch-put_other CollectionSuffix.active CollectionSuffix.delayed _ r refl
              ∙ a.active
              ∙ ap (λ d. some (array (iter d))) (sym same_active);
          delayed =
              fetch-put_same CollectionSuffix.delayed _ r
              ∙ ap (λ m. some (object m))
                  (erased_both start stop all pos fits h (E.maps.iter-IsSorted s.delayed)
                    ∙ sym left);
        },
      )
