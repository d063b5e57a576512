-- ===== src/Rocks/Alike/Traces.antt =====
-- stores/rocksdb_store.rs beside stores/inmemory_store.rs: whole traces of calls, from new stores.
use kiomq.Prelude.{
  ℕ, ◌<◌, ◌≤◌, ◌≡◌, refl, Bool, true, false, Option, none, some, List, [], ◌∷◌, String, length,
  arith, suc, ◌==◌,
}
use kiomq.Words.{i64_max}
use kiomq.Env.{Env}
use kiomq.ColumnFamily.{ColumnFamily}
use kiomq.SkipMap.{SkipMap}
use kiomq.Deque.{Deque, pop_back}
use kiomq.Deque.Refine.{IsDeque, Room, new-IsDeque, new-Room, iter-new}
use kiomq.Deque.Traces.{apply, apply-IsDeque, apply-Room}
use kiomq.Deque.Traces
use kiomq.Suffix.{tag, discriminant}
use kiomq.Store.{Store, new}
use kiomq.Store.Items as Memory
use kiomq.Store.Invariant.{swept-IsDeque}
use kiomq.Rocks.{RocksDbStore, fetch, initial_collections}
use kiomq.Rocks.Alike.{
  Call, enter, postpone, claim, leave, memory, disk, run, IsAlike, enter-IsAlike, postpone-IsAlike,
  leave-IsAlike, claim-IsAlike,
}

module _ {S : SkipMap} where
  -- A well-formed deque with room for `k` more pushes.
  abbrev Ready : ℕ → Deque S → Type 0
  Ready k d = IsDeque d × Room k d

  apply-Ready :
      (k : ℕ) (o : Traces.Op) (d : Deque S) → k < i64_max → Ready (suc k) d → Ready k (apply o d).1
  apply-Ready k o d h (v, r) = (apply-IsDeque k o d h r v, apply-Room k o d h r v)

  end-Ready :
      (k : ℕ) (append : Bool) (d : Deque S) (item : ℕ)
      → k < i64_max
      → Ready (suc k) d
      → Ready k (Memory.end_of append d item)
  unfolding apply
  end-Ready k true d item h v = apply-Ready k (Traces.push_front item) d h v
  end-Ready k false d item h v = apply-Ready k (Traces.push_back item) d h v

  fewer-Ready : (k : ℕ) (d : Deque S) → Ready (suc k) d → Ready k d
  fewer-Ready k d (v, r) = (v, omega (arith, r))

  swept-Ready : (k item : ℕ) (d : Deque S) → Ready (suc k) d → Ready k (Memory.without_value d item)
  swept-Ready k item d (v, r) = (swept-IsDeque (λ e. e.1 == item) d v, omega (arith, r))

module _ {E : Env} where
  abbrev BothReady : ℕ → Store E → Type 0
  BothReady k s = Ready k s.waiting × Ready k s.active

  moved-BothReady :
      (k : ℕ) (p : Option ℕ × Deque E.maps) (s : Store E)
      → k < i64_max
      → Ready k p.1
      → Ready (suc k) s.active
      → BothReady k (Memory.moved p s).1
  unfolding Memory.moved apply
  moved-BothReady k (none, d) s h v w = (v, fewer-Ready k s.active w)
  moved-BothReady k (some x, d) s h v w = (v, apply-Ready k (Traces.push_front x) s.active h w)

  memory-BothReady :
      (k : ℕ) (c : Call) (s : Store E)
      → k < i64_max
      → BothReady (suc k) s
      → BothReady k (memory c s).1
  unfolding Memory.add_item Memory.remove_item Memory.pop_back_push_front apply
  memory-BothReady k (enter item append) s h (v, w) =
      (end-Ready k append s.waiting item h v, fewer-Ready k s.active w)
  memory-BothReady k (postpone item moment) s h (v, w) =
      (fewer-Ready k s.waiting v, fewer-Ready k s.active w)
  memory-BothReady k claim s h (v, w) =
      moved-BothReady k (pop_back s.waiting) s h (apply-Ready k Traces.pop_back s.waiting h v) w
  memory-BothReady k (leave item) s h (v, w) =
      (fewer-Ready k s.waiting v, swept-Ready k item s.active w)

module _ {C : ColumnFamily} {E : Env} where
  step-IsAlike :
      (c : Call) (s : Store E) (r : RocksDbStore C E)
      → IsAlike s r
      → IsDeque s.waiting
      → IsDeque s.active
      → ((memory c s).0 ≡ (disk c r).0) × IsAlike (memory c s).1 (disk c r).1
  step-IsAlike (enter item append) s r a v w = (refl, enter-IsAlike item append s r a v)
  step-IsAlike (postpone item moment) s r a v w = (refl, postpone-IsAlike item moment s r a)
  step-IsAlike claim s r a v w = claim-IsAlike s r a w
  step-IsAlike (leave item) s r a v w = (refl, leave-IsAlike item s r a)

  run-IsAlike :
      (cs : List Call) (s : Store E) (r : RocksDbStore C E)
      → length cs ≤ i64_max
      → IsAlike s r
      → BothReady (length cs) s
      → ((run memory cs s).0 ≡ (run disk cs r).0) × IsAlike (run memory cs s).1 (run disk cs r).1
  run-IsAlike [] s r h a v = (refl, a)
  run-IsAlike (c ∷ cs) s r h a v =
      let (out, next) = step-IsAlike c s r a v.0.0 v.1.0 in
      let (outs, end) =
        run-IsAlike cs (memory c s).1 (disk c r).1 (omega (arith, h)) next
          (memory-BothReady (length cs) c s (omega (arith, h)) v) in
      (rw (out, outs) refl, end)

  initial_collections-IsAlike :
      (prefix : Option String) (name : String)
      → IsAlike (new prefix name) (initial_collections {C = C} {E = E} prefix name)
  unfolding new initial_collections fetch tag discriminant
  initial_collections-IsAlike prefix name = record {
    waiting = simp (C.get-put, iter-new E.maps);
    active = simp (C.get-put, iter-new E.maps);
    delayed = simp (C.get-put, E.maps.iter-new);
  }

  -- Two new stores, one in memory and one in the database, that get the same fewer than 2^63 - 1
  -- calls, where a job enters at either end of the waiting list or among the delayed jobs, the
  -- oldest waiting job is taken, or a job leaves the active list, return the same ids in every
  -- call, and hold the same waiting, active and delayed jobs in the same order in the end.
  pub run-fresh :
      (cs : List Call) (prefix : Option String) (name : String)
      → length cs < i64_max
      → ((run (memory {E = E}) cs (new prefix name)).0
          ≡ (run disk cs (initial_collections {C = C} {E = E} prefix name)).0)
        × IsAlike
            (run (memory {E = E}) cs (new prefix name)).1
            (run disk cs (initial_collections {C = C} prefix name)).1
  unfolding new
  run-fresh cs prefix name h =
      run-IsAlike cs (new prefix name) (initial_collections prefix name) (omega (arith, h))
        (initial_collections-IsAlike prefix name)
        (
          (new-IsDeque E.maps, new-Room E.maps (length cs) h),
          (new-IsDeque E.maps, new-Room E.maps (length cs) h),
        )
