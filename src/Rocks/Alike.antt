-- ===== src/Rocks/Alike.antt =====
-- stores/rocksdb_store.rs beside stores/inmemory_store.rs: a trace of calls on the lists of ids and
-- on the delayed jobs, made to both stores.
pub mod Traces
pub mod Delayed
use mathlib.Core.Option
use kiomq.Prelude.{
  ℕ, ◌+◌, ◌<◌, ◌≤◌, ◌≡◌, refl, ap, sym, subst, ◌∙◌, Bool, true, false, Option, none, some, List, [],
  ◌∷◌, ◌++◌, ◌==◌, if◌then◌else◌, Bool-cases, inl, inr, length, arith, zero, suc, unwrap_or,
}
use kiomq.Env.{Env}
use kiomq.SkipMap.{SkipMap}
use kiomq.ColumnFamily.{ColumnFamily}
use kiomq.Deque.{Deque, iter, push_front, push_back, pop_back}
use kiomq.Deque.Refine.{
  IsDeque, lasts, iter-push_front, iter-push_back, pop_back_lem, pop_back-IsDeque,
  push_front-IsDeque, push_back-IsDeque, Room,
}
use kiomq.Suffix.{CollectionSuffix, tag, discriminant}
use kiomq.Store.{Store}
use kiomq.Store.Items as Memory
use kiomq.Store.Items.Removal.{but, remove_item-lists}
use kiomq.Rocks.{RocksDbStore, Value, array, object, put, fetch, is_job}
use kiomq.Rocks.Records.{fetch-put_same, fetch-put_other}
use kiomq.Rocks.Items as Disk

-- A job enters at one end of the waiting list, or among the delayed ones under its moment; the
-- oldest waiting job is taken; a job leaves the active list.
pub data Call : Type 0 where
  enter : ℕ → Bool → Call
  postpone : ℕ → ℕ → Call
  claim : Call
  leave : ℕ → Call

abbrev pub run : {S : Type 0} → (Call → S → Option ℕ × S) → List Call → S → List (Option ℕ) × S
run step [] s = ([], s)
run step (c ∷ cs) s =
    let (out, s') = step c s in let (outs, s'') = run step cs s' in (out ∷ outs, s'')

module _ {E : Env} where
  -- What a call returns, and the state after it.
  abbrev pub memory : Call → Store E → Option ℕ × Store E
  memory (enter item append) s = (none, Memory.add_item CollectionSuffix.wait item none append s)
  memory (postpone item moment) s =
      (none, Memory.add_item CollectionSuffix.delayed item (some moment) false s)
  memory claim s = Memory.pop_back_push_front CollectionSuffix.wait CollectionSuffix.active s
  memory (leave item) s = (none, Memory.remove_item CollectionSuffix.active item s)

module _ {S : SkipMap} where
  iter-end :
      (append : Bool) (d : Deque S) (item : ℕ)
      → IsDeque d
      → iter (Memory.end_of append d item) ≡ (if append then item ∷ iter d else iter d ++ item ∷ [])
  iter-end true d item v = iter-push_front d item v
  iter-end false d item v = iter-push_back d item v

module _ {C : ColumnFamily} {E : Env} where
  -- The two stores hold the same waiting, active and delayed jobs.
  pub record IsAlike (s : Store E) (r : RocksDbStore C E) : Type 0 where
    pub waiting : fetch CollectionSuffix.wait r ≡ some (array (iter s.waiting))
    pub active : fetch CollectionSuffix.active r ≡ some (array (iter s.active))
    pub delayed : fetch CollectionSuffix.delayed r ≡ some (object (E.maps.iter s.delayed))

  abbrev pub disk : Call → RocksDbStore C E → Option ℕ × RocksDbStore C E
  disk (enter item append) r = (none, Disk.add_item CollectionSuffix.wait item none append r)
  disk (postpone item moment) r =
      (none, Disk.add_item CollectionSuffix.delayed item (some moment) false r)
  disk claim r = Disk.pop_back_push_front CollectionSuffix.wait CollectionSuffix.active r
  disk (leave item) r = (none, Disk.remove_item CollectionSuffix.active item r)

  pub enter-IsAlike :
      (item : ℕ) (append : Bool) (s : Store E) (r : RocksDbStore C E)
      → IsAlike s r
      → IsDeque s.waiting
      → IsAlike (memory (enter item append) s).1 (disk (enter item append) r).1
  unfolding Memory.add_item Disk.add_item Option.bind tag discriminant
  enter-IsAlike item append s r a v = record {
    waiting = rw a.waiting (
        fetch-put_same CollectionSuffix.wait _ r
        ∙ ap (λ l. some (array l)) (sym (iter-end append s.waiting item v)));
    active = fetch-put_other CollectionSuffix.active CollectionSuffix.wait _ r refl ∙ a.active;
    delayed = fetch-put_other CollectionSuffix.delayed CollectionSuffix.wait _ r refl ∙ a.delayed;
  }

  pub postpone-IsAlike :
      (item moment : ℕ) (s : Store E) (r : RocksDbStore C E)
      → IsAlike s r
      → IsAlike (memory (postpone item moment) s).1 (disk (postpone item moment) r).1
  unfolding Memory.add_item Memory.scored Disk.add_item Option.bind tag discriminant
  postpone-IsAlike item moment s r a = record {
    waiting = fetch-put_other CollectionSuffix.wait CollectionSuffix.delayed _ r refl ∙ a.waiting;
    active = fetch-put_other CollectionSuffix.active CollectionSuffix.delayed _ r refl ∙ a.active;
    delayed = rw a.delayed (
        fetch-put_same CollectionSuffix.delayed _ r
        ∙ ap (λ l. some (object l)) (sym (E.maps.iter-insert s.delayed moment item)));
  }

  disk-leave :
      (item : ℕ) (xs : List ℕ) (r : RocksDbStore C E)
      → fetch CollectionSuffix.active r ≡ some (array xs)
      → Disk.remove_item CollectionSuffix.active item r
        ≡ put CollectionSuffix.active (array (but item xs)) r
  unfolding Disk.remove_item Option.bind
  disk-leave item xs r e = rw (Disk.remove_item, e) refl

  pub leave-IsAlike :
      (item : ℕ) (s : Store E) (r : RocksDbStore C E)
      → IsAlike s r
      → IsAlike (memory (leave item) s).1 (disk (leave item) r).1
  unfolding Memory.remove_item tag discriminant
  leave-IsAlike item s r a = subst (IsAlike _) (sym (disk-leave item _ r a.active)) (record {
    waiting = fetch-put_other CollectionSuffix.wait CollectionSuffix.active _ r refl ∙ a.waiting;
    active =
        fetch-put_same CollectionSuffix.active _ r
        ∙ ap (λ l. some (array l)) (sym (remove_item-lists item s).0);
    delayed = fetch-put_other CollectionSuffix.delayed CollectionSuffix.active _ r refl ∙ a.delayed;
  })

  moved-IsAlike :
      (xs : List ℕ) (p : Option ℕ × Deque E.maps) (s : Store E) (r : RocksDbStore C E)
      → IsAlike s r
      → IsDeque s.active
      → p.0 ≡ (lasts xs).0
      → iter p.1 ≡ (lasts xs).1
      → iter s.waiting ≡ xs
      → let q =
          Disk.moved CollectionSuffix.wait CollectionSuffix.active (lasts xs) (iter s.active) r in
        ((Memory.moved p s).0 ≡ q.0) × IsAlike (Memory.moved p s).1 q.1
  unfolding Memory.moved Disk.moved tag discriminant
  moved-IsAlike [] (none, d) s r a v o rest w = (
    refl,
    record {
      waiting = a.waiting ∙ ap (λ l. some (array l)) (w ∙ sym rest);
      active = a.active;
      delayed = a.delayed;
    },
  )
  moved-IsAlike [] (some x, d) s r a v o rest w = ground (arith, o)
  moved-IsAlike (y ∷ ys) (none, d) s r a v o rest w = ground (arith, o)
  moved-IsAlike (y ∷ ys) (some x, d) s r a v o rest w = (
    o,
    record {
      waiting =
          fetch-put_other CollectionSuffix.wait CollectionSuffix.active _ _ refl
          ∙ fetch-put_same CollectionSuffix.wait _ r
          ∙ ap (λ l. some (array l)) (sym rest);
      active =
          fetch-put_same CollectionSuffix.active _ _
          ∙ ap (λ l. some (array l))
              (ap (λ z. unwrap_or z x ∷ iter s.active) (sym o)
                ∙ sym (iter-push_front s.active x v));
      delayed =
          fetch-put_other CollectionSuffix.delayed CollectionSuffix.active _ _ refl
          ∙ fetch-put_other CollectionSuffix.delayed CollectionSuffix.wait _ r refl
          ∙ a.delayed;
    },
  )

  pub claim-IsAlike :
      (s : Store E) (r : RocksDbStore C E)
      → IsAlike s r
      → IsDeque s.active
      → ((memory claim s).0 ≡ (disk claim r).0) × IsAlike (memory claim s).1 (disk claim r).1
  unfolding Memory.pop_back_push_front Disk.pop_back_push_front Option.bind
  claim-IsAlike s r a v =
      let (o, rest) = pop_back_lem s.waiting in
      rw (a.waiting, a.active)
        (moved-IsAlike (iter s.waiting) (pop_back s.waiting) s r a v o rest refl)
