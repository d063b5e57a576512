-- ===== src/Rocks/Lost.antt =====
-- stores/rocksdb_store.rs: what clearing, removal, pausing and the stalled set leave behind.
use mathlib.Core.Option
use kiomq.Prelude.{
  ℕ, ◌≡◌, refl, sym, ◌∙◌, true, false, Bool, Option, none, some, ◌==◌, ==-refl, if◌then◌else◌,
  Option-cases, Bool-cases, inl, inr, is_some,
}
use kiomq.Env.{Env}
use kiomq.ColumnFamily.{ColumnFamily}
use kiomq.SkipMap.Lookups.{get-insert}
use kiomq.SkipMap.{SkipMap}
use kiomq.TimedMap.{TimedMap, insert_expirable, insert_constant}
use kiomq.Job.{JobState, JobToken}
use kiomq.Suffix.{CollectionSuffix, tag, discriminant, from_state}
use kiomq.Rocks.{RocksDbStore, Value, put, fetch, get_meta, is_job}
use kiomq.Rocks.Records.{fetch-put_same, fetch-put_other}
use kiomq.Rocks.Items.{
  add_item, exists_in, exists_elsewhere, pause, renamed, flagged, get_job_ids_in_state,
}
use kiomq.Rocks.Jobs.{get_token, set_lock}

itself : {A : Type 0} (a : Option A) (k : ℕ) → (if k == k then none else a) ≡ none
itself a k = rw (==-refl k)

-- An entry that was just inserted is in the map.
inserted :
    {V : Type 0} (S : SkipMap) (m : TimedMap S V) (k : ℕ) (v : V) (timeout now : ℕ)
    → is_some (S.get (insert_expirable m k v timeout now).inner k) ≡ true
unfolding insert_constant insert_expirable
inserted S m k v timeout now = elim (Bool-cases m.disable_expiration) [
  | inl e ↦ rw (insert_expirable, e, get-insert S, ==-refl k) refl
  | inr e ↦ rw (insert_expirable, e, get-insert S, ==-refl k) refl
]

module _ {C : ColumnFamily} {E : Env} where
  -- Whatever enters the stalled set, the ids in the state `stalled` are those that were there.
  pub get_job_ids_in_state-stalled :
      (item : ℕ) (score : Option ℕ) (append : Bool) (start stop : Option ℕ) (r : RocksDbStore C E)
      → get_job_ids_in_state JobState.stalled start stop
          (add_item CollectionSuffix.stalled item score append r)
        ≡ get_job_ids_in_state JobState.stalled start stop r
  unfolding get_job_ids_in_state add_item tag discriminant from_state
  get_job_ids_in_state-stalled item score append start stop r =
      rw
        (
          get_job_ids_in_state,
          add_item,
          fetch-put_other CollectionSuffix.paused CollectionSuffix.stalled _ r refl,
        )
        refl

  fetch-flagged :
      (paused : Bool) (col : CollectionSuffix) (r : RocksDbStore C E)
      → is_job col ≡ false
      → (tag col == tag CollectionSuffix.meta) ≡ false
      → fetch col (flagged paused r) ≡ fetch col r
  unfolding fetch flagged tag
  fetch-flagged paused col r j h = elim (Option-cases (get_meta r)) [
    | inl e ↦ rw (flagged, e) refl
    | inr (m, e) ↦ rw (flagged, e, fetch, j, C.get-put, h) refl
  ]

  fetch-main :
      (col : CollectionSuffix) (r : RocksDbStore C E)
      → is_job col ≡ false
      → fetch col r ≡ C.get r.main_tree (tag col)
  unfolding fetch
  fetch-main col r j = rw (fetch, j) refl

  renamed_lem :
      (src dst : CollectionSuffix) (v w : Value E) (r : RocksDbStore C E)
      → is_job src ≡ false
      → fetch src r ≡ some v
      → fetch CollectionSuffix.paused r ≡ some w
      → renamed src dst r ≡ put dst v (record r { main_tree = C.delete r.main_tree (tag src) })
  unfolding renamed
  renamed_lem src dst v w r i e p =
      let here = sym (fetch-main src r i) ∙ e in
      let there = sym (fetch-main CollectionSuffix.paused r refl) ∙ p in
      rw (renamed, C.may_exist-get r.main_tree (tag CollectionSuffix.paused) w there, here) refl

  fetch-renamed :
      (src dst : CollectionSuffix) (v w : Value E) (r : RocksDbStore C E)
      → is_job src ≡ false
      → (tag src == tag dst) ≡ false
      → fetch src r ≡ some v
      → fetch CollectionSuffix.paused r ≡ some w
      → (fetch dst (renamed src dst r) ≡ some v) × (fetch src (renamed src dst r) ≡ none)
  fetch-renamed src dst v w r i h e p =
      let r' = record r { main_tree = C.delete r.main_tree (tag src) } in
      let gone = C.get-delete r.main_tree (tag src) (tag src) in
      rw (renamed_lem src dst v w r i e p) (
        fetch-put_same dst v r',
        fetch-put_other src dst v r' h ∙ fetch-main src r' i ∙ gone ∙ itself _ (tag src),
      )

  -- When both the waiting and the paused list have a record, pausing puts the waiting list in the
  -- place of the paused one, and resuming puts the paused list in the place of the waiting one:
  -- what stood there is lost, and the list that moved has no record any more.
  pub pause-replaces :
      (v w : Value E) (r : RocksDbStore C E)
      → fetch CollectionSuffix.wait r ≡ some v
      → fetch CollectionSuffix.paused r ≡ some w
      → (fetch CollectionSuffix.paused (pause true r) ≡ some v)
        × (fetch CollectionSuffix.wait (pause true r) ≡ none)
        × (fetch CollectionSuffix.wait (pause false r) ≡ some w)
        × (fetch CollectionSuffix.paused (pause false r) ≡ none)
  unfolding pause tag discriminant
  pause-replaces v w r e p =
      let away = renamed CollectionSuffix.wait CollectionSuffix.paused r in
      let back = renamed CollectionSuffix.paused CollectionSuffix.wait r in
      let (a, b) =
        fetch-renamed CollectionSuffix.wait CollectionSuffix.paused v w r refl refl e p in
      let (c, d) =
        fetch-renamed CollectionSuffix.paused CollectionSuffix.wait w w r refl refl p p in
      (
        fetch-flagged true CollectionSuffix.paused away refl refl ∙ a,
        fetch-flagged true CollectionSuffix.wait away refl refl ∙ b,
        fetch-flagged false CollectionSuffix.wait back refl refl ∙ c,
        fetch-flagged false CollectionSuffix.paused back refl refl ∙ d,
      )

  -- A lock that is set is there, but no token is read back for it, from a store without a record
  -- of the lock.
  pub get_token-set_lock :
      (id duration instant : ℕ) (t : JobToken) (r : RocksDbStore C E)
      → fetch (CollectionSuffix.lock id) r ≡ none
      → (exists_in
            (CollectionSuffix.lock id)
            0
            (set_lock (CollectionSuffix.lock id) (some t) duration instant r)
          ≡ true)
        × (get_token id (set_lock (CollectionSuffix.lock id) (some t) duration instant r) ≡ none)
  unfolding set_lock get_token exists_in exists_elsewhere Option.bind fetch
  get_token-set_lock id duration instant t r e = (
    inserted E.maps r.locks (tag (CollectionSuffix.lock id)) _ duration instant,
    rw (get_token, e) refl,
  )
