-- ===== src/Rocks/Insert/Submitted.antt =====
-- stores/rocksdb_store.rs: what `submit_changes` writes.
use mathlib.Core.Option
use kiomq.Prelude.{ℕ, ◌≡◌, refl, ap, ◌∙◌, false, some, List, [], ◌∷◌, ◌++◌, ◌==◌, All}
use kiomq.Env.{Env}
use kiomq.ColumnFamily.{ColumnFamily}
use kiomq.Job.{Job}
use kiomq.Suffix.{CollectionSuffix, tag, discriminant}
use kiomq.Rocks.{RocksDbStore, Value, array, object, job, put, fetch, is_job}
use kiomq.Rocks.Records.{fetch-put_same, fetch-put_other}
use kiomq.Rocks.Insert.{Batch, extend, written, commit, submit_changes}

module _ {E : Env} where
  -- No entry has the key of the job.
  abbrev pub Without : ℕ → List (ℕ × Job E) → Type 0
  Without id = All (λ e. (tag (CollectionSuffix.job id) == tag (CollectionSuffix.job e.0)) ≡ false)

module _ {C : ColumnFamily} {E : Env} where
  fetch-written_main :
      (col : CollectionSuffix) (es : List (ℕ × Job E)) (r : RocksDbStore C E)
      → is_job col ≡ false
      → fetch col (written es r) ≡ fetch col r
  unfolding written fetch put
  fetch-written_main col [] r j = refl
  fetch-written_main col ((id, k) ∷ es) r j =
      fetch-written_main col es (put (CollectionSuffix.job id) (job k) r) j ∙ rw (fetch, j) refl

  fetch-written_other :
      (id : ℕ) (es : List (ℕ × Job E)) (r : RocksDbStore C E)
      → Without id es
      → fetch (CollectionSuffix.job id) (written es r) ≡ fetch (CollectionSuffix.job id) r
  unfolding written
  fetch-written_other id [] r h = refl
  fetch-written_other id ((i, k) ∷ es) r h =
      fetch-written_other id es (put (CollectionSuffix.job i) (job k) r) h.1
      ∙ fetch-put_other (CollectionSuffix.job id) (CollectionSuffix.job i) _ r h.0

  fetch-written :
      (before after : List (ℕ × Job E)) (id : ℕ) (j : Job E) (r : RocksDbStore C E)
      → Without id after
      → fetch (CollectionSuffix.job id) (written (before ++ (id, j) ∷ after) r) ≡ some (job j)
  unfolding written
  fetch-written [] after id j r h =
      fetch-written_other id after (put (CollectionSuffix.job id) (job j) r) h
      ∙ fetch-put_same (CollectionSuffix.job id) (job j) r
  fetch-written ((i, k) ∷ before) after id j r h =
      fetch-written before after id j (put (CollectionSuffix.job i) (job k) r) h

  fetch-commit :
      (col : CollectionSuffix) (r : RocksDbStore C E)
      → is_job col ≡ false
      → fetch col (commit r) ≡ fetch col r
  unfolding commit fetch
  fetch-commit col r j = fetch-written_main col r.job_batch (record r { job_batch = [] }) j

  fetch_job-put :
      (id : ℕ) (col : CollectionSuffix) (v : Value E) (r : RocksDbStore C E)
      → is_job col ≡ false
      → fetch (CollectionSuffix.job id) (put col v r) ≡ fetch (CollectionSuffix.job id) r
  unfolding fetch put
  fetch_job-put id col v r j = rw (put, j) refl

  submitted :
      (b : Batch) (xs : List ℕ) (ds ps : List (ℕ × ℕ)) (r : RocksDbStore C E)
      → fetch CollectionSuffix.wait r ≡ some (array xs)
      → fetch CollectionSuffix.delayed r ≡ some (object ds)
      → fetch CollectionSuffix.prioritized r ≡ some (object ps)
      → submit_changes false b r
        ≡ put CollectionSuffix.prioritized (object (extend ps b.priorized)) (
            put CollectionSuffix.delayed
              (object (extend ds b.delayed))
              (put CollectionSuffix.wait (array (b.list ++ xs)) (commit r)))
  unfolding submit_changes Option.bind
  submitted b xs ds ps r w d p = rw (submit_changes, w, d, p) refl

  -- A record that is none of the three that are put.
  beside :
      (col : CollectionSuffix) (u v w : Value E) (r : RocksDbStore C E)
      → is_job col ≡ false
      → (tag col == tag CollectionSuffix.prioritized) ≡ false
      → (tag col == tag CollectionSuffix.delayed) ≡ false
      → (tag col == tag CollectionSuffix.wait) ≡ false
      → fetch col (
          put CollectionSuffix.prioritized u
            (put CollectionSuffix.delayed v (put CollectionSuffix.wait w (commit r))))
        ≡ fetch col r
  beside col u v w r j a b c =
      fetch-put_other col CollectionSuffix.prioritized u _ a
      ∙ fetch-put_other col CollectionSuffix.delayed v _ b
      ∙ fetch-put_other col CollectionSuffix.wait w _ c
      ∙ fetch-commit col r j

  -- Writing a batch to a store whose waiting, delayed and prioritized jobs have records, while it is
  -- not paused: the new ids stand before those that wait, the delayed and the prioritized jobs are
  -- extended by the new ones, the paused and the active list stay, and the record of each job of the
  -- batch can be fetched, if no later one of the batch has its key.
  pub submit_changes-writes :
      (b : Batch) (xs : List ℕ) (ds ps : List (ℕ × ℕ)) (r : RocksDbStore C E)
      (before after : List (ℕ × Job E)) (id : ℕ) (j : Job E)
      → fetch CollectionSuffix.wait r ≡ some (array xs)
      → fetch CollectionSuffix.delayed r ≡ some (object ds)
      → fetch CollectionSuffix.prioritized r ≡ some (object ps)
      → r.job_batch ≡ before ++ (id, j) ∷ after
      → Without id after
      → let r' = submit_changes false b r in
        (fetch CollectionSuffix.wait r' ≡ some (array (b.list ++ xs)))
        × (fetch CollectionSuffix.delayed r' ≡ some (object (extend ds b.delayed)))
        × (fetch CollectionSuffix.prioritized r' ≡ some (object (extend ps b.priorized)))
        × (fetch CollectionSuffix.paused r' ≡ fetch CollectionSuffix.paused r)
        × (fetch CollectionSuffix.active r' ≡ fetch CollectionSuffix.active r)
        × (fetch (CollectionSuffix.job id) r' ≡ some (job j))
  unfolding commit tag discriminant
  submit_changes-writes b xs ds ps r before after id j w d p batch h =
      let waiting = put CollectionSuffix.wait (array (b.list ++ xs)) (commit r) in
      let delayed = put CollectionSuffix.delayed (object (extend ds b.delayed)) waiting in
      let bare = record r { job_batch = [] } in
      rw (submitted b xs ds ps r w d p) (
        fetch-put_other CollectionSuffix.wait CollectionSuffix.prioritized _ delayed refl
            ∙ fetch-put_other CollectionSuffix.wait CollectionSuffix.delayed _ waiting refl
            ∙ fetch-put_same CollectionSuffix.wait _ (commit r),
        fetch-put_other CollectionSuffix.delayed CollectionSuffix.prioritized _ delayed refl
            ∙ fetch-put_same CollectionSuffix.delayed _ waiting,
        fetch-put_same CollectionSuffix.prioritized _ delayed,
        beside CollectionSuffix.paused _ _ _ r refl refl refl refl,
        beside CollectionSuffix.active _ _ _ r refl refl refl refl,
        fetch_job-put id CollectionSuffix.prioritized _ delayed refl
            ∙ fetch_job-put id CollectionSuffix.delayed _ waiting refl
            ∙ fetch_job-put id CollectionSuffix.wait _ (commit r) refl
            ∙ ap (λ es. fetch (CollectionSuffix.job id) (written es bare)) batch
            ∙ fetch-written before after id j bare h,
      )
