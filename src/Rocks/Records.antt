-- ===== src/Rocks/Records.antt =====
-- stores/rocksdb_store.rs: what `fetch` returns after a `put`.
use kiomq.Prelude.{◌≡◌, false, some, ◌==◌, Bool-cases, inl, inr, arith}
use kiomq.Env.{Env}
use kiomq.ColumnFamily.{ColumnFamily}
use kiomq.Suffix.{CollectionSuffix, tag}
use kiomq.Rocks.{RocksDbStore, Value, put, fetch, is_job}

module _ {C : ColumnFamily} {E : Env} where
  pub fetch-put_same :
      (col : CollectionSuffix) (v : Value E) (r : RocksDbStore C E)
      → fetch col (put col v r) ≡ some v
  unfolding fetch put
  fetch-put_same col v r = elim (Bool-cases (is_job col)) [
    | inl e ↦ rw (put, fetch, e, C.get-put r.jobs (tag col) v (tag col)) (ground arith)
    | inr e ↦ rw (put, fetch, e, C.get-put r.main_tree (tag col) v (tag col)) (ground arith)
  ]

  pub fetch-put_other :
      (a b : CollectionSuffix) (v : Value E) (r : RocksDbStore C E)
      → (tag a == tag b) ≡ false
      → fetch a (put b v r) ≡ fetch a r
  unfolding fetch put
  fetch-put_other a b v r h = elim (Bool-cases (is_job a)) [
    | inl e ↦ elim (Bool-cases (is_job b)) [
      | inl e' ↦ rw (put, fetch, e, e', C.get-put r.jobs (tag b) v (tag a), h)
      | inr e' ↦ rw (put, fetch, e, e')
    ]
    | inr e ↦ elim (Bool-cases (is_job b)) [
      | inl e' ↦ rw (put, fetch, e, e')
      | inr e' ↦ rw (put, fetch, e, e', C.get-put r.main_tree (tag b) v (tag a), h)
    ]
  ]
