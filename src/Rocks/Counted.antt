-- ===== src/Rocks/Counted.antt =====
-- stores/rocksdb_store.rs: how `incr` moves the attempts of a job.
use mathlib.Core.Option
use kiomq.Prelude.{ℕ, ◌+◌, ◌*◌, ◌-◌, ◌^◌, ◌≤◌, ◌≡◌, ap, sym, ◌∙◌, some, arith, zero, suc, subst}
use kiomq.Words.{u64_size}
use kiomq.Env.{Env}
use kiomq.ColumnFamily.{ColumnFamily}
use kiomq.Job.{Job}
use kiomq.Suffix.{CollectionSuffix}
use kiomq.Rocks.{RocksDbStore, job, fetch}
use kiomq.Rocks.Records.{fetch-put_same}
use kiomq.Rocks.Jobs.{incr, update_job, get_job}

two_of : (p q y : ℕ) → (p + q) * y ≡ p * y + q * y
two_of zero q y = omega arith
two_of (suc p) q y = omega (arith, two_of p q y)

split : (p a : ℕ) → p * (2 * a + 1 + 1) ≡ (p + p) * (a + 1)
split zero a = omega arith
split (suc p) a = omega (arith, split p a, two_of p p (a + 1), two_of (suc p) (suc p) (a + 1))

regroup : (n a : ℕ) → 2 ^ n * (2 * a + 1 + 1) ≡ 2 ^ suc n * (a + 1)
regroup n a = split (2 ^ n) a ∙ ap (λ p. p * (a + 1)) (omega arith)

two_pow-pos : (n : ℕ) → 1 ≤ 2 ^ n
two_pow-pos zero = omega arith
two_pow-pos (suc n) = omega (arith, two_pow-pos n)

-- A factor of a product bounds the other.
scaled : (p x b : ℕ) → 1 ≤ p → p * x ≤ b → x ≤ b
scaled zero x b h k = omega (arith, h)
scaled (suc p) x b h k = omega (arith, k)

room : (n a : ℕ) → 2 ^ suc n * (a + 1) ≤ u64_size → 2 * a + 1 ≤ u64_size - 1
room n a h =
    let fits =
      scaled (2 ^ n) (2 * a + 1 + 1) u64_size (two_pow-pos n)
        (subst (λ m. m ≤ u64_size) (sym (regroup n a)) h) in
    omega (arith, fits)

module _ {E : Env} where
  update_job-attempts :
      (j : Job E)
      → 2 * j.attempts_made + 1 ≤ u64_size - 1
      → (update_job "attemptsMade" 1 j).1 ≡ record j { attempts_made = 2 * j.attempts_made + 1 }
  unfolding update_job
  update_job-attempts j h = ap (λ n. record j { attempts_made = n }) (omega (arith, h))

module _ {C : ColumnFamily} {E : Env} where
  -- `incr` on the attempts of a job by 1, a number of times.
  abbrev pub attempted : ℕ → ℕ → RocksDbStore C E → RocksDbStore C E
  attempted id zero r = r
  attempted id (suc n) r =
      attempted id n (incr (CollectionSuffix.job id) 1 (some "attemptsMade") r).1

  incr-record :
      (id : ℕ) (j : Job E) (r : RocksDbStore C E)
      → fetch (CollectionSuffix.job id) r ≡ some (job j)
      → fetch (CollectionSuffix.job id) (incr (CollectionSuffix.job id) 1 (some "attemptsMade") r).1
        ≡ some (job (update_job "attemptsMade" 1 j).1)
  unfolding incr get_job Option.bind
  incr-record id j r e = rw (incr, e) (fetch-put_same (CollectionSuffix.job id) _ r)

  -- Counting the attempts of a stored job by 1, `n` times, leaves `2^n * (a + 1) - 1` of them, where
  -- `a` were there, and not `a + n`, as long as that is a `u64`; the rest of the record stays.
  pub attempted-doubles :
      (n id : ℕ) (j : Job E) (r : RocksDbStore C E)
      → fetch (CollectionSuffix.job id) r ≡ some (job j)
      → 2 ^ n * (j.attempts_made + 1) ≤ u64_size
      → get_job id (attempted id n r)
        ≡ some (record j { attempts_made = 2 ^ n * (j.attempts_made + 1) - 1 })
  unfolding get_job Option.bind
  attempted-doubles zero id j r e h =
      rw e (ap (λ n. some (record j { attempts_made = n })) (omega arith))
  attempted-doubles (suc n) id j r e h =
      attempted-doubles n id (record j { attempts_made = 2 * j.attempts_made + 1 }) _
        (incr-record id j r e
          ∙ ap (λ k. some (job k)) (update_job-attempts j (room n j.attempts_made h)))
        (subst (λ m. m ≤ u64_size) (sym (regroup n j.attempts_made)) h)
      ∙ ap (λ n. some (record j { attempts_made = n }))
          (ap (λ m. m - 1) (regroup n j.attempts_made))
