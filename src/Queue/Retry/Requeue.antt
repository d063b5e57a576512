-- ===== src/Queue/Retry/Requeue.antt =====
-- queue/mod.rs: where a failed job goes that is to be run again.
use kiomq.Prelude.{ℕ, ◌≡◌, refl, false, some}
use kiomq.Env.{Env}
use kiomq.Job.Backoff.{BackOffJobOptions}
use kiomq.Result.{ok}
use kiomq.Suffix.{CollectionSuffix}
use kiomq.Store.{Store, Now}
use kiomq.Store.Items.{add_item, remove_item}
use kiomq.Queue.{Queue}
use kiomq.Queue.Retry.{failed, retry_job, calculate_next_delay_ms}

module _ {E : Env} where
  -- The delay depends on the registered strategies only.
  pub calculate-backoff :
      (q p : Queue E) (options : BackOffJobOptions) (attempts : ℕ)
      → q.backoff ≡ p.backoff
      → calculate_next_delay_ms q options attempts ≡ calculate_next_delay_ms p options attempts
  unfolding calculate_next_delay_ms
  calculate-backoff q p options attempts e = rw e refl

  -- A failed job in its new place.
  abbrev pub put_off : ℕ → ℕ → Store E → Store E
  put_off id time s =
      remove_item CollectionSuffix.failed id
        (add_item CollectionSuffix.delayed id (some time) false s)

  pub retry_job-put_off :
      (id attempts next_delay : ℕ) (backoff : BackOffJobOptions) (now : Now E) (q : Queue E)
      (next : E.Dt)
      → calculate_next_delay_ms q backoff attempts ≡ some next_delay
      → E.add_ms now.utc next_delay ≡ some next
      → retry_job id (failed backoff) attempts now q
        ≡ (ok tt, record q { store = put_off id (E.timestamp_millis next) q.store })
  unfolding retry_job
  retry_job-put_off id attempts next_delay backoff now q next e f = rw (e, f) refl
