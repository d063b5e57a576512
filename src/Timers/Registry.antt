-- ===== src/Timers/Registry.antt =====
-- metrics/process_metrics.rs: how long the registry keeps a worker.
use kiomq.Prelude.{ℕ, ◌+◌, ◌<◌, ◌≡◌, refl, ◌∙◌, false, none, some, if◌then◌else◌, ltb, ==-refl}
use kiomq.SkipMap.Lookups.{get-insert}
use kiomq.Env.{Env}
use kiomq.TimedMap.{get, contains_key, insert_expirable, expirable}
use kiomq.TimedMap.Expiry.{get-insert_expirable, contains_key_expirable}
use kiomq.Timers.{Collector, Registration, register_worker}

-- `WORKER_STATE_TTL` taken for seconds.
abbrev lifetime : ℕ
lifetime = 100000000

module _ {E : Env} where
  -- The first registration.
  registered_new :
      (worker_id now : ℕ) (state : Registration E) (c : Collector E)
      → E.maps.get c.workers.inner worker_id ≡ none
      → register_worker worker_id state now c
        ≡ record c { workers = insert_expirable c.workers worker_id state lifetime now }
  unfolding register_worker contains_key
  registered_new worker_id now state c absent = rw (absent, contains_key) refl

  -- A heartbeat of a worker that is still registered changes nothing.
  registered_again :
      (worker_id t later : ℕ) (state again : Registration E) (c : Collector E)
      → E.maps.get c.workers.inner worker_id ≡ some (expirable state t)
      → later < t
      → register_worker worker_id again later c ≡ c
  unfolding register_worker
  registered_again worker_id t later state again c found h =
      rw (contains_key_expirable c.workers worker_id state t later found h) refl

  -- A worker that is not in the registry is found in it from its registration on for 100,000 seconds,
  -- the number of milliseconds of its lifetime taken for seconds, and no longer, if the registry's
  -- entries expire. Registering it again in this time, with any data, changes nothing, where the
  -- documentation promises to refresh it.
  pub register_worker-lasts :
      (worker_id now sooner later : ℕ) (state again : Registration E) (c : Collector E)
      → E.maps.get c.workers.inner worker_id ≡ none
      → c.workers.disable_expiration ≡ false
      → sooner < now + 100000000
      → let after = register_worker worker_id state now c in
        ((get after.workers worker_id later).0
          ≡ (if ltb later (now + 100000000) then some state else none))
        × (register_worker worker_id again sooner after ≡ after)
  unfolding insert_expirable
  register_worker-lasts worker_id now sooner later state again c absent enabled h =
      let e = registered_new worker_id now state c absent in
      let kept : E.maps.get (insert_expirable c.workers worker_id state lifetime now).inner
            worker_id
          ≡ some (expirable state (now + lifetime)) =
        rw
          (
            enabled,
            get-insert E.maps c.workers.inner worker_id worker_id
                (expirable state (now + lifetime)),
            ==-refl worker_id,
          )
          refl in
      rw e (
        get-insert_expirable c.workers worker_id worker_id state lifetime now later
            ∙ rw (enabled, ==-refl worker_id) refl,
        registered_again worker_id (now + lifetime) sooner state again
            (record c { workers = insert_expirable c.workers worker_id state lifetime now }) kept h,
      )
