-- ===== src/Examples/Upkeep.antt =====
-- A queue at work: locks, pausing, emptying and cleaning up.
use kiomq.Prelude.{ℕ, ◌≡◌, ◌+◌, ◌||◌, ltb, refl, true, none, some, if◌then◌else◌}
use kiomq.SkipMap.Sorted
use kiomq.SkipMap.Sorted.{Above}
use kiomq.Job.{token_eq}
use kiomq.Suffix.{CollectionSuffix, tag}
use kiomq.Result.{ok}
use kiomq.TimedMap
use kiomq.Store.{Store, Now}
use kiomq.Store
use kiomq.Store.Jobs.{get_job, get_token, set_lock, token_of, lock_of}
use kiomq.Queue.{Queue}
use kiomq.Queue.Control.{extend_lock, obliterate}
use kiomq.Queue.Control.Locks.{extend_lock-renews}
use kiomq.Queue.Control.Emptied.{Emptied, obliterate-Emptied}
use kiomq.Examples.{sample, at, empty_store, empty_queue, worker_token, busy}

-- Job 1 is locked for the worker.
abbrev locked : Queue sample
locked = record empty_queue {
  store = set_lock (CollectionSuffix.lock 1) (some worker_token) 100 (at 1000) empty_store;
}

locked_token : (get_token 1 (at 1050) locked.store).0 ≡ some worker_token
unfolding get_token set_lock TimedMap.get TimedMap.insert_expirable Store.new TimedMap.new
    Sorted.insert Sorted.lookup token_of lock_of tag
locked_token = refl

extend_lock-renews_example :
    (get_token 1 (at 1400) (extend_lock 1 500 worker_token (at 1050) locked).1.store).0 ≡ (
      if locked.store.locks.disable_expiration || ltb 1400 (1050 + 500)
      then some worker_token
      else none)
unfolding token_eq
extend_lock-renews_example =
    extend_lock-renews 1 500 worker_token worker_token (at 1050) (at 1400) locked locked_token refl

obliterate-Emptied_example :
    ((obliterate (at 2000) busy).0 ≡ ok tt)
    × ((obliterate (at 2000) busy).1.closed ≡ true)
    × Emptied (obliterate (at 2000) busy).1.store
    × ((id : ℕ) (later : Now sample)
        → (get_job id later (obliterate (at 2000) busy).1.store).0 ≡ none)
obliterate-Emptied_example = obliterate-Emptied (at 2000) busy
