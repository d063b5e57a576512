-- ===== src/Queue/Control/Locks.antt =====
-- queue/mod.rs: who may extend the lock of a job.
use kiomq.Prelude.{
  ℕ, arith, ◌+◌, ◌≡◌, refl, Bool, true, false, none, some, if◌then◌else◌, ltb, ◌||◌, ==-refl,
}
use kiomq.Env.{Env}
use kiomq.TimedMap
use kiomq.TimedMap.Expiry.{get-insert_expirable, get-flag}
use kiomq.Job.{JobToken, token_eq}
use kiomq.Suffix.{CollectionSuffix, tag}
use kiomq.Result.{ok}
use kiomq.Store.{Now, Lock}
use kiomq.Store.Jobs.{get_token, set_lock, token_of, lock_of}
use kiomq.Store.Items.{remove_item}
use kiomq.Queue.{Queue}
use kiomq.Queue.Control.{extend_lock}

pub token_of-if :
    (b : Bool) (t : JobToken)
    → token_of (if b then some (Lock.token t) else none) ≡ (if b then some t else none)
unfolding token_of
token_of-if true t = refl
token_of-if false t = refl

module _ {E : Env} where
  -- The lock of a job is extended exactly for the holder of the token that it is locked with: a job
  -- without a lock that is still held, and any other token, get the answer `false`.
  pub extend_lock-answer :
      (job_id lock_duration : ℕ) (token : JobToken) (now : Now E) (q : Queue E)
      → (extend_lock job_id lock_duration token now q).0
        ≡ ok (elim (get_token job_id now q.store).0 [
          | none ↦ false
          | some prev_token ↦ token_eq prev_token token
        ])
  unfolding extend_lock
  extend_lock-answer job_id lock_duration token now q = ground arith

  extended :
      (job_id lock_duration : ℕ) (prev token : JobToken) (now later : Now E) (q : Queue E)
      → (get_token job_id now q.store).0 ≡ some prev
      → token_eq prev token ≡ true
      → (extend_lock job_id lock_duration token now q).1.store.locks
        ≡ (set_lock
            (CollectionSuffix.lock job_id)
            (some token)
            lock_duration
            now
            (get_token job_id now q.store).1).locks
  unfolding extend_lock remove_item
  extended job_id lock_duration prev token now later q e same = rw (e, same) refl

  -- The holder of a token that extends its lock is found as its holder for that time on from then,
  -- and nobody is after it, unless the expiry of locks is disabled: then the lock does not end.
  pub extend_lock-renews :
      (job_id lock_duration : ℕ) (prev token : JobToken) (now later : Now E) (q : Queue E)
      → (get_token job_id now q.store).0 ≡ some prev
      → token_eq prev token ≡ true
      → (get_token job_id later (extend_lock job_id lock_duration token now q).1.store).0 ≡ (
          if q.store.locks.disable_expiration || ltb later.instant (now.instant + lock_duration)
          then some token
          else none)
  unfolding get_token set_lock lock_of
  extend_lock-renews job_id lock_duration prev token now later q e same =
      let key = tag (CollectionSuffix.lock job_id) in
      let m = (TimedMap.get q.store.locks key now.instant).1 in
      rw
        (
          extended job_id lock_duration prev token now later q e same,
          get-insert_expirable m key key (Lock.token token) lock_duration now.instant later.instant,
          ==-refl key,
          get-flag q.store.locks key now.instant,
        )
        (token_of-if _ token)
