-- ===== src/Timers/Once.antt =====
-- metrics/process_metrics.rs and timers/delay_queue_timer.rs: which of a queue's timers are taken up.
use kiomq.Prelude.{
  ℕ, ◌≡◌, refl, ap, ◌∙◌, Bool, true, false, ◌||◌, List, [], ◌∷◌, map, if◌then◌else◌, ◌==◌, ==-refl,
  Bool-cases, inl, inr, ◌≢◌, arith,
}
use kiomq.SkipMap.Lookups.{get-insert}
use kiomq.Env.{Env}
use kiomq.Queue.Moves.{WorkerOpts}
use kiomq.Timers.{
  Collector, TimerType, promoted_delayed, next_duration, timer_exists, schedule, send, send_all,
  worker_timers, register_worker_timers, targets, holds_queue, eviction_interval_ms,
  worker_state_ttl, extend_lock, collect_metrics, reregister_worker,
}

-- Of the timers of a list, in its order, those whose duration is not in use, each duration once.
unfoldable pub taken : (ℕ → Bool) → List TimerType → List TimerType
taken used [] = []
taken used (timer ∷ timers) =
    let d = next_duration timer in
    if used d then taken used timers else timer ∷ taken (λ e. (e == d) || used e) timers

-- The entries of the delay queue with the given timers put in, in their order.
abbrev pub entered : List TimerType → List (ℕ × TimerType) → List (ℕ × TimerType)
entered [] entries = entries
entered (timer ∷ timers) entries = entered timers ((next_duration timer, timer) ∷ entries)

module _ {E : Env} where
  abbrev pub busy : ℕ → Collector E → ℕ → Bool
  busy queue_id c duration = holds_queue E.maps queue_id (E.maps.get c.global_timers duration)

  -- A scheduled timer puts its duration into use, and no other.
  pub busy-schedule :
      (timer : TimerType) (queue_id : ℕ) (c : Collector E) (duration : ℕ)
      → busy queue_id (schedule queue_id timer c) duration
        ≡ ((duration == next_duration timer) || busy queue_id c duration)
  unfolding schedule holds_queue
  busy-schedule timer queue_id c duration =
      let d = next_duration timer in
      let queues = E.maps.insert (targets E.maps (E.maps.get c.global_timers d)) queue_id tt in
      ap (holds_queue E.maps queue_id) (get-insert E.maps c.global_timers d duration queues)
      ∙ elim (Bool-cases (duration == d)) [
        | inl e ↦
            rw
              (
                e,
                get-insert E.maps (targets E.maps (E.maps.get c.global_timers d)) queue_id queue_id
                    tt,
                ==-refl queue_id,
                holds_queue,
              )
              refl
        | inr e ↦ rw e refl
      ]

  sent :
      (b : Bool) (timer : TimerType) (timers : List TimerType) (queue_id : ℕ) (c : Collector E)
      → b ≡ busy queue_id c (next_duration timer)
      → ((d : Collector E)
          → (send_all queue_id timers d).delayed_queue
            ≡ entered (taken (busy queue_id d) timers) d.delayed_queue)
      → (send_all queue_id timers (if b then c else schedule queue_id timer c)).delayed_queue
        ≡ entered
            (if b
              then taken (busy queue_id c) timers
              else timer ∷ taken (λ e. (e == next_duration timer) || busy queue_id c e) timers)
            c.delayed_queue
  unfolding schedule
  sent true timer timers queue_id c e rest = rest c
  sent false timer timers queue_id c e rest =
      rest (schedule queue_id timer c)
      ∙ ap (λ used. entered (taken used timers) ((next_duration timer, timer) ∷ c.delayed_queue))
          (λ i. λ d. busy-schedule timer queue_id c d i)

  -- A queue that sends timers, one after the other, has exactly those taken up whose duration is not
  -- in use for it, neither by an earlier timer of the coordinator nor by one sent before.
  pub send_all-taken :
      (timers : List TimerType) (queue_id : ℕ) (c : Collector E)
      → (send_all queue_id timers c).delayed_queue
        ≡ entered (taken (busy queue_id c) timers) c.delayed_queue
  unfolding send_all send timer_exists taken
  send_all-taken [] queue_id c = refl
  send_all-taken (timer ∷ timers) queue_id c =
      sent (busy queue_id c (next_duration timer)) timer timers queue_id c refl
        (λ d. send_all-taken timers queue_id d)

  send-busy :
      (timer : TimerType) (queue_id : ℕ) (c : Collector E)
      → busy queue_id c (next_duration timer) ≡ true
      → send queue_id timer c ≡ c
  unfolding send timer_exists
  send-busy timer queue_id c h = rw h refl

  send_all-busy :
      (ids : List ℕ) (queue_id : ℕ) (c : Collector E)
      → busy queue_id c eviction_interval_ms ≡ true
      → send_all queue_id (map (λ id. promoted_delayed id queue_id) ids) c ≡ c
  unfolding send_all next_duration
  send_all-busy [] queue_id c h = refl
  send_all-busy (id ∷ ids) queue_id c h =
      ap (send_all queue_id (map (λ id. promoted_delayed id queue_id) ids))
        (send-busy (promoted_delayed id queue_id) queue_id c h)
      ∙ send_all-busy ids queue_id c h

  -- Of the promotions of due jobs that a queue sends, one after the other, the coordinator takes up
  -- the first, if it has no timer of their duration for the queue, and drops all the others.
  pub send_all-promoted :
      (id : ℕ) (ids : List ℕ) (queue_id : ℕ) (c : Collector E)
      → busy queue_id c eviction_interval_ms ≡ false
      → send_all queue_id (map (λ id. promoted_delayed id queue_id) (id ∷ ids)) c
        ≡ schedule queue_id (promoted_delayed id queue_id) c
  unfolding send_all send timer_exists next_duration
  send_all-promoted id ids queue_id c h =
      let rest = map (λ id. promoted_delayed id queue_id) ids in
      let first = schedule queue_id (promoted_delayed id queue_id) c in
      ap (λ b. send_all queue_id rest (if b then c else first)) h
      ∙ send_all-busy ids queue_id first
          (busy-schedule (promoted_delayed id queue_id) queue_id c eviction_interval_ms)

  -- A queue has no timer of any of the four durations of a worker's timers: the duration of its locks,
  -- the interval of its stalled check, that of its metrics, and the lifetime of its registration. The
  -- interval of the metrics is none of the other three, and the lifetime is neither the duration of
  -- the locks nor the interval of the stalled check. Then all four timers are taken up, in their
  -- order, but for the stalled check if its interval is the duration of the locks.
  pub register_worker_timers-stalled :
      (queue_id : ℕ) (opts : WorkerOpts) (c : Collector E)
      → busy queue_id c opts.lock_duration ≡ false
      → busy queue_id c opts.stalled_interval ≡ false
      → busy queue_id c opts.metrics_update_interval ≡ false
      → busy queue_id c worker_state_ttl ≡ false
      → opts.metrics_update_interval ≢ opts.lock_duration
      → opts.metrics_update_interval ≢ opts.stalled_interval
      → opts.metrics_update_interval ≢ worker_state_ttl
      → opts.lock_duration ≢ worker_state_ttl
      → opts.stalled_interval ≢ worker_state_ttl
      → (register_worker_timers queue_id opts c).delayed_queue
        ≡ entered
            (if opts.stalled_interval == opts.lock_duration
              then extend_lock opts.lock_duration
                ∷ collect_metrics opts.metrics_update_interval
                ∷ reregister_worker
                ∷ []
              else worker_timers opts)
            c.delayed_queue
  unfolding register_worker_timers taken next_duration worker_timers
  register_worker_timers-stalled queue_id opts c fl fs fm ft ml ms mt lt st =
      send_all-taken (worker_timers opts) queue_id c ∙ rw (fl, fs, fm, ft) (ground arith)
