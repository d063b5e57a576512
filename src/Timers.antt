-- ===== src/Timers.antt =====
-- metrics/process_metrics.rs and timers/delay_queue_timer.rs: the process-wide coordinator that keeps
-- the timers of all queues and the registry of workers. Durations are in milliseconds; `Key`s of
-- the delay queue and the channels are left out, and what an expiry sends is returned.
pub mod Once
pub mod Registry
pub mod Told
pub mod Awaited
use mathlib.Core.Option
use kiomq.Prelude.{
  ℕ, ◌*◌, Bool, true, false, Option, none, some, List, [], ◌∷◌, map, if◌then◌else◌, is_some,
}
use kiomq.Env.{Env}
use kiomq.SkipMap.{SkipMap}
use kiomq.TimedMap.{TimedMap}
use kiomq.TimedMap
use kiomq.Metrics.{QueueMetrics}
use kiomq.Queue.Moves.{WorkerOpts}

abbrev pub eviction_interval_ms : ℕ
eviction_interval_ms = 50

-- `WORKER_STATE_TTL` on Linux.
abbrev pub worker_state_ttl : ℕ
worker_state_ttl = 100000

pub data TimerType : Type 0 where
  stalled_check extend_lock collect_metrics : ℕ → TimerType
  -- A job, and its queue.
  promoted_delayed : ℕ → ℕ → TimerType
  reregister_worker : TimerType

unfoldable pub next_duration : TimerType → ℕ
next_duration (stalled_check duration) = duration
next_duration (extend_lock duration) = duration
next_duration (collect_metrics duration) = duration
next_duration (promoted_delayed _ _) = eviction_interval_ms
next_duration reregister_worker = worker_state_ttl

-- What a queue and the registry keep of a worker; its state and its tasks are cells elsewhere.
pub record Registration (E : Env) : Type 0 where
  pub opts : WorkerOpts
  pub created_at : E.Dt

pub record Collector (E : Env) : Type 0 where
  pub workers : TimedMap E.maps (Registration E)
  pub queues : E.maps.Map QueueMetrics
  -- The queues that a duration is to be reported to.
  pub global_timers : E.maps.Map (E.maps.Map Unit)
  -- What was put into the delay queue, newest first.
  pub delayed_queue : List (ℕ × TimerType)

-- timers/delay_queue_timer.rs: the timers of a worker, in the order in which they are sent.
unfoldable pub worker_timers : WorkerOpts → List TimerType
worker_timers opts =
    extend_lock opts.lock_duration
    ∷ stalled_check opts.stalled_interval
    ∷ collect_metrics opts.metrics_update_interval
    ∷ reregister_worker
    ∷ []

module _ (S : SkipMap) where
  unfoldable pub holds_queue : ℕ → Option (S.Map Unit) → Bool
  holds_queue queue_id none = false
  holds_queue queue_id (some queues) = is_some (S.get queues queue_id)

  unfoldable pub targets : Option (S.Map Unit) → S.Map Unit
  targets none = S.new
  targets (some queues) = queues

  -- The queue that a promotion names is a target too.
  pub named : TimerType → S.Map Unit → S.Map Unit
  named (promoted_delayed _ queue_id) queues = S.insert queues queue_id tt
  named _ queues = queues

  pub registered : S.Map QueueMetrics → List (ℕ × Unit {0}) → List ℕ
  registered queues [] = []
  registered queues ((id, _) ∷ ids) =
      let rest = registered queues ids in if is_some (S.get queues id) then id ∷ rest else rest

  without_queue : ℕ → S.Map (S.Map Unit) → List (ℕ × S.Map Unit) → S.Map (S.Map Unit)
  without_queue queue_id timers [] = timers
  without_queue queue_id timers ((duration, queues) ∷ rest) =
      without_queue queue_id (S.insert timers duration (S.remove queues queue_id).1) rest

module _ {E : Env} where
  unfoldable pub register_queue : ℕ → QueueMetrics → Collector E → Collector E
  register_queue queue_id metrics c =
      if is_some (E.maps.get c.queues queue_id)
      then c
      else record c { queues = E.maps.insert c.queues queue_id metrics }

  -- The number of milliseconds is taken for one of seconds.
  unfoldable pub register_worker : ℕ → Registration E → ℕ → Collector E → Collector E
  register_worker worker_id state now c =
      let (found, workers) = TimedMap.contains_key c.workers worker_id now in
      if found then record c { workers = workers } else record c {
        workers = TimedMap.insert_expirable workers worker_id state (worker_state_ttl * 1000) now;
      }

  unfoldable pub unregister_worker : ℕ → Collector E → Collector E
  unregister_worker worker_id c = record c { workers = TimedMap.remove c.workers worker_id }

  -- Only the duration is compared.
  unfoldable pub timer_exists : TimerType → ℕ → Collector E → Bool
  unfolding next_duration holds_queue
  timer_exists timer queue_id c =
      holds_queue E.maps queue_id (E.maps.get c.global_timers (next_duration timer))

  -- The coordinator's answer to a command of a queue.
  unfoldable pub schedule : ℕ → TimerType → Collector E → Collector E
  unfolding next_duration targets
  schedule queue_id timer c =
      let duration = next_duration timer in
      let queues = targets E.maps (E.maps.get c.global_timers duration) in
      record c {
        global_timers = E.maps.insert c.global_timers duration (E.maps.insert queues queue_id tt);
        delayed_queue = (duration, timer) ∷ c.delayed_queue;
      }

  -- A queue's sender asks first, and waits for the answer.
  unfoldable pub send : ℕ → TimerType → Collector E → Collector E
  unfolding timer_exists schedule
  send queue_id timer c = if timer_exists timer queue_id c then c else schedule queue_id timer c

  unfoldable pub send_all : ℕ → List TimerType → Collector E → Collector E
  unfolding send
  send_all queue_id [] c = c
  send_all queue_id (timer ∷ timers) c = send_all queue_id timers (send queue_id timer c)

  -- An entry of the delay queue expires: the queues that are told, and the timers that are left.
  unfoldable pub respond : ℕ → TimerType → Collector E → List ℕ × Collector E
  unfolding named registered
  respond duration timer c = elim (E.maps.get c.global_timers duration) [
    | none ↦ ([], c)
    | some queues ↦ (
      registered E.maps c.queues (E.maps.iter (named E.maps timer queues)),
      record c { global_timers = (E.maps.remove c.global_timers duration).1 },
    )
  ]

  unfoldable pub unregister_queue : ℕ → Collector E → Collector E
  unfolding without_queue
  unregister_queue queue_id c = record c {
    queues = (E.maps.remove c.queues queue_id).1;
    global_timers = without_queue E.maps queue_id c.global_timers (E.maps.iter c.global_timers);
  }

  unfoldable pub register_worker_timers : ℕ → WorkerOpts → Collector E → Collector E
  unfolding send_all worker_timers
  register_worker_timers queue_id opts c = send_all queue_id (worker_timers opts) c
