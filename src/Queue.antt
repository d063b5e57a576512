-- ===== src/Queue.antt =====
-- queue/mod.rs: the queue over an in-memory store. Its `current_metrics`, `pause_workers`,
-- `worker_notifier` and `emitter` are the cells that the store shares (Store.antt).
pub mod Moves
pub mod Retry
pub mod Stalled
pub mod Control
use kiomq.Prelude.{ℕ, Bool, true, false, Option, none, some, List, [], ◌∷◌, String, unwrap_or}
use kiomq.Env.{Env}
use kiomq.Job.{Job, JobState}
use kiomq.Job.Backoff.{BackOff}
use kiomq.Job.Backoff
use kiomq.Job.Options.{JobOptions, QueueOpts, default_options, default_queue_opts}
use kiomq.Metrics.{queue_is_paused, update}
use kiomq.Result.{Action, Result, ok, err, panicked, ◌>>=◌, or_raise, pure, continue, gets}
use kiomq.Store.{Store, Now}
use kiomq.Store.Publish.{get_metrics, create_stream_listener}
use kiomq.Store.Insert.{add_bulk, add_bulk_only}

pub record Queue (E : Env) : Type 0 where
  pub store : Store E
  pub opts : QueueOpts E
  pub paused : Bool
  pub backoff : BackOff E
  -- The background timers run until the queue is obliterated.
  pub closed : Bool

module _ {E : Env} {A : Type 0} where
  -- A method of the store that may fail, and one that cannot.
  abbrev pub on_store : Action (Store E) A → Action (Queue E) A
  on_store f q = ((f q.store).0, record q { store = (f q.store).1 })

  abbrev pub call_store : (Store E → A × Store E) → Action (Queue E) A
  call_store f q = (ok (f q.store).0, record q { store = (f q.store).1 })

module _ {E : Env} where
  abbrev pub update_store : (Store E → Store E) → Action (Queue E) Unit
  update_store f q = (ok tt, record q { store = f q.store })

  unfoldable pub is_paused : Queue E → Bool
  unfolding queue_is_paused
  is_paused q = queue_is_paused q.store.stored_metrics

  -- The in-memory store always has an event mode, so that the one of the options is not taken.
  unfoldable pub new : Store E → Option (QueueOpts E) → Queue E
  new store queue_opts =
      let metrics = get_metrics store in
      record {
        store = create_stream_listener metrics false store;
        opts = unwrap_or queue_opts default_queue_opts;
        paused = metrics.is_paused;
        backoff = Backoff.new;
        closed = false;
      }

  unfoldable pub bulk_add :
      List (String × Option (JobOptions E) × E.Input) → Now E → Action (Queue E) (List (Job E))
  unfolding is_paused
  bulk_add items now q = on_store (add_bulk items q.opts (is_paused q) now) q

  unfoldable pub bulk_add_only :
      List (String × Option (JobOptions E) × E.Input) → Now E → Action (Queue E) Unit
  unfolding is_paused
  bulk_add_only items now q = on_store (add_bulk_only items q.opts (is_paused q) now) q

  last : List (Job E) → Option (Job E)
  last [] = none
  last (j ∷ []) = some j
  last (j ∷ k ∷ js) = last (k ∷ js)

  unfoldable pub add_job :
      String → E.Input → Option (JobOptions E) → Now E → Action (Queue E) (Job E)
  unfolding bulk_add last
  add_job name input opts now = do
    jobs ← bulk_add ((name, some (unwrap_or opts default_options), input) ∷ []) now
    or_raise (last jobs) panicked

  -- The answer of the store, which the shared metrics take over.
  unfoldable pub refresh_metrics : Queue E → Queue E
  refresh_metrics q = record q {
    store = record q.store { stored_metrics = update q.store.stored_metrics (get_metrics q.store) };
  }
