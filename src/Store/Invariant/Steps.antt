-- ===== src/Store/Invariant/Steps.antt =====
-- stores/inmemory_store.rs: histories of a store's operations.
use kiomq.Prelude.{ℕ, Bool, Option, List, String}
use kiomq.Env.{Env}
use kiomq.Job.{Job, JobToken}
use kiomq.Job.Options.{JobOptions}
use kiomq.Job.Fields.{JobField}
use kiomq.Suffix.{CollectionSuffix}
use kiomq.Events.{QueueStreamEvent}
use kiomq.Store.{Store, Now, new}
use kiomq.Store.Items.{
  add_item, pop_back_push_front, remove_item, remove, clear_collections, pause, pop_set,
  get_delayed_at,
}
use kiomq.Store.Jobs.{incr, set_fields, set_lock, expire, purge_expired, clear_jobs}
use kiomq.Store.Publish.{publish_event}
use kiomq.Store.Insert.{insert}
use kiomq.Store.Invariant.{
  IsStore, Roomy, RoomToPause, new-IsStore, add_item-IsStore, pop_back_push_front-IsStore,
  remove_item-IsStore, remove-IsStore, clear_collections-IsStore, pause-IsStore,
}
use kiomq.Store.Invariant.Kept.{
  publish-IsStore, incr-IsStore, pop_set-IsStore, expire-IsStore, insert-IsStore,
}

module _ {E : Env} where
  -- The calls that change a store, with the room that they need in its lists.
  pub data Step (s : Store E) : Store E → Type 0 where
    insert_step :
        (job : Job E) (opts : JobOptions E) (pc id : ℕ) (name : String) (is_paused : Bool)
        (now : Now E)
        → Roomy s
        → Step s (insert job opts pc id name is_paused now s).1
    add_item_step :
        (c : CollectionSuffix) (item : ℕ) (score : Option ℕ) (append : Bool)
        → Roomy s
        → Step s (add_item c item score append s)
    pop_back_push_front_step :
        Roomy s → Step s (pop_back_push_front CollectionSuffix.wait CollectionSuffix.active s).1
    remove_item_step : (c : CollectionSuffix) (item : ℕ) → Step s (remove_item c item s)
    remove_step : (c : CollectionSuffix) → Step s (remove c s)
    clear_collections_step : Step s (clear_collections s)
    pause_step : (stop : Bool) → RoomToPause stop s → Step s (pause stop s)
    pop_set_step : (c : CollectionSuffix) (min : Bool) → Step s (pop_set c min s).1
    get_delayed_at_step : (start stop : ℕ) → Step s (get_delayed_at start stop s).1
    set_fields_step :
        (id : ℕ) (fields : List (JobField E)) (now : Now E) → Step s (set_fields id fields now s)
    set_lock_step :
        (c : CollectionSuffix) (token : Option JobToken) (duration : ℕ) (now : Now E)
        → Step s (set_lock c token duration now s)
    incr_step :
        (c : CollectionSuffix) (delta : ℕ) (hash_key : Option String) (now : Now E)
        → Step s (incr c delta hash_key now s).1
    expire_step : (c : CollectionSuffix) (secs : ℕ) (now : Now E) → Step s (expire c secs now s)
    clear_jobs_step : (last_id : ℕ) → Step s (clear_jobs last_id s)
    purge_expired_step : (now : Now E) → Step s (purge_expired now s)
    publish_event_step : (event : QueueStreamEvent E) → Step s (publish_event event s).1

  -- The stores of a history that starts with a new one.
  pub data Reachable : Store E → Type 0 where
    fresh : (prefix : Option String) (name : String) → Reachable (new prefix name)
    after : {s t : Store E} → Reachable s → Step s t → Reachable t

  Step-IsStore : {s t : Store E} → Step s t → IsStore s → IsStore t
  unfolding get_delayed_at set_fields set_lock clear_jobs purge_expired
  Step-IsStore {s} (insert_step job opts pc id name is_paused now room) v =
      insert-IsStore job opts pc id name is_paused now s v room
  Step-IsStore {s} (add_item_step c item score append room) v =
      add_item-IsStore c item score append s v room
  Step-IsStore {s} (pop_back_push_front_step room) v = pop_back_push_front-IsStore s v room
  Step-IsStore {s} (remove_item_step c item) v = remove_item-IsStore c item s v
  Step-IsStore {s} (remove_step c) v = remove-IsStore c s v
  Step-IsStore {s} clear_collections_step v = clear_collections-IsStore s
  Step-IsStore {s} (pause_step stop room) v = pause-IsStore stop s v room
  Step-IsStore {s} (pop_set_step c min) v = pop_set-IsStore c min s v
  Step-IsStore (get_delayed_at_step start stop) v = record {
    active = v.active;
    waiting = v.waiting;
    paused = v.paused;
  }
  Step-IsStore (set_fields_step id fields now) v = record {
    active = v.active;
    waiting = v.waiting;
    paused = v.paused;
  }
  Step-IsStore (set_lock_step c token duration now) v = record {
    active = v.active;
    waiting = v.waiting;
    paused = v.paused;
  }
  Step-IsStore {s} (incr_step c delta hash_key now) v = incr-IsStore c delta hash_key now s v
  Step-IsStore {s} (expire_step c secs now) v = expire-IsStore c secs now s v
  Step-IsStore (clear_jobs_step last_id) v = record {
    active = v.active;
    waiting = v.waiting;
    paused = v.paused;
  }
  Step-IsStore (purge_expired_step now) v = record {
    active = v.active;
    waiting = v.waiting;
    paused = v.paused;
  }
  Step-IsStore {s} (publish_event_step event) v = publish-IsStore event s v

  -- In every store that a history of operations reaches, each with room in the indices of the lists
  -- for what it adds, the active, the waiting and the paused list are well-formed: the indices of
  -- their entries lie between the two next ones, and these are machine integers in their order.
  pub Reachable-IsStore : (s : Store E) → Reachable s → IsStore s
  Reachable-IsStore s (fresh prefix name) = new-IsStore prefix name
  Reachable-IsStore s (after r st) = Step-IsStore st (Reachable-IsStore _ r)
