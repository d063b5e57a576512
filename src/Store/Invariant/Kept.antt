-- ===== src/Store/Invariant/Kept.antt =====
-- stores/inmemory_store.rs: the operations that add a job, publish an event or move a counter.
use kiomq.Prelude.{
  ℕ, ap, Bool, true, false, Option, none, some, String, ltb, ◌&&◌, Option-cases, Bool-cases, inl,
  inr,
}
use kiomq.Env.{Env}
use kiomq.Job.{Job, add_opts}
use kiomq.Job.Delay.{as_diff_ms, next_occurrance_timestamp_ms}
use kiomq.Job.Options.{JobOptions}
use kiomq.Suffix.{CollectionSuffix}
use kiomq.Events.{QueueStreamEvent}
use kiomq.Store.{Store, Now}
use kiomq.Store.Items.{pop_set}
use kiomq.Store.Jobs.{incr, expire}
use kiomq.Store.Publish.{publish_event}
use kiomq.Store.Publish.Frame.{publish-own}
use kiomq.Store.Insert.{insert, insert_at, place, min_delay_ms_limit}
use kiomq.Store.Insert.Placed.{insert_at-recorded}
use kiomq.Store.Invariant.{IsStore, Roomy, add_item-IsStore, same-IsStore}

module _ {E : Env} where
  place-IsStore :
      (job : Job E) (priority pc id : ℕ) (is_paused : Bool) (expected : Option ℕ) (delay : ℕ)
      (s : Store E)
      → IsStore s
      → Roomy s
      → IsStore (place job priority pc id is_paused expected delay s).0.0
  unfolding place
  place-IsStore job priority pc id is_paused expected delay s v room =
      elim (Bool-cases (ltb 0 delay)) [
        | inl e ↦ elim (Option-cases expected) [
          | inl n ↦ rw (e, n, place) v
          | inr (t, n) ↦
              rw (e, n, place)
                (add_item-IsStore CollectionSuffix.delayed id (some t) false s v room)
        ]
        | inr e ↦ elim (Bool-cases (ltb 0 priority)) [
          | inl h ↦ rw (e, h) (add_item-IsStore CollectionSuffix.prioritized id _ true s v room)
          | inr h ↦ rw (e, h) (add_item-IsStore _ id none true s v room)
        ]
      ]

  pub publish-IsStore :
      (event : QueueStreamEvent E) (s : Store E) → IsStore s → IsStore (publish_event event s).1
  publish-IsStore event s v =
      let same = publish-own event s in
      same-IsStore s (publish_event event s).1 (ap (λ (t : Store E). t.active) same)
        (ap (λ (t : Store E). t.waiting) same) (ap (λ (t : Store E). t.paused) same) v

  pub incr-IsStore :
      (c : CollectionSuffix) (delta : ℕ) (hash_key : Option String) (now : Now E) (s : Store E)
      → IsStore s
      → IsStore (incr c delta hash_key now s).1
  unfolding incr
  incr-IsStore CollectionSuffix.id delta hash_key now s v = record {
    active = v.active;
    waiting = v.waiting;
    paused = v.paused;
  }
  incr-IsStore CollectionSuffix.priority_counter delta hash_key now s v = record {
    active = v.active;
    waiting = v.waiting;
    paused = v.paused;
  }
  incr-IsStore CollectionSuffix.meta delta hash_key now s v = record {
    active = v.active;
    waiting = v.waiting;
    paused = v.paused;
  }
  incr-IsStore (CollectionSuffix.job id) delta (some field) now s v = record {
    active = v.active;
    waiting = v.waiting;
    paused = v.paused;
  }
  incr-IsStore (CollectionSuffix.job id) delta none now s v = v
  incr-IsStore _ delta hash_key now s v = v

  pub pop_set-IsStore :
      (c : CollectionSuffix) (min : Bool) (s : Store E) → IsStore s → IsStore (pop_set c min s).1
  unfolding pop_set
  pop_set-IsStore CollectionSuffix.completed min s v = record {
    active = v.active;
    waiting = v.waiting;
    paused = v.paused;
  }
  pop_set-IsStore CollectionSuffix.delayed min s v = record {
    active = v.active;
    waiting = v.waiting;
    paused = v.paused;
  }
  pop_set-IsStore CollectionSuffix.failed min s v = record {
    active = v.active;
    waiting = v.waiting;
    paused = v.paused;
  }
  pop_set-IsStore CollectionSuffix.prioritized min s v = record {
    active = v.active;
    waiting = v.waiting;
    paused = v.paused;
  }
  pop_set-IsStore _ min s v = v

  pub expire-IsStore :
      (c : CollectionSuffix) (secs : ℕ) (now : Now E) (s : Store E)
      → IsStore s
      → IsStore (expire c secs now s)
  unfolding expire
  expire-IsStore (CollectionSuffix.lock id) secs now s v = record {
    active = v.active;
    waiting = v.waiting;
    paused = v.paused;
  }
  expire-IsStore CollectionSuffix.stalled_check secs now s v = record {
    active = v.active;
    waiting = v.waiting;
    paused = v.paused;
  }
  expire-IsStore (CollectionSuffix.job id) secs now s v = record {
    active = v.active;
    waiting = v.waiting;
    paused = v.paused;
  }
  expire-IsStore _ secs now s v = v

  insert_at-IsStore :
      (job : Job E) (priority pc id : ℕ) (name : String) (is_paused : Bool) (expected : Option ℕ)
      (delay : ℕ) (now : Now E) (s : Store E)
      → IsStore s
      → Roomy s
      → IsStore (insert_at job priority pc id name is_paused expected delay now s).1
  insert_at-IsStore job priority pc id name is_paused expected delay now s v room =
      let (answer, left) =
        insert_at-recorded job priority pc id name is_paused expected delay now s in
      let placed = (place job priority pc id is_paused expected delay s).0.0 in
      same-IsStore placed (insert_at job priority pc id name is_paused expected delay now s).1
        (ap (λ (t : Store E). t.active) left) (ap (λ (t : Store E). t.waiting) left)
        (ap (λ (t : Store E). t.paused) left)
        (place-IsStore job priority pc id is_paused expected delay s v room)

  pub insert-IsStore :
      (job : Job E) (opts : JobOptions E) (pc id : ℕ) (name : String) (is_paused : Bool)
      (now : Now E) (s : Store E)
      → IsStore s
      → Roomy s
      → IsStore (insert job opts pc id name is_paused now s).1
  unfolding insert
  insert-IsStore job opts pc id name is_paused now s v room =
      elim (Option-cases (next_occurrance_timestamp_ms opts.delay now.utc)) [
        | inl d ↦ rw d v
        | inr (expected, d) ↦ elim (Option-cases (as_diff_ms opts.delay now.utc)) [
          | inl e ↦ rw (d, e) v
          | inr (delay, e) ↦ elim (Option-cases (add_opts job opts)) [
            | inl f ↦ rw (d, e, f) v
            | inr (job', f) ↦ elim (Bool-cases (ltb 0 delay && ltb delay min_delay_ms_limit)) [
              | inl g ↦ rw (d, e, f, g) v
              | inr g ↦
                  rw (d, e, f, g)
                    (insert_at-IsStore job' opts.priority pc id name is_paused expected delay now s
                      v room)
            ]
          ]
        ]
      ]
