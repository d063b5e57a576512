-- ===== src/Store/Insert/Lands.antt =====
-- stores/inmemory_store.rs: the collection in which `insert` leaves the id of a new job.
use kiomq.Prelude.{
  ℕ, ◌≤◌, ◌≡◌, ap, ◌∙◌, Bool, not, ◌&&◌, String, ltb, leb, ◌==◌, if◌then◌else◌, arith, ◌⊎◌,
}
use kiomq.Words.{i64_min}
use kiomq.Env.{Env}
use kiomq.Deque.{push_front}
use kiomq.Job.{Job}
use kiomq.Job.Delay.{time_milis}
use kiomq.Job.Options.{JobOptions}
use kiomq.Store.{Store, Now}
use kiomq.Store.Items.{add_item, scored}
use kiomq.Store.Insert.{min_delay_ms_limit, place, insert, calculate_next_priority_score}
use kiomq.Store.Insert.Placed.{moment, Timely, optioned, insert_allowed, insert_at-recorded}

module _ {E : Env} where
  -- The collections after a new job, by its delay, its priority and whether the queue is paused.
  abbrev pub Landed : ℕ → ℕ → ℕ → ℕ → Bool → E.Dt → Store E → Store E → Type 0
  Landed ms priority pc id is_paused at s r =
      (r.delayed ≡ (
        if leb min_delay_ms_limit ms && ltb ms i64_min
        then E.maps.insert s.delayed (E.timestamp_millis at) id
        else s.delayed))
      × (r.prioritized ≡ (
          if ms == 0 && ltb 0 priority
          then E.maps.insert s.prioritized (calculate_next_priority_score priority pc) id
          else s.prioritized))
      × (r.waiting ≡ (
          if ms == 0 && (priority == 0) && not is_paused
          then push_front s.waiting id
          else s.waiting))
      × (r.paused
          ≡ (if ms == 0 && (priority == 0) && is_paused then push_front s.paused id else s.paused))
      × (r.active ≡ s.active)
      × (r.completed ≡ s.completed)
      × (r.failed ≡ s.failed)
      × (r.stalled ≡ s.stalled)

  place-Landed :
      (job : Job E) (ms priority pc id : ℕ) (is_paused : Bool) (at : E.Dt) (s : Store E)
      → (ms ≡ 0) ⊎ (min_delay_ms_limit ≤ ms)
      → Landed ms priority pc id is_paused at s
          (place job priority pc id is_paused (moment E ms at) ms s).0.0
  unfolding place add_item scored
  place-Landed job ms priority pc id is_paused at s h = (
    ground arith,
    ground arith,
    ground arith,
    ground arith,
    ground arith,
    ground arith,
    ground arith,
    ground arith,
  )

  -- For a new job with a delay in milliseconds of zero or at least 50, by which the date, if the delay
  -- is positive, stays in chrono's range, `insert` changes at most one
  -- collection: with a delay from 50 to below 2^63 the delayed set, at the job's moment; with no delay
  -- and a priority the prioritized set, at its score; with neither, the front of the waiting list,
  -- or of the paused list in a paused queue. A delay from 2^63 on, which is a negative number of
  -- milliseconds, leaves the id in no collection.
  pub insert-lands :
      (job : Job E) (opts : JobOptions E) (ms pc id : ℕ) (name : String) (is_paused : Bool)
      (now : Now E) (at : E.Dt) (s : Store E)
      → opts.delay ≡ time_milis ms
      → Timely ms now at
      → (ms ≡ 0) ⊎ (min_delay_ms_limit ≤ ms)
      → Landed ms opts.priority pc id is_paused at s (insert job opts pc id name is_paused now s).1
  insert-lands job opts ms pc id name is_paused now at s e timely h =
      let (answer, left) =
        insert_at-recorded (optioned job opts ms) opts.priority pc id name is_paused
          (moment E ms at) ms now s in
      let lands = place-Landed (optioned job opts ms) ms opts.priority pc id is_paused at s h in
      rw (insert_allowed job opts ms pc id name is_paused now at s e timely h) (
        ap (λ (t : Store E). t.delayed) left ∙ lands.0,
        ap (λ (t : Store E). t.prioritized) left ∙ lands.1,
        ap (λ (t : Store E). t.waiting) left ∙ lands.2,
        ap (λ (t : Store E). t.paused) left ∙ lands.3,
        ap (λ (t : Store E). t.active) left ∙ lands.4,
        ap (λ (t : Store E). t.completed) left ∙ lands.5,
        ap (λ (t : Store E). t.failed) left ∙ lands.6,
        ap (λ (t : Store E). t.stalled) left ∙ lands.7,
      )
