-- ===== src/Examples/Queues.antt =====
-- A queue at work: jobs that are taken and that complete.
use kiomq.Prelude.{◌<◌, ℕ, ◌≡◌, refl, true, false, none, some, List, [], ◌∷◌, arith}
use kiomq.SkipMap.Sorted
use kiomq.SkipMap.Sorted.{Above}
use kiomq.Deque.{push_front}
use kiomq.Job.{JobState}
use kiomq.Job.Fields
use kiomq.Suffix.{CollectionSuffix}
use kiomq.Metrics.{queue_is_paused, update}
use kiomq.Result.{ok}
use kiomq.Store.{Store, Now}
use kiomq.Store
use kiomq.Store.Items.{add_item, scored}
use kiomq.Store.Publish.{create_stream_listener, get_metrics}
use kiomq.Store.Jobs.Held.{with_job, with_job-Held}
use kiomq.Queue.{Queue, is_paused}
use kiomq.Queue
use kiomq.Queue.Moves.{
  move_to_active, move_job_to_finished_or_failed, move_job_from_priorty_to_active,
}
use kiomq.Queue.Moves.Claim.{Claimed, move_to_active-claims}
use kiomq.Deque
use kiomq.Deque.{iter}
use kiomq.SkipMap.Listed.{listed}
use kiomq.Deque.Refine.{IsDeque, new-IsDeque}
use kiomq.Queue.Moves.Finish.{finish-completes, Finished}
use kiomq.Queue.Moves.Priority.{move_job_from_priorty_to_active-least}
use kiomq.Examples.{
  sample, at, empty_store, empty_queue, job, metrics, worker_token, opts, running, busy,
}

busy_open : is_paused busy ≡ false
unfolding is_paused queue_is_paused Queue.new add_item Store.new create_stream_listener get_metrics
    update
busy_open = refl

finish-completes_example : Finished 1 2000000 42 busy running (
    move_job_to_finished_or_failed 1 2000000 worker_token JobState.completed
      (Fields.success 42 metrics)
      none
      (at 2000)
      busy)
finish-completes_example =
    finish-completes {E = sample} 1 2000000 worker_token 42 metrics none (at 2000) busy running
      busy_open (with_job-Held (add_item CollectionSuffix.active 1 none true empty_store) 1 running)
      refl

-- Two prioritized jobs.
abbrev ranked : Queue sample
ranked = record empty_queue {
  store =
      add_item CollectionSuffix.prioritized 1 (some 20) true
        (add_item CollectionSuffix.prioritized 2 (some 10) true empty_store);
}

abbrev later_ranks : List (ℕ × ℕ)
later_ranks = (20, 1) ∷ []

move_job_from_priorty_to_active-least_example :
    let r = move_job_from_priorty_to_active ranked in
    (r.0 ≡ ok (some 2))
    × (r.1.store.prioritized.0 ≡ later_ranks)
    × Above 10 later_ranks
    × (r.1.store.active ≡ push_front ranked.store.active 2)
unfolding add_item scored Store.new Sorted.insert
move_job_from_priorty_to_active-least_example =
    move_job_from_priorty_to_active-least ranked 10 2 later_ranks refl

-- Jobs 1 and 2 wait, and job 1 came first.
abbrev waiting_store : Store sample
waiting_store =
    with_job
      (add_item CollectionSuffix.wait 2 none true
        (add_item CollectionSuffix.wait 1 none true empty_store))
      1 job

abbrev waiting : Queue sample
waiting = record empty_queue { store = waiting_store }

waiting_open : is_paused waiting ≡ false
unfolding is_paused queue_is_paused add_item Store.new
waiting_open = refl

two_wait : iter waiting.store.waiting ≡ 2 ∷ 1 ∷ []
unfolding iter add_item Store.new Deque.new push_front Sorted.insert
two_wait = refl

active-IsDeque : IsDeque waiting.store.active
unfolding add_item Store.new
active-IsDeque = new-IsDeque listed

active_room : 0 < waiting.store.active.head_idx
unfolding add_item Store.new Deque.new
active_room = omega arith

move_to_active-claims_example :
    Claimed 1
      (2 ∷ [])
      worker_token
      opts
      (at 2000)
      waiting
      job
      (move_to_active worker_token opts (at 2000) waiting)
move_to_active-claims_example =
    move_to_active-claims (2 ∷ []) 1 worker_token opts (at 2000) waiting job waiting_open two_wait
      active-IsDeque active_room
      (with_job-Held
        (add_item CollectionSuffix.wait 2 none true
          (add_item CollectionSuffix.wait 1 none true empty_store))
        1 job)
