-- ===== src/Examples/Lists.antt =====
-- The collections of a store at work: first in first out, pausing, delayed jobs and removal.
use kiomq.Prelude.{◌≡◌, true, false, none, some, [], ◌∷◌, arith}
use kiomq.SkipMap.Sorted
use kiomq.SkipMap.Listed.{listed}
use kiomq.Deque
use kiomq.Deque.{iter, push_front}
use kiomq.Deque.Refine.{IsDeque, new-IsDeque, push_front-IsDeque, iter-new}
use kiomq.Deque.Traces.{run-new, run, run_spec, Op}
use kiomq.Deque.Traces
use kiomq.Suffix.{CollectionSuffix}
use kiomq.Store.{Store, new}
use kiomq.Store.Items.{add_item, scored, remove_item, pause, get_delayed_at}
use kiomq.Store.Invariant.{IsStore}
use kiomq.Store.Invariant.Steps.{Reachable-IsStore, after, fresh, add_item_step, remove_item_step}
use kiomq.Store.Fifo.{serve-enqueue, serve, enqueue}
use kiomq.Store.Pause.{pause-moves, pause-resume}
use kiomq.Store.Delayed.{get_delayed_at-splits}
use kiomq.Examples.{sample, empty_store}

-- Three jobs are handed out in the order in which they came.
serve-enqueue_example :
    ((serve 3 (enqueue (1 ∷ 2 ∷ 3 ∷ []) empty_store)).0 ≡ some 1 ∷ some 2 ∷ some 3 ∷ [])
    × (iter (serve 3 (enqueue (1 ∷ 2 ∷ 3 ∷ []) empty_store)).1.waiting ≡ [])
    × (iter (serve 3 (enqueue (1 ∷ 2 ∷ 3 ∷ []) empty_store)).1.active ≡ 3 ∷ 2 ∷ 1 ∷ [])
unfolding new Deque.new iter
serve-enqueue_example =
    serve-enqueue (1 ∷ 2 ∷ 3 ∷ []) empty_store (new-IsDeque listed) (new-IsDeque listed)
      (iter-new listed) (omega arith) (omega arith)

-- Two waiting jobs.
abbrev two_waiting : Store sample
two_waiting =
    add_item CollectionSuffix.wait 2 none true
      (add_item CollectionSuffix.wait 1 none true empty_store)

two_waiting-IsDeque : IsDeque two_waiting.waiting
unfolding add_item new Deque.new push_front
two_waiting-IsDeque =
    push_front-IsDeque (push_front Deque.new 1) 2
      (push_front-IsDeque Deque.new 1 (new-IsDeque listed) (omega arith)) (omega arith)

pause-moves_example :
    (iter (pause true two_waiting).waiting ≡ [])
    × (iter (pause true two_waiting).paused ≡ 2 ∷ 1 ∷ [])
    × ((pause true two_waiting).is_paused ≡ true)
    × IsDeque (pause true two_waiting).waiting
    × IsDeque (pause true two_waiting).paused
unfolding add_item new Deque.new iter push_front Deque.len Sorted.insert
pause-moves_example = pause-moves two_waiting two_waiting-IsDeque (new-IsDeque listed) (omega arith)

pause-resume_example :
    (iter (pause false (pause true two_waiting)).waiting ≡ 2 ∷ 1 ∷ [])
    × (iter (pause false (pause true two_waiting)).paused ≡ [])
    × ((pause false (pause true two_waiting)).is_paused ≡ false)
unfolding add_item new Deque.new iter push_front Deque.len Sorted.insert
pause-resume_example =
    pause-resume two_waiting two_waiting-IsDeque (new-IsDeque listed) (iter-new listed)
      (omega arith) (omega arith)

run-new_example :
    ((run
        (Traces.push_front 1 ∷ Traces.push_back 2 ∷ Traces.pop_front ∷ [])
        (Deque.new {S = listed})).0
      ≡ none ∷ none ∷ some 1 ∷ [])
    × (iter
          (run
            (Traces.push_front 1 ∷ Traces.push_back 2 ∷ Traces.pop_front ∷ [])
            (Deque.new {S = listed})).1
        ≡ 2 ∷ [])
run-new_example =
    run-new listed (Traces.push_front 1 ∷ Traces.push_back 2 ∷ Traces.pop_front ∷ []) (omega arith)

-- Job 7 was due before, job 8 is due now, and job 9 is not.
abbrev three_delayed : Store sample
three_delayed = add_item CollectionSuffix.delayed 7 (some 100) false (
    add_item CollectionSuffix.delayed 8 (some 1050) false
      (add_item CollectionSuffix.delayed 9 (some 2000) false empty_store))

get_delayed_at-splits_example :
    ((get_delayed_at 1000 1100 three_delayed).0.0 ≡ 8 ∷ [])
    × ((get_delayed_at 1000 1100 three_delayed).0.1 ≡ 7 ∷ [])
    × ((get_delayed_at 1000 1100 three_delayed).1.delayed.0 ≡ (2000, 9) ∷ [])
unfolding add_item scored new Sorted.insert
get_delayed_at-splits_example =
    get_delayed_at-splits three_delayed 1000 1100 (omega arith) (omega arith) (omega arith)

-- A job is added to the waiting list of a new store, and taken off again.
Reachable-IsStore_example :
    IsStore
      (remove_item CollectionSuffix.wait 1 (add_item CollectionSuffix.wait 1 none true empty_store))
unfolding new Deque.new
Reachable-IsStore_example =
    Reachable-IsStore
      (remove_item CollectionSuffix.wait 1 (add_item CollectionSuffix.wait 1 none true empty_store))
      (after
        (after (fresh none "mail") (add_item_step CollectionSuffix.wait 1 none true (omega arith)))
        (remove_item_step CollectionSuffix.wait 1))
