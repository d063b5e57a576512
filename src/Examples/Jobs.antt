-- ===== src/Examples/Jobs.antt =====
-- New jobs: where they go, what is recorded, and what their events do.
use kiomq.Prelude.{
  ℕ, ◌<◌, ◌≡◌, ◌⊎◌, ◌↔◌, inr, refl, true, false, Option, none, some, List, [], ◌∷◌, String, arith,
  if◌then◌else◌, ◌==◌,
}
use kiomq.Job.{Job, JobState}
use kiomq.Job.Options.{JobOptions}
use kiomq.Metrics.{update, is_idle, queue_has_work}
use kiomq.Deque
use kiomq.Events.{QueueStreamEvent, default_event, from_queue_event, void}
use kiomq.Result.{ok, err, panicked}
use kiomq.Store.{Store, Now}
use kiomq.Store
use kiomq.Store.Publish.{publish_event, create_stream_listener, get_metrics}
use kiomq.Store.Publish.Workers.{publish-workers}
use kiomq.Store.Insert.{insert, calculate_next_priority_score}
use kiomq.Store.Insert.Score.{score_lexicographic}
use kiomq.Store.Insert.Lands.{insert-lands, Landed}
use kiomq.Store.Insert.Answers.{insert-answers}
use kiomq.Store.Insert.Placed.{insert-stored}
use kiomq.Store.Jobs.{get_job}
use kiomq.Suffix.{CollectionSuffix, tag}
use kiomq.Examples.{sample, at, empty_store, job, with_delay}

insert-lands_example :
    Landed 60 0 0 1 false 1060 empty_store
      (insert job (with_delay 60) 0 1 "send" false (at 1000) empty_store).1
insert-lands_example =
    insert-lands job (with_delay 60) 60 0 1 "send" false (at 1000) 1060 empty_store refl (inr refl)
      (inr (omega arith))

-- Two jobs, the second with a delay.
abbrev batch : List (String × Option (JobOptions sample) × ℕ)
batch = ("a", none, 1) ∷ ("b", some (with_delay 60), 2) ∷ []

score_lexicographic_example :
    (calculate_next_priority_score 1 9 < calculate_next_priority_score 2 3)
    ↔ ((1 < 2) ⊎ ((◌≡◌ {A = ℕ} 1 2) × (9 < 3)))
score_lexicographic_example =
    score_lexicographic 1 2 9 3 (omega arith) (omega arith) (omega arith) (omega arith)

-- A store whose queue listens.
abbrev listened : Store sample
listened = create_stream_listener (get_metrics empty_store) false empty_store

abbrev resumed : QueueStreamEvent sample
resumed = record (default_event 1000) { event = JobState.resumed }

publish-workers_example :
    ((publish_event resumed listened).1.stored_metrics
      ≡ update listened.stored_metrics (get_metrics listened))
    × ((publish_event resumed listened).1.emitted ≡ (JobState.resumed, void) ∷ [])
    × ((publish_event resumed listened).1.pause_workers ≡ true)
    × ((publish_event resumed listened).1.notified ≡ 0)
unfolding default_event from_queue_event create_stream_listener get_metrics update Store.new is_idle
    queue_has_work Deque.len Deque.new
publish-workers_example = publish-workers resumed void listened refl refl refl

insert-stored_example :
    let r = insert job (with_delay 60) 0 1 "send" false (at 1000) empty_store in
    (stored : Job sample) × (r.0 ≡ ok stored)
    × (stored.id ≡ some 1)
    × ((other : ℕ) (later : Now sample)
        → (get_job other later r.1).0 ≡ (
            if tag (CollectionSuffix.job other) == tag (CollectionSuffix.job 1)
            then some stored
            else (get_job other later empty_store).0))
insert-stored_example =
    insert-stored job (with_delay 60) 60 0 1 "send" false (at 1000) 1060 empty_store refl (inr refl)
      (inr (omega arith))

-- A delay that leaves the range of dates.
insert-answers_example :
    insert job (with_delay 0x20000000000000) 0 1 "send" false (at 1000) empty_store
    ≡ (err panicked, empty_store)
insert-answers_example =
    insert-answers job (with_delay 0x20000000000000) 0x20000000000000 0 1 "send" false (at 1000)
      empty_store refl
