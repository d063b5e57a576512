-- ===== src/Store/Publish/Frame.antt =====
-- stores/inmemory_store.rs and utils/mod.rs: what the publication of an event changes.
use kiomq.Prelude.{
  ◌≡◌, refl, ap, ◌∙◌, Bool, true, false, ◌&&◌, some, [], if◌then◌else◌, Bool-cases, Option-cases,
  inl, inr,
}
use kiomq.Env.{Env}
use kiomq.Metrics.{QueueMetrics, default_metrics, update, is_idle, queue_has_work}
use kiomq.Events.{QueueStreamEvent, EventParameters, from_queue_event}
use kiomq.Result.{Result, ok, err}
use kiomq.Store.{Store}
use kiomq.Store.Publish.{
  publish_event, published, process_each_event, pause_or_resume_workers, resume_helper,
}

module _ {E : Env} where
  -- The store without the cells that it shares with its queue.
  abbrev pub own : Store E → Store E
  own s = record s {
    is_inital = false;
    stored_metrics = default_metrics;
    pause_workers = false;
    notified = 0;
    emitted = [];
  }

  resume-own : (s : Store E) → own (resume_helper s) ≡ own s
  unfolding resume_helper
  resume-own s = elim (Bool-cases (queue_has_work s.stored_metrics && s.pause_workers)) [
    | inl e ↦ rw e refl
    | inr e ↦ rw e refl
  ]

  workers-own :
      (initial idle : Bool) (s : Store E)
      → own (
          if initial
          then record s { is_inital = false }
          else if idle
          then record s { pause_workers = true }
          else resume_helper s)
        ≡ own s
  workers-own true idle s = refl
  workers-own false true s = refl
  workers-own false false s = resume-own s

  processed-own :
      (event : QueueStreamEvent E) (s : Store E) → own (process_each_event event s).1 ≡ own s
  unfolding process_each_event
  processed-own event s = elim (Option-cases (from_queue_event event)) [
    | inl e ↦ rw (e, process_each_event) refl
    | inr (p, e) ↦ rw (e, process_each_event) refl
  ]

  published-own : (r : Result Unit × Store E) → own (published r).1 ≡ own r.1
  unfolding published pause_or_resume_workers
  published-own (ok _, s) = workers-own s.is_inital (is_idle s.stored_metrics) s
  published-own (err e, s) = refl

  attached-own :
      (attached : Bool) (event : QueueStreamEvent E) (s : Store E)
      → own (if attached then published (process_each_event event s) else (ok tt, s)).1 ≡ own s
  attached-own true event s = published-own (process_each_event event s) ∙ processed-own event s
  attached-own false event s = refl

  -- Publishing touches the shared cells only, the error of a malformed event included.
  pub publish-own :
      (event : QueueStreamEvent E) (s : Store E) → own (publish_event event s).1 ≡ own s
  unfolding publish_event
  publish-own event s = attached-own s.attached event s

  attached-ok :
      (attached : Bool) (event : QueueStreamEvent E) (p : EventParameters E) (s : Store E)
      → from_queue_event event ≡ some p
      → (if attached then published (process_each_event event s) else (ok tt, s)).0 ≡ ok tt
  unfolding process_each_event published
  attached-ok true event p s e = rw (e, process_each_event, published) refl
  attached-ok false event p s e = refl

  -- A well-formed event is published.
  pub publish-ok :
      (event : QueueStreamEvent E) (p : EventParameters E) (s : Store E)
      → from_queue_event event ≡ some p
      → (publish_event event s).0 ≡ ok tt
  unfolding publish_event
  publish-ok event p s e = attached-ok s.attached event p s e

  workers-is_paused :
      (initial idle : Bool) (s : Store E)
      → (if initial
          then record s { is_inital = false }
          else if idle
          then record s { pause_workers = true }
          else resume_helper s).stored_metrics
        ≡ s.stored_metrics
  unfolding resume_helper
  workers-is_paused true idle s = refl
  workers-is_paused false true s = refl
  workers-is_paused false false s =
      elim (Bool-cases (queue_has_work s.stored_metrics && s.pause_workers)) [
        | inl e ↦ rw e refl
        | inr e ↦ rw e refl
      ]

  published-is_paused :
      (r : Result Unit × Store E)
      → (published r).1.stored_metrics.is_paused ≡ r.1.stored_metrics.is_paused
  unfolding published pause_or_resume_workers
  published-is_paused (ok _, s) =
      ap (λ (m : QueueMetrics). m.is_paused)
        (workers-is_paused s.is_inital (is_idle s.stored_metrics) s)
  published-is_paused (err e, s) = refl

  processed-is_paused :
      (event : QueueStreamEvent E) (s : Store E)
      → (process_each_event event s).1.stored_metrics.is_paused ≡ s.stored_metrics.is_paused
  unfolding process_each_event update
  processed-is_paused event s = elim (Option-cases (from_queue_event event)) [
    | inl e ↦ rw (e, process_each_event) refl
    | inr (p, e) ↦ rw (e, process_each_event) refl
  ]

  attached-is_paused :
      (attached : Bool) (event : QueueStreamEvent E) (s : Store E)
      → (if attached
          then published (process_each_event event s)
          else (ok tt, s)).1.stored_metrics.is_paused
        ≡ s.stored_metrics.is_paused
  attached-is_paused true event s =
      published-is_paused (process_each_event event s) ∙ processed-is_paused event s
  attached-is_paused false event s = refl

  -- The shared flag for a paused queue is not among what an event updates.
  pub publish-is_paused :
      (event : QueueStreamEvent E) (s : Store E)
      → (publish_event event s).1.stored_metrics.is_paused ≡ s.stored_metrics.is_paused
  unfolding publish_event
  publish-is_paused event s = attached-is_paused s.attached event s
