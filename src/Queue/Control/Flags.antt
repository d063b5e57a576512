-- ===== src/Queue/Control/Flags.antt =====
-- queue/mod.rs: the flags of a paused queue.
use kiomq.Prelude.{◌≡◌, refl, ap, ◌∙◌, Bool, true, false, not, if◌then◌else◌}
use kiomq.Env.{Env}
use kiomq.Job.{JobState}
use kiomq.Metrics.{QueueMetrics, update, queue_is_paused}
use kiomq.Events.{default_event}
use kiomq.Store.{Store, Now}
use kiomq.Store.Items.{pause}
use kiomq.Store.Publish.{get_metrics}
use kiomq.Store.Publish.Frame.{publish-own, publish-is_paused}
use kiomq.Queue.{Queue, is_paused, refresh_metrics}
use kiomq.Queue.Control.{pause_or_resume}

module _ {E : Env} where
  pause-flag : (stop : Bool) (s : Store E) → (pause stop s).is_paused ≡ stop
  unfolding pause
  pause-flag true s = refl
  pause-flag false s = refl

  pause-stored : (stop : Bool) (s : Store E) → (pause stop s).stored_metrics ≡ s.stored_metrics
  unfolding pause
  pause-stored true s = refl
  pause-stored false s = refl

  -- `pause_or_resume` succeeds and turns the store's flag over, which the queue's own flag then
  -- shows; the answer of `is_paused`, which reads the shared metrics, stays what it was.
  pub pause_or_resume-flags :
      (now : Now E) (q : Queue E)
      → ((pause_or_resume now q).1.store.is_paused ≡ not q.store.is_paused)
        × ((pause_or_resume now q).1.paused ≡ not q.store.is_paused)
        × (is_paused (pause_or_resume now q).1 ≡ is_paused q)
  unfolding pause_or_resume is_paused queue_is_paused refresh_metrics update get_metrics
  pause_or_resume-flags now q =
      let stop = not q.store.is_paused in
      let s = pause stop (refresh_metrics q).store in
      let event = record (default_event now.utc) {
        event = if stop then JobState.paused else JobState.resumed;
      } in
      (
        ap (λ (t : Store E). t.is_paused) (publish-own event s) ∙ pause-flag stop _,
        refl,
        publish-is_paused event s ∙ ap (λ (m : QueueMetrics). m.is_paused) (pause-stored stop _),
      )
