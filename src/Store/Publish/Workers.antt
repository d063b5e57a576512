-- ===== src/Store/Publish/Workers.antt =====
-- utils/mod.rs: after an event the shared metrics are those of the store, and the workers are
-- paused or woken by them.
use kiomq.Prelude.{
  ◌+◌, ◌≡◌, refl, Bool, true, false, not, ◌&&◌, ◌||◌, some, ◌∷◌, if◌then◌else◌, arith,
}
use kiomq.Env.{Env}
use kiomq.Metrics.{QueueMetrics, update, is_idle, queue_has_work}
use kiomq.Events.{QueueStreamEvent, EventParameters, from_queue_event}
use kiomq.Store.{Store}
use kiomq.Store.Publish.{
  get_metrics, publish_event, published, process_each_event, pause_or_resume_workers, resume_helper,
}

idle_without_work : (m : QueueMetrics) → is_idle m ≡ true → queue_has_work m ≡ false
unfolding is_idle
idle_without_work m h = ground arith

module _ {E : Env} where
  -- The store after an event, by the counts that it took over.
  abbrev Woken : Bool → Bool → Store E → Store E → Type 0
  Woken idle work s r =
      (r.stored_metrics ≡ s.stored_metrics)
      × (r.emitted ≡ s.emitted)
      × (r.pause_workers ≡ (idle || s.pause_workers && not work))
      × (r.notified ≡ (if work && s.pause_workers then s.notified + 1 else s.notified))

  resumed :
      (work paused : Bool) (s : Store E)
      → s.pause_workers ≡ paused
      → Woken false work s (
          if work && paused
          then record s { notified = s.notified + 1; pause_workers = false }
          else s)
  resumed true true s e = rw e (refl, refl, refl, refl)
  resumed true false s e = rw e (refl, refl, refl, refl)
  resumed false true s e = rw e (refl, refl, refl, refl)
  resumed false false s e = rw e (refl, refl, refl, refl)

  workers :
      (initial idle : Bool) (s : Store E)
      → initial ≡ false
      → (idle ≡ true → queue_has_work s.stored_metrics ≡ false)
      → Woken idle (queue_has_work s.stored_metrics) s (
          if initial
          then record s { is_inital = false }
          else if idle
          then record s { pause_workers = true }
          else resume_helper s)
  unfolding resume_helper
  workers true idle s e h = cc
  workers false true s e h = rw (h refl) (refl, refl, refl, refl)
  workers false false s e h = resumed (queue_has_work s.stored_metrics) s.pause_workers s refl

  -- An event that a listener can be given, of a store whose queue listens and is past its first
  -- event, is emitted; the shared metrics take over the store's counts; the workers are paused if
  -- the queue is idle by them, and stay paused if it has no work; and the waiting workers are
  -- notified exactly if they were paused and there is work.
  pub publish-workers :
      (event : QueueStreamEvent E) (p : EventParameters E) (s : Store E)
      → from_queue_event event ≡ some p
      → s.attached ≡ true
      → s.is_inital ≡ false
      → ((publish_event event s).1.stored_metrics ≡ update s.stored_metrics (get_metrics s))
        × ((publish_event event s).1.emitted ≡ (event.event, p) ∷ s.emitted)
        × ((publish_event event s).1.pause_workers ≡ (
            is_idle (update s.stored_metrics (get_metrics s))
            || s.pause_workers && not (queue_has_work (update s.stored_metrics (get_metrics s)))))
        × ((publish_event event s).1.notified ≡ (
            if queue_has_work (update s.stored_metrics (get_metrics s)) && s.pause_workers
            then s.notified + 1
            else s.notified))
  unfolding publish_event process_each_event published pause_or_resume_workers
  publish-workers event p s e attached later =
      let s' = record s {
        emitted = (event.event, p) ∷ s.emitted;
        stored_metrics = update s.stored_metrics (get_metrics s);
      } in
      rw (attached, e, process_each_event, published)
        (workers s.is_inital (is_idle s'.stored_metrics) s' later
          (idle_without_work s'.stored_metrics))
