-- ===== src/Queue/Control/Emptied.antt =====
-- queue/mod.rs: what is left of an obliterated queue.
use kiomq.Prelude.{ℕ, ◌≡◌, refl, ap, ◌∙◌, true, none, []}
use kiomq.Env.{Env}
use kiomq.Deque.{iter}
use kiomq.Deque.Refine.{iter-clear}
use kiomq.TimedMap.Expiry.{get-clear_lem}
use kiomq.Job.{JobState}
use kiomq.Suffix.{CollectionSuffix, tag}
use kiomq.Events.{from_queue_event, default_event}
use kiomq.Events
use kiomq.Metrics.{clear}
use kiomq.Store.Jobs.{get_job, clear_jobs}
use kiomq.Store.Publish.{publish_event}
use kiomq.Store.Publish.Frame.{publish-own, publish-ok}
use kiomq.Result.{ok}
use kiomq.Store.{Store, Now}
use kiomq.Store.Items.{clear_collections}
use kiomq.Queue.{Queue}
use kiomq.Queue.Control.{obliterate}

module _ {E : Env} where
  -- No collection holds an id.
  abbrev pub Emptied : Store E → Type 0
  Emptied s =
      (iter s.waiting ≡ [])
      × (iter s.paused ≡ [])
      × (iter s.active ≡ [])
      × (E.maps.iter s.completed ≡ [])
      × (E.maps.iter s.failed ≡ [])
      × (E.maps.iter s.delayed ≡ [])
      × (E.maps.iter s.prioritized ≡ [])
      × (E.maps.iter s.stalled ≡ [])

  pub clear_collections-Emptied : (s : Store E) → Emptied (clear_collections s)
  unfolding clear_collections
  clear_collections-Emptied s = (
    iter-clear s.waiting,
    iter-clear s.paused,
    iter-clear s.active,
    E.maps.iter-clear s.completed,
    E.maps.iter-clear s.failed,
    E.maps.iter-clear s.delayed,
    E.maps.iter-clear s.prioritized,
    E.maps.iter-clear s.stalled,
  )

  -- Obliterating a queue succeeds, closes it, and leaves no id in any collection and no record under
  -- any id.
  pub obliterate-Emptied :
      (now : Now E) (q : Queue E)
      → ((obliterate now q).0 ≡ ok tt)
        × ((obliterate now q).1.closed ≡ true)
        × Emptied (obliterate now q).1.store
        × ((id : ℕ) (later : Now E) → (get_job id later (obliterate now q).1.store).0 ≡ none)
  unfolding obliterate get_job clear_jobs clear_collections from_queue_event default_event
  obliterate-Emptied now q =
      let s = clear_collections (clear_jobs q.store.stored_metrics.last_id q.store) in
      let event = record (default_event now.utc) {
        event = JobState.obliterated;
        job_id = s.stored_metrics.last_id;
      } in
      let left = (publish_event event s).1 in
      let gone = λ (id : ℕ) (later : Now E).
        ap (λ (t : Store E). (get_job id later t).0) (publish-own event s)
        ∙ get-clear_lem q.store.jobs (tag (CollectionSuffix.job id)) later.instant in
      rw (publish-ok event Events.void s refl) (
        refl,
        refl,
        clear_collections-Emptied (record left { stored_metrics = clear left.stored_metrics }),
        gone,
      )
