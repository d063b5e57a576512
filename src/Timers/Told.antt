-- ===== src/Timers/Told.antt =====
-- metrics/process_metrics.rs: whom the coordinator tells of an expiry.
use kiomq.Prelude.{
  ℕ, ◌≡◌, refl, ap, ◌∙◌, true, some, List, [], ◌∷◌, any, is_some, ◌==◌, arith, Bool-cases, inl, inr,
}
use kiomq.SkipMap.{SkipMap}
use kiomq.SkipMap.Sorted.{lookup}
use kiomq.SkipMap.Lookups.{get-insert}
use kiomq.Env.{Env}
use kiomq.Metrics.{QueueMetrics}
use kiomq.Timers.{
  Collector, TimerType, stalled_check, extend_lock, collect_metrics, promoted_delayed,
  reregister_worker, respond, named, registered,
}

module _ (S : SkipMap) where
  pub found_id :
      (queues : S.Map QueueMetrics) (id : ℕ) (ids : List (ℕ × Unit {0}))
      → is_some (S.get queues id) ≡ true
      → is_some (lookup id ids) ≡ true
      → any (λ i. i == id) (registered S queues ids) ≡ true
  unfolding registered lookup
  found_id queues id [] known h = h
  found_id queues id ((i, u) ∷ ids) known h = ground (arith, found_id queues id ids known)

  -- A queue that is a target stays one when the queue of a promotion joins.
  pub named-target :
      (timer : TimerType) (queue_id : ℕ) (m : S.Map Unit)
      → is_some (S.get m queue_id) ≡ true
      → is_some (S.get (named S timer m) queue_id) ≡ true
  unfolding named
  named-target (stalled_check d) queue_id m h = h
  named-target (extend_lock d) queue_id m h = h
  named-target (collect_metrics d) queue_id m h = h
  named-target reregister_worker queue_id m h = h
  named-target (promoted_delayed id other) queue_id m h =
      ap is_some (get-insert S m other queue_id tt)
      ∙ elim (Bool-cases (queue_id == other)) [ inl e ↦ rw e refl | inr e ↦ rw e h ]

module _ {E : Env} where
  pub respond-some :
      (d : ℕ) (timer : TimerType) (queues : E.maps.Map Unit) (c : Collector E)
      → E.maps.get c.global_timers d ≡ some queues
      → respond d timer c ≡ (
        registered E.maps c.queues (E.maps.iter (named E.maps timer queues)),
        record c { global_timers = (E.maps.remove c.global_timers d).1 },
      )
  unfolding respond
  respond-some d timer queues c e = rw (e, respond) refl
