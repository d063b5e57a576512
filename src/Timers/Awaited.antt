-- ===== src/Timers/Awaited.antt =====
-- metrics/process_metrics.rs: what a queue is told of while the coordinator serves others as well.
use kiomq.Prelude.{
  ℕ, ◌≡◌, refl, sym, ap, ◌∙◌, Bool, true, false, Option, none, some, List, [], ◌∷◌, any, is_some,
  ◌==◌, ==-refl, ==_iff, if◌then◌else◌, Bool-cases, Option-cases, inl, inr, All,
}
use kiomq.SkipMap.{SkipMap}
use kiomq.SkipMap.Lookups.{get-insert, get-remove}
use kiomq.Env.{Env}
use kiomq.Metrics.{QueueMetrics}
use kiomq.Timers.{
  Collector, TimerType, next_duration, schedule, send, respond, register_queue, targets,
  holds_queue, named, timer_exists,
}
use kiomq.Timers.Once.{busy, busy-schedule}
use kiomq.Timers.Told.{found_id, named-target, respond-some}

-- A timer is sent by some queue, an entry of the delay queue expires, or a queue is registered.
pub data Event : Type 0 where
  sent : ℕ → TimerType → Event
  expired : ℕ → TimerType → Event
  joined : ℕ → QueueMetrics → Event

-- No entry of the duration expires.
abbrev pub Spares : ℕ → Event → Type 0
Spares duration (sent queue_id timer) = Unit {0}
Spares duration (expired other timer) = (duration == other) ≡ false
Spares duration (joined queue_id metrics) = Unit {0}

module _ (S : SkipMap) where
  joined-target :
      (m : Option (S.Map Unit)) (other queue_id : ℕ)
      → holds_queue S queue_id m ≡ true
      → holds_queue S queue_id (some (S.insert (targets S m) other tt)) ≡ true
  unfolding holds_queue targets
  joined-target none other queue_id h = cc
  joined-target (some queues) other queue_id h =
      ap is_some (get-insert S queues other queue_id tt)
      ∙ elim (Bool-cases (queue_id == other)) [ inl e ↦ rw e refl | inr e ↦ rw e h ]

module _ {E : Env} where
  abbrev pub happens : Event → Collector E → Collector E
  happens (sent queue_id timer) c = send queue_id timer c
  happens (expired duration timer) c = (respond duration timer c).1
  happens (joined queue_id metrics) c = register_queue queue_id metrics c

  abbrev pub after : List Event → Collector E → Collector E
  after [] c = c
  after (e ∷ es) c = after es (happens e c)

  -- The queue is known, and is to be told of the next expiry of the duration.
  abbrev pub Awaits : ℕ → ℕ → Collector E → Type 0
  Awaits queue_id duration c =
      (busy queue_id c duration ≡ true) × (is_some (E.maps.get c.queues queue_id) ≡ true)

  schedule-busy :
      (timer : TimerType) (other queue_id duration : ℕ) (c : Collector E)
      → busy queue_id c duration ≡ true
      → busy queue_id (schedule other timer c) duration ≡ true
  unfolding schedule
  schedule-busy timer other queue_id duration c h =
      let d = next_duration timer in
      let queues = E.maps.insert (targets E.maps (E.maps.get c.global_timers d)) other tt in
      ap (holds_queue E.maps queue_id) (get-insert E.maps c.global_timers d duration queues)
      ∙ elim (Bool-cases (duration == d)) [
        | inl e ↦ rw e (
            joined-target E.maps (E.maps.get c.global_timers d) other queue_id
              (ap (λ k. busy queue_id c k) (sym ((==_iff duration d).0 e)) ∙ h))
        | inr e ↦ rw e h
      ]

  send-Awaits :
      (b : Bool) (timer : TimerType) (other queue_id duration : ℕ) (c : Collector E)
      → Awaits queue_id duration c
      → Awaits queue_id duration (if b then c else schedule other timer c)
  unfolding schedule
  send-Awaits true timer other queue_id duration c h = h
  send-Awaits false timer other queue_id duration c h =
      (schedule-busy timer other queue_id duration c h.0, h.1)

  respond-Awaits :
      (gone duration queue_id : ℕ) (timer : TimerType) (c : Collector E)
      → (duration == gone) ≡ false
      → Awaits queue_id duration c
      → Awaits queue_id duration (respond gone timer c).1
  unfolding respond
  respond-Awaits gone duration queue_id timer c apart h =
      elim (Option-cases (E.maps.get c.global_timers gone)) [
        | inl e ↦ rw (respond, e) h
        | inr (queues, e) ↦
            rw (respond, e)
              (
                ap (holds_queue E.maps queue_id) (get-remove E.maps c.global_timers gone duration)
                    ∙ rw apart h.0,
                h.1,
              )
      ]

  register_queue-Awaits :
      (other queue_id duration : ℕ) (metrics : QueueMetrics) (c : Collector E)
      → Awaits queue_id duration c
      → Awaits queue_id duration (register_queue other metrics c)
  unfolding register_queue
  register_queue-Awaits other queue_id duration metrics c h =
      elim (Bool-cases (is_some (E.maps.get c.queues other))) [
        | inl e ↦ rw (register_queue, e) h
        | inr e ↦
            rw (register_queue, e)
              (
                h.0,
                ap is_some (get-insert E.maps c.queues other queue_id metrics)
                    ∙ elim (Bool-cases (queue_id == other)) [
                      | inl f ↦ rw f refl
                      | inr f ↦ rw f h.1
                    ],
              )
      ]

  happens-Awaits :
      (e : Event) (queue_id duration : ℕ) (c : Collector E)
      → Spares duration e
      → Awaits queue_id duration c
      → Awaits queue_id duration (happens e c)
  unfolding send
  happens-Awaits (sent other timer) queue_id duration c s h =
      send-Awaits (timer_exists timer other c) timer other queue_id duration c h
  happens-Awaits (expired gone timer) queue_id duration c s h =
      respond-Awaits gone duration queue_id timer c s h
  happens-Awaits (joined other metrics) queue_id duration c s h =
      register_queue-Awaits other queue_id duration metrics c h

  pub after-Awaits :
      (es : List Event) (queue_id duration : ℕ) (c : Collector E)
      → All (Spares duration) es
      → Awaits queue_id duration c
      → Awaits queue_id duration (after es c)
  after-Awaits [] queue_id duration c s h = h
  after-Awaits (e ∷ es) queue_id duration c s h =
      after-Awaits es queue_id duration (happens e c) s.1
        (happens-Awaits e queue_id duration c s.0 h)

  pub schedule-Awaits :
      (timer : TimerType) (queue_id : ℕ) (c : Collector E)
      → is_some (E.maps.get c.queues queue_id) ≡ true
      → Awaits queue_id (next_duration timer) (schedule queue_id timer c)
  unfolding schedule
  schedule-Awaits timer queue_id c known = (
    busy-schedule timer queue_id c (next_duration timer) ∙ rw (==-refl (next_duration timer)) refl,
    known,
  )

  respond-none :
      (duration : ℕ) (timer : TimerType) (c : Collector E)
      → E.maps.get c.global_timers duration ≡ none
      → respond duration timer c ≡ ([], c)
  unfolding respond
  respond-none duration timer c e = rw (respond, e) refl

  told-by :
      (found : Option (E.maps.Map Unit)) (duration queue_id : ℕ) (timer : TimerType)
      (c : Collector E)
      → E.maps.get c.global_timers duration ≡ found
      → holds_queue E.maps queue_id found ≡ true
      → is_some (E.maps.get c.queues queue_id) ≡ true
      → let r = respond duration timer c in
        (any (λ i. i == queue_id) r.0 ≡ true) × (E.maps.get r.1.global_timers duration ≡ none)
  unfolding holds_queue
  told-by none duration queue_id timer c e target known = cc
  told-by (some queues) duration queue_id timer c e target known =
      let S = E.maps in
      let all = named S timer queues in
      rw (respond-some duration timer queues c e) (
        found_id S c.queues queue_id (S.iter all) known (
            ap is_some (sym (S.get-lookup all queue_id))
            ∙ named-target S timer queue_id queues target),
        get-remove S c.global_timers duration duration ∙ rw (==-refl duration) refl,
      )

  -- A queue that awaits a duration is among those that are told of its next expiry, whichever timer
  -- that is of, and from then on no queue has a timer of the duration.
  pub respond-Told :
      (duration queue_id : ℕ) (timer : TimerType) (c : Collector E)
      → Awaits queue_id duration c
      → let r = respond duration timer c in
        (any (λ i. i == queue_id) r.0 ≡ true) × (E.maps.get r.1.global_timers duration ≡ none)
  respond-Told duration queue_id timer c h =
      told-by (E.maps.get c.global_timers duration) duration queue_id timer c refl h.0 h.1

  -- A queue that the coordinator knows has a timer scheduled. Then other timers are sent, timers of
  -- other durations expire and queues are registered, in any order. When an entry of the timer's
  -- duration expires next, the queue's own or another's, the queue is among those that are told of
  -- that entry; and an entry of the duration that expires right after it tells nobody, even if it
  -- is that of the queue's own timer.
  pub respond-awaited :
      (timer first second : TimerType) (queue_id : ℕ) (es : List Event) (c : Collector E)
      → is_some (E.maps.get c.queues queue_id) ≡ true
      → All (Spares (next_duration timer)) es
      → let d = next_duration timer in
        let r = respond d first (after es (schedule queue_id timer c)) in
        (any (λ i. i == queue_id) r.0 ≡ true) × (respond d second r.1 ≡ ([], r.1))
  respond-awaited timer first second queue_id es c known others =
      let d = next_duration timer in
      let k = after es (schedule queue_id timer c) in
      let (told, gone) = respond-Told d queue_id first k (
        after-Awaits es queue_id d (schedule queue_id timer c) others
          (schedule-Awaits timer queue_id c known)) in
      (told, respond-none d second (respond d first k).1 gone)
