-- ===== src/Events/Listener.antt =====
-- Which events a listener can be given (events/mod.rs).
use kiomq.Prelude.{◌≡◌, ◌⊎◌, ◌↔◌, none, arith}
use kiomq.Env.{Env}
use kiomq.Job.{completed, progress}
use kiomq.Events.{QueueStreamEvent, from_queue_event}

module _ {E : Env} where
  -- Turning a published event into a listener's parameter panics exactly when a completion carries
  -- no result or a progress report carries no data.
  pub from_queue_event-none_iff :
      (event : QueueStreamEvent E)
      → (from_queue_event event ≡ none) ↔ (
          ((event.event ≡ completed) × (event.returned_value ≡ none))
          ⊎ ((event.event ≡ progress) × (event.progress_data ≡ none)))
  unfolding from_queue_event
  from_queue_event-none_iff event = (λ h. ground arith, λ h. ground arith)
