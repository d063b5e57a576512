-- ===== src/Metrics/Idle.antt =====
-- When a queue counts as idle (queue/options.rs).
use kiomq.Prelude.{◌<◌, ◌≡◌, ◌↔◌, true, arith}
use kiomq.Metrics.{QueueMetrics, is_idle, all_jobs_completed}

-- No job waits, is delayed, stalled, prioritized or active, and no worker processes one. Paused jobs
-- do not count.
pub record Quiet (m : QueueMetrics) : Type 0 where
  pub waiting : m.waiting ≡ 0
  pub delayed : m.delayed ≡ 0
  pub stalled : m.stalled ≡ 0
  pub prioritized : m.prioritized ≡ 0
  pub active : m.active ≡ 0
  pub processing : m.processing ≡ 0

-- `is_idle` answers true exactly when all six counts are zero.
pub is_idle_iff : (m : QueueMetrics) → (is_idle m ≡ true) ↔ Quiet m
unfolding is_idle
is_idle_iff m = (λ h. ground arith, λ q. ground arith)

-- `all_jobs_completed` answers true exactly when a job was ever added, as many are completed as
-- were added, and the queue is idle.
pub all_jobs_completed_iff :
    (m : QueueMetrics)
    → (all_jobs_completed m ≡ true) ↔ ((0 < m.last_id) × (m.completed ≡ m.last_id) × Quiet m)
unfolding all_jobs_completed
all_jobs_completed_iff m = (λ h. ground arith, λ q. ground arith)
